-- ===== src/Getip.antt =====
-- c++/getip.cpp, on Linux: the text that it prints for what `getifaddrs` lists. The answer of the
-- `ioctl` for an interface is a part of the interface.
pub mod Octets
mod Tests
use Prim.Native.Nat.{bit_and}
use code_snippet.Common.{
  ℕ, ◌-◌, List, [], ◌∷◌, ◌++◌, Bool, true, false, Option, none, some, ◌>>>◌, ◌==◌, if◌then◌else◌,
  length, replicate, codes,
}
use code_snippet.Common.Decimal.{decimal}

-- The values of the system's headers: AF_INET, and AF_PACKET, which AF_LINK stands for.
abbrev pub af_inet : ℕ
af_inet = 2

abbrev pub af_link : ℕ
af_link = 17

-- An address with its family and, for IPv4, its number in the byte order of the host, as `ntohl` gives
-- it.
pub record SockAddr : Type 0 where
  pub sa_family : ℕ
  pub number : ℕ

-- castToIP4
unfoldable pub cast_to_ip4 : Option SockAddr → Option SockAddr
cast_to_ip4 none = none
cast_to_ip4 (some a) = if a.sa_family == af_inet then some a else none

-- `(addr >> shift) & 0xFF`; the sign of a negative int is cut off by the mask.
abbrev pub octet : ℕ → ℕ → ℕ
octet addr shift = bit_and (addr >>> shift) 0xff

-- `%3d`
unfoldable pub in_width : ℕ → List ℕ
in_width n = replicate (3 - length (decimal n)) b' ' ++ decimal n

-- printIP(const char*, int)
unfoldable pub print_number : List ℕ → ℕ → List ℕ
print_number name addr =
    name
    ++ codes " = "
    ++ in_width (octet addr 24)
    ++ b'.' ∷ in_width (octet addr 16)
    ++ b'.' ∷ in_width (octet addr 8)
    ++ b'.' ∷ in_width (octet addr 0)
    ++ 10 ∷ []

-- printIP(const char*, const sockaddr_in*)
unfoldable pub print_ip : List ℕ → Option SockAddr → List ℕ
unfolding print_number
print_ip name none = []
print_ip name (some a) = print_number name a.number

-- levelToString
unfoldable pub level_to_string : ℕ → List ℕ
level_to_string level =
    if level == af_inet
    then codes "Internet (AF_INET)"
    else if level == af_link
    then codes "Link (AF_LINK/AF_PACKET)"
    else codes "Other"

pub record Interface : Type 0 where
  pub ifa_name : List ℕ
  pub ifa_addr : Option SockAddr
  pub ifa_dstaddr : Option SockAddr
  pub ifa_netmask : Option SockAddr
  -- the bit IFF_UP of the flags
  pub is_up : Bool
  -- the text of the six bytes that the `ioctl` delivers
  pub mac : List ℕ

abbrev pub family_text : Option SockAddr → List ℕ
family_text none = []
family_text (some a) = b' ' ∷ level_to_string a.sa_family

abbrev pub mac_line : Option SockAddr → List ℕ → List ℕ
mac_line none mac = []
mac_line (some a) mac =
    if a.sa_family == af_link then codes "MAC       = " ++ mac ++ 10 ∷ [] else []

-- The body of the loop of `main`.
unfoldable pub describe : Interface → List ℕ
unfolding cast_to_ip4 print_ip level_to_string
describe i =
    codes "Interface "
    ++ i.ifa_name
    ++ family_text i.ifa_addr
    ++ 10 ∷ codes "Status    = "
    ++ (if i.is_up then codes "Online" else codes "Down")
    ++ 10 ∷ print_ip (codes "IP       ") (cast_to_ip4 i.ifa_addr)
    ++ print_ip (codes "Broadcast") (cast_to_ip4 i.ifa_dstaddr)
    ++ print_ip (codes "Subnet   ") (cast_to_ip4 i.ifa_netmask)
    ++ mac_line i.ifa_addr i.mac
    ++ 10 ∷ []

unfoldable pub describe_all : List Interface → List ℕ
unfolding describe
describe_all [] = []
describe_all (i ∷ is) = describe i ++ describe_all is

-- `main`, with the text and the exit status; `none` is the answer -1 of `getifaddrs`.
unfoldable pub main : Option (List Interface) → List ℕ × Bool
unfolding describe_all
main none = (codes "return code = -1" ++ 10 ∷ [], false)
main (some []) = (codes "No interfaces found" ++ 10 ∷ [], true)
main (some (i ∷ is)) = (describe_all (i ∷ is), true)
