-- ===== src/Getip/Tests.antt =====
-- The text for concrete interfaces.
use code_snippet.Common.{ℕ, ◌+◌, ◌*◌, ◌≡◌, refl, [], ◌∷◌, ◌++◌, true, none, some, codes}
use code_snippet.Common.Decimal.{decimal}
use code_snippet.Getip.{Interface, in_width, main}

-- 192.168.1.10
abbrev address : ℕ
address = 192 * 16777216 + 168 * 65536 + 256 + 10

abbrev loopback : Interface
loopback = record {
  ifa_name = codes "eth0";
  ifa_addr = some (record { sa_family = 2; number = address });
  ifa_dstaddr = none;
  ifa_netmask = none;
  is_up = true;
  mac = [];
}

main_output : main (some (loopback ∷ [])) ≡ (
  codes "Interface eth0 Internet (AF_INET)"
      ++ 10 ∷ codes "Status    = Online"
      ++ 10 ∷ codes "IP        = 192.168.  1. 10"
      ++ 10 ∷ 10 ∷ [],
  true,
)
unfolding main in_width decimal
main_output = refl
