-- ===== src/Request.antt =====
-- What the request to the update server carries: ffos/ota/src/platform/DeviceInfo.cpp and
-- ffos/ota/src/ota/net/HttpParameter.cpp. The property service is a function from names and defaults to
-- values. `none` is an exception of `substr`.
pub mod Parameters
mod Tests
use code_snippet.Common.{ℕ, ◌+◌, List, Option, none, some, ◌>>=◌, ◌>>◌, length, codes}
use code_snippet.Json.{Json}
use code_snippet.Files.{Files}
use code_snippet.Proc.{get_first_line, get_value}

-- The seven texts of DeviceInfo.
pub record Device : Type 0 where
  pub serial_number : List ℕ
  pub product_name : List ℕ
  pub manufacturer : List ℕ
  pub hardware_version : List ℕ
  pub version : List ℕ
  pub mac : List ℕ
  pub platform : List ℕ

abbrev pub unknow : List ℕ
unknow = codes "unknow"

-- What DeviceInfo::loadDefault assigns.
abbrev pub default_device : Device
default_device = record {
  serial_number = unknow;
  product_name = codes "rk30sdk";
  manufacturer = codes "rockchip";
  hardware_version = unknow;
  version = codes "201408010000";
  mac = codes "98:3b:16:bb:44:e4";
  platform = codes "MatchStick";
}

-- What DeviceInfo::load assigns.
unfoldable pub load_device : Files → (List ℕ → List ℕ → List ℕ) → Option Device
load_device files property = do
  serial ← get_value files (codes "/proc/rknand") (codes "SN =") (length (codes "SN =") + 1) unknow
  hardware ←
      get_value files (codes "/proc/rknand") (codes "HWINF =") (length (codes "HWINF =") + 1) unknow
  some (record {
    serial_number = serial;
    product_name = property (codes "ro.product.name") unknow;
    manufacturer = property (codes "ro.product.manufacturer") unknow;
    hardware_version = hardware;
    version = property (codes "ro.product.version") unknow;
    mac = get_first_line files (codes "/sys/class/net/wlan0/address") unknow;
    platform = property (codes "ro.product.platform") unknow;
  })

module _ (j : Json) where
  open j use {Value, parse, print, put, empty, text}

  -- `m_Info` after the assignments, which stand in the source from the inside out.
  abbrev pub device_info : Device → Value
  device_info d = put (codes "platform") (text d.platform) (
      put (codes "mac") (text d.mac) (
        put (codes "version") (text d.version) (
          put (codes "hardware_version") (text d.hardware_version) (
            put (codes "manufacturer") (text d.manufacturer) (
              put (codes "product_name") (text d.product_name)
                (put (codes "serial_number") (text d.serial_number) empty))))))

  -- GetDeviceInfo
  unfoldable pub get_device_info : Device → List ℕ
  get_device_info d = print (device_info d)

  -- A text that cannot be parsed leaves the value null.
  abbrev pub or_null : Option Value → Value
  or_null none = empty
  or_null (some v) = v

  -- HttpParameter::load
  unfoldable pub load_parameter : Device → Value
  unfolding get_device_info
  load_parameter d =
      put (codes "code") (text (codes "10000"))
        (put (codes "device_info") (or_null (parse (get_device_info d))) empty)

  -- GetParameters
  unfoldable pub get_parameters : Device → List ℕ
  unfolding load_parameter
  get_parameters d = print (load_parameter d)
