-- ===== src/Request/Tests.antt =====
-- The request of the default device, with the sample JSON library.
use code_snippet.Common.{arith}
use code_snippet.Json.Sample.{sample, sample-Laws}
use code_snippet.Request.{default_device, get_parameters}
use code_snippet.Request.Parameters.{IsPlain, Asks, get_parameters-Asks}

default_device-IsPlain : IsPlain default_device
default_device-IsPlain = record {
  serial_number = ground arith;
  product_name = ground arith;
  manufacturer = ground arith;
  hardware_version = ground arith;
  version = ground arith;
  mac = ground arith;
  platform = ground arith;
}

get_parameters-Asks_example : Asks sample (get_parameters sample default_device) default_device
get_parameters-Asks_example =
    get_parameters-Asks sample sample-Laws default_device default_device-IsPlain
