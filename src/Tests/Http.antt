-- ===== src/Tests/Http.antt =====
-- Runs of the theorems on CHTTPRequestHandler.
use Prim.Native.String.{String}
use shuchuang.Shared.{true, none, [], ◌==◌, string_key, if◌then◌else◌}
use shuchuang.Device.Rpc.{Parsed, unreadable, object}
use shuchuang.Server.Devices.{DeviceManager}
use shuchuang.Server.Http.{Surroundings, no_directory}
use shuchuang.Tests.Objects.{Fields, text, nested, nil, field, fields_json}
use shuchuang.Tests.Engine.{tally_digest}

abbrev nobody : DeviceManager
nobody = record {
  started = true;
  device_map = [];
  device_id_map = [];
  drawn = 0;
  pushed = [];
  posted = [];
}

-- No device answers, and there is no release.
abbrev quiet : Surroundings Fields
quiet = record {
  devices = nobody;
  set_features = λ o f. o;
  release = λ t. no_directory;
  relay = λ u o. none;
}

abbrev pub of_device : Fields
of_device = field "uuid" (text "a") nil

abbrev pub opening : Fields
opening =
    field "type" (text "request")
      (field "action" (text "device.open") (field "param" (nested of_device) nil))

unfoldable pub reader : String → Parsed Fields
reader s = if s == "open" then object opening else if s == "empty" then object nil else unreadable
