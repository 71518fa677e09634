-- ===== src/Tests/Server.antt =====
-- Runs of the theorems on CDeviceManager.
use shuchuang.Shared.{refl, true, false, [], ◌∷◌, arith, string_key, nat_key}
use shuchuang.Shared.Dict.{find}
use shuchuang.Tests.Engine.{tally_digest, honest}
use shuchuang.Server.Devices.{DeviceInfo, DeviceManager}
use shuchuang.Server.Devices.Sound.{IsSound}
use shuchuang.Server.Devices.Sessions.{adds, onlines, checks, starts, offlines_id, run, run-IsSound}

abbrev pub none_known : DeviceManager
none_known = record {
  started = true;
  device_map = [];
  device_id_map = [];
  drawn = 0;
  pushed = [];
  posted = [];
}

abbrev offered : DeviceInfo
offered = record {
  uuid = "a";
  id = 4;
  dev_type = "lock";
  token = "mu";
  bind_mobile_token = "";
  bind_mobile_installation = "";
  time = 0;
  online = false;
}

abbrev pub connected : DeviceInfo
connected = record offered { online = true; bind_mobile_token = "phone" }

abbrev with_waiting : DeviceManager
with_waiting = record none_known { device_map = ("a", offered) ∷ [] }

abbrev pub with_connected : DeviceManager
with_connected = record none_known {
  device_map = ("a", connected) ∷ [];
  device_id_map = (4, "a") ∷ [];
}

pub none_known-IsSound : IsSound none_known
unfolding find
none_known-IsSound = record { keyed = λ u d h. ground arith; sockets = λ i u h. ground arith }

run-IsSound_example : IsSound (
    run none_known (
      starts
      ∷ adds "a" 4 "lock" 1
      ∷ onlines "a" "mu" 7 2
      ∷ checks 900000000 "a"
      ∷ offlines_id 7
      ∷ []))
unfolding honest
run-IsSound_example =
    run-IsSound none_known
      (starts
        ∷ adds "a" 4 "lock" 1
        ∷ onlines "a" "mu" 7 2
        ∷ checks 900000000 "a"
        ∷ offlines_id 7
        ∷ [])
      ((λ d. refl), (λ d. refl)) (refl, (refl, (refl, (refl, (refl, tt))))) none_known-IsSound

abbrev with_both : DeviceManager
with_both = record with_connected {
  device_map = ("a", connected) ∷ ("b", record offered { uuid = "b" }) ∷ [];
}
