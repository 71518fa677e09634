-- ===== src/Server/PushCenter/Missing.antt =====
-- CDeviceManager, Src/TransmitServer/DeviceManager.cpp, over a CPushCenter that has no service:
-- `start` does not ask what `init` says.
use shuchuang.Shared.{
  ℕ, ◌≡◌, refl, String, Bool, true, false, Option, none, some, List, [], ◌∷◌, ◌++◌, string_key,
  nat_key,
}
use shuchuang.Shared.Dict.{find, erase}
use shuchuang.Shared.Outcome.{Outcome, thrown, ◌>>=◌}
use shuchuang.Shared.Poco.{Json}
use shuchuang.Server.Devices.{
  DeviceManager, DeviceInfo, Push, bmob_ios, bmob_android, Notice, went_offline, Freed, pushes,
  expired,
}
use shuchuang.Server.Devices.Interrupted.{go_round, go_round_broken}
use shuchuang.Server.PushCenter.{
  PushCenter, PushRequest, Reply, init, send, push_bmob_ios, push_bmob_android,
}

abbrev returned : {A : Type 0} → Outcome A → Bool
returned thrown = false
returned _ = true

module _ {O : Type 0} ⦃j : Json O⦄ where
  -- Whether a call of the registry comes back; `print` writes the text of a notice.
  pub returns : (PushRequest O → Reply) → (Notice → String) → PushCenter O → Push → Bool
  returns service print c (bmob_ios token n) = returned (push_bmob_ios service token (print n) c).0
  returns service print c (bmob_android id n) =
      returned (push_bmob_android service id (print n) c).0

  no_info-returns :
      (service : PushRequest O → Reply) (print : Notice → String) (c : PushCenter O) (p : Push)
      → c.bmob_info ≡ none
      → returns service print c p ≡ false
  unfolding returns push_bmob_ios push_bmob_android send ◌>>=◌
  no_info-returns service print c (bmob_ios token n) h = rw h refl
  no_info-returns service print c (bmob_android id n) h = rw h refl

  -- Without a configuration "APNS" the push center stays without a service. Then the first device that
  -- is online, has a phone and is silent for more than two minutes ends the thread of the registry:
  -- it and its socket are forgotten, no notification is posted, and no later entry of the round is
  -- looked at.
  pub init-go_round :
      ⦃f : Freed⦄ (service : PushRequest O → Reply) (print : Notice → String)
      (proxies : O → Option (List (Option String))) (c : PushCenter O) (now : ℕ) (uuid : String)
      (rest : List String) (m : DeviceManager) (d : DeviceInfo) (p : Push) (ps : List Push)
      → c.bmob_info ≡ none
      → find uuid m.device_map ≡ some d
      → find d.id m.device_id_map ≡ some uuid
      → expired now d ≡ true
      → pushes d (went_offline uuid) ≡ p ∷ ps
      → go_round (returns service print (init proxies none c).1) now (uuid ∷ rest) m ≡ (
        thrown,
        record m {
          device_map = erase uuid m.device_map;
          device_id_map = erase d.id m.device_id_map;
          pushed = m.pushed ++ p ∷ [];
        },
      )
  unfolding init ◌>>=◌
  init-go_round service print proxies c now uuid rest m d p ps h e i old calls =
      go_round_broken (returns service print c) now uuid rest m d p ps e i old calls
        (no_info-returns service print c p h)
