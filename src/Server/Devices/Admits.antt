-- ===== src/Server/Devices/Admits.antt =====
-- CDeviceManager: the token that a device is given is the one that takes it online.
use shuchuang.Shared.{ℕ, String, ◌≡◌, refl, true, false, none, some, arith, eq_refl, string_key}
use shuchuang.Shared.Dict.{find, find-insert, find-update}
use shuchuang.Shared.Poco.{Digest}
use shuchuang.Server.Devices.{
  DeviceInfo, DeviceManager, new_device, add_device, bind_mobile, device_online, check_device,
}

-- A device that is not online and has the token.
IsOffered : String → String → DeviceManager → Type 0
IsOffered uuid token m =
    (d : DeviceInfo) × (find uuid m.device_map ≡ some d) × (d.online ≡ false) × (d.token ≡ token)

module _ ⦃g : Digest⦄ where
  offers_new :
      (uuid : String) (id : ℕ) (dev_type token : String) (now : ℕ) (m : DeviceManager)
      → find uuid m.device_map ≡ none
      → (add_device uuid id dev_type now m).0 ≡ some token
      → IsOffered uuid token (add_device uuid id dev_type now m).1
  unfolding add_device IsOffered new_device
  offers_new uuid id dev_type token now m e given =
      let d = new_device uuid id dev_type (g.md5 (g.uuid m.drawn)) now in
      (
        d,
        ground (arith, e, find-insert uuid uuid d m.device_map, eq_refl uuid),
        refl,
        ground (arith, given, e),
      )

  offers_known :
      (uuid : String) (id : ℕ) (dev_type token : String) (now : ℕ) (d : DeviceInfo)
      (m : DeviceManager)
      → find uuid m.device_map ≡ some d
      → (add_device uuid id dev_type now m).0 ≡ some token
      → IsOffered uuid token (add_device uuid id dev_type now m).1
  unfolding add_device IsOffered
  offers_known uuid id dev_type token now d m e given =
      let renewed = record d { time = now } in
      (
        renewed,
        ground (arith, given, e, find-update uuid uuid renewed m.device_map, eq_refl uuid),
        ground (arith, given, e),
        ground (arith, given, e),
      )

  add_device-IsOffered :
      (uuid : String) (id : ℕ) (dev_type token : String) (now : ℕ) (m : DeviceManager)
      → (add_device uuid id dev_type now m).0 ≡ some token
      → IsOffered uuid token (add_device uuid id dev_type now m).1
  add_device-IsOffered uuid id dev_type token now m given =
      elim (find uuid m.device_map)
          as (λ x.
            find uuid m.device_map ≡ x
            → IsOffered uuid token (add_device uuid id dev_type now m).1) [
              | none ↦ λ e. offers_new uuid id dev_type token now m e given
              | some d ↦ λ e. offers_known uuid id dev_type token now d m e given
            ]
        refl

  bind_mobile-IsOffered :
      (uuid token mobile installation : String) (m : DeviceManager)
      → IsOffered uuid token m
      → IsOffered uuid token (bind_mobile uuid mobile installation m).1
  unfolding bind_mobile IsOffered
  bind_mobile-IsOffered uuid token mobile installation m (d, at, off, has) = (
    record d { bind_mobile_token = mobile; bind_mobile_installation = installation },
    ground (
      arith,
      at,
      find-update uuid uuid
          (record d { bind_mobile_token = mobile; bind_mobile_installation = installation })
          m.device_map,
      eq_refl uuid,
    ),
    off,
    has,
  )

  device_online-IsOffered :
      (uuid token : String) (sock now : ℕ) (m : DeviceManager)
      → IsOffered uuid token m
      → ((device_online uuid token sock now m).0 ≡ true)
        × (check_device uuid (device_online uuid token sock now m).1 ≡ true)
  unfolding device_online check_device IsOffered
  device_online-IsOffered uuid token sock now m (d, at, off, has) =
      let up = record d { online = true; id = sock } in
      (
        ground (arith, at, off, has, eq_refl token),
        ground (
          arith,
          at,
          off,
          has,
          eq_refl token,
          eq_refl uuid,
          find-update uuid uuid up m.device_map,
        ),
      )

  -- The registry takes the device online that comes with the token it has just given, also after the
  -- phone of the device was noted.
  pub device_online-bind_mobile :
      (uuid : String) (id : ℕ) (dev_type token mobile installation : String) (sock now later : ℕ)
      (m : DeviceManager)
      → (add_device uuid id dev_type now m).0 ≡ some token
      → let m' = (bind_mobile uuid mobile installation (add_device uuid id dev_type now m).1).1 in
        ((device_online uuid token sock later m').0 ≡ true)
        × (check_device uuid (device_online uuid token sock later m').1 ≡ true)
  device_online-bind_mobile uuid id dev_type token mobile installation sock now later m given =
      device_online-IsOffered uuid token sock later _ (
        bind_mobile-IsOffered uuid token mobile installation _
          (add_device-IsOffered uuid id dev_type token now m given))
