-- ===== src/Server/Devices/Refines.antt =====
-- CDeviceManager refines the statuses: each call of the registry makes moves that it may make.
use shuchuang.Shared.{
  ℕ, ◌+◌, ◌<◌, String, ◌≡◌, true, refl, ◌∙◌, some, arith, ◌==◌, eq_iff, string_key, nat_key,
  option-rule, if-rule, ap,
}
use shuchuang.Shared.Dict.{find}
use shuchuang.Shared.Poco.{Digest}
use shuchuang.Server.Devices.{
  DeviceInfo, DeviceManager, Freed, add_device, keep_alive_device, device_online,
  device_offline_uuid, device_offline_id, bind_mobile, unbind_mobile, check_entry, start, stop,
  new_device, expired,
}
use shuchuang.Server.Devices.Sound.{IsSound}
use shuchuang.Server.Devices.Sessions.{
  Call, adds, keeps_alive, onlines, offlines_uuid, offlines_id, binds, unbinds, checks, starts,
  stops, step,
}
use shuchuang.Server.Devices.Statuses.{
  online, status_of, view, Drops, Moves, stays, clears, Refines, update-stays, erase-Moves,
  insert-Moves, connect-Moves,
}

module _ (c : Call) where
  add_device-Refines :
      ⦃g : Digest⦄ (uuid : String) (id : ℕ) (dev_type : String) (now : ℕ) (m : DeviceManager)
      → c ≡ adds uuid id dev_type now
      → Refines c m (add_device uuid id dev_type now m)
  unfolding add_device new_device view
  add_device-Refines ⦃g⦄ uuid id dev_type now m call =
      option-rule (Refines c m) (find uuid m.device_map)
        (λ e.
          insert-Moves c uuid dev_type id now
            (new_device uuid id dev_type (g.md5 (g.uuid m.drawn)) now) m call e refl)
        (λ d e.
          if-rule (Refines c m) d.online (λ _. stays (λ x. refl))
            (λ _. update-stays c uuid d (record d { time = now }) m e refl refl refl))

  keep_alive_device-Refines :
      (uuid : String) (now : ℕ) (m : DeviceManager) → Refines c m (keep_alive_device uuid now m)
  unfolding keep_alive_device
  keep_alive_device-Refines uuid now m =
      option-rule (Refines c m) (find uuid m.device_map) (λ e. stays (λ x. refl))
        (λ d e.
          if-rule (Refines c m) d.online
            (λ _. update-stays c uuid d (record d { time = now }) m e refl refl refl)
            (λ _. stays (λ x. refl)))

  device_online-Refines :
      (uuid token : String) (i now : ℕ) (m : DeviceManager)
      → c ≡ onlines uuid token i now
      → Refines c m (device_online uuid token i now m)
  unfolding device_online view
  device_online-Refines uuid token i now m call =
      option-rule (Refines c m) (find uuid m.device_map) (λ e. stays (λ x. refl))
        (λ d e.
          if-rule (Refines c m) d.online
            (λ _. update-stays c uuid d (record d { time = now }) m e refl refl refl)
            (λ off.
              if-rule (Refines c m) (token == d.token)
                (λ same.
                  connect-Moves c uuid now d i m
                    (call ∙ ap (λ t. onlines uuid t i now) ((eq_iff token d.token).0 same)) e off)
                (λ _. stays (λ x. refl))))

  device_offline_uuid-Refines :
      ⦃f : Freed⦄ (uuid : String) (m : DeviceManager)
      → c ≡ offlines_uuid uuid
      → Refines c m (device_offline_uuid uuid m)
  unfolding device_offline_uuid view
  device_offline_uuid-Refines ⦃f⦄ uuid m call =
      option-rule (Refines c m) (find uuid m.device_map) (λ e. stays (λ x. refl))
        (λ d e.
          let gone = erase-Moves c uuid d m e (rw call refl) in
          option-rule (Refines c m) (find (f.freed_id d) m.device_id_map) (λ _. gone) (λ u _. gone))

  -- The device of a socket is online on it.
  dropped :
      (i : ℕ) (uuid : String) (d : DeviceInfo) (m : DeviceManager)
      → IsSound m
      → find i m.device_id_map ≡ some uuid
      → find uuid m.device_map ≡ some d
      → status_of (some d) ≡ online d.token i
  dropped i uuid d m s e e' = ground (arith, s.sockets i uuid e)

  device_offline_id-Refines :
      (i : ℕ) (m : DeviceManager)
      → IsSound m
      → ((u t : String) → Drops m c u (online t i))
      → Refines c m (device_offline_id i m)
  unfolding device_offline_id view
  device_offline_id-Refines i m s may =
      option-rule (Refines c m) (find i m.device_id_map) (λ e. stays (λ x. refl))
        (λ uuid e.
          option-rule (Refines c m) (find uuid m.device_map) (λ _. stays (λ x. refl))
            (λ d e'. erase-Moves c uuid d m e' (rw (dropped i uuid d m s e e') (may uuid d.token))))

  bind_mobile-Refines :
      (uuid mobile installation : String) (m : DeviceManager)
      → Refines c m (bind_mobile uuid mobile installation m)
  unfolding bind_mobile
  bind_mobile-Refines uuid mobile installation m =
      option-rule (Refines c m) (find uuid m.device_map) (λ e. stays (λ x. refl))
        (λ d e.
          update-stays c uuid d
            (record d { bind_mobile_token = mobile; bind_mobile_installation = installation }) m e
            refl refl refl)

  unbind_mobile-Refines : (uuid : String) (m : DeviceManager) → Refines c m (unbind_mobile uuid m)
  unfolding unbind_mobile
  unbind_mobile-Refines uuid m =
      option-rule (Refines c m) (find uuid m.device_map) (λ e. stays (λ x. refl))
        (λ d e.
          update-stays c uuid d (record d { bind_mobile_token = ""; bind_mobile_installation = "" })
            m e refl refl refl)

silent : (now : ℕ) (d : DeviceInfo) → expired now d ≡ true → d.time + 120000000 < now
silent now d e = ground (arith, e)

stop-Refines : (m : DeviceManager) → Refines stops m (stop m)
unfolding stop view find
stop-Refines m =
    if-rule (Refines stops m) m.started (λ _. clears refl (λ x. refl)) (λ _. stays (λ x. refl))

start-Refines : (m : DeviceManager) → Refines starts m (start m)
unfolding start view
start-Refines m =
    if-rule (Refines starts m) m.started (λ _. stays (λ x. refl)) (λ _. stays (λ x. refl))

module _ ⦃f : Freed⦄ where
  check_entry-Moves :
      (now : ℕ) (uuid : String) (m : DeviceManager)
      → IsSound m
      → Moves m (checks now uuid) (view m) (view (check_entry now uuid m))
  unfolding check_entry view
  check_entry-Moves now uuid m s =
      let Next : DeviceManager → Type 0 = λ n. Moves m (checks now uuid) (view m) (view n) in
      option-rule Next (find uuid m.device_map) (λ e. stays (λ x. refl))
        (λ d e.
          if-rule Next (expired now d)
            (λ late.
              device_offline_id-Refines (checks now uuid) d.id m s
                (λ u t. (t, d, e, silent now d late, refl)))
            (λ _. stays (λ x. refl)))

  -- Where the maps of the registry agree, each call refines the statuses: it makes no move, or a move that
  -- it may make. Only a request for a token makes an unknown device known; only the token of a device
  -- takes it online, on the socket of the call; a device is forgotten by its uuid, by the closing of the
  -- socket that it is connected on, by the thread where a device with the number of its socket has been
  -- silent for more than two minutes, or with all others by a stop.
  pub step-Moves :
      ⦃g : Digest⦄ (m : DeviceManager) (c : Call) → IsSound m → Moves m c (view m) (view (step m c))
  unfolding step
  step-Moves m starts s = start-Refines m
  step-Moves m stops s = stop-Refines m
  step-Moves m (adds uuid id dev_type now) s = add_device-Refines _ uuid id dev_type now m refl
  step-Moves m (keeps_alive uuid now) s = keep_alive_device-Refines _ uuid now m
  step-Moves m (onlines uuid token i now) s = device_online-Refines _ uuid token i now m refl
  step-Moves m (offlines_uuid uuid) s = device_offline_uuid-Refines _ uuid m refl
  step-Moves m (offlines_id i) s = device_offline_id-Refines _ i m s (λ u t. (t, refl))
  step-Moves m (binds uuid mobile installation) s = bind_mobile-Refines _ uuid mobile installation m
  step-Moves m (unbinds uuid) s = unbind_mobile-Refines _ uuid m
  step-Moves m (checks now uuid) s = check_entry-Moves now uuid m s
