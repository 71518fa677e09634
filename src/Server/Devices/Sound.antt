-- ===== src/Server/Devices/Sound.antt =====
-- What the registry of CDeviceManager keeps: the two maps agree.
use shuchuang.Shared.{
  ℕ, String, ◌≡◌, refl, Bool, true, false, Option, none, some, arith, ◌==◌, eq_iff, string_key,
  option-rule, if-rule, sym, nat_key, nat_beq_iff, ◌&&◌,
}
use shuchuang.Shared.Dict.{find, insert, erase, update, find-insert, find-erase, find-update}
use shuchuang.Shared.Poco.{Digest}
use shuchuang.Server.Devices.{
  DeviceInfo, DeviceManager, Freed, init, start, add_device, keep_alive_device, device_online,
  device_offline_uuid, device_offline_id, bind_mobile, unbind_mobile, check_entry, new_device,
  expired,
}

-- The device of a socket: registered, online, and on that socket.
abbrev pub holds : Option DeviceInfo → ℕ → Bool
holds none i = false
holds (some d) i = d.online && d.id == i

pub record IsSound (m : DeviceManager) : Type 0 where
  pub keyed : (u : String) (d : DeviceInfo) → find u m.device_map ≡ some d → d.uuid ≡ u
  pub sockets :
      (i : ℕ) (u : String) → find i m.device_id_map ≡ some u → holds (find u m.device_map) i ≡ true

pub init-IsSound : IsSound init
unfolding init find
init-IsSound = record { keyed = λ u d h. cc; sockets = λ i u h. cc }

-- A device is written back with its key, its socket and its state.
update-IsSound :
    (uuid : String) (d d' : DeviceInfo) (m : DeviceManager)
    → find uuid m.device_map ≡ some d
    → d'.uuid ≡ d.uuid
    → d'.online ≡ d.online
    → d'.id ≡ d.id
    → IsSound m
    → IsSound (record m { device_map = update uuid d' m.device_map })
update-IsSound uuid d d' m e eu eo ei s = record {
  keyed = λ u x h.
      ground
        (arith, find-update uuid u d' m.device_map, eq_iff uuid u, s.keyed u x, s.keyed uuid d);
  sockets =
      λ i u h. ground (arith, find-update uuid u d' m.device_map, eq_iff uuid u, s.sockets i u h);
}

-- A device that is new holds no socket yet.
insert-IsSound :
    (uuid : String) (d : DeviceInfo) (m : DeviceManager)
    → find uuid m.device_map ≡ none
    → d.uuid ≡ uuid
    → IsSound m
    → IsSound (record m { device_map = insert uuid d m.device_map })
insert-IsSound uuid d m e eu s = record {
  keyed = λ u x h. ground (arith, find-insert uuid u d m.device_map, eq_iff uuid u, s.keyed u x);
  sockets =
      λ i u h. ground (arith, find-insert uuid u d m.device_map, eq_iff uuid u, s.sockets i u h);
}

-- The socket of a device that goes online.
connect-IsSound :
    (uuid : String) (d : DeviceInfo) (i : ℕ) (m : DeviceManager)
    → find uuid m.device_map ≡ some d
    → d.online ≡ false
    → IsSound m
    → IsSound (record m {
      device_map = update uuid (record d { online = true; id = i }) m.device_map;
      device_id_map = insert i uuid m.device_id_map;
    })
connect-IsSound uuid d i m e off s = record {
  keyed = λ u x h. ground (
    arith,
    find-update uuid u (record d { online = true; id = i }) m.device_map,
    eq_iff uuid u,
    s.keyed u x,
    s.keyed uuid d,
  );
  sockets = λ j u h. ground (
    arith,
    find-update uuid u (record d { online = true; id = i }) m.device_map,
    find-insert i j uuid m.device_id_map,
    eq_iff uuid u,
    s.sockets j u,
    s.sockets i u,
  );
}

-- A device is dropped together with the entry of its socket.
disconnect-IsSound :
    (uuid : String) (d : DeviceInfo) (i : ℕ) (m : DeviceManager)
    → find uuid m.device_map ≡ some d
    → d.id ≡ i
    → IsSound m
    → IsSound
        (record m { device_map = erase uuid m.device_map; device_id_map = erase i m.device_id_map })
disconnect-IsSound uuid d i m e ei s = record {
  keyed = λ u x h. ground (arith, find-erase uuid u m.device_map, eq_iff uuid u, s.keyed u x);
  sockets = λ j u h. ground (
    arith,
    find-erase uuid u m.device_map,
    find-erase i j m.device_id_map,
    eq_iff uuid u,
    s.sockets j u,
  );
}

abbrev Keeps {ℓ} : {A : Type ℓ} → A × DeviceManager → Type 0
Keeps r = IsSound r.1

touch-IsSound :
    (uuid : String) (d : DeviceInfo) (now : ℕ) (m : DeviceManager)
    → find uuid m.device_map ≡ some d
    → IsSound m
    → IsSound (record m { device_map = update uuid (record d { time = now }) m.device_map })
touch-IsSound uuid d now m e s =
    update-IsSound uuid d (record d { time = now }) m e refl refl refl s

module _ ⦃g : Digest⦄ where
  pub add_device-IsSound :
      (uuid : String) (id : ℕ) (dev_type : String) (now : ℕ) (m : DeviceManager)
      → IsSound m
      → IsSound (add_device uuid id dev_type now m).1
  unfolding add_device
  add_device-IsSound uuid id dev_type now m s =
      option-rule Keeps (find uuid m.device_map)
        (λ e.
          let t =
            insert-IsSound uuid (new_device uuid id dev_type (g.md5 (g.uuid m.drawn)) now) m e refl
              s in
          record { keyed = t.keyed; sockets = t.sockets })
        (λ d e. if-rule Keeps d.online (λ _. s) (λ _. touch-IsSound uuid d now m e s))

pub keep_alive_device-IsSound :
    (uuid : String) (now : ℕ) (m : DeviceManager)
    → IsSound m
    → IsSound (keep_alive_device uuid now m).1
unfolding keep_alive_device
keep_alive_device-IsSound uuid now m s =
    option-rule Keeps (find uuid m.device_map) (λ e. s)
      (λ d e. if-rule Keeps d.online (λ _. touch-IsSound uuid d now m e s) (λ _. s))

pub device_online-IsSound :
    (uuid token : String) (sock_id now : ℕ) (m : DeviceManager)
    → IsSound m
    → IsSound (device_online uuid token sock_id now m).1
unfolding device_online
device_online-IsSound uuid token sock_id now m s =
    option-rule Keeps (find uuid m.device_map) (λ e. s)
      (λ d e.
        if-rule Keeps d.online (λ _. touch-IsSound uuid d now m e s)
          (λ off.
            if-rule Keeps (token == d.token)
              (λ _.
                let t = connect-IsSound uuid d sock_id m e off s in
                record { keyed = t.keyed; sockets = t.sockets })
              (λ _. s)))

-- The read after `delete` gives what stood there.
abbrev pub IsHonest : Freed → Type 0
IsHonest f = ((d : DeviceInfo) → f.freed_id d ≡ d.id) × ((d : DeviceInfo) → f.freed_uuid d ≡ d.uuid)

-- A device whose socket has no entry.
drop-IsSound :
    (uuid : String) (d : DeviceInfo) (m : DeviceManager)
    → find uuid m.device_map ≡ some d
    → find d.id m.device_id_map ≡ none
    → IsSound m
    → IsSound (record m { device_map = erase uuid m.device_map })
drop-IsSound uuid d m e free s = record {
  keyed = λ u x h. ground (arith, find-erase uuid u m.device_map, eq_iff uuid u, s.keyed u x);
  sockets = λ j u h.
      ground
        (arith, find-erase uuid u m.device_map, eq_iff uuid u, s.sockets j u h, nat_beq_iff d.id j);
}

pub device_offline_uuid-IsSound :
    ⦃f : Freed⦄ (uuid : String) (m : DeviceManager)
    → IsHonest f
    → IsSound m
    → IsSound (device_offline_uuid uuid m).1
unfolding device_offline_uuid
device_offline_uuid-IsSound ⦃f⦄ uuid m honest s =
    option-rule Keeps (find uuid m.device_map) (λ e. s)
      (λ d e.
        option-rule Keeps (find (f.freed_id d) m.device_id_map)
          (λ free. drop-IsSound uuid d m e (rw (← honest.0 d) free) s)
          (λ u _.
            let t = disconnect-IsSound uuid d (f.freed_id d) m e (sym (honest.0 d)) s in
            record { keyed = t.keyed; sockets = t.sockets }))

pub device_offline_id-IsSound :
    (id : ℕ) (m : DeviceManager) → IsSound m → IsSound (device_offline_id id m).1
unfolding device_offline_id
device_offline_id-IsSound id m s =
    option-rule Keeps (find id m.device_id_map) (λ e. s)
      (λ uuid e.
        option-rule Keeps (find uuid m.device_map) (λ lost. ground (arith, s.sockets id uuid e))
          (λ d e'.
            let t = disconnect-IsSound uuid d id m e' (ground (arith, s.sockets id uuid e)) s in
            record { keyed = t.keyed; sockets = t.sockets }))

pub bind_mobile-IsSound :
    (uuid mobile installation : String) (m : DeviceManager)
    → IsSound m
    → IsSound (bind_mobile uuid mobile installation m).1
unfolding bind_mobile
bind_mobile-IsSound uuid mobile installation m s =
    option-rule Keeps (find uuid m.device_map) (λ e. s)
      (λ d e.
        update-IsSound uuid d
          (record d { bind_mobile_token = mobile; bind_mobile_installation = installation }) m e
          refl refl refl s)

pub unbind_mobile-IsSound :
    (uuid : String) (m : DeviceManager) → IsSound m → IsSound (unbind_mobile uuid m).1
unfolding unbind_mobile
unbind_mobile-IsSound uuid m s =
    option-rule Keeps (find uuid m.device_map) (λ e. s)
      (λ d e.
        update-IsSound uuid d (record d { bind_mobile_token = ""; bind_mobile_installation = "" }) m
          e refl refl refl s)

module _ ⦃f : Freed⦄ where
  pub check_entry-IsSound :
      (now : ℕ) (uuid : String) (m : DeviceManager) → IsSound m → IsSound (check_entry now uuid m)
  unfolding check_entry
  check_entry-IsSound now uuid m s =
      option-rule IsSound (find uuid m.device_map) (λ e. s)
        (λ d e.
          if-rule IsSound (expired now d)
            (λ _.
              let t = device_offline_id-IsSound d.id m s in
              record { keyed = t.keyed; sockets = t.sockets })
            (λ _. s))

pub start-IsSound : (m : DeviceManager) → IsSound m → IsSound (start m).1
unfolding start
start-IsSound m s =
    if-rule Keeps m.started (λ _. s) (λ _. record { keyed = s.keyed; sockets = s.sockets })
