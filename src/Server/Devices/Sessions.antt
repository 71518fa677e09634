-- ===== src/Server/Devices/Sessions.antt =====
-- The life of a device at the server: any sequence of calls, and what single calls promise.
use shuchuang.Shared.{
  ℕ, ◌+◌, ◌<◌, String, ◌≡◌, Bool, not, true, false, none, some, List, [], ◌∷◌, ◌++◌, arith, eq_iff,
  eq_refl, string_key, nat_key, ◌≢◌,
}
use shuchuang.Shared.Dict.{find, insert, update, find-insert, find-erase, find-update}
use shuchuang.Shared.Poco.{Digest, AllTrue}
use shuchuang.Server.Devices.{
  DeviceInfo, DeviceManager, Freed, start, stop, add_device, keep_alive_device, device_online,
  device_offline_uuid, device_offline_id, bind_mobile, unbind_mobile, check_device, check_entry,
  new_device,
}
use shuchuang.Server.Devices.Sound.{
  IsSound, IsHonest, add_device-IsSound, keep_alive_device-IsSound, device_online-IsSound,
  device_offline_uuid-IsSound, device_offline_id-IsSound, bind_mobile-IsSound,
  unbind_mobile-IsSound, check_entry-IsSound, start-IsSound,
}

-- The calls of the registry: by `main`, the register server, the handlers and its own thread, which
-- looks at the entry of one uuid at a time.
pub data Call : Type 0 where
  starts stops : Call
  adds : String → ℕ → String → ℕ → Call
  keeps_alive : String → ℕ → Call
  onlines : String → String → ℕ → ℕ → Call
  offlines_uuid : String → Call
  offlines_id : ℕ → Call
  binds : String → String → String → Call
  unbinds : String → Call
  checks : ℕ → String → Call

module _ ⦃g : Digest⦄ ⦃f : Freed⦄ where
  unfoldable pub step : DeviceManager → Call → DeviceManager
  step m starts = (start m).1
  step m stops = (stop m).1
  step m (adds uuid id dev_type now) = (add_device uuid id dev_type now m).1
  step m (keeps_alive uuid now) = (keep_alive_device uuid now m).1
  step m (onlines uuid token sock_id now) = (device_online uuid token sock_id now m).1
  step m (offlines_uuid uuid) = (device_offline_uuid uuid m).1
  step m (offlines_id id) = (device_offline_id id m).1
  step m (binds uuid mobile installation) = (bind_mobile uuid mobile installation m).1
  step m (unbinds uuid) = (unbind_mobile uuid m).1
  step m (checks now uuid) = check_entry now uuid m

  pub run : DeviceManager → List Call → DeviceManager
  unfolding step
  run m [] = m
  run m (c ∷ cs) = run (step m c) cs

  -- `stop` is the one call that frees devices and leaves the entries of their sockets.
  abbrev pub leaves_sockets : Call → Bool
  leaves_sockets stops = true
  leaves_sockets _ = false

  step-IsSound :
      (m : DeviceManager) (c : Call)
      → IsHonest f
      → leaves_sockets c ≡ false
      → IsSound m
      → IsSound (step m c)
  unfolding step
  step-IsSound m starts h n s = start-IsSound m s
  step-IsSound m stops h n s = ground (arith, n)
  step-IsSound m (adds uuid id dev_type now) h n s = add_device-IsSound uuid id dev_type now m s
  step-IsSound m (keeps_alive uuid now) h n s = keep_alive_device-IsSound uuid now m s
  step-IsSound m (onlines uuid token sock_id now) h n s =
      device_online-IsSound uuid token sock_id now m s
  step-IsSound m (offlines_uuid uuid) h n s = device_offline_uuid-IsSound uuid m h s
  step-IsSound m (offlines_id id) h n s = device_offline_id-IsSound id m s
  step-IsSound m (binds uuid mobile installation) h n s =
      bind_mobile-IsSound uuid mobile installation m s
  step-IsSound m (unbinds uuid) h n s = unbind_mobile-IsSound uuid m s
  step-IsSound m (checks now uuid) h n s = check_entry-IsSound now uuid m s

  -- Where a read after `delete` gives what stood there, any sequence of calls of the registry, rounds of
  -- its thread included, in which `stop` is not called keeps its two maps in agreement: a device is stored
  -- under its own uuid, and a socket that has an entry is the socket of a registered device that is
  -- online.
  pub run-IsSound :
      (m : DeviceManager) (cs : List Call)
      → IsHonest f
      → AllTrue (λ c. not (leaves_sockets c)) cs
      → IsSound m
      → IsSound (run m cs)
  unfolding run
  run-IsSound m [] h n s = s
  run-IsSound m (c ∷ cs) h (n, ns) s =
      run-IsSound (step m c) cs h ns (step-IsSound m c h (ground (arith, n)) s)

  -- A stop of a registry with a device that is online breaks the agreement: the entry of its socket stays
  -- for a device that is gone.
  pub stop-stale :
      (i : ℕ) (uuid : String) (m : DeviceManager)
      → m.started ≡ true
      → find i m.device_id_map ≡ some uuid
      → ¬ IsSound (step m stops)
  unfolding step stop find
  stop-stale i uuid m up e s = ground (arith, up, s.sockets i uuid)

module _ ⦃g : Digest⦄ where
  -- A uuid that is not registered gets a token, and with that token on any socket it goes online:
  -- the call succeeds and `checkDevice` then says so.
  pub device_online-add_device :
      (uuid : String) (id : ℕ) (dev_type : String) (sock_id now later : ℕ) (m : DeviceManager)
      → find uuid m.device_map ≡ none
      → let (token, m') = add_device uuid id dev_type now m in
        (t : String) × (token ≡ some t)
        × ((device_online uuid t sock_id later m').0 ≡ true)
        × (check_device uuid (device_online uuid t sock_id later m').1 ≡ true)
  unfolding add_device device_online check_device
  device_online-add_device uuid id dev_type sock_id now later m fresh =
      let token = g.md5 (g.uuid m.drawn) in
      let d = new_device uuid id dev_type token now in
      let at = find-insert uuid uuid d m.device_map in
      (
        token,
        ground arith,
        ground (arith, at, eq_refl uuid, eq_refl token),
        ground (
          arith,
          at,
          eq_refl uuid,
          eq_refl token,
          find-update uuid uuid (record d { online = true; id = sock_id })
              (insert uuid d m.device_map),
        ),
      )

-- A device that is not online goes online with its own token only: with another one the call fails
-- and changes nothing.
pub device_online_wrong_token :
    (uuid token : String) (sock_id now : ℕ) (d : DeviceInfo) (m : DeviceManager)
    → find uuid m.device_map ≡ some d
    → d.online ≡ false
    → token ≢ d.token
    → device_online uuid token sock_id now m ≡ (false, m)
unfolding device_online
device_online_wrong_token uuid token sock_id now d m e off ne = ground (arith, eq_iff token d.token)

module _ ⦃f : Freed⦄ where
  -- The round of `run` drops a device that is online and has been silent for more than two minutes,
  -- with the entry of its socket, provided that the entry is its own; one notification is posted.
  pub check_entry_expired :
      (now : ℕ) (uuid : String) (d : DeviceInfo) (m : DeviceManager)
      → find uuid m.device_map ≡ some d
      → find d.id m.device_id_map ≡ some uuid
      → d.time + 120000000 < now
      → let m' = check_entry now uuid m in
        (find uuid m'.device_map ≡ none)
        × (find d.id m'.device_id_map ≡ none)
        × (m'.posted ≡ m.posted ++ (f.freed_id d, f.freed_uuid d) ∷ [])
  unfolding check_entry
  check_entry_expired now uuid d m e own late =
      let gone = find-erase uuid uuid m.device_map in
      (
        ground (arith, gone, eq_refl uuid),
        ground (arith, find-erase d.id d.id m.device_id_map),
        ground (arith, gone, eq_refl uuid),
      )

  -- A device that has a token and never went online is not dropped however long it is silent, if no
  -- socket entry bears its number: the round only posts a notification for it, each time.
  pub check_entry_never_online :
      (now : ℕ) (uuid : String) (d : DeviceInfo) (m : DeviceManager)
      → find uuid m.device_map ≡ some d
      → find d.id m.device_id_map ≡ none
      → d.time + 120000000 < now
      → let m' = check_entry now uuid m in
        (m'.device_map ≡ m.device_map) × (m'.posted ≡ m.posted ++ (d.id, d.uuid) ∷ [])
  unfolding check_entry
  check_entry_never_online now uuid d m e free late = (ground arith, ground arith)

  -- The read after `delete` matters: where it gives a number that is no socket's, taking a device
  -- offline by its uuid leaves the entry of its socket behind, for a device that is gone.
  pub device_offline_uuid_stale :
      (uuid : String) (d : DeviceInfo) (m : DeviceManager)
      → find uuid m.device_map ≡ some d
      → find d.id m.device_id_map ≡ some uuid
      → find (f.freed_id d) m.device_id_map ≡ none
      → let m' = (device_offline_uuid uuid m).1 in
        (find uuid m'.device_map ≡ none) × (find d.id m'.device_id_map ≡ some uuid) × ¬ IsSound m'
  unfolding device_offline_uuid
  device_offline_uuid_stale uuid d m e own lost =
      let gone = find-erase uuid uuid m.device_map in
      (
        ground (arith, gone, eq_refl uuid),
        ground arith,
        λ s. ground (arith, gone, eq_refl uuid, s.sockets d.id uuid),
      )

module _ ⦃g : Digest⦄ where
  -- Two devices that register over one socket: the second gets no entry. When the socket closes, the
  -- first is dropped and the second stays online with no entry, so that closing the socket again
  -- changes nothing and the second device can get no new token.
  pub shared_socket :
      (a b : String) (i now : ℕ) (d : DeviceInfo) (m : DeviceManager)
      → a ≢ b
      → find i m.device_id_map ≡ some a
      → find a m.device_map ≢ none
      → find b m.device_map ≡ some d
      → d.online ≡ false
      → let m' = (device_offline_id i (device_online b d.token i now m).1).1 in
        (check_device b m' ≡ true)
        × (find a m'.device_map ≡ none)
        × ((device_offline_id i m').1 ≡ m')
        × ((dev_type : String) (id later : ℕ) → add_device b id dev_type later m' ≡ (none, m'))
  unfolding device_online device_offline_id check_device add_device
  shared_socket a b i now d m ne own reg e off =
      let up = record d { online = true; id = i } in
      let socket = find-insert i i b m.device_id_map in
      let at_b = find-update b b up m.device_map in
      let at_a = find-update b a up m.device_map in
      let gone_b = find-erase a b (update b up m.device_map) in
      let gone_a = find-erase a a (update b up m.device_map) in
      let free = find-erase i i (insert i b m.device_id_map) in
      (
        ground
            (arith, socket, at_b, at_a, gone_b, eq_refl d.token, eq_refl b, eq_iff a b, eq_iff b a),
        ground
            (arith, socket, at_b, at_a, gone_a, eq_refl d.token, eq_refl a, eq_iff a b, eq_iff b a),
        ground
            (arith, socket, at_b, at_a, free, eq_refl d.token, eq_refl b, eq_iff a b, eq_iff b a),
        λ dev_type id later.
            ground (
              arith,
              socket,
              at_b,
              at_a,
              gone_b,
              eq_refl d.token,
              eq_refl b,
              eq_iff a b,
              eq_iff b a,
            ),
      )
