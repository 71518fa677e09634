-- ===== src/Server/Devices/Statuses.antt =====
-- What the registry promises, without its maps: each uuid has a status, and a call moves one status
-- after another by three kinds of moves.
use shuchuang.Shared.{
  ℕ, ◌+◌, ◌<◌, String, ◌≡◌, refl, true, false, Option, none, some, arith, ◌==◌, eq_iff, string_key,
  nat_key, if◌then◌else◌,
}
use shuchuang.Shared.Dict.{find, insert, erase, update, find-insert, find-erase, find-update}
use shuchuang.Server.Devices.Sessions.{
  Call, adds, onlines, offlines_uuid, offlines_id, stops, checks,
}
use shuchuang.Server.Devices.{DeviceInfo, DeviceManager}

pub data Status : Type 0 where
  unknown : Status
  offline : String → Status
  online : String → ℕ → Status

-- The status of a device: its token, and the socket that it is connected on.
abbrev pub status_of : Option DeviceInfo → Status
status_of none = unknown
status_of (some d) = if d.online then online d.token d.id else offline d.token

unfoldable pub view : DeviceManager → String → Status
view m u = status_of (find u m.device_map)

-- Which call on the registry `m` forgets a device in which status: by its uuid; by the socket that it is
-- connected on; or because a device that has been silent for more than two minutes has the number of this
-- socket, as the device itself has.
abbrev pub Drops : DeviceManager → Call → String → Status → Type 0
Drops m (offlines_uuid v) u s = v ≡ u
Drops m (offlines_id i) u s = (t : String) × (s ≡ online t i)
Drops m (checks now v) u s =
    (t : String) × (d : DeviceInfo) × (find v m.device_map ≡ some d)
    × (d.time + 120000000 < now)
    × (s ≡ online t d.id)
Drops m _ u s = ⊥

-- What a call may change of a device: an unknown one asks for a token; one that has a token goes
-- online if it shows this token; one is forgotten.
pub data Change (m : DeviceManager) (c : Call) (u : String) : Status → Status → Type 0 where
  registers :
      {t dev_type : String} {id now : ℕ}
      → c ≡ adds u id dev_type now
      → Change m c u unknown (offline t)
  connects :
      (t : String) (i : ℕ) {now : ℕ} → c ≡ onlines u t i now → Change m c u (offline t) (online t i)
  forgets : {s : Status} → Drops m c u s → Change m c u s unknown

-- One uuid changes, the others keep their status.
abbrev pub Changes : (String → Status) → String → Status → (String → Status) → Type 0
Changes V u s W = (x : String) → W x ≡ (if u == x then s else V x)

-- Moves of single devices, or a stop, which forgets all.
pub data Moves (m : DeviceManager) (c : Call) (V : String → Status)
    : (String → Status) → Type 0 where
  stays : {W : String → Status} → ((x : String) → W x ≡ V x) → Moves m c V W
  moves :
      {W X : String → Status} (u : String) (s : Status)
      → Moves m c V W
      → Change m c u (W u) s
      → Changes W u s X
      → Moves m c V X
  clears : {W : String → Status} → c ≡ stops → ((x : String) → W x ≡ unknown) → Moves m c V W

one_move :
    {m : DeviceManager} {c : Call} {V W : String → Status} (u : String) (s : Status)
    → Change m c u (V u) s
    → Changes V u s W
    → Moves m c V W
one_move u s c e = moves u s (stays (λ x. refl)) c e

module _ (c : Call) where
  -- A device is written back with its token, its state and its socket.
  pub update-stays :
      (uuid : String) (d d' : DeviceInfo) (m : DeviceManager)
      → find uuid m.device_map ≡ some d
      → d'.token ≡ d.token
      → d'.online ≡ d.online
      → d'.id ≡ d.id
      → Moves m c (view m) (view (record m { device_map = update uuid d' m.device_map }))
  unfolding view
  update-stays uuid d d' m e et eo ei =
      stays (λ x. ground (arith, find-update uuid x d' m.device_map, eq_iff uuid x))

  pub erase-Moves :
      (uuid : String) (d : DeviceInfo) (m : DeviceManager)
      → find uuid m.device_map ≡ some d
      → Drops m c uuid (status_of (some d))
      → Moves m c (view m) (view (record m { device_map = erase uuid m.device_map }))
  unfolding view
  erase-Moves uuid d m e drops =
      one_move uuid unknown (rw e (forgets drops))
        (λ x. ground (arith, find-erase uuid x m.device_map))

  pub insert-Moves :
      (uuid dev_type : String) (id now : ℕ) (d : DeviceInfo) (m : DeviceManager)
      → c ≡ adds uuid id dev_type now
      → find uuid m.device_map ≡ none
      → d.online ≡ false
      → Moves m c (view m) (view (record m { device_map = insert uuid d m.device_map }))
  unfolding view
  insert-Moves uuid dev_type id now d m call e off =
      one_move uuid (offline d.token) (rw e (registers call))
        (λ x. ground (arith, find-insert uuid x d m.device_map))

  pub connect-Moves :
      (uuid : String) (now : ℕ) (d : DeviceInfo) (i : ℕ) (m : DeviceManager)
      → c ≡ onlines uuid d.token i now
      → find uuid m.device_map ≡ some d
      → d.online ≡ false
      → Moves m c (view m) (
          view (record m {
            device_map = update uuid (record d { online = true; id = i }) m.device_map;
          }))
  unfolding view
  connect-Moves uuid now d i m call e off =
      one_move uuid (online d.token i) (rw (e, off) (connects d.token i call))
        (λ x. ground (arith, find-update uuid x (record d { online = true; id = i }) m.device_map))

  abbrev pub Refines {ℓ} : {A : Type ℓ} → DeviceManager → A × DeviceManager → Type 0
  Refines m r = Moves m c (view m) (view r.1)
