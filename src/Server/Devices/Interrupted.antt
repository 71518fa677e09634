-- ===== src/Server/Devices/Interrupted.antt =====
-- CDeviceManager, Src/TransmitServer/DeviceManager.cpp, where a call of CPushCenter throws: the methods
-- that push do not catch it, and it leaves them with what they have written.
use mathlib.Core.List.{append_assoc, append-nil}
use shuchuang.Shared.{
  ℕ, ◌≡◌, refl, ap, ◌∙◌, String, Bool, true, false, Option, none, some, List, [], ◌∷◌, ◌++◌, ◌==◌,
  string_key, nat_key, if◌then◌else◌, Option-cases, Bool-cases, option-rule, inl, inr,
}
use shuchuang.Shared.Dict.{find, insert, erase, update}
use shuchuang.Shared.Outcome.{Action, ok, thrown, pure, throw, get, modify, ◌>>=◌, ◌>>◌}
use shuchuang.Server.Devices.{
  DeviceManager, DeviceInfo, Push, came_online, went_offline, Freed, pushes, expired, device_online,
  device_offline_id, check_entry, check_entries,
}

-- The calls of CPushCenter up to the first that throws.
unfoldable pub call_pushes : (Push → Bool) → List Push → Action DeviceManager (Unit {0})
call_pushes returns [] = pure tt
call_pushes returns (p ∷ ps) = do
  modify (λ m. record m { pushed = m.pushed ++ p ∷ [] })
  if returns p then call_pushes returns ps else throw

unfoldable pub go_online_as :
    (Push → Bool) → String → String → ℕ → ℕ → Option DeviceInfo → Action DeviceManager Bool
go_online_as returns uuid token sock_id now none = pure false
go_online_as returns uuid token sock_id now (some d) =
    if d.online
    then (do
      modify (λ m. record m { device_map = update uuid (record d { time = now }) m.device_map })
      pure true)
    else if token == d.token
    then (do
      modify (λ m. record m {
        device_map = update uuid (record d { online = true; id = sock_id }) m.device_map;
        device_id_map = insert sock_id uuid m.device_id_map;
      })
      call_pushes returns (pushes d (came_online d.uuid))
      pure true)
    else pure false

-- `deviceOnline`
unfoldable pub go_online : (Push → Bool) → String → String → ℕ → ℕ → Action DeviceManager Bool
go_online returns uuid token sock_id now = do
  m ← get
  go_online_as returns uuid token sock_id now (find uuid m.device_map)

unfoldable pub forget : (Push → Bool) → String → Option DeviceInfo → Action DeviceManager Bool
forget returns uuid none = pure true
forget returns uuid (some d) = do
  modify (λ m. record m { device_map = erase uuid m.device_map })
  call_pushes returns (pushes d (went_offline uuid))
  pure true

unfoldable pub go_offline_as : (Push → Bool) → ℕ → Option String → Action DeviceManager Bool
go_offline_as returns id none = pure true
go_offline_as returns id (some uuid) = do
  modify (λ m. record m { device_id_map = erase id m.device_id_map })
  m ← get
  forget returns uuid (find uuid m.device_map)

-- `deviceOffline(id)`
unfoldable pub go_offline : (Push → Bool) → ℕ → Action DeviceManager Bool
go_offline returns id = do m ← get; go_offline_as returns id (find id m.device_id_map)

-- The notification that `run` builds after the device has gone, from its memory where it was deleted.
unfoldable pub post_offline : ⦃f : Freed⦄ → String → DeviceInfo → DeviceManager → DeviceManager
post_offline ⦃f⦄ uuid d m = record m {
  posted =
      m.posted
      ++ (elim (find uuid m.device_map) [
        | none ↦ (f.freed_id d, f.freed_uuid d)
        | some _ ↦ (d.id, d.uuid)
      ])
        ∷ [];
}

unfoldable pub go_over_as :
    ⦃f : Freed⦄ → (Push → Bool) → ℕ → String → Option DeviceInfo → Action DeviceManager (Unit {0})
unfolding post_offline
go_over_as returns now uuid none = pure tt
go_over_as returns now uuid (some d) =
    if expired now d then (do go_offline returns d.id; modify (post_offline uuid d)) else pure tt

-- The body of the loop in `run` for one entry.
unfoldable pub go_over : ⦃f : Freed⦄ → (Push → Bool) → ℕ → String → Action DeviceManager (Unit {0})
go_over returns now uuid = do m ← get; go_over_as returns now uuid (find uuid m.device_map)

-- One round of `run`; an exception ends its thread.
unfoldable pub go_round :
    ⦃f : Freed⦄ → (Push → Bool) → ℕ → List String → Action DeviceManager (Unit {0})
go_round returns now [] = pure tt
go_round returns now (uuid ∷ rest) = do go_over returns now uuid; go_round returns now rest

device_offline_id-posted :
    (id : ℕ) (m : DeviceManager) → (device_offline_id id m).1.posted ≡ m.posted
unfolding device_offline_id
device_offline_id-posted id m =
    option-rule (λ (x : Bool × DeviceManager). x.1.posted ≡ m.posted) (find id m.device_id_map)
      (λ _. refl)
      (λ uuid _.
        option-rule (λ (x : Bool × DeviceManager). x.1.posted ≡ m.posted) (find uuid m.device_map)
          (λ _. refl) (λ d _. refl))

-- The notification joins those that were posted before the device went.
post_offline-lem :
    ⦃f : Freed⦄ (uuid : String) (d : DeviceInfo) (m gone : DeviceManager)
    → gone.posted ≡ m.posted
    → post_offline uuid d gone ≡ record gone {
      posted =
          m.posted
          ++ (elim (find uuid gone.device_map) [
            | none ↦ (f.freed_id d, f.freed_uuid d)
            | some _ ↦ (d.id, d.uuid)
          ])
            ∷ [];
    }
unfolding post_offline
post_offline-lem ⦃f⦄ uuid d m gone h = rw h refl

module _ (returns : Push → Bool) (all : (p : Push) → returns p ≡ true) where
  call_pushes-all :
      (ps : List Push) (m : DeviceManager)
      → call_pushes returns ps m ≡ (ok tt, record m { pushed = m.pushed ++ ps })
  unfolding call_pushes ◌>>=◌
  call_pushes-all [] m = rw append-nil refl
  call_pushes-all (p ∷ ps) m = rw (all p) (
      call_pushes-all ps (record m { pushed = m.pushed ++ p ∷ [] })
      ∙ rw (append_assoc m.pushed (p ∷ []) ps) refl)

  forget-all :
      (id : ℕ) (uuid : String) (m : DeviceManager) (o : Option DeviceInfo)
      → find uuid m.device_map ≡ o
      → forget returns uuid o (record m { device_id_map = erase id m.device_id_map }) ≡ (
        ok true,
        elim o [
          | none ↦ record m { device_id_map = erase id m.device_id_map }
          | some d ↦ record m {
            device_id_map = erase id m.device_id_map;
            device_map = erase uuid m.device_map;
            pushed = m.pushed ++ pushes d (went_offline uuid);
          }
        ],
      )
  unfolding forget ◌>>=◌
  forget-all id uuid m none e = refl
  forget-all id uuid m (some d) e =
      rw
        (call_pushes-all (pushes d (went_offline uuid)) (record m {
          device_map = erase uuid m.device_map;
          device_id_map = erase id m.device_id_map;
        }))
        refl

  go_offline-all :
      (id : ℕ) (m : DeviceManager)
      → go_offline returns id m ≡ (ok (device_offline_id id m).0, (device_offline_id id m).1)
  unfolding go_offline go_offline_as device_offline_id ◌>>=◌
  go_offline-all id m = elim (Option-cases (find id m.device_id_map)) [
    | inl e ↦ rw (e, go_offline_as, device_offline_id) refl
    | inr (uuid, e) ↦
        rw (e, go_offline_as, device_offline_id)
          (elim (Option-cases (find uuid m.device_map)) [
            | inl n ↦ rw (n, device_offline_id) (forget-all id uuid m none n)
            | inr (d, h) ↦ rw (h, device_offline_id) (forget-all id uuid m (some d) h)
          ])
  ]

  go_online-all :
      (uuid token : String) (sock_id now : ℕ) (m : DeviceManager)
      → go_online returns uuid token sock_id now m ≡ (
        ok (device_online uuid token sock_id now m).0,
        (device_online uuid token sock_id now m).1,
      )
  unfolding go_online go_online_as device_online call_pushes update insert pushes ◌>>=◌
  go_online-all uuid token sock_id now m = elim (Option-cases (find uuid m.device_map)) [
    | inl e ↦ rw (e, go_online_as, device_online) refl
    | inr (d, e) ↦
        rw (e, go_online_as, device_online)
          (elim (Bool-cases d.online) [
            | inl on ↦ rw on refl
            | inr off ↦ rw off (elim (Bool-cases (token == d.token)) [
              | inl same ↦ rw same (
                  rw
                    (call_pushes-all (pushes d (came_online d.uuid)) (record m {
                      device_map =
                          update uuid (record d { online = true; id = sock_id }) m.device_map;
                      device_id_map = insert sock_id uuid m.device_id_map;
                    }))
                    refl)
              | inr other ↦ rw other refl
            ])
          ])
  ]

  module _ ⦃f : Freed⦄ where
    go_over-all :
        (now : ℕ) (uuid : String) (m : DeviceManager)
        → go_over returns now uuid m ≡ (ok tt, check_entry now uuid m)
    unfolding go_over go_over_as check_entry ◌>>=◌
    go_over-all now uuid m = elim (Option-cases (find uuid m.device_map)) [
      | inl e ↦ rw (e, go_over_as, check_entry) refl
      | inr (d, e) ↦
          rw (e, go_over_as, check_entry)
            (elim (Bool-cases (expired now d)) [
              | inl old ↦ rw old (
                  rw (go_offline-all d.id m) (
                    ap (λ g. (ok tt, g))
                      (post_offline-lem uuid d m (device_offline_id d.id m).1
                        (device_offline_id-posted d.id m))))
              | inr young ↦ rw young refl
            ])
    ]

    go_round-all :
        (now : ℕ) (uuids : List String) (m : DeviceManager)
        → go_round returns now uuids m ≡ (ok tt, check_entries now uuids m)
    unfolding go_round check_entries ◌>>=◌
    go_round-all now [] m = refl
    go_round-all now (uuid ∷ rest) m =
        rw (go_over-all now uuid m) (go_round-all now rest (check_entry now uuid m))

-- A device that is online, has a phone and is silent for more than two minutes, while the push service
-- cannot be reached: the registry forgets the device and its socket and then the thread of `run` ends
-- by the exception, before a notification is posted and before the entries that follow are looked at.
pub go_round_broken :
    ⦃f : Freed⦄ (returns : Push → Bool) (now : ℕ) (uuid : String) (rest : List String)
    (m : DeviceManager) (d : DeviceInfo) (p : Push) (ps : List Push)
    → find uuid m.device_map ≡ some d
    → find d.id m.device_id_map ≡ some uuid
    → expired now d ≡ true
    → pushes d (went_offline uuid) ≡ p ∷ ps
    → returns p ≡ false
    → go_round returns now (uuid ∷ rest) m ≡ (
      thrown,
      record m {
        device_map = erase uuid m.device_map;
        device_id_map = erase d.id m.device_id_map;
        pushed = m.pushed ++ p ∷ [];
      },
    )
unfolding go_round go_over go_over_as go_offline go_offline_as forget call_pushes ◌>>=◌
go_round_broken returns now uuid rest m d p ps e h old calls broken =
    rw e (rw old (rw h (rw e (rw calls (rw broken refl)))))
