-- ===== src/Device/Door/Opening.antt =====
-- Who may open the door: `openDoor` and `closeDoor` of CDeviceController with CUserManager and
-- COpManager.
use shuchuang.Shared.{
  String, ◌≡◌, ◌∙◌, ap, Bool, true, false, none, some, not, ◌||◌, ◌⊎◌, inl, inr, Bool-cases,
  Option-cases, arith, ◌==◌, string_key,
}
use shuchuang.Shared.Int.{pos, int_key, ◌+ℤ◌}
use shuchuang.Shared.Outcome.{ok, failed}
use shuchuang.Shared.Poco.{Json, Sqlite}
use shuchuang.Device.UserTable.{UserRecordNode}
use shuchuang.Device.TaskTable.{offset_us}
use shuchuang.Device.World.{World, steps}
use shuchuang.Device.Users.{can_user_open_door, user_open_door, get_user_name_from_token}
use shuchuang.Device.Records.{add_record}
use shuchuang.Device.Door.{switch, log_switch, open_closed, open_door, mode_forbids, or_empty}

both : {b : Bool} → b ≡ false → b ≡ true → ⊥
both e f = cc

module _ {O : Type 0} ⦃j : Json O⦄ ⦃q : Sqlite UserRecordNode⦄ where
  -- A user who may not open the door, for his openings are used up or for the mode of the device, is
  -- refused with "421": the door, the users and the records stay as they are. The door is closed and
  -- its port is open.
  pub open_door_refused :
      (token : String) (o : O) (w : World O)
      → w.param ≡ some o
      → j.get_string o "token" ≡ some token
      → (w.door.fd == pos 0) ≡ false
      → w.door.door_open ≡ false
      → (not (can_user_open_door token w.users) || mode_forbids token w) ≡ true
      → let (r, w') = open_door w in
        (r ≡ failed "421") × (w'.door ≡ w.door) × (w'.users ≡ w.users) × (w'.ops ≡ w.ops)
  unfolding open_door open_closed steps
  open_door_refused token o w e t fd shut refused =
      (ground arith, ground arith, ground arith, ground arith)

  -- A user who may open the door opens it: the relay is switched, the opening is counted for his
  -- token, and one record with his name and the local time joins the others.
  pub open_door_allowed :
      (token : String) (o : O) (w : World O)
      → w.param ≡ some o
      → j.get_string o "token" ≡ some token
      → (w.door.fd == pos 0) ≡ false
      → w.door.door_open ≡ false
      → can_user_open_door token w.users ≡ true
      → mode_forbids token w ≡ false
      → let (r, w') = open_door w in
        (r ≡ ok tt)
        × (w'.door ≡ switch true w.door)
        × (w'.users ≡ user_open_door token w.users)
        × (w'.ops
            ≡ add_record
                (record {
                  timestamp = w.now +ℤ offset_us w.tzd;
                  operation = pos 1;
                  username = or_empty (get_user_name_from_token token w.users.table);
                  schema = pos 0;
                })
                w.ops)
  unfolding open_door open_closed log_switch steps
  open_door_allowed token o w e t fd shut may mode =
      (ground arith, ground arith, ground arith, ground arith)

  -- A task opens the door whatever the users have left: no user is asked or charged.
  pub open_door_task :
      (w : World O)
      → w.param ≡ none
      → (w.door.fd == pos 0) ≡ false
      → w.door.door_open ≡ false
      → let (r, w') = open_door w in
        (r ≡ ok tt) × (w'.door ≡ switch true w.door) × (w'.users ≡ w.users)
  unfolding open_door open_closed log_switch steps
  open_door_task w e fd shut = (ground arith, ground arith, ground arith)

  -- What has let the door open: a task, or a user who may open it and has been charged for it.
  abbrev pub Allowed : World O → World O → Type 0
  Allowed w w' =
      (w.param ≡ none)
      ⊎ ((o : O) × (token : String) × (w.param ≡ some o)
          × (j.get_string o "token" ≡ some token)
          × (can_user_open_door token w.users ≡ true)
          × (mode_forbids token w ≡ false)
          × (w'.users ≡ user_open_door token w.users))

  open_door_other :
      (o : O) (w : World O)
      → w.param ≡ some o
      → j.get_string o "token" ≡ none
      → w.door.door_open ≡ false
      → (open_door w).1.door.door_open ≡ false
  unfolding open_door open_closed steps
  open_door_other o w e t shut = ground arith

  open_door_portless :
      (w : World O)
      → (w.door.fd == pos 0) ≡ true
      → w.door.door_open ≡ false
      → (open_door w).1.door.door_open ≡ false
  unfolding open_door steps
  open_door_portless w fd shut = ground arith

  by_user :
      (o : O) (w : World O)
      → w.param ≡ some o
      → (w.door.fd == pos 0) ≡ false
      → w.door.door_open ≡ false
      → (open_door w).1.door.door_open ≡ true
      → Allowed w (open_door w).1
  by_user o w e fd shut opened = elim (Option-cases (j.get_string o "token")) [
    | inl t ↦ absurd (both (open_door_other o w e t shut) opened)
    | inr (token, t) ↦
        elim (Bool-cases (not (can_user_open_door token w.users) || mode_forbids token w)) [
          | inl refused ↦
              (let (r, door, users, ops) = open_door_refused token o w e t fd shut refused in
                absurd (both (ap (λ d. d.door_open) door ∙ shut) opened))
          | inr free ↦
              (let may : can_user_open_door token w.users ≡ true = ground (arith, free) in
                let mode : mode_forbids token w ≡ false = ground (arith, free) in
                let (r, door, users, ops) = open_door_allowed token o w e t fd shut may mode in
                inr (o, token, e, t, may, mode, users))
        ]
  ]

  -- The door opens for nobody else: where a call of `openDoor`, whatever it brings, makes a closed door an
  -- open one, the port was asked for, and it was a task, or a user whose token has openings left and whom
  -- the mode of the device does not forbid it, and this opening has been counted for his token.
  pub open_door-Allowed :
      (w : World O)
      → w.door.door_open ≡ false
      → (open_door w).1.door.door_open ≡ true
      → ((w.door.fd == pos 0) ≡ false) × Allowed w (open_door w).1
  open_door-Allowed w shut opened = elim (Bool-cases (w.door.fd == pos 0)) [
    | inl z ↦ absurd (both (open_door_portless w z shut) opened)
    | inr fd ↦ (
      fd,
      elim (Option-cases w.param) [ inl e ↦ inl e | inr (o, e) ↦ by_user o w e fd shut opened ],
    )
  ]
