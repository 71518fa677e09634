-- ===== src/Device/Door/Relay.antt =====
-- The relay and `m_door_open` of CDeviceController.
use shuchuang.Shared.{
  ◌≡◌, refl, arith, Bool, true, false, List, [], ◌∷◌, ◌++◌, ◌==◌, if◌then◌else◌, if-rule, ◌∙◌,
}
use shuchuang.Shared.Int.{ℤ, pos, negsuc, int_key}
use shuchuang.Device.OperationTable.{
  DeviceController, Ioctl, relay_on, relay_off, run_on, run_off, error_on, error_off,
}
use shuchuang.Device.Door.{issue, open_device, switch, err_on, err_off, same}

-- What the relay is after the commands.
abbrev pub relay : Bool → List Ioctl → Bool
relay now [] = now
relay now (relay_on ∷ cs) = relay true cs
relay now (relay_off ∷ cs) = relay false cs
relay now (_ ∷ cs) = relay now cs

-- While the port is open, the relay is on for an open door in a build with ON_NORMAL_CLOSE, and off in one without.
pub record Matches (start : Bool) (d : DeviceController) : Type 0 where
  pub matched :
      (d.fd == negsuc 0) ≡ false → relay start d.commands ≡ same d.door_open d.on_normal_close

pub data DoorCall : Type 0 where
  opens_port : ℤ → DoorCall
  switches : Bool → DoorCall
  errs_on errs_off : DoorCall

pub act : DeviceController → DoorCall → DeviceController
act d (opens_port fd) = (open_device fd d).1
act d (switches b) = switch b d
act d errs_on = (err_on d).1
act d errs_off = (err_off d).1

pub acts : DeviceController → List DoorCall → DeviceController
unfolding act
acts d [] = d
acts d (c ∷ cs) = acts (act d c) cs

relay-append : (b : Bool) (xs ys : List Ioctl) → relay b (xs ++ ys) ≡ relay (relay b xs) ys
relay-append b [] ys = refl
relay-append b (relay_on ∷ xs) ys = relay-append true xs ys
relay-append b (relay_off ∷ xs) ys = relay-append false xs ys
relay-append b (run_on ∷ xs) ys = relay-append b xs ys
relay-append b (run_off ∷ xs) ys = relay-append b xs ys
relay-append b (error_on ∷ xs) ys = relay-append b xs ys
relay-append b (error_off ∷ xs) ys = relay-append b xs ys

same-relay : (a b n : Bool) → relay a ((if same b n then relay_on else relay_off) ∷ []) ≡ same b n
same-relay a true true = refl
same-relay a true false = refl
same-relay a false true = refl
same-relay a false false = refl

port-relay :
    (b n : Bool)
    → relay b (if n then relay_off ∷ run_on ∷ [] else relay_on ∷ run_off ∷ []) ≡ same false n
port-relay b true = refl
port-relay b false = refl

-- The commands go out where the port is open.
issue-Matches :
    (start b : Bool) (cs : List Ioctl) (d : DeviceController)
    → (d.fd == negsuc 0) ≡ false
    → relay (relay start d.commands) cs ≡ same b d.on_normal_close
    → relay start (issue cs d).commands ≡ same b d.on_normal_close
issue-Matches start b cs d port e = rw port (relay-append start d.commands cs ∙ e)

act-Matches :
    (start : Bool) (d : DeviceController) (c : DoorCall) → Matches start d → Matches start (act d c)
unfolding act open_device switch err_on err_off
act-Matches start d (opens_port fd) m =
    if-rule (λ (r : Bool × DeviceController). Matches start r.1) (fd == negsuc 0)
      (λ e. record { matched = λ port. ground (arith, e, port) })
      (λ e. record {
        matched = λ port.
            issue-Matches start false _ (record d { fd = fd; door_open = false }) port
              (port-relay _ d.on_normal_close);
      })
act-Matches start d (switches b) m = record {
  matched = λ port.
      issue-Matches start b _ (record d { door_open = b }) port (same-relay _ b d.on_normal_close);
}
act-Matches start d errs_on m =
    if-rule (λ (r : Bool × DeviceController). Matches start r.1) (d.fd == pos 0) (λ _. m)
      (λ _. record { matched = λ port. issue-Matches start d.door_open _ d port (m.matched port) })
act-Matches start d errs_off m =
    if-rule (λ (r : Bool × DeviceController). Matches start r.1) (d.fd == pos 0) (λ _. m)
      (λ _. record { matched = λ port. issue-Matches start d.door_open _ d port (m.matched port) })

-- Whatever is called, the relay agrees with `m_door_open` while the port is open, if it did before.
pub acts-Matches :
    (start : Bool) (d : DeviceController) (cs : List DoorCall)
    → Matches start d
    → Matches start (acts d cs)
unfolding acts
acts-Matches start d [] m = m
acts-Matches start d (c ∷ cs) m = acts-Matches start (act d c) cs (act-Matches start d c m)
