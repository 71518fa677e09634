-- ===== src/Device/Network/Setup.antt =====
-- CNetworkManager: what `initIf` does to the interface.
use Prim.Native.String.{String}
use shuchuang.Shared.{
  ℕ, ◌/◌, ◌%◌, ◌≡◌, refl, true, Option, none, some, List, arith, string_key, Bool-cases,
  Option-cases, inl, inr,
}
use shuchuang.Shared.Outcome.{ok, pure, ◌>>=◌}
use shuchuang.Shared.Poco.{Json}
use shuchuang.Device.Network.{Link, Says, set_up, read_mac, init_if}
use shuchuang.Device.Network.Mac.{digits, pairs, read_mac-pairs}

-- The interface is up with the address, and its other flags are as they were.
pub IsUpWith : List ℕ → Link → Link → Type 0
IsUpWith mac l k = (k.flags % 2 ≡ 1) × (k.hwaddr ≡ mac) × (k.flags / 2 ≡ l.flags / 2)

set_up-IsUpWith :
    (a b c : Says) (mac : List ℕ) (l : Link)
    → (set_up a b c (some mac) l).0 ≡ ok true
    → IsUpWith mac l (set_up a b c (some mac) l).1
unfolding set_up IsUpWith ◌>>=◌
set_up-IsUpWith a b c mac l e = (ground (arith, e), ground (arith, e), ground (arith, e))

with_mac-IsUpWith :
    (a b c : Says) (text : String) (l : Link)
    → (set_up a b c (read_mac text) l).0 ≡ ok true
    → (ts : List ℕ) × (digits 12 text ≡ some ts)
      × IsUpWith (pairs ts) l (set_up a b c (read_mac text) l).1
unfolding set_up pure
with_mac-IsUpWith a b c text l = elim (Option-cases (digits 12 text)) [
  | inl e ↦ rw (read_mac-pairs text, e) λ h. ground arith
  | inr (ts, e) ↦ rw (read_mac-pairs text, e) λ h. (ts, refl, set_up-IsUpWith a b c (pairs ts) l h)
]

module _ {O : Type 0} ⦃j : Json O⦄ where
  -- The address that the configuration gives, where it gives one.
  pub Configured : Option O → List ℕ → Type 0
  Configured config ts =
      (d : O) × (text : String) × (config ≡ some d)
      × (j.get_string d "mac" ≡ some text)
      × (digits 12 text ≡ some ts)

  -- Where `initIf` says that it went well, the configuration gives an address, whose first twelve
  -- characters are digits; the interface is up, its address is the bytes of these digits, and its
  -- other flags are as they were.
  pub init_if-IsUpWith :
      (a b c : Says) (config : Option O) (l : Link)
      → (init_if a b c config l).0 ≡ ok true
      → (ts : List ℕ) × Configured config ts × IsUpWith (pairs ts) l (init_if a b c config l).1
  unfolding init_if Configured pure ◌>>=◌
  init_if-IsUpWith a b c none l = λ e. ground arith
  init_if-IsUpWith a b c (some d) l = elim (Bool-cases (j.has d "mac")) [
    | inr f ↦ rw f (λ e. ground arith)
    | inl t ↦ rw t (elim (Option-cases (j.get_string d "mac")) [
      | inl f ↦ rw f (λ e. ground arith)
      | inr (text, at) ↦ rw at (λ e.
          let (ts, dg, set) = with_mac-IsUpWith a b c text l e in
          (ts, (d, text, refl, at, dg), set))
    ])
  ]
