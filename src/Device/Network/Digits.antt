-- ===== src/Device/Network/Digits.antt =====
-- The digits of an address: `hex_value` against the two texts of the digits.
use Prim.Native.Char.{code}
use Prim.Native.String.{String}
use shuchuang.Shared.{
  ℕ, zero, suc, ◌≡◌, refl, sym, ◌∙◌, Option, none, some, arith, ◌==◌, nat_key, if◌then◌else◌, Bool,
  true, false, Bool-cases, inl, inr, ltb, ◌&&◌, ◌<◌,
}
use shuchuang.Device.Network.{hex_value}

-- The place of a character in a text, counted from a number.
unfoldable place : ℕ → String → ℕ → Option ℕ
place n String.[] c = none
place n (String.◌∷◌ d s) c = if c == code d then some n else place (suc n) s c

-- The digit of a code: its place among those with small letters, or those with capital ones.
unfoldable pub digit : ℕ → Option ℕ
unfolding place
digit c = elim (place 0 "0123456789abcdef" c) [
  | none ↦ place 0 "0123456789ABCDEF" c
  | some t ↦ some t
]

abbrev alike : Option ℕ → Option ℕ → Bool
alike none none = true
alike (some a) (some b) = a == b
alike _ _ = false

alike_eq : (a b : Option ℕ) → alike a b ≡ true → a ≡ b
alike_eq none none e = refl
alike_eq none (some b) e = cc
alike_eq (some a) none e = cc
alike_eq (some a) (some b) e = ground (arith, e)

abbrev all_below : ℕ → (ℕ → Bool) → Bool
all_below zero f = true
all_below (suc n) f = f n && all_below n f

all_below_at : (n c : ℕ) (f : ℕ → Bool) → all_below n f ≡ true → c < n → f c ≡ true
all_below_at zero c f e l = ground arith
all_below_at (suc n) c f e l = elim (Bool-cases (c == n)) [
  | inl s ↦ ground (arith, e, s)
  | inr d ↦ all_below_at n c f (ground (arith, e)) (ground (arith, l, d))
]

-- Below the code after "f" each code is tried.
small : all_below 103 (λ c. alike (hex_value c) (digit c)) ≡ true
unfolding hex_value digit place
small = refl

hex_value-large : (c : ℕ) → ltb c 103 ≡ false → hex_value c ≡ none
unfolding hex_value
hex_value-large c l = ground arith

digit-large : (c : ℕ) → ltb c 103 ≡ false → digit c ≡ none
unfolding digit place
digit-large c l = ground arith

-- The three ranges of `initIf` give the digits of the two texts.
pub hex_value-digit : (c : ℕ) → hex_value c ≡ digit c
hex_value-digit c = elim (Bool-cases (ltb c 103)) [
  | inl l ↦
      alike_eq (hex_value c) (digit c)
        (all_below_at 103 c (λ c. alike (hex_value c) (digit c)) small (ground (arith, l)))
  | inr l ↦ hex_value-large c l ∙ sym (digit-large c l)
]
