-- ===== src/Device/Network/Mac.antt =====
-- The address of CNetworkManager: the loop of `initIf` against the pairs of digits.
use Prim.Native.Char.{Char, code}
use Prim.Native.String.{String}
use shuchuang.Shared.{
  ℕ, zero, suc, ◌+◌, ◌*◌, ◌%◌, ◌/◌, ◌<◌, ◌≡◌, refl, sym, ap, ◌∙◌, Option, none, some, List, [], ◌∷◌,
  ◌++◌, arith, length, length-append, nat_key, Option-cases, inl, inr,
}
use mathlib.Core.List.{append_assoc}
use shuchuang.Device.Network.Digits.{digit, hex_value-digit}
use shuchuang.Device.Network.{hex_value, add_at, read_digits, read_mac}

abbrev pub with_digit : ℕ → Option (List ℕ) → Option (List ℕ)
with_digit t none = none
with_digit t (some ts) = some (t ∷ ts)

-- What the loop takes for the digits of the first characters of a text.
unfoldable values : ℕ → String → Option (List ℕ)
values zero s = some []
values (suc n) String.[] = none
values (suc n) (String.◌∷◌ c s) = elim (hex_value (code c)) [
  | none ↦ none
  | some t ↦ with_digit t (values n s)
]

-- The digits of the first characters of a text, if each of them is one.
unfoldable pub digits : ℕ → String → Option (List ℕ)
digits zero s = some []
digits (suc n) String.[] = none
digits (suc n) (String.◌∷◌ c s) = elim (digit (code c)) [
  | none ↦ none
  | some t ↦ with_digit t (digits n s)
]

values-digits : (n : ℕ) (s : String) → values n s ≡ digits n s
unfolding values digits
values-digits zero s = refl
values-digits (suc n) String.[] = refl
values-digits (suc n) (String.◌∷◌ c s) =
    rw (values, hex_value-digit (code c))
      (elim (Option-cases (digit (code c))) [
        | inl e ↦ rw (digits, e) refl
        | inr (t, e) ↦ rw (digits, e) (ap (with_digit t) (values-digits n s))
      ])

-- Two digits make a byte.
unfoldable pub pairs : List ℕ → List ℕ
pairs (h ∷ l ∷ ts) = (h * 16 + l) ∷ pairs ts
pairs _ = []

hex_value-bound : (c t : ℕ) → hex_value c ≡ some t → t < 16
unfolding hex_value
hex_value-bound c t e = ground arith

zeros : ℕ → List ℕ
zeros zero = []
zeros (suc n) = 0 ∷ zeros n

add_at-middle :
    (done rest : List ℕ) (v b : ℕ)
    → add_at (length done) v (done ++ b ∷ rest) ≡ done ++ (b + v) % 256 ∷ rest
unfolding add_at
add_at-middle [] rest v b = refl
add_at-middle (d ∷ done) rest v b = rw (add_at-middle done rest v b) refl

next_index : (n : ℕ) → suc (suc (n * 2)) ≡ suc n * 2
next_index n = omega arith

high : (n : ℕ) → n * 2 / 2 ≡ n
high n = omega arith

low : (n : ℕ) → suc (n * 2) / 2 ≡ n
low n = omega arith

even : (n : ℕ) → n * 2 % 2 ≡ 0
even n = omega arith

odd : (n : ℕ) → suc (n * 2) % 2 ≡ 1
odd n = omega arith

abbrev twice : ℕ → ℕ
twice zero = 0
twice (suc k) = suc (suc (twice k))

wrapped : (h l : ℕ) → h < 16 → l < 16 → ((0 + h * 16) % 256 + l) % 256 ≡ h * 16 + l
wrapped h l a b = omega arith

add_two :
    (n : ℕ) (done rest : List ℕ) (h l : ℕ)
    → length done ≡ n
    → h < 16
    → l < 16
    → add_at n l (add_at n (h * 16) (done ++ 0 ∷ rest)) ≡ done ++ (h * 16 + l) ∷ rest
add_two n done rest h l at a b = rw⁻¹ at (
    ap (add_at (length done) l) (add_at-middle done rest (h * 16) 0)
    ∙ add_at-middle done rest l ((0 + h * 16) % 256)
    ∙ ap (λ x. done ++ x ∷ rest) (wrapped h l a b))

-- Two digits go to one byte, which was 0.
two_digits :
    (m n : ℕ) (c c' : Char) (s : String) (done rest : List ℕ) (h l : ℕ)
    → hex_value (code c) ≡ some h
    → hex_value (code c') ≡ some l
    → length done ≡ n
    → read_digits (suc (suc m)) (n * 2) (String.◌∷◌ c (String.◌∷◌ c' s)) (done ++ 0 ∷ rest)
      ≡ read_digits m (suc (suc (n * 2))) s (done ++ (h * 16 + l) ∷ rest)
unfolding read_digits
two_digits m n c c' s done rest h l e e' at =
    rw (read_digits, e)
      (rw (read_digits, e')
        (rw (high n, low n, even n, odd n)
          (ap (read_digits m (suc (suc (n * 2))) s) (
            add_two n done rest h l at (hex_value-bound (code c) h e)
              (hex_value-bound (code c') l e')))))

abbrev bytes_after : List ℕ → Option (List ℕ) → Option (List ℕ)
bytes_after done none = none
bytes_after done (some ts) = some (done ++ pairs ts)

bytes_after-pairs :
    (done : List ℕ) (h l : ℕ) (o : Option (List ℕ))
    → bytes_after (done ++ (h * 16 + l) ∷ []) o ≡ bytes_after done (with_digit h (with_digit l o))
unfolding pairs
bytes_after-pairs done h l none = refl
bytes_after-pairs done h l (some ts) = ap some (append_assoc done ((h * 16 + l) ∷ []) (pairs ts))

next_byte :
    (k n : ℕ) (done rest : List ℕ) (s : String) (b : ℕ)
    → read_digits k (suc (suc (n * 2))) s (done ++ b ∷ rest)
      ≡ read_digits k (suc n * 2) s ((done ++ b ∷ []) ++ rest)
next_byte k n done rest s b =
    ap (λ i. read_digits k i s (done ++ b ∷ rest)) (next_index n)
    ∙ ap (read_digits k (suc n * 2) s) (sym (append_assoc done (b ∷ []) rest))

values-two :
    (m : ℕ) (c c' : Char) (s : String) (h l : ℕ)
    → hex_value (code c) ≡ some h
    → hex_value (code c') ≡ some l
    → values (suc (suc m)) (String.◌∷◌ c (String.◌∷◌ c' s))
      ≡ with_digit h (with_digit l (values m s))
unfolding values
values-two m c c' s h l e e' = rw (values, e) (rw (values, e') refl)

pair_step :
    (k n : ℕ) (done : List ℕ) (c : Char) (s : String) (h : ℕ)
    → length done ≡ n
    → hex_value (code c) ≡ some h
    → ((d : List ℕ) (r : String)
        → length d ≡ suc n
        → read_digits (twice k) (suc n * 2) r (d ++ zeros k) ≡ bytes_after d (values (twice k) r))
    → read_digits (suc (suc (twice k))) (n * 2) (String.◌∷◌ c s) (done ++ 0 ∷ zeros k)
      ≡ bytes_after done (values (suc (suc (twice k))) (String.◌∷◌ c s))
unfolding read_digits values
pair_step k n done c String.[] h at e ih = rw (read_digits, values, e) refl
pair_step k n done c (String.◌∷◌ c' s) h at e ih = elim (Option-cases (hex_value (code c'))) [
  | inl e' ↦ rw (read_digits, values, e) (rw (read_digits, values, e') refl)
  | inr (l, e') ↦
      two_digits (twice k) n c c' s done (zeros k) h l e e' at
      ∙ next_byte (twice k) n done (zeros k) s (h * 16 + l)
      ∙ ih (done ++ (h * 16 + l) ∷ []) s
          (rw (length-append done ((h * 16 + l) ∷ []), at) (omega arith))
      ∙ bytes_after-pairs done h l (values (twice k) s)
      ∙ ap (bytes_after done) (sym (values-two (twice k) c c' s h l e e'))
]

-- The bytes before are done, and the ones to come are 0.
read_digits-pairs :
    (k n : ℕ) (done : List ℕ) (s : String)
    → length done ≡ n
    → read_digits (twice k) (n * 2) s (done ++ zeros k) ≡ bytes_after done (values (twice k) s)
unfolding read_digits values zeros pairs
read_digits-pairs zero n done s at = refl
read_digits-pairs (suc k) n done String.[] at = refl
read_digits-pairs (suc k) n done (String.◌∷◌ c s) at = elim (Option-cases (hex_value (code c))) [
  | inl e ↦ rw (read_digits, values, e) refl
  | inr (h, e) ↦ pair_step k n done c s h at e (λ d r. read_digits-pairs k (suc n) d r)
]

abbrev pub bytes_of : Option (List ℕ) → Option (List ℕ)
bytes_of none = none
bytes_of (some ts) = some (pairs ts)

from_start : (o : Option (List ℕ)) → bytes_after [] o ≡ bytes_of o
from_start none = refl
from_start (some ts) = refl

-- The loop of `initIf`, which adds each digit to a byte in place, gives the bytes of the pairs of the
-- first twelve digits, the high one first, and refuses a text that has another character among its
-- first twelve or is shorter.
pub read_mac-pairs : (s : String) → read_mac s ≡ bytes_of (digits 12 s)
unfolding read_mac zeros
read_mac-pairs s =
    read_digits-pairs 6 0 [] s refl ∙ from_start (values 12 s) ∙ ap bytes_of (values-digits 12 s)
