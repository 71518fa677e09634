-- ===== src/Shared/Course.antt =====
-- How a call of the start-up code can end: it returns, or throws, or waits for ever, or touches memory
-- that is not there.
use mathlib.Core.Bool.{Bool, true, false}
use mathlib.Core.Option.{Option, none, some}
use shuchuang.Shared.Tests.{if◌then◌else◌}

pub data Course (A : Type 0) : Type 0 where
  returns : A → Course A
  throws blocks crashes : Course A

-- A pointer to what A describes: never set, null, to an object, or to one that was deleted.
pub data Pointer (A : Type 0) : Type 0 where
  wild null freed : Pointer A
  live : A → Pointer A

abbrev pub Call : Type 0 → Type 0 → Type 0
Call S A = S → Course A × S

module _ {S A : Type 0} where
  unfoldable pub give : A → Call S A
  give a s = (returns a, s)

  unfoldable pub end_by : Course A → Call S A
  end_by c s = (c, s)

  unfoldable pub value_or_throw : Option A → Call S A
  unfolding give end_by
  value_or_throw none = end_by throws
  value_or_throw (some a) = give a

module _ {S : Type 0} where
  unfoldable pub update : (S → S) → Call S (Unit {0})
  update f s = (returns tt, f s)

module _ {S A B : Type 0} where
  abbrev pub proceed : Course A → (A → Call S B) → Call S B
  proceed (returns a) f s = f a s
  proceed throws f s = (throws, s)
  proceed blocks f s = (blocks, s)
  proceed crashes f s = (crashes, s)

  infixl 5 ◌>>=◌ ◌>>◌
  -- Opening this opens the steps too.
  unfoldable pub ◌>>=◌ : Call S A → (A → Call S B) → Call S B
  unfolding give end_by value_or_throw update
  ◌>>=◌ m f s = let (r, s') = m s in proceed r f s'

  abbrev pub ◌>>◌ : Call S A → Call S B → Call S B
  m >> n = m >>= λ _. n

module _ {S A : Type 0} where
  -- What holds after a call: `Q` where it returns, `E` where it throws, and it does not crash.
  unfoldable pub Ended : (A → S → Type 0) → (S → Type 0) → Course A → S → Type 0
  Ended Q E (returns a) s = Q a s
  Ended Q E throws s = E s
  Ended Q E blocks s = Unit
  Ended Q E crashes s = ⊥

  -- A call from a state where `P` holds ends so.
  pub record Meets (E P : S → Type 0) (m : Call S A) (Q : A → S → Type 0) : Type 0 where
    pub at : (s : S) → P s → Ended Q E (m s).0 (m s).1

module _ {S A : Type 0} {E P : S → Type 0} {Q : A → S → Type 0} where
  pub Meets-give : (a : A) → ((s : S) → P s → Q a s) → Meets E P (give a) Q
  unfolding give Ended
  Meets-give a h = record { at = h }

  pub Meets-throws : ((s : S) → P s → E s) → Meets E P (end_by throws) Q
  unfolding end_by Ended
  Meets-throws h = record { at = h }

  pub Meets-blocks : Meets E P (end_by blocks) Q
  unfolding end_by Ended
  Meets-blocks = record { at = λ s h. tt }

  pub Meets-if :
      (test : Bool) (m n : Call S A)
      → Meets E P m Q
      → Meets E P n Q
      → Meets E P (if test then m else n) Q
  Meets-if true m n t f = t
  Meets-if false m n t f = f

  pub Meets-value_or_throw :
      (o : Option A)
      → ((s : S) → P s → E s)
      → ((a : A) (s : S) → P s → Q a s)
      → Meets E P (value_or_throw o) Q
  unfolding value_or_throw give end_by Ended
  Meets-value_or_throw none e q = record { at = e }
  Meets-value_or_throw (some a) e q = record { at = q a }

module _ {S : Type 0} {E P : S → Type 0} {Q : Unit {0} → S → Type 0} where
  pub Meets-update : (f : S → S) → ((s : S) → P s → Q tt (f s)) → Meets E P (update f) Q
  unfolding update Ended
  Meets-update f h = record { at = h }

module _ {S A B : Type 0} {E : S → Type 0} {R : A → S → Type 0} {Q : B → S → Type 0} where
  proceed-Ended :
      (c : Course A) (s : S) (f : A → Call S B)
      → Ended R E c s
      → ((a : A) → Meets E (R a) (f a) Q)
      → Ended Q E (proceed c f s).0 (proceed c f s).1
  unfolding Ended
  proceed-Ended (returns a) s f h k = (k a).at s h
  proceed-Ended throws s f h k = h
  proceed-Ended blocks s f h k = tt
  proceed-Ended crashes s f h k = absurd h

  pub Meets-bind :
      {P : S → Type 0}
      → (m : Call S A) (f : A → Call S B) → Meets E P m R
      → ((a : A) → Meets E (R a) (f a) Q)
      → Meets E P (m >>= f) Q
  unfolding ◌>>=◌
  Meets-bind m f h k = record { at = λ s p. proceed-Ended (m s).0 (m s).1 f (h.at s p) k }
