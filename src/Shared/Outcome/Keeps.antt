-- ===== src/Shared/Outcome/Keeps.antt =====
-- Invariants of handlers, whether they end well or not: one rule for each way to build one.
use mathlib.Core.Path.{◌≡◌, refl}
use mathlib.Core.Bool.{Bool, true, false}
use mathlib.Core.Option.{Option, none, some}
use Prim.Native.String.{String}
use shuchuang.Shared.Tests.{if◌then◌else◌}
use shuchuang.Shared.Outcome.{
  Outcome, ok, failed, thrown, Action, pure, fail, or_throw, get, modify, fail_if, ◌>>=◌,
}

pub record Keeps {S A : Type 0} (P : S → Type 0) (m : Action S A) : Type 0 where
  pub at : (s : S) → P s → P (m s).1

module _ {S A : Type 0} {P : S → Type 0} where
  pub Keeps-fail : (d : String) → Keeps P (fail {A = A} d)
  unfolding fail
  Keeps-fail d = record { at = λ s h. h }

  pub Keeps-pure : (value : A) → Keeps P (pure value)
  unfolding pure
  Keeps-pure value = record { at = λ s h. h }

  pub Keeps-or_throw : (o : Option A) → Keeps P (or_throw o)
  unfolding or_throw
  Keeps-or_throw none = record { at = λ s h. h }
  Keeps-or_throw (some a) = record { at = λ s h. h }

  pub Keeps-if :
      (test : Bool) (m n : Action S A)
      → (test ≡ false → Keeps P n)
      → (test ≡ true → Keeps P m)
      → Keeps P (if test then m else n)
  Keeps-if false m n f t = f refl
  Keeps-if true m n f t = t refl

module _ {S : Type 0} {P : S → Type 0} where
  pub Keeps-modify : (f : S → S) → ((s : S) → P s → P (f s)) → Keeps P (modify f)
  unfolding modify
  Keeps-modify f h = record { at = h }

  pub Keeps-get : Keeps P (get {S = S})
  unfolding get
  Keeps-get = record { at = λ s h. h }

  pub Keeps-fail_if : (b : Bool) (d : String) → Keeps P (fail_if {S = S} b d)
  unfolding fail_if
  Keeps-fail_if b d = record { at = λ s h. h }

module _ {S A B : Type 0} {P : S → Type 0} where
  continue-keeps :
      (r : Outcome A) (m : Action S A) (f : A → Action S B) (s : S)
      → m s ≡ (r, (m s).1)
      → P (m s).1
      → ((a : A) → Keeps P (f a))
      → P ((m >>= f) s).1
  unfolding ◌>>=◌
  continue-keeps (ok a) m f s e h k = rw e ((k a).at (m s).1 h)
  continue-keeps (failed d) m f s e h k = rw e h
  continue-keeps thrown m f s e h k = rw e h

  pub Keeps-bind :
      (begin : Action S A) (rest : A → Action S B)
      → Keeps P begin
      → ((value : A) → Keeps P (rest value))
      → Keeps P (begin >>= rest)
  Keeps-bind m f km kf = record { at = λ s h. continue-keeps (m s).0 m f s refl (km.at s h) kf }

  -- What a handler establishes is kept by the rest.
  pub then-keeps :
      (m : Action S A) (f : A → Action S B) (s : S)
      → P (m s).1
      → ((a : A) → Keeps P (f a))
      → P ((m >>= f) s).1
  then-keeps m f s h k = continue-keeps (m s).0 m f s refl h k

module _ {S B : Type 0} {P : S → Type 0} where
  -- What is read meets the invariant.
  pub Keeps-bind-get : (f : S → Action S B) → ((s : S) → P s → Keeps P (f s)) → Keeps P (get >>= f)
  unfolding ◌>>=◌
  Keeps-bind-get f k = record { at = λ s h. (k s h).at s h }

  -- The rest may use that the test did not stop the handler.
  pub Keeps-bind-fail_if :
      (b : Bool) (d : String) (f : Unit {0} → Action S B)
      → (b ≡ false → Keeps P (f tt))
      → Keeps P (fail_if b d >>= f)
  unfolding ◌>>=◌
  Keeps-bind-fail_if true d f k = record { at = λ s h. h }
  Keeps-bind-fail_if false d f k = k refl

pub ruleset keeps_rules = (
  Keeps-bind-get, Keeps-bind-fail_if, Keeps-pure, Keeps-fail, Keeps-or_throw, Keeps-if, Keeps-get,
  Keeps-fail_if, Keeps-bind,
)
