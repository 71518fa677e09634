-- ===== src/Shared/Outcome/Gives.antt =====
-- What the result of a handler satisfies where it ends well, and the rest of a handler that follows
-- one that only reads.
use mathlib.Core.Path.{◌≡◌, refl, ap, subst}
use mathlib.Core.Bool.{Bool, true, false}
use mathlib.Core.Option.{Option, none, some}
use Prim.Native.String.{String}
use native.Mathlib.Omega.{arith}
use shuchuang.Shared.Outcome.{
  Outcome, ok, failed, thrown, Action, continue, pure, get, or_throw, fail_if, ◌>>=◌,
}
use shuchuang.Shared.Outcome.Keeps.{Keeps}

-- A handler that only reads.
abbrev pub Reads : {S A : Type 0} → Action S A → Type 0
Reads {S} m = (s : S) → Keeps (λ x. x ≡ s) m

abbrev pub Gives : {S A : Type 0} → (A → Type 0) → Action S A → S → Type 0
Gives {S} {A} R m s = (a : A) → (m s).0 ≡ ok a → R a

value : {A : Type 0} → A → Outcome A → A
value d (ok a) = a
value d _ = d

pub ok_injective : {A : Type 0} (a b : A) → ok a ≡ ok b → a ≡ b
unfolding value
ok_injective a b e = ap (value a) e

module _ {S A : Type 0} (R : A → Type 0) where
  pub Gives-pure : (a : A) (s : S) → R a → Gives R (pure a) s
  unfolding pure
  Gives-pure a s r b e = subst R (ok_injective a b e) r

module _ {S A B : Type 0} (Q : S → Type 0) where
  after-outcome :
      (o : Outcome A) (f : A → Action S B) (s' s : S)
      → s' ≡ s
      → Q s
      → ((a : A) → o ≡ ok a → Q (f a s).1)
      → Q (continue o f s').1
  after-outcome (ok a) f s' s e h k = rw e (k a refl)
  after-outcome (failed d) f s' s e h k = rw e h
  after-outcome thrown f s' s e h k = rw e h

  -- What holds after a handler that follows one that only reads.
  pub after :
      (m : Action S A) (f : A → Action S B) (s : S)
      → Reads m
      → Q s
      → ((a : A) → (m s).0 ≡ ok a → Q (f a s).1)
      → Q ((m >>= f) s).1
  unfolding ◌>>=◌
  after m f s r h k = after-outcome (m s).0 f (m s).1 s ((r s).at s refl) h k

module _ {S A B : Type 0} (R : B → Type 0) where
  give-outcome :
      (o : Outcome A) (f : A → Action S B) (s' s : S)
      → s' ≡ s
      → ((a : A) → o ≡ ok a → Gives R (f a) s)
      → (b : B) → (continue o f s').0 ≡ ok b
      → R b
  give-outcome (ok a) f s' s e k b h = k a refl b (rw e at h)
  give-outcome (failed d) f s' s e k b h = ground arith
  give-outcome thrown f s' s e k b h = ground arith

  pub Gives-bind :
      (m : Action S A) (f : A → Action S B) (s : S)
      → Reads m
      → ((a : A) → (m s).0 ≡ ok a → Gives R (f a) s)
      → Gives R (m >>= f) s
  unfolding ◌>>=◌
  Gives-bind m f s r k b h = give-outcome (m s).0 f (m s).1 s ((r s).at s refl) k b h

module _ {S B : Type 0} (R : B → Type 0) where
  pub Gives-bind-get : (f : S → Action S B) (s : S) → Gives R (f s) s → Gives R (get >>= f) s
  unfolding ◌>>=◌
  Gives-bind-get f s k = k

  pub Gives-bind-or_throw :
      {A : Type 0} (o : Option A) (f : A → Action S B) (s : S)
      → ((a : A) → o ≡ some a → Gives R (f a) s)
      → Gives R (or_throw o >>= f) s
  unfolding ◌>>=◌
  Gives-bind-or_throw none f s k b h = ground arith
  Gives-bind-or_throw (some a) f s k b h = k a refl b h

  pub Gives-bind-fail_if :
      (c : Bool) (d : String) (f : Unit {0} → Action S B) (s : S)
      → (c ≡ false → Gives R (f tt) s)
      → Gives R (fail_if c d >>= f) s
  unfolding ◌>>=◌
  Gives-bind-fail_if true d f s k b h = ground arith
  Gives-bind-fail_if false d f s k b h = k refl b h

module _ {S B : Type 0} (Q : S → Type 0) where
  pub after-fail_if :
      (c : Bool) (d : String) (f : Unit {0} → Action S B) (s : S)
      → Q s
      → (c ≡ false → Q (f tt s).1)
      → Q ((fail_if c d >>= f) s).1
  unfolding ◌>>=◌
  after-fail_if true d f s h k = h
  after-fail_if false d f s h k = k refl

-- What the state satisfies where a handler ends well with the given result.
abbrev pub Ends : {S A : Type 0} → A → (S → Type 0) → Action S A → S → Type 0
Ends b Q m s = (m s).0 ≡ ok b → Q (m s).1

module _ {S A B : Type 0} (Q : S → Type 0) where
  continue-Ends :
      (o : Outcome A) (f : A → Action S B) (s : S) (b : B)
      → ((a : A) → o ≡ ok a → Ends b Q (f a) s)
      → Ends b Q (continue o f) s
  continue-Ends (ok a) f s b k e = k a refl e
  continue-Ends (failed d) f s b k e = ground arith
  continue-Ends thrown f s b k e = ground arith

  pub Ends-bind :
      (m : Action S A) (f : A → Action S B) (s : S) (b : B)
      → ((a : A) → (m s).0 ≡ ok a → Ends b Q (f a) (m s).1)
      → Ends b Q (m >>= f) s
  unfolding ◌>>=◌
  Ends-bind m f s b k = continue-Ends (m s).0 f (m s).1 b k

module _ {S B : Type 0} (Q : S → Type 0) where
  pub Ends-bind-or_throw :
      {A : Type 0} (o : Option A) (f : A → Action S B) (s : S) (b : B)
      → ((a : A) → o ≡ some a → Ends b Q (f a) s)
      → Ends b Q (or_throw o >>= f) s
  unfolding ◌>>=◌
  Ends-bind-or_throw none f s b k e = ground arith
  Ends-bind-or_throw (some a) f s b k e = k a refl e

  pub Ends-bind-fail_if :
      (c : Bool) (d : String) (f : Unit {0} → Action S B) (s : S) (b : B)
      → (c ≡ false → Ends b Q (f tt) s)
      → Ends b Q (fail_if c d >>= f) s
  unfolding ◌>>=◌
  Ends-bind-fail_if true d f s b k e = ground arith
  Ends-bind-fail_if false d f s b k e = k refl e

module _ {S A B : Type 0} (Q : S → Type 0) where
  pub Ends-bind-read :
      (m : Action S A) (f : A → Action S B) (s : S) (b : B)
      → (m s).1 ≡ s
      → ((a : A) → (m s).0 ≡ ok a → Ends b Q (f a) s)
      → Ends b Q (m >>= f) s
  Ends-bind-read m f s b same k = Ends-bind Q m f s b (λ a e. rw same (k a e))

module _ {S A : Type 0} (Q : S → Type 0) where
  -- Another result than the one that is looked for.
  pub Ends-pure : (a b : A) (s : S) → (a ≡ b → Q s) → Ends b Q (pure a) s
  unfolding pure
  Ends-pure a b s k e = k (ok_injective a b e)
