-- ===== src/Shared/Outcome/Leads.antt =====
-- What a handler establishes, from what holds when it begins: one rule for each way to build one. Where it
-- ends early, what held at the beginning is all that is known.
use mathlib.Core.Path.{◌≡◌, refl}
use mathlib.Core.Bool.{Bool, true, false}
use Prim.Native.String.{String}
use shuchuang.Shared.Outcome.{Outcome, ok, failed, thrown, Action, continue, get, fail_if, ◌>>=◌}
use shuchuang.Shared.Outcome.Keeps.{Keeps, then-keeps}

pub record Leads {S A : Type 0} (P Q : S → Type 0) (m : Action S A) : Type 0 where
  pub at : (s : S) → P s → Q (m s).1

module _ {S A B : Type 0} {P Q : S → Type 0} (weaker : (s : S) → P s → Q s) where
  continue-Leads :
      (o : Outcome A) (f : A → Action S B) (s : S)
      → P s
      → ((a : A) → Leads P Q (f a))
      → Q (continue o f s).1
  continue-Leads (ok a) f s h k = (k a).at s h
  continue-Leads (failed d) f s h k = weaker s h
  continue-Leads thrown f s h k = weaker s h

  -- The first step keeps what held.
  pub Leads-bind :
      (m : Action S A) (f : A → Action S B)
      → Keeps P m
      → ((a : A) → Leads P Q (f a))
      → Leads P Q (m >>= f)
  unfolding ◌>>=◌
  Leads-bind m f p k = record { at = λ s h. continue-Leads (m s).0 f (m s).1 (p.at s h) k }

module _ {S B : Type 0} {P Q : S → Type 0} where
  -- What is read meets what holds.
  pub Leads-bind-get :
      (f : S → Action S B) → ((s : S) → P s → Leads P Q (f s)) → Leads P Q (get >>= f)
  unfolding ◌>>=◌
  Leads-bind-get f k = record { at = λ s h. (k s h).at s h }

  -- The rest may use that the test did not stop the handler.
  pub Leads-bind-fail_if :
      (weaker : (s : S) → P s → Q s) (b : Bool) (d : String) (f : Unit {0} → Action S B)
      → (b ≡ false → Leads P Q (f tt))
      → Leads P Q (fail_if b d >>= f)
  unfolding ◌>>=◌
  Leads-bind-fail_if weaker true d f k = record { at = weaker }
  Leads-bind-fail_if weaker false d f k = k refl

module _ {S A B : Type 0} {P Q : S → Type 0} where
  -- The step that establishes it, and a rest that keeps it.
  pub Leads-then :
      (m : Action S A) (f : A → Action S B)
      → Leads P Q m
      → ((a : A) → Keeps Q (f a))
      → Leads P Q (m >>= f)
  Leads-then m f l k = record { at = λ s h. then-keeps m f s (l.at s h) k }
