-- ===== src/Shared/Outcome.antt =====
-- A handler of the device: it ends normally, or by `detail = ...; return false`, or by an exception
-- of the library that nothing catches. What it wrote before stays written.
pub mod Keeps
pub mod Leads
pub mod Gives
use mathlib.Core.Bool.{Bool}
use mathlib.Core.Option.{Option, none, some}
use Prim.Native.String.{String}
use shuchuang.Shared.Tests.{if◌then◌else◌}

pub data Outcome (A : Type 0) : Type 0 where
  ok : A → Outcome A
  failed : String → Outcome A
  thrown : Outcome A

abbrev pub Action : Type 0 → Type 0 → Type 0
Action S A = S → Outcome A × S

module _ {S A : Type 0} where
  unfoldable pub pure : A → Action S A
  pure a s = (ok a, s)

  unfoldable pub fail : String → Action S A
  fail d s = (failed d, s)

  unfoldable pub throw : Action S A
  throw s = (thrown, s)

  unfoldable pub or_throw : Option A → Action S A
  unfolding pure throw
  or_throw none = throw
  or_throw (some a) = pure a

module _ {S : Type 0} where
  unfoldable pub get : Action S S
  get s = (ok s, s)

  unfoldable pub modify : (S → S) → Action S (Unit {0})
  modify f s = (ok tt, f s)

  unfoldable pub fail_if : Bool → String → Action S (Unit {0})
  fail_if b d s = (if b then failed d else ok tt, s)

module _ {S A B : Type 0} where
  abbrev pub continue : Outcome A → (A → Action S B) → Action S B
  continue (ok a) f s = f a s
  continue (failed d) f s = (failed d, s)
  continue thrown f s = (thrown, s)

  infixl 5 ◌>>=◌ ◌>>◌
  -- Opening this opens the steps too.
  unfoldable pub ◌>>=◌ : Action S A → (A → Action S B) → Action S B
  unfolding pure fail throw or_throw get modify fail_if
  ◌>>=◌ m f s = let (r, s') = m s in continue r f s'

  abbrev pub ◌>>◌ : Action S A → Action S B → Action S B
  m >> n = m >>= λ _. n
