-- ===== src/Shared/Poco.antt =====
-- What the program takes from the POCO library and from SQLite, as interfaces of operations with
-- their documented laws.
use Prim.Native.Nat.{ℕ}
use Prim.Native.String.{String}
use mathlib.Core.Path.{◌≡◌}
use mathlib.Core.Bool.{Bool, true, false}
use mathlib.Core.Option.{Option, none, some}
use mathlib.Core.List.{List, [], ◌∷◌}
use shuchuang.Shared.Tests.{if◌then◌else◌, ◌==◌, string_key}
use shuchuang.Shared.Int.{ℤ}

-- `Poco::JSON::Object` and `DynamicStruct`. A `get` is `getValue<T>` and an `extract` is
-- `extract<T>`, `none` where it throws; `get_int` serves `int` and `Int64`.
pub record Json (O : Type 0) : Type 0 where
  pub empty : O
  pub has : O → String → Bool
  pub get_string : O → String → Option String
  pub get_int : O → String → Option ℤ
  pub get_object : O → String → Option O
  pub extract_int : O → String → Option ℤ
  pub extract_int64 : O → String → Option ℤ
  pub set_string : O → String → String → O
  pub set_int : O → String → ℤ → O
  pub set_int64 : O → String → ℤ → O
  pub set_object : O → String → O → O
  pub set_objects : O → String → List O → O
  pub remove : O → String → O
  pub has-set_string :
      (o : O) (k j v : String) → has (set_string o k v) j ≡ (if k == j then true else has o j)
  pub get_string-set_string :
      (o : O) (k j v : String)
      → get_string (set_string o k v) j ≡ (if k == j then some v else get_string o j)
  pub has-remove : (o : O) (k j : String) → has (remove o k) j ≡ (if k == j then false else has o j)
  pub get_string-remove :
      (o : O) (k j : String) → get_string (remove o k) j ≡ (if k == j then none else get_string o j)
  pub has-set_object :
      (o : O) (k j : String) (x : O) → has (set_object o k x) j ≡ (if k == j then true else has o j)
  pub get_string-set_object :
      (o : O) (k j : String) (x : O)
      → (k == j) ≡ false
      → get_string (set_object o k x) j ≡ get_string o j
  pub get_object-set_object :
      (o : O) (k j : String) (x : O)
      → get_object (set_object o k x) j ≡ (if k == j then some x else get_object o j)
  pub extract_int-set_int :
      (o : O) (k j : String) (v : ℤ)
      → extract_int (set_int o k v) j ≡ (if k == j then some v else extract_int o j)
  pub extract_int-set_int64 :
      (o : O) (k j : String) (v : ℤ)
      → extract_int (set_int64 o k v) j ≡ (if k == j then none else extract_int o j)
  pub extract_int64-set_int64 :
      (o : O) (k j : String) (v : ℤ)
      → extract_int64 (set_int64 o k v) j ≡ (if k == j then some v else extract_int64 o j)
  pub extract_int64-set_int :
      (o : O) (k j : String) (v : ℤ)
      → extract_int64 (set_int o k v) j ≡ (if k == j then none else extract_int64 o j)

-- `UUIDGenerator::create().toString()`, by the number of identifiers drawn before, and
-- `MD5Engine` with `digestToHex`.
pub record Digest : Type 0 where
  pub uuid : ℕ → String
  pub md5 : String → String

abbrev pub AllTrue {ℓ} : {R : Type ℓ} → (R → Bool) → List R → Type 0
AllTrue p [] = Unit
AllTrue p (r ∷ rs) = (p r ≡ true) × AllTrue p rs

-- The engine, over rows of one table. `accepts` is false where a constraint of the table makes an
-- INSERT throw. `pick` is the row whose values stay in the `into` variables of a SELECT with the
-- given matches: one of them.
pub record Sqlite (R : Type 0) : Type 0 where
  pub accepts : List R → R → Bool
  pub pick : R → List R → R
  pub pick-single : (r : R) → pick r [] ≡ r
  pub pick_sound :
      (p : R → Bool) (r : R) (rs : List R) → p r ≡ true → AllTrue p rs → p (pick r rs) ≡ true
