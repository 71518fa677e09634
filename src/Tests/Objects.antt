-- ===== src/Tests/Objects.antt =====
-- JSON objects as lists of fields, for the runs.
use shuchuang.Shared.{
  String, ◌≡◌, Option, none, some, List, [], ◌∷◌, arith, ◌==◌, string_key, if◌then◌else◌, is_some,
  eq_iff,
}
use shuchuang.Shared.Int.{ℤ}
use shuchuang.Shared.Poco.{Json}

mutual
  pub data Value : Type 0 where
    text : String → Value
    int int64 : ℤ → Value
    nested : Fields → Value
    several : Sequence → Value

  pub data Fields : Type 0 where
    nil : Fields
    field : String → Value → Fields → Fields

  pub data Sequence : Type 0 where
    stop : Sequence
    next : Fields → Sequence → Sequence

unfoldable pub lookup : Fields → String → Option Value
lookup nil k = none
lookup (field j v o) k = let rest = lookup o k in if j == k then some v else rest

unfoldable pub delete : Fields → String → Fields
delete nil k = nil
delete (field j v o) k = let rest = delete o k in if j == k then rest else field j v rest

unfoldable pub put : Fields → String → Value → Fields
unfolding delete
put o k v = field k v (delete o k)

pub lookup-delete :
    (o : Fields) (k j : String) → lookup (delete o k) j ≡ (if k == j then none else lookup o j)
unfolding lookup delete
lookup-delete nil k j = ground arith
lookup-delete (field i v o) k j =
    ground (arith, lookup-delete o k j, eq_iff i k, eq_iff i j, eq_iff k j)

pub lookup-put :
    (o : Fields) (k j : String) (v : Value)
    → lookup (put o k v) j ≡ (if k == j then some v else lookup o j)
unfolding lookup put
lookup-put o k j v = ground (arith, lookup-delete o k j)

unfoldable pub as_text : Option Value → Option String
as_text (some (text s)) = some s
as_text _ = none

unfoldable pub as_number : Option Value → Option ℤ
as_number (some (int z)) = some z
as_number (some (int64 z)) = some z
as_number _ = none

unfoldable pub as_int : Option Value → Option ℤ
as_int (some (int z)) = some z
as_int _ = none

unfoldable pub as_int64 : Option Value → Option ℤ
as_int64 (some (int64 z)) = some z
as_int64 _ = none

unfoldable pub as_nested : Option Value → Option Fields
as_nested (some (nested o)) = some o
as_nested _ = none

unfoldable pub sequence_of : List Fields → Sequence
sequence_of [] = stop
sequence_of (o ∷ os) = next o (sequence_of os)

instance unfoldable pub fields_json : Json Fields
unfolding lookup put delete as_text as_number as_int as_int64 as_nested sequence_of
fields_json = record {
  empty = nil;
  has = λ o k. is_some (lookup o k);
  get_string = λ o k. as_text (lookup o k);
  get_int = λ o k. as_number (lookup o k);
  get_object = λ o k. as_nested (lookup o k);
  extract_int = λ o k. as_int (lookup o k);
  extract_int64 = λ o k. as_int64 (lookup o k);
  set_string = λ o k s. put o k (text s);
  set_int = λ o k z. put o k (int z);
  set_int64 = λ o k z. put o k (int64 z);
  set_object = λ o k x. put o k (nested x);
  set_objects = λ o k xs. put o k (several (sequence_of xs));
  remove = delete;
  has-set_string = λ o k j v. ground (arith, lookup-put o k j (text v));
  get_string-set_string = λ o k j v. ground (arith, lookup-put o k j (text v));
  has-remove = λ o k j. ground (arith, lookup-delete o k j);
  get_string-remove = λ o k j. ground (arith, lookup-delete o k j);
  has-set_object = λ o k j x. ground (arith, lookup-put o k j (nested x));
  get_string-set_object = λ o k j x h. ground (arith, lookup-put o k j (nested x));
  get_object-set_object = λ o k j x. ground (arith, lookup-put o k j (nested x));
  extract_int-set_int = λ o k j v. ground (arith, lookup-put o k j (int v));
  extract_int-set_int64 = λ o k j v. ground (arith, lookup-put o k j (int64 v));
  extract_int64-set_int64 = λ o k j v. ground (arith, lookup-put o k j (int64 v));
  extract_int64-set_int = λ o k j v. ground (arith, lookup-put o k j (int v));
}
