-- ===== src/Common/Config.antt =====
-- CConfigManager, Src/Common/ConfigManager.cpp: the object under "root" of the JSON file. Each call
-- reads the whole file under the mutex, so it is one step.
pub mod Files
pub mod Reads
use shuchuang.Shared.{
  String, Bool, true, false, Option, none, some, List, ◌==◌, if◌then◌else◌, string_key,
}
use shuchuang.Shared.Dict.{Dict, find, insert, erase}
use shuchuang.Shared.Outcome.{Action, pure, or_throw, modify, ◌>>=◌, ◌>>◌}

-- The value of an entry: a JSON object, an array of objects, or anything else.
pub data Setting (O : Type 0) : Type 0 where
  object : O → Setting O
  array : List O → Setting O
  scalar : Setting O

-- The file: `none` where it cannot be read or parsed, and then every call throws.
abbrev pub Config : Type 0 → Type 0
Config O = Option (Dict String (Setting O))

module _ {O : Type 0} where
  abbrev as_object : Option (Setting O) → Option O
  as_object (some (object o)) = some o
  as_object _ = none

  abbrev as_array : Option (Setting O) → Option (List O)
  as_array (some (array a)) = some a
  as_array _ = none

  load_root : Action (Config O) (Dict String (Setting O))
  load_root c = or_throw c c

  -- `getConfig` with an object; `none` is a null pointer.
  unfoldable pub get_object : String → Action (Config O) (Option O)
  unfolding load_root
  get_object name =
      if name == "" then pure none else do root ← load_root; pure (as_object (find name root))

  -- `getConfig` with an array.
  unfoldable pub get_array : String → Action (Config O) (Option (List O))
  unfolding load_root
  get_array name =
      if name == "" then pure none else do root ← load_root; pure (as_array (find name root))

  -- `remove` and `set` of the entry, and the file is written.
  unfoldable pub replace : String → Setting O → Dict String (Setting O) → Dict String (Setting O)
  replace name v root = insert name v (erase name root)

  abbrev takes_object : Option (Setting O) → Bool
  takes_object none = true
  takes_object (some (object _)) = true
  takes_object _ = false

  -- `setConfig` with an object: an entry of another kind is left alone.
  unfoldable pub set_object : String → Option O → Action (Config O) Bool
  unfolding load_root replace
  set_object name none = pure false
  set_object name (some o) = if name == "" then pure false else do
    root ← load_root
    if takes_object (find name root)
        then (do modify (λ _. some (replace name (object o) root)); pure true)
        else pure false

  abbrev pub takes_array : Option (Setting O) → Bool
  takes_array none = true
  takes_array (some (array _)) = true
  takes_array _ = false

  -- `setConfig` with an array: an entry of another kind is left alone.
  unfoldable pub set_array : String → Option (List O) → Action (Config O) Bool
  unfolding load_root replace
  set_array name none = pure false
  set_array name (some a) = if name == "" then pure false else do
    root ← load_root
    if takes_array (find name root)
        then (do modify (λ _. some (replace name (array a) root)); pure true)
        else pure false
