-- ===== src/Common/Config/Files.antt =====
-- CConfigManager, Src/Common/ConfigManager.cpp: the file behind the configuration, as `init` and
-- `resetConfig` treat it.
use shuchuang.Shared.{
  not, is_some, ◌≡◌, refl, ◌↔◌, String, Bool, true, false, Option, none, some, arith, ◌==◌,
  if◌then◌else◌, string_key, if-rule,
}
use shuchuang.Shared.Dict.{Dict}
use shuchuang.Shared.Outcome.{ok, Action, pure, or_throw, modify, ◌>>=◌, ◌>>◌}
use shuchuang.Shared.Poco.{Json}
use shuchuang.Common.Config.{Config, Setting, get_object}

-- What stands under "root" of a JSON text: its text is that of an object, or not.
pub data RootNode (O : Type 0) : Type 0 where
  no_object : RootNode O
  entries : Dict String (Setting O) → RootNode O

-- A text: no JSON, or JSON with a root or without.
pub data Text (O : Type 0) : Type 0 where
  no_json no_root : Text O
  with_root : RootNode O → Text O

-- What stands at the path of `init`: whether it is a directory, and the file "global.conf" in it.
pub record ConfigFile (O : Type 0) : Type 0 where
  pub is_directory : Bool
  pub file : Option (Text O)

module _ {O : Type 0} where
  -- `Util::JSONConfiguration::load` does not throw.
  abbrev loads : Text O → Bool
  loads no_json = false
  loads _ = true

  abbrev has_root : Text O → Bool
  has_root (with_root r) = true
  has_root _ = false

  abbrev object_of : RootNode O → Option (Dict String (Setting O))
  object_of no_object = none
  object_of (entries d) = some d

  -- The text of the root, parsed and extracted: none where that throws.
  abbrev parse_root : Text O → Option (Dict String (Setting O))
  parse_root (with_root r) = object_of r
  parse_root _ = none

  -- `m_path` is empty where there is no directory.
  abbrev pub has_path : ConfigFile O → Bool
  has_path f = f.is_directory

  -- What a later call reads at `m_path`: the file is loaded and its root parsed again, and whatever fails
  -- throws.
  unfoldable pub config_of : ConfigFile O → Config O
  config_of f =
      if has_path f
      then (elim f.file [ none ↦ none | some t ↦ if loads t then parse_root t else none ])
      else none

  unfoldable pub init : ConfigFile O → Bool × Config O
  unfolding config_of
  init f =
      if f.is_directory
      then (elim f.file [
        | none ↦ (false, config_of f)
        | some t ↦
            if not (loads t)
            then (false, config_of f)
            else if not (has_root t)
            then (false, config_of f)
            else elim (parse_root t) [ none ↦ (false, config_of f) | some d ↦ (true, config_of f) ]
      ])
      else (false, config_of f)

  -- A directory with a file that has a root with these entries.
  abbrev pub holds : Dict String (Setting O) → ConfigFile O
  holds d = record { is_directory = true; file = some (with_root (entries d)) }

  module _ ⦃j : Json O⦄ where
    -- `copyTo` the path of the configuration: `backup` says what stands at a path, `none` where the
    -- copy throws. That no file is copied is `return false`.
    unfoldable pub reset_from : (String → Option (Config O)) → Option O → Action (Config O) Bool
    reset_from backup none = pure false
    reset_from backup (some reset) =
        if j.has reset "Config"
        then (do
          path ← or_throw (j.get_string reset "Config")
          copied ← or_throw (backup path)
          modify (λ _. copied)
          pure true)
        else pure false

    unfoldable pub reset_config : (String → Option (Config O)) → Action (Config O) Bool
    reset_config backup = do reset ← get_object "Reset"; reset_from backup reset

  -- A read of a configuration that throws for no name.
  pub Readable : Config O → Type 0
  Readable c = (name : String) → (o : Option O) × ((get_object name c).0 ≡ ok o)

  holds-Readable : (root : Dict String (Setting O)) → Readable (some root)
  unfolding Readable get_object ◌>>=◌
  holds-Readable root name =
      if-rule {A = Action (Config O) (Option O)} (λ m. (o : Option O) × ((m (some root)).0 ≡ ok o))
        (name == "") (λ _. (none, refl)) (λ _. (_, refl))

  none-Readable : (c : Config O) → c ≡ none → ¬ Readable c
  unfolding Readable get_object ◌>>=◌
  none-Readable c n r = let (o, e) = r "Reset" in ground arith

  init_cases :
      (b : Bool) (t : Option (Text O))
      → let f : ConfigFile O = record { is_directory = b; file = t } in
        (init f).0 ≡ is_some (init f).1
  unfolding init
  init_cases false t = refl
  init_cases true none = refl
  init_cases true (some no_json) = refl
  init_cases true (some no_root) = refl
  init_cases true (some (with_root no_object)) = refl
  init_cases true (some (with_root (entries d))) = refl

  some-Readable : (c : Config O) → (is_some c ≡ true) ↔ Readable c
  some-Readable none = (λ h. cc, λ r. absurd (none-Readable none refl r))
  some-Readable (some d) = (λ _. holds-Readable d, λ _. refl)

  is_none : (c : Config O) → is_some c ≡ false → c ≡ none
  is_none none e = refl
  is_none (some d) e = cc

  pub init_unreadable : (f : ConfigFile O) → (init f).0 ≡ false → (init f).1 ≡ none
  init_unreadable f e = is_none (init f).1 (rw (init_cases f.is_directory f.file) at e)

  pub init-Readable : (f : ConfigFile O) → ((init f).0 ≡ true) ↔ Readable (init f).1
  init-Readable f = rw (init_cases f.is_directory f.file) (some-Readable (init f).1)
