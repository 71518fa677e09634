-- ===== src/Common/Config/Reads.antt =====
-- The reads of CConfigManager, Src/Common/ConfigManager.cpp, write nothing.
use shuchuang.Shared.{◌≡◌, refl, String, Option, none, some, List, ◌==◌, string_key, if-rule}
use shuchuang.Shared.Outcome.{Action, ◌>>=◌}
use shuchuang.Common.Config.{Config, get_object, get_array}

module _ {O : Type 0} where
  pub get_object-Reads : (name : String) (c : Config O) → (get_object name c).1 ≡ c
  unfolding get_object ◌>>=◌
  get_object-Reads name none =
      if-rule (λ (m : Action (Config O) (Option O)). (m none).1 ≡ none) (name == "") (λ _. refl)
        (λ _. refl)
  get_object-Reads name (some root) =
      if-rule (λ (m : Action (Config O) (Option O)). (m (some root)).1 ≡ some root) (name == "")
        (λ _. refl) (λ _. refl)

  pub get_array-Reads : (name : String) (c : Config O) → (get_array name c).1 ≡ c
  unfolding get_array ◌>>=◌
  get_array-Reads name none =
      if-rule (λ (m : Action (Config O) (Option (List O))). (m none).1 ≡ none) (name == "")
        (λ _. refl) (λ _. refl)
  get_array-Reads name (some root) =
      if-rule (λ (m : Action (Config O) (Option (List O))). (m (some root)).1 ≡ some root)
        (name == "") (λ _. refl) (λ _. refl)
