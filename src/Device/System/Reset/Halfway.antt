-- ===== src/Device/System/Reset/Halfway.antt =====
-- Where the reset of CSystemManager, Src/Device/Component/System/SystemManager.cpp, stops halfway.
use shuchuang.Shared.{
  ◌≡◌, refl, String, true, Option, none, some, arith, ◌⊎◌, inl, inr, if-rule, ◌==◌, string_key,
}
use shuchuang.Shared.Outcome.{Outcome, Action, ok, thrown, ◌>>=◌}
use shuchuang.Shared.Poco.{Json}
use shuchuang.Common.Config.{Config, get_object}
use shuchuang.Common.Config.Files
use shuchuang.Common.Config.Reads.{get_object-Reads}
use shuchuang.Device.World.{World, on_config}
use shuchuang.Device.System.Reset.{Backup, reset_user_record, reset_config}

module _ {O : Type 0} ⦃j : Json O⦄ where
  -- A read fails by an exception only.
  abbrev ReadsOrThrows : Outcome (Option O) → Type 0
  ReadsOrThrows x = (x ≡ thrown) ⊎ ((o : Option O) × (x ≡ ok o))

  get_object-ReadsOrThrows : (name : String) (c : Config O) → ReadsOrThrows (get_object name c).0
  unfolding get_object ◌>>=◌
  get_object-ReadsOrThrows name none =
      if-rule (λ (m : Action (Config O) (Option O)). ReadsOrThrows (m none).0) (name == "")
        (λ _. inr (none, refl)) (λ _. inl refl)
  get_object-ReadsOrThrows name (some root) =
      if-rule (λ (m : Action (Config O) (Option O)). ReadsOrThrows (m (some root)).0) (name == "")
        (λ _. inr (none, refl)) (λ _. inr (_, refl))

  reset_user_record-thrown :
      (b : Backup O) (w : World O)
      → (get_object "Reset" w.config).0 ≡ ok none
      → reset_user_record b w ≡ (thrown, w)
  unfolding reset_user_record on_config ◌>>=◌
  reset_user_record-thrown b w h =
      rw (h, get_object-Reads "Reset" w.config)
        (rw (get_object-Reads "DataPath" w.config)
          (elim (get_object-ReadsOrThrows "DataPath" w.config) [
            | inl e ↦ rw e refl
            | inr (none, e) ↦ rw e refl
            | inr (some p, e) ↦ rw e (ground arith)
          ]))

  -- A backup of the configuration that has no object "Reset" of its own makes the reset end by an
  -- exception: the configuration is the backup by then, and the users, the records and the tasks are
  -- as they were.
  pub reset_config_no_reset :
      (b : Backup O) (reparse : O → Option O) (w : World O) (reset : O) (path : String)
      (copied : Config O)
      → (get_object "Reset" w.config).0 ≡ ok (some reset)
      → j.has reset "Config" ≡ true
      → j.get_string reset "Config" ≡ some path
      → b.config_at path ≡ some copied
      → (get_object "Reset" copied).0 ≡ ok none
      → reset_config b reparse w ≡ (thrown, record w { config = copied })
  unfolding reset_config on_config Files.reset_config Files.reset_from ◌>>=◌
  reset_config_no_reset b reparse w reset path copied h has_path h_path at gone =
      rw (h, get_object-Reads "Reset" w.config)
        (rw (has_path, h_path)
          (rw (at) (rw (reset_user_record-thrown b (record w { config = copied }) gone) refl)))
