-- ===== src/Device/System/Reset/Restores.antt =====
-- What the reset of CSystemManager, Src/Device/Component/System/SystemManager.cpp, leaves behind.
use shuchuang.Shared.{
  ◌≡◌, refl, ap, ◌∙◌, String, Bool, true, false, Option, none, some, [], arith, if-rule, not, ◌⊎◌,
  inl, inr, Bool-cases,
}
use shuchuang.Shared.Outcome.{Outcome, Action, ok, pure, modify}
use shuchuang.Shared.Outcome.Gives.{
  Ends, Ends-bind, Ends-bind-read, Ends-bind-or_throw, Ends-bind-fail_if, Ends-pure, ok_injective,
}
use shuchuang.Shared.Poco.{Json}
use shuchuang.Common.Config.{Config, get_object}
use shuchuang.Common.Config.Files
use shuchuang.Common.Config.Reads.{get_object-Reads}
use shuchuang.Device.OperationTable.{OperationTable, reset_op_record}
use shuchuang.Device.UserTable.{UserTable}
use shuchuang.Device.World.{World, on_config}
use shuchuang.Device.Tasks.Loaded.{TasksReset, reset_tasks-IsLoading}
use shuchuang.Device.System.Reset.{
  Backup, open_copy, reset_user, on_user_record, on_op_record, reset_user_record, reset_config,
}

module _ {O : Type 0} where
  -- The object of an entry.
  abbrev pub Has : String → Config O → O → Type 0
  Has name c o = (get_object name c).0 ≡ ok (some o)

reset_op_record-lem :
    (t : OperationTable)
    → (reset_op_record t).0 ≡ true
    → (t.session ≡ false) ⊎ ((reset_op_record t).1.rows ≡ [])
unfolding reset_op_record
reset_op_record-lem t h = elim (Bool-cases t.session) [
  | inl opened ↦ inr (ground arith)
  | inr shut ↦ inl shut
]

was_true : (o : Outcome Bool) (done : Bool) → o ≡ ok done → not done ≡ false → o ≡ ok true
was_true o true e n = e
was_true o false e n = cc

module _ {O : Type 0} ⦃j : Json O⦄ where
  -- The configuration is now the one at the path that it named.
  abbrev ConfigReset : (String → Option (Config O)) → Config O → Config O → Type 0
  ConfigReset backup c c' =
      (reset : O) × (path : String) × Has "Reset" c reset
      × (j.get_string reset "Config" ≡ some path)
      × (backup path ≡ some c')

  from-ConfigReset :
      (backup : String → Option (Config O)) (c : Config O) (o : Option O)
      → (get_object "Reset" c).0 ≡ ok o
      → Ends true (ConfigReset backup c) (Files.reset_from backup o) c
  unfolding Files.reset_from modify pure
  from-ConfigReset backup c none h = Ends-pure (ConfigReset backup c) false true c (λ e. cc)
  from-ConfigReset backup c (some reset) h =
      let q : (Config O → Type 0) = ConfigReset backup c in
      if-rule (λ (m : Action (Config O) Bool). Ends true q m c) (j.has reset "Config")
        (λ _. Ends-bind-or_throw q _ _ c true λ path ep.
          Ends-bind-or_throw q _ _ c true
            λ copied ec. Ends-bind q (modify _) _ c true λ _ _. λ _. (reset, path, h, ep, ec))
        (λ _. Ends-pure q false true c (λ e. cc))

  reset_config-ConfigReset :
      (backup : String → Option (Config O)) (c : Config O)
      → Ends true (ConfigReset backup c) (Files.reset_config backup) c
  unfolding Files.reset_config
  reset_config-ConfigReset backup c =
      Ends-bind-read (ConfigReset backup c) (get_object "Reset") _ c true
        (get_object-Reads "Reset" c) (λ o e. from-ConfigReset backup c o e)

  on_config-ConfigReset :
      (backup : String → Option (Config O)) (w : World O)
      → Ends true
          (λ w'. ConfigReset backup w.config w'.config)
          (on_config (Files.reset_config backup))
          w
  unfolding on_config
  on_config-ConfigReset backup w = reset_config-ConfigReset backup w.config

  -- The rows are those of the backup that the configuration names; nothing else is written.
  abbrev UsersReset : Backup O → World O → World O → Type 0
  UsersReset b w w' =
      (reset : O) × (backup : String) × Has "Reset" w.config reset
      × (j.get_string reset "UserDB" ≡ some backup)
      × (table : UserTable) × (b.users_at backup ≡ some table)
      × (w' ≡ record w { users = record w.users { table = table } })

  on_config-only :
      {A : Type 0} (m : Action (Config O) A) (w : World O)
      → (on_config m w).1 ≡ record w { config = (on_config m w).1.config }
  unfolding on_config
  on_config-only m w = refl

  on_config-same : (name : String) (w : World O) → (on_config (get_object name) w).1 ≡ w
  unfolding on_config
  on_config-same name w = rw (get_object-Reads name w.config) refl

  open_copy-Ends :
      (b : Backup O) (path : String) (copied t : UserTable)
      → Ends true (λ t'. copied ≡ t') (open_copy b path copied) t
  unfolding open_copy modify pure
  open_copy-Ends b path copied t =
      let q : (UserTable → Type 0) = λ t'. copied ≡ t' in
      if-rule (λ (m : Action UserTable Bool). Ends true q m t) (b.opens path)
        (λ _. Ends-bind q (modify _) _ t true λ _ _. λ _. refl)
        (λ _. Ends-pure q false true t (λ e. cc))

  reset_user-Ends :
      (b : Backup O) (path backup : String) (t : UserTable)
      → Ends true (λ t'. b.users_at backup ≡ some t') (reset_user b path backup) t
  unfolding reset_user
  reset_user-Ends b path backup t =
      let q : (UserTable → Type 0) = λ t'. b.users_at backup ≡ some t' in
      Ends-bind q (modify _) _ t true λ _ _.
        Ends-bind-or_throw q (b.users_at backup) _ _ true
          λ copied e. λ h. e ∙ ap some (open_copy-Ends b path copied _ h)

  on_user_record-Ends :
      (b : Backup O) (path backup : String) (w : World O)
      → Ends true
          (λ w'.
            (table : UserTable) × (b.users_at backup ≡ some table)
            × (w' ≡ record w { users = record w.users { table = table } }))
          (on_user_record (reset_user b path backup))
          w
  unfolding on_user_record
  on_user_record-Ends b path backup w =
      λ h. (_, reset_user-Ends b path backup w.users.table h, refl)

  reset_read :
      (w : World O) (o : Option O) (r : O)
      → (on_config (get_object "Reset") w).0 ≡ ok o
      → o ≡ some r
      → Has "Reset" w.config r
  unfolding on_config
  reset_read w o r e h = e ∙ ap ok h

  reset_user_record-UsersReset :
      (b : Backup O) (w : World O) → Ends true (UsersReset b w) (reset_user_record b) w
  unfolding reset_user_record
  reset_user_record-UsersReset b w =
      let q : (World O → Type 0) = UsersReset b w in
      Ends-bind-read q (on_config (get_object "Reset")) _ w true (on_config-same "Reset" w)
        λ reset er.
          Ends-bind-read q (on_config (get_object "DataPath")) _ w true
            (on_config-same "DataPath" w)
            λ paths _. Ends-bind-or_throw q paths _ w true λ p _.
              Ends-bind-or_throw q _ _ w true λ path _. Ends-bind-or_throw q reset _ w true λ r e.
                Ends-bind-or_throw q _ _ w true λ backup eb. λ h.
                  let (table, ht, same) = on_user_record-Ends b path backup w h in
                  (r, backup, reset_read w reset r er e, eb, table, ht, same)

  -- Without a session there is nothing to empty.
  abbrev OpsReset : World O → World O → Type 0
  OpsReset w w' =
      (t : OperationTable) × (w' ≡ record w { ops = record w.ops { table = t } })
      × ((w.ops.table.session ≡ false) ⊎ (t.rows ≡ []))

  on_op_record-OpsReset : (w : World O) → Ends true (OpsReset w) on_op_record w
  unfolding on_op_record
  on_op_record-OpsReset w = λ h. (_, refl, reset_op_record-lem w.ops.table (ok_injective _ _ h))

  -- What a reset that went well leaves; the records that wait in memory and the openings of the
  -- tokens stay.
  pub record Restored (b : Backup O) (reparse : O → Option O) (w w' : World O) : Type 0 where
    pub config : ConfigReset b.config_at w.config w'.config
    pub backup : String
    pub reset : O
    pub named : Has "Reset" w'.config reset × (j.get_string reset "UserDB" ≡ some backup)
    pub users : b.users_at backup ≡ some w'.users.table
    pub ops : (w.ops.table.session ≡ false) ⊎ (w'.ops.table.rows ≡ [])
    pub tasks : TasksReset reparse w' w'
    pub cache : w'.ops.cache ≡ w.ops.cache
    pub cache_map : w'.users.cache_map ≡ w.users.cache_map

  after_reset :
      (b : Backup O) (reparse : O → Option O) (w w1 w2 w3 w4 : World O)
      → w1 ≡ record w { config = w1.config }
      → ConfigReset b.config_at w.config w1.config
      → UsersReset b w1 w2
      → OpsReset w2 w3
      → TasksReset reparse w3 w4
      → Restored b reparse w w4
  after_reset b reparse w w1 w2 w3 w4 e1 c (reset, backup, h, hb, table, ht, e2) (t, e3, empty)
        (array, ha, (ys, r, l)) =
      let config3 : w3.config ≡ w1.config = cc in
      let users3 : w3.users ≡ w2.users = cc in
      let users2 : w2.users ≡ record w1.users { table = table } = cc in
      let users4 : w4.users ≡ record w.users { table = table } = cc in
      let ops2 : w2.ops ≡ w.ops = cc in
      let ops4 : w4.ops ≡ record w.ops { table = t } = cc in
      let config4 : w4.config ≡ w1.config = l.same_config ∙ config3 in
      record {
        config = rw config4 c;
        backup = backup;
        reset = reset;
        named = (rw config4 h, hb);
        users = rw users4 ht;
        ops = rw ops4 (rw ops2 at empty);
        tasks = (
          array,
          rw (l.same_config) ha,
          (
            ys,
            r,
            record {
              same_config = refl;
              same_users = refl;
              same_ops = refl;
              loaded = l.loaded;
              in_map = l.in_map;
              in_queue = l.in_queue;
            },
          ),
        );
        cache = rw ops4 refl;
        cache_map = rw users4 refl;
      }

  reset_config-Ends :
      (b : Backup O) (reparse : O → Option O) (w : World O)
      → Ends tt (Restored b reparse w) (reset_config b reparse) w
  unfolding reset_config
  reset_config-Ends b reparse w =
      let q : (World O → Type 0) = Restored b reparse w in
      Ends-bind q _ _ w tt λ config_done e1. Ends-bind-fail_if q _ _ _ _ tt λ n1.
        Ends-bind q (reset_user_record b) _ _ tt λ users_done e2.
          Ends-bind-fail_if q _ _ _ _ tt λ n2. Ends-bind q on_op_record _ _ tt λ ops_done e3.
            Ends-bind-fail_if q _ _ _ _ tt λ n3. λ h.
              after_reset b reparse w _ _ _ _ (on_config-only (Files.reset_config b.config_at) w)
                (on_config-ConfigReset b.config_at w (was_true _ config_done e1 n1))
                (reset_user_record-UsersReset b _ (was_true _ users_done e2 n2))
                (on_op_record-OpsReset _ (was_true _ ops_done e3 n3))
                (reset_tasks-IsLoading reparse _ h)

  -- A reset that ends well has put the factory state back: the configuration is a copy of the backup
  -- that the old one named; the rows of the user table are those of the backup that the new one names;
  -- the operation table of an open session is empty; the tasks are those of the new configuration, no
  -- more of them in memory or in the queue than entries. The records that wait in memory, and the
  -- openings of the tokens, stay.
  pub reset_config-Restored :
      (b : Backup O) (reparse : O → Option O) (w : World O)
      → (reset_config b reparse w).0 ≡ ok tt
      → Restored b reparse w (reset_config b reparse w).1
  reset_config-Restored b reparse w h = reset_config-Ends b reparse w h
