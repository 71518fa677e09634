-- ===== src/Device/World/Keeps.antt =====
-- Invariants of the user table under the steps of a handler.
use shuchuang.Shared.{String}
use shuchuang.Shared.Int.{ℤ}
use shuchuang.Shared.Outcome.{Action}
use shuchuang.Shared.Outcome.Keeps.{Keeps, Keeps-modify, keeps_rules}
use shuchuang.Shared.Poco.{Json, Digest}
use shuchuang.Common.Config.{Config}
use shuchuang.Device.UserTable.{UserTable}
use shuchuang.Device.World.{
  World, UserManager, Message, the_param, has, get_string, get_int, write_param, set_string, remove,
  on_users, on_table, post, on_config, generate_md5,
}

pub record OnTable {O : Type 0} (Q : UserTable → Type 0) (w : World O) : Type 0 where
  pub holds : Q w.users.table

module _ {O : Type 0} {Q : UserTable → Type 0} where
  pub Keeps-write_param : (o : O) → Keeps (OnTable {O = O} Q) (write_param o)
  unfolding write_param
  Keeps-write_param o = Keeps-modify _ (λ s h. record { holds = h.holds })

  pub Keeps-post : (m : Message) → Keeps (OnTable {O = O} Q) (post m)
  unfolding post
  Keeps-post m = Keeps-modify _ (λ s h. record { holds = h.holds })

  pub Keeps-the_param : Keeps (OnTable {O = O} Q) the_param
  unfolding the_param
  Keeps-the_param = search keeps_rules

  pub Keeps-on_users :
      (f : UserManager → UserManager)
      → ((u : UserManager) → Q u.table → Q (f u).table)
      → Keeps (OnTable {O = O} Q) (on_users f)
  unfolding on_users
  Keeps-on_users f k = Keeps-modify _ (λ s h. record { holds = k s.users h.holds })

  pub Keeps-on_table :
      (f : UserTable → ℤ × UserTable)
      → ((t : UserTable) → Q t → Q (f t).1)
      → Keeps (OnTable {O = O} Q) (on_table f)
  unfolding on_table
  Keeps-on_table f k = record { at = λ s h. record { holds = k s.users.table h.holds } }

  pub Keeps-on_config :
      {A : Type 0} (m : Action (Config O) A) → Keeps (OnTable {O = O} Q) (on_config m)
  unfolding on_config
  Keeps-on_config m = record { at = λ s h. record { holds = h.holds } }

  pub Keeps-generate_md5 : ⦃g : Digest⦄ → Keeps (OnTable {O = O} Q) generate_md5
  unfolding generate_md5
  Keeps-generate_md5 = record { at = λ s h. record { holds = h.holds } }

module _ {O : Type 0} ⦃j : Json O⦄ {Q : UserTable → Type 0} (key : String) where
  pub Keeps-has : Keeps (OnTable {O = O} Q) (has key)
  unfolding has
  Keeps-has = search (keeps_rules, Keeps-the_param)

  pub Keeps-get_string : Keeps (OnTable {O = O} Q) (get_string key)
  unfolding get_string
  Keeps-get_string = search (keeps_rules, Keeps-the_param)

  pub Keeps-get_int : Keeps (OnTable {O = O} Q) (get_int key)
  unfolding get_int
  Keeps-get_int = search (keeps_rules, Keeps-the_param)

  pub Keeps-set_string : (v : String) → Keeps (OnTable {O = O} Q) (set_string key v)
  unfolding set_string
  Keeps-set_string v = search (keeps_rules, Keeps-the_param, Keeps-write_param)

  pub Keeps-remove : Keeps (OnTable {O = O} Q) (remove key)
  unfolding remove
  Keeps-remove = search (keeps_rules, Keeps-the_param, Keeps-write_param)

pub ruleset table_rules = (
  keeps_rules, Keeps-the_param, Keeps-has, Keeps-get_string, Keeps-get_int, Keeps-set_string,
  Keeps-remove, Keeps-write_param, Keeps-post, Keeps-on_table, Keeps-on_users, Keeps-on_config,
  Keeps-generate_md5,
)
