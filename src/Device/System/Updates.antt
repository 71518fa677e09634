-- ===== src/Device/System/Updates.antt =====
-- When CSystemManager can no longer be asked for an update.
use Prim.Native.String.{String}
use shuchuang.Shared.{◌≡◌, refl, true, false, Option, none, some, string_key}
use shuchuang.Shared.Outcome.{ok, failed, thrown, ◌>>=◌}
use shuchuang.Shared.Poco.{Json}
use shuchuang.Common.Config.{get_object}
use shuchuang.Device.System.{
  SystemManager, Ftp, start_update, handle_update, lacks_version, lacks_server, log_in, update_from,
  read_config,
}

module _ {O : Type 0} ⦃j : Json O⦄ where
  -- A request for an update without a version fails, and starts no timer; from then on every request
  -- is refused with "463", whatever its parameter is.
  pub start_update_stuck :
      (s : SystemManager O) (p : Option O)
      → s.updating ≡ false
      → lacks_version s.param ≡ true
      → let (answer, s') = start_update s in
        let later = record s' { param = p } in
        (answer ≡ failed "464")
        × (s'.timer ≡ s.timer)
        × (start_update later ≡ (failed "463", later))
  unfolding start_update ◌>>=◌
  start_update_stuck s p u l = rw (u, l) (refl, refl, refl)

  -- Where the configuration names a server and a user name but no password, the update ends by an
  -- exception and stays marked as running: every later request for one is refused with "463".
  pub handle_update_no_password :
      (ftp : Ftp) (s : SystemManager O) (u : O) (server username : String) (p : Option O)
      → s.updating ≡ true
      → get_object "Update" s.config ≡ (ok (some u), s.config)
      → lacks_server u ≡ false
      → j.get_string u "server" ≡ some server
      → j.get_string u "username" ≡ some username
      → j.get_string u "password" ≡ none
      → let (answer, s') = handle_update ftp s in
        let later = record s' { param = p } in
        (answer ≡ thrown) × (start_update later ≡ (failed "463", later))
  unfolding handle_update read_config update_from log_in start_update ◌>>=◌
  handle_update_no_password ftp s u server username p run c l sv un pw =
      rw (run, c, l, sv, un, pw) (refl, refl)
