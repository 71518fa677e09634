-- ===== src/Device/System/Installs.antt =====
-- What an update of CSystemManager installs.
use Prim.Native.String.{String, ◌++◌ as append_text}
use shuchuang.Shared.{
  ◌≡◌, refl, Bool, true, false, Option, none, some, List, [], ◌∷◌, ◌++◌, ◌==◌, string_key,
  if◌then◌else◌,
}
use shuchuang.Shared.Int.{ℤ, ltb_ℤ}
use shuchuang.Shared.Outcome.{Outcome, Action, ok, failed, thrown, or_throw, pure, continue, ◌>>=◌}
use shuchuang.Shared.Poco.{Json}
use shuchuang.Common.Config.{Config, get_object}
use shuchuang.Device.World.{Message}
use shuchuang.Device.System.{
  on_config, SystemManager, Info, Ftp, handle_update, lacks_server, give_up, install, check_file,
  check_info, check_text, fetch_info, log_in, update_from, read_config,
}

-- The text holds the information, and its build time is not before that of the running program.
pub data Accepted (ftp : Ftp) (text : String) (info : Info) : Type 0 where
  accepted :
      (built update_built : ℤ)
      → ftp.read_info text ≡ some info
      → ftp.parse_date ftp.mktime ≡ some built
      → ftp.parse_date info.buildtime ≡ some update_built
      → ltb_ℤ update_built built ≡ false
      → Accepted ftp text info

module _ {O : Type 0} ⦃j : Json O⦄ where
  -- What may have become of the files after a run that began with these copied texts and posted
  -- messages: nothing was copied and no reboot was announced, or the information that was copied is
  -- accepted, and a file with its checksum was downloaded.
  pub data Installs (ftp : Ftp) (copied : List (String × String)) (posted : List Message)
      (s : SystemManager O) : Type 0 where
    kept : s.copied ≡ copied → s.posted ≡ posted → Installs ftp copied posted s
    checked :
        (path text file body : String) (info : Info)
        → Accepted ftp text info
        → ftp.download file ≡ some body
        → (ftp.file_md5 body == info.checksum) ≡ true
        → s.copied ≡ copied ++ (path, text) ∷ []
        → Installs ftp copied posted s

  or_throw-Installs :
      {A : Type 0}
      → (ftp : Ftp) (o : Option A) (f : A → Action (SystemManager O) (Unit {0}))
        (s : SystemManager O)
      → ((a : A) → o ≡ some a → Installs ftp s.copied s.posted (f a s).1)
      → Installs ftp s.copied s.posted ((or_throw o >>= f) s).1
  unfolding ◌>>=◌
  or_throw-Installs ftp none f s h = kept refl refl
  or_throw-Installs ftp (some a) f s h = h a refl

  continue-Installs :
      {A : Type 0}
      → (ftp : Ftp) (r : Outcome A) (f : A → Action (SystemManager O) (Unit {0}))
      → (s : SystemManager O) → ((a : A) → Installs ftp s.copied s.posted (f a s).1)
      → Installs ftp s.copied s.posted (continue r f s).1
  continue-Installs ftp (ok a) f s h = h a
  continue-Installs ftp (failed d) f s h = kept refl refl
  continue-Installs ftp thrown f s h = kept refl refl

  on_config-Installs :
      {A : Type 0}
      → (ftp : Ftp) (m : Action (Config O) A) (f : A → Action (SystemManager O) (Unit {0}))
      → (s : SystemManager O)
      → ((a : A) (c : Config O) → Installs ftp s.copied s.posted (f a (record s { config = c })).1)
      → Installs ftp s.copied s.posted ((on_config m >>= f) s).1
  unfolding on_config ◌>>=◌
  on_config-Installs ftp m f s h =
      continue-Installs ftp (m s.config).0 f (record s { config = (m s.config).1 })
        (λ a. h a (m s.config).1)

  if-Installs :
      (ftp : Ftp) (b : Bool) (m n : Action (SystemManager O) (Unit {0})) (s : SystemManager O)
      → (b ≡ true → Installs ftp s.copied s.posted (m s).1)
      → (b ≡ false → Installs ftp s.copied s.posted (n s).1)
      → Installs ftp s.copied s.posted ((if b then m else n) s).1
  if-Installs ftp true m n s h h' = h refl
  if-Installs ftp false m n s h h' = h' refl

  install-Installs :
      (ftp : Ftp) (u : O) (text file body : String) (info : Info) (s : SystemManager O)
      → Accepted ftp text info
      → ftp.download file ≡ some body
      → (ftp.file_md5 body == info.checksum) ≡ true
      → Installs ftp s.copied s.posted (install u text s).1
  unfolding install ◌>>=◌
  install-Installs ftp u text file body info s r d m =
      or_throw-Installs ftp (j.get_string u "infoPath") _ s
        (λ path e. checked path text file body info r d m refl)

  give_up-Installs :
      (ftp : Ftp) (s : SystemManager O) → Installs ftp s.copied s.posted (give_up s).1
  unfolding give_up ◌>>=◌
  give_up-Installs ftp s = kept refl refl

  check_file-Installs :
      (ftp : Ftp) (u : O) (text file : String) (info : Info) (o : Option String)
      (s : SystemManager O)
      → Accepted ftp text info
      → ftp.download file ≡ o
      → Installs ftp s.copied s.posted (check_file ftp u text info o s).1
  unfolding check_file
  check_file-Installs ftp u text file info none s r d = give_up-Installs ftp s
  check_file-Installs ftp u text file info (some body) s r d =
      if-Installs ftp _ (install u text) give_up s
        (λ m. install-Installs ftp u text file body info s r d m) (λ m. give_up-Installs ftp s)

  check_info-Installs :
      (ftp : Ftp) (u : O) (type text : String) (o : Option Info) (s : SystemManager O)
      → ftp.read_info text ≡ o
      → Installs ftp s.copied s.posted (check_info ftp u type text o s).1
  unfolding check_info ◌>>=◌
  check_info-Installs ftp u type text none s r = give_up-Installs ftp s
  check_info-Installs ftp u type text (some info) s r =
      or_throw-Installs ftp (ftp.parse_date ftp.mktime) _ s (λ built e.
        or_throw-Installs ftp (ftp.parse_date info.buildtime) _ s (λ update_built e'.
          let file =
            append_text (append_text (append_text type "/") s.update_version) "/DeviceTest" in
          if-Installs ftp _ give_up (check_file ftp u text info (ftp.download file)) s
            (λ h. give_up-Installs ftp s)
            (λ h.
              check_file-Installs ftp u text file info (ftp.download file) s
                (accepted built update_built r e e' h) refl)))

  check_text-Installs :
      (ftp : Ftp) (u : O) (type : String) (o : Option String) (s : SystemManager O)
      → Installs ftp s.copied s.posted (check_text ftp u type o s).1
  unfolding check_text
  check_text-Installs ftp u type none s = give_up-Installs ftp s
  check_text-Installs ftp u type (some text) s =
      check_info-Installs ftp u type text (ftp.read_info text) s refl

  fetch_info-Installs :
      (ftp : Ftp) (u : O) (s : SystemManager O)
      → Installs ftp s.copied s.posted (fetch_info ftp u s).1
  unfolding fetch_info
  fetch_info-Installs ftp u s = on_config-Installs ftp (get_object "DeviceInfo") _ s (λ device c.
      let s' = record s { config = c } in
      or_throw-Installs ftp device _ s' (λ d e.
        or_throw-Installs ftp (j.get_string d "type") _ s'
          (λ type e'. check_text-Installs ftp u type (ftp.download (append_text type "/Info")) s')))

  log_in-Installs :
      (ftp : Ftp) (u : O) (s : SystemManager O) → Installs ftp s.copied s.posted (log_in ftp u s).1
  unfolding log_in
  log_in-Installs ftp u s = or_throw-Installs ftp (j.get_string u "server") _ s (λ server e.
      or_throw-Installs ftp (j.get_string u "username") _ s (λ username e'.
        or_throw-Installs ftp (j.get_string u "password") _ s (λ password e''.
          or_throw-Installs ftp (ftp.login server username password) _ s (λ logged l.
            if-Installs ftp logged (fetch_info ftp u) give_up s (λ h. fetch_info-Installs ftp u s)
              (λ h. give_up-Installs ftp s)))))

  update_from-Installs :
      (ftp : Ftp) (o : Option O) (s : SystemManager O)
      → Installs ftp s.copied s.posted (update_from ftp o s).1
  unfolding update_from
  update_from-Installs ftp none s = give_up-Installs ftp s
  update_from-Installs ftp (some u) s =
      if-Installs ftp (lacks_server u) give_up (log_in ftp u) s (λ h. give_up-Installs ftp s)
        (λ h. log_in-Installs ftp u s)

  -- A run of the update copies nothing and announces no reboot, or it copies information that was
  -- read and is not older than the running program, and a file was downloaded whose MD5 is the
  -- checksum of this information.
  pub handle_update-Installs :
      (ftp : Ftp) (s : SystemManager O) → Installs ftp s.copied s.posted (handle_update ftp s).1
  unfolding handle_update read_config ◌>>=◌
  handle_update-Installs ftp s =
      if-Installs ftp s.updating (read_config ftp) (pure tt) s
        (λ h.
          on_config-Installs ftp (get_object "Update") (update_from ftp) s
            (λ update c. update_from-Installs ftp update (record s { config = c })))
        (λ h. kept refl refl)
