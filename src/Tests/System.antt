-- ===== src/Tests/System.antt =====
-- Runs of the theorems on CSystemManager.
use shuchuang.Shared.{true, some, [], ◌∷◌, string_key}
use shuchuang.Shared.Int.{pos}
use shuchuang.Common.Config.{object}
use shuchuang.Device.System.{SystemManager, Ftp, handle_update}
use shuchuang.Device.System.Installs.{Installs, handle_update-Installs}
use shuchuang.Tests.Objects.{Fields, text, nil, field, fields_json}

abbrev site : Fields
site = field "server" (text "h") (field "username" (text "u") nil)

abbrev full_site : Fields
full_site = field "password" (text "p") (field "infoPath" (text "/Info") site)

abbrev manager : Fields → SystemManager Fields
manager update = record {
  updating = true;
  update_version = "2";
  timer = true;
  config =
      some
        (("Update", object update) ∷ ("DeviceInfo", object (field "type" (text "door") nil)) ∷ []);
  param = some nil;
  posted = [];
  copied = [];
}

-- A server with one release.
abbrev releases : Ftp
releases = record {
  login = λ h u p. some true;
  download = λ path. some path;
  read_info = λ t. some (record { version = "2"; buildtime = "b"; checksum = "door/2/DeviceTest" });
  parse_date = λ t. some (pos 1);
  file_md5 = λ body. body;
  mktime = "a";
}

handle_update-Installs_example :
    Installs releases [] [] (handle_update releases (manager full_site)).1
handle_update-Installs_example = handle_update-Installs releases (manager full_site)
