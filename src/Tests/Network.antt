-- ===== src/Tests/Network.antt =====
-- Runs of the theorems on CNetworkManager and on the digest of a file.
use shuchuang.Shared.{ℕ, ◌≡◌, refl, true, some, List, [], ◌∷◌, ◌++◌, string_key, nat_key}
use mathlib.Core.List.{append_assoc}
use shuchuang.Shared.Outcome.{◌>>=◌}
use shuchuang.Device.Network.{
  Link, Says, NetworkManager, init_if, read_mac, read_digits, add_at, hex_value,
}
use shuchuang.Device.Network.Mac.{pairs, digits, bytes_of, read_mac-pairs}
use shuchuang.Device.Network.Setup.{Configured, IsUpWith, init_if-IsUpWith}
use shuchuang.Device.System.Checksum.{Md5Engine, get_file_md5, get_file_md5-digest}
use shuchuang.Tests.Objects.{Fields, text, nil, field, fields_json}

abbrev dev_info : Fields
dev_info = field "mac" (text "0a1B2c3D4e5F") (field "uuid" (text "door") nil)

read_mac-pairs_example : read_mac "0a1B2c3D4e5F" ≡ bytes_of (digits 12 "0a1B2c3D4e5F")
read_mac-pairs_example = read_mac-pairs "0a1B2c3D4e5F"

abbrev down : Link
down = record { flags = 66; hwaddr = [] }

abbrev grants : Says
grants = record { opens = true; reads = true; changes = true }

init_if-IsUpWith_example :
    (ts : List ℕ) × Configured (some dev_info) ts
    × IsUpWith (pairs ts) down (init_if grants grants grants (some dev_info) down).1
unfolding init_if read_mac read_digits add_at hex_value fields_json ◌>>=◌
init_if-IsUpWith_example = init_if-IsUpWith grants grants grants (some dev_info) down refl

abbrev no_clients : NetworkManager
no_clients = record { dhcp_map = []; gone = [] }

-- An engine that keeps the bytes.
abbrev keeper : Md5Engine (List ℕ)
keeper = record {
  begin = [];
  update = λ s a. s ++ a;
  digest = λ s. "d";
  update-append = λ s a b. append_assoc s a b;
}

get_file_md5-digest_example : get_file_md5 keeper (1 ∷ 2 ∷ []) ≡ some "d"
get_file_md5-digest_example = get_file_md5-digest keeper (1 ∷ 2 ∷ [])
