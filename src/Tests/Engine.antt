-- ===== src/Tests/Engine.antt =====
-- A generator, a digest, a table engine and a memory, for the runs.
use Prim.Native.String.{◌++◌ as append_text}
use shuchuang.Shared.{
  ℕ, zero, suc, String, refl, Bool, true, List, [], ◌∷◌, ◌==◌, string_key, not, ◌&&◌,
}
use shuchuang.Shared.Poco.{Digest, Sqlite}
use shuchuang.Device.UserTable.{UserRecordNode}
use shuchuang.Server.Devices.{Freed}

unfoldable pub tally : ℕ → String
tally zero = "u"
tally (suc n) = append_text "u" (tally n)

instance unfoldable pub tally_digest : Digest
unfolding tally
tally_digest = record { uuid = tally; md5 = λ s. append_text "m" s }

unfoldable pub fresh_name : List UserRecordNode → UserRecordNode → Bool
fresh_name [] n = true
fresh_name (r ∷ rs) n = not (r.username == n.username) && fresh_name rs n

-- The name is the key, and the first match is the one that is read.
instance unfoldable pub first_match : Sqlite UserRecordNode
unfolding fresh_name
first_match = record {
  accepts = fresh_name;
  pick = λ r rs. r;
  pick-single = λ r. refl;
  pick_sound = λ p r rs h a. h;
}

instance unfoldable pub honest : Freed
honest = record { freed_id = λ d. d.id; freed_uuid = λ d. d.uuid }

-- Freed memory that reads as zero.
abbrev pub wiped : Freed
wiped = record { freed_id = λ d. 0; freed_uuid = λ d. "" }
