-- ===== src/Tests/Names.antt =====
-- A run of the theorem on the names of the users.
use shuchuang.Shared.{String, refl, List, some, [], ◌∷◌, string_key}
use shuchuang.Shared.Int.{pos}
use shuchuang.Device.Users.History.{Event, logs_in, adds, requests, timer, opens, history}
use shuchuang.Device.Users.Names.{DistinctNames}
use shuchuang.Device.Users.Names.Kept.{history-DistinctNames}
use shuchuang.Tests.Objects.{Fields, nil, field, text, int, int64, fields_json}
use shuchuang.Tests.Engine.{first_match, tally_digest}
use shuchuang.Tests.Users.{with_param, binding}

-- A request of the admin for a second guest, and one for a new user.
abbrev wants : String → Fields
wants name = field "token" (text "t1") (
    field "password" (text "p") (
      field "username" (text name) (
        field "binduser" (text "") (
          field "authority" (int (pos 7))
            (field "remainopen" (int (pos 1)) (field "timeofvalidity" (int64 (pos 9)) nil))))))

abbrev events : List (Event Fields)
events =
    requests logs_in (some binding) (pos 6)
    ∷ requests adds (some (wants "guest")) (pos 7)
    ∷ requests adds (some (wants "new")) (pos 7)
    ∷ opens "t2"
    ∷ timer (pos 8)
    ∷ []

history-DistinctNames_example : DistinctNames (history (with_param nil) events).users.table
history-DistinctNames_example = history-DistinctNames (with_param nil) events ((refl, tt), (tt, tt))
