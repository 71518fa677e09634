-- ===== src/Tests/Boot.antt =====
-- A run of the theorem on the start of the device.
use shuchuang.Shared.{true, refl, some, [], ◌∷◌, string_key}
use shuchuang.Shared.Int.{pos}
use shuchuang.Shared.Dict.{find}
use shuchuang.Shared.Outcome.{◌>>=◌}
use shuchuang.Common.Config.{object, get_object}
use shuchuang.Device.World.{World}
use shuchuang.Device.System.Clock.{Ntp}
use shuchuang.Device.Tasks.History.{history}
use shuchuang.Device.Tasks.Timed.{AllTimed}
use shuchuang.Device.Boot.{boot, synchronized, boot-history}
use shuchuang.Tests.Objects.{Fields, nil, field, text, lookup, as_text, fields_json}
use shuchuang.Tests.Tasks.{asking, alarm_fields, adding}

abbrev proxy : Fields
proxy = field "host" (text "server") nil

abbrev installed : World Fields
installed = record (asking alarm_fields) { config = some (("RegProxy", object proxy) ∷ []) }

abbrev china : Ntp
china = record { answer = λ host. some (pos 1000); can_set = true; offset = pos 28800 }

boot-history_example :
    AllTimed
      (synchronized china (china.answer "server"))
      (history (boot china some installed).1 (adding ∷ [])).tasks.queue
unfolding get_object find fields_json lookup as_text ◌>>=◌
boot-history_example = boot-history china some installed proxy "server" (adding ∷ []) refl refl
