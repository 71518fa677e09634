-- ===== src/Device/System/Clock.antt =====
-- CSystemManager, Src/Device/Component/System/SystemManager.cpp: the clock of the device, which it sets
-- by NTP. The build for the device.
use shuchuang.Shared.{String, Bool, true, false, Option, none, some, if◌then◌else◌}
use shuchuang.Shared.Int.{ℤ, pos}
use shuchuang.Shared.Outcome.{Action, pure, or_throw, modify, ◌>>=◌, ◌>>◌}
use shuchuang.Shared.Poco.{Json}
use shuchuang.Common.Config.{Config, get_object}

-- The clock in microseconds, and `m_utcOffset` in seconds.
pub record Clock : Type 0 where
  pub time : ℤ
  pub utc_offset : ℤ

-- `CSystemManager()`.
abbrev pub at_start : ℤ → Clock
at_start time = record { time = time; utc_offset = pos 0 }

-- What a host answers, `none` where the request throws; whether the clock can be set; and the
-- offset of the time zone.
pub record Ntp : Type 0 where
  pub answer : String → Option ℤ
  pub can_set : Bool
  pub offset : ℤ

-- The offset is taken only where the clock could be set.
unfoldable pub on_ntp_event : Ntp → ℤ → Action Clock (Unit {0})
on_ntp_event ntp receive_time =
    if ntp.can_set
    then modify (λ c. record c { time = receive_time; utc_offset = ntp.offset })
    else pure tt

unfoldable pub request : Ntp → Option ℤ → Action Clock Bool
unfolding on_ntp_event
request ntp none = pure false
request ntp (some receive_time) = do on_ntp_event ntp receive_time; pure true

module _ {O : Type 0} ⦃j : Json O⦄ where
  -- The host is read outside of the `try`.
  unfoldable pub request_host : Ntp → Option O → Action Clock Bool
  unfolding request
  request_host ntp entry = do
    o ← or_throw entry
    host ← or_throw (j.get_string o "host")
    request ntp (ntp.answer host)

  unfoldable pub synchronize_time : Config O → Ntp → Action Clock Bool
  unfolding request_host
  synchronize_time config ntp = do
    entry ← (λ c. ((get_object "RegProxy" config).0, c))
    request_host ntp entry
