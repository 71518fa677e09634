-- ===== src/Server/Registrar/Listening/Sequences.antt =====
-- CRegServer, Src/TransmitServer/RegServer/RegServer.cpp: sequences of calls of `start` and `stop`.
use shuchuang.Shared.{◌≢◌, refl, Bool, List, [], ◌∷◌}
use shuchuang.Shared.Course.{Course, returns, throws, blocks, crashes, Call, give, end_by, Ended}
use shuchuang.Shared.Poco.{Json}
use shuchuang.Common.Config.{Config}
use shuchuang.Server.Registrar.Listening.{Listening, constructed, Surrounding, start, stop}
use shuchuang.Server.Registrar.Listening.Ready.{
  IsReady, IsBound, stopped-IsReady, start-Meets, stop-Meets,
}

unfoldable after : Course Bool → Call Listening (Unit {0}) → Call Listening (Unit {0})
after (returns b) rest = rest
after throws rest = rest
after blocks rest = end_by blocks
after crashes rest = end_by crashes

serve-Ended :
    (c : Course Bool) (s : Listening) (rest : Call Listening (Unit {0}))
    → Ended (λ b. IsReady) IsReady c s
    → ((s : Listening) → IsReady s → (rest s).0 ≢ crashes)
    → (after c rest s).0 ≢ crashes
unfolding Ended after end_by
serve-Ended (returns b) s rest h k = k s h
serve-Ended throws s rest h k = k s h
serve-Ended blocks s rest h k = λ e. cc
serve-Ended crashes s rest h k = absurd h

-- A call of a client, with what it meets.
pub data Request (O : Type 0) : Type 0 where
  starts : Config O → Surrounding → Request O
  stops : Surrounding → Request O

module _ {O : Type 0} ⦃j : Json O⦄ where
  unfoldable pub serve : Request O → Call Listening Bool
  serve (starts config w) = start config w
  serve (stops w) = stop w

  -- One call after the other, where what one throws is caught, until one does not come back.
  unfoldable pub calls : List (Request O) → Call Listening (Unit {0})
  unfolding serve after
  calls [] s = give tt s
  calls (r ∷ rs) s = let (c, s') = serve r s in after c (calls rs) s'

  abbrev pub AllBound : List (Request O) → Type 0
  AllBound [] = Unit
  AllBound (starts config w ∷ rs) = IsBound w × AllBound rs
  AllBound (stops w ∷ rs) = AllBound rs

  calls_ready-safe :
      (rs : List (Request O)) (s : Listening) → AllBound rs → IsReady s → (calls rs s).0 ≢ crashes
  unfolding calls serve give
  calls_ready-safe [] s b h = λ e. cc
  calls_ready-safe (starts config w ∷ rs) s (b, bs) h =
      serve-Ended _ _ _ ((start-Meets config w b).at s h) (λ t k. calls_ready-safe rs t bs k)
  calls_ready-safe (stops w ∷ rs) s bs h =
      serve-Ended _ _ _ ((stop-Meets w).at s h) (λ t k. calls_ready-safe rs t bs k)

  -- Calls of `start` and `stop` in any order, from a server just made, where both ports can be bound in
  -- each start: none touches a socket, or a pool of threads, that is not there.
  pub calls-safe : (rs : List (Request O)) → AllBound rs → (calls rs constructed).0 ≢ crashes
  calls-safe rs b = calls_ready-safe rs constructed b (stopped-IsReady constructed refl)
