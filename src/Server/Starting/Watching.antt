-- ===== src/Server/Starting/Watching.antt =====
-- grpc_server.go: the replies of WatchStatus.
use ska_low_station_beam_sim.Prelude.{◌++◌, ◌≢◌, ◌≡◌, true, false, List, [], ◌∷◌, map, All}
use ska_low_station_beam_sim.Float.{Float}
use ska_low_station_beam_sim.Server.Requests.{StatusResponse}
use ska_low_station_beam_sim.Server.Handlers.{snapshot_status}
use ska_low_station_beam_sim.Server.Starting.{
  Wake, cancelled, shutting_down, ticked, Round, Watched, send_error, was_cancelled, was_shut_down,
  still_watching,
}

abbrev pub ending_of_wake : Wake → Watched
ending_of_wake cancelled = was_cancelled
ending_of_wake shutting_down = was_shut_down
ending_of_wake ticked = still_watching

module _ {F S : Type 0} where
  -- A round after which the stream goes on.
  abbrev pub GoesOn : Round F S → Type 0
  GoesOn round = (round.sends ≡ true) × (round.wake ≡ ticked)

module _ {F S : Type 0} (fl : Float F S) where
  abbrev pub reply_of : Round F S → StatusResponse F
  reply_of round = snapshot_status fl round.server

  -- How the stream ends: never in these rounds; with a reply that cannot be sent; or after a reply.
  pub data Stream : List (Round F S) → List (StatusResponse F) × Watched → Type 0 where
    goes_on :
        (rounds : List (Round F S))
        → All GoesOn rounds
        → Stream rounds (map reply_of rounds, still_watching)
    fails :
        (before after : List (Round F S)) (round : Round F S)
        → All GoesOn before
        → round.sends ≡ false
        → Stream (before ++ (round ∷ after)) (map reply_of before, send_error)
    ends :
        (before after : List (Round F S)) (round : Round F S)
        → All GoesOn before
        → round.sends ≡ true
        → round.wake ≢ ticked
        → Stream
            (before ++ (round ∷ after))
            (map reply_of (before ++ (round ∷ [])), ending_of_wake round.wake)
