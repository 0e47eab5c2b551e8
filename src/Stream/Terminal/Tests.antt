-- ===== src/Stream/Terminal/Tests.antt =====
-- The terminal broker on concrete histories.
use wireops.Prelude.{ℕ, ◌≡◌, refl, false, some, List, [], ◌∷◌}
use wireops.Go.Text.{codes}
use wireops.Go.Int.{pos}
use wireops.Stream.{get_list}
use wireops.Stream.Terminal.{
  Event, Broker, Call, subscribing, unsubscribing, output, closing, reading, max_pending_events,
  new, subscribe, perform_all,
}
use wireops.Stream.Terminal.Replay.{IsReplayOf}
use wireops.Stream.Terminal.Safety.{Returns, new-IsValid, perform_all-safe}
use wireops.Stream.Terminal.Backlog.{publish_each, subscribe-replay}

-- Output before the first subscriber, a subscriber that leaves twice, and the end of the session.
abbrev history : List Call
history =
    output (codes "s") (codes "$ ")
    ∷ subscribing (codes "s")
    ∷ reading 0
    ∷ closing (codes "s") (pos 0) []
    ∷ unsubscribing (codes "s") 0
    ∷ unsubscribing (codes "s") 0
    ∷ output (codes "s") (codes "late")
    ∷ []

perform_all-safe_example : Returns (perform_all history new)
perform_all-safe_example = perform_all-safe history new new-IsValid

abbrev prompt : Event
prompt = record { bytes = codes "$ "; closed = false; exit_code = pos 0; error = [] }

no_subs : get_list new.hub.subs (codes "s") ≡ []
unfolding get_list wireops.Go.Value.lookup
no_subs = refl

no_pending : get_list new.pending (codes "s") ≡ []
unfolding get_list wireops.Go.Value.lookup
no_pending = refl

subscribe-replay_example :
    (d c : Broker) × (id : ℕ) × (publish_each (codes "s") (prompt ∷ []) new ≡ some d)
    × (subscribe (codes "s") d ≡ some (c, id))
    × IsReplayOf max_pending_events (c.hub.channels id).queue (prompt ∷ [])
    × (get_list c.pending (codes "s") ≡ [])
subscribe-replay_example =
    subscribe-replay (codes "s") (prompt ∷ []) new new-IsValid no_subs no_pending
