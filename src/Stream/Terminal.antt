-- ===== src/Stream/Terminal.antt =====
-- internal/termstream/broker.go: the broker of terminal sessions. A session without a subscriber
-- has its events kept, the last 256 of them, for the first one.
pub mod Replay
pub mod Safety
pub mod Backlog
pub mod Tests
use wireops.Prelude.{
  ℕ, ◌≡◌, Bool, true, false, Option, none, some, List, [], ◌∷◌, ◌++◌, length, ltb, leb,
  if◌then◌else◌, ◌>>=◌,
}
use wireops.Go.Text.{Text}
use wireops.Go.Int.{ℤ, pos}
use wireops.Go.Assoc.{put, remove}
use wireops.Stream.{
  Channel, Hub, get_list, make_channel, send_events, add_subscriber, unsubscribe, send, receive,
}

pub record Event : Type 0 where
  pub bytes : Text
  pub closed : Bool
  pub exit_code : ℤ
  pub error : Text

abbrev pub max_pending_events : ℕ
max_pending_events = 256

pub record Broker : Type 0 where
  pub hub : Hub Event
  pub pending : List (Text × List Event)

-- `New()`.
abbrev pub new : Broker
new = record {
  hub = record { subs = []; channels = λ i. make_channel max_pending_events; fresh = 0 };
  pending = [];
}

-- `Subscribe`: the new channel's number is the handle of the reader and of its `unsubscribe`.
unfoldable pub subscribe : Text → Broker → Option (Broker × ℕ)
subscribe session b = do
  c ← send_events (get_list b.pending session) (make_channel max_pending_events)
  let (hub, id) = add_subscriber session c b.hub
  some (record b { hub = hub; pending = remove b.pending session }, id)

unfoldable pub unsub : Text → ℕ → Broker → Option Broker
unsub session id b = do hub ← unsubscribe session id b.hub; some (record b { hub = hub })

-- `buf[1:]` of a buffer that has reached the limit, and `append(buf, ev)`.
unfoldable pub keep_last : ℕ → List Event → Event → List Event
keep_last limit [] ev = ev ∷ []
keep_last limit (x ∷ buf) ev =
    if leb limit (length (x ∷ buf)) then buf ++ (ev ∷ []) else x ∷ buf ++ (ev ∷ [])

unfoldable pub publish : Text → Event → Broker → Option Broker
publish session ev b = elim (get_list b.hub.subs session) [
  | [] ↦ some (record b {
    pending = put b.pending session (keep_last max_pending_events (get_list b.pending session) ev);
  })
  | _ ∷ _ ↦ do hub ← send session ev b.hub; some (record b { hub = hub })
]

unfoldable pub publish_output : Text → Text → Broker → Option Broker
publish_output session chunk b =
    publish session (record { bytes = chunk; closed = false; exit_code = pos 0; error = [] }) b

unfoldable pub publish_closed : Text → ℤ → Text → Broker → Option Broker
publish_closed session code message b =
    publish session (record { bytes = []; closed = true; exit_code = code; error = message }) b

-- What happens to a broker: the four calls, and a reader that takes an event from its channel.
pub data Call : Type 0 where
  subscribing : Text → Call
  unsubscribing : Text → ℕ → Call
  output : Text → Text → Call
  closing : Text → ℤ → Text → Call
  reading : ℕ → Call

unfoldable pub perform : Call → Broker → Option Broker
perform (subscribing session) b = do r ← subscribe session b; some r.0
perform (unsubscribing session id) b = unsub session id b
perform (output session chunk) b = publish_output session chunk b
perform (closing session code message) b = publish_closed session code message b
perform (reading id) b = some (record b { hub = receive id b.hub })

unfoldable pub perform_all : List Call → Broker → Option Broker
perform_all [] b = some b
perform_all (c ∷ cs) b = do d ← perform c b; perform_all cs d
