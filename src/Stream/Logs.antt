-- ===== src/Stream/Logs.antt =====
-- internal/logstream/broker.go: the broker of a stack's log, with the live buffers of the commands
-- that run.
pub mod Lines
pub mod Safety
pub mod Tests
use wireops.Prelude.{
  ℕ, ◌+◌, ◌*◌, ◌≡◌, Bool, true, false, Option, none, some, List, [], ◌∷◌, ◌++◌, ltb, if◌then◌else◌,
  ◌>>=◌,
}
use wireops.Go.Text.{Text, codes, is_empty, byte_length}
use wireops.Go.Int.{ℤ, pos, ltbℤ}
use wireops.Go.Value.{lookup}
use wireops.Go.Assoc.{put, remove}
use wireops.Stream.{Channel, Hub, make_channel, add_subscriber, unsubscribe, send, receive}

pub record Event : Type 0 where
  pub record_id : Text
  pub output : Text
  pub status : Text

-- Times are nanoseconds.
pub record LiveCommand : Type 0 where
  pub output : Text
  pub last_seq : ℤ
  pub updated_at : ℕ

abbrev pub live_command_retention : ℕ
live_command_retention = 15 * 60 * 1000000000

abbrev pub live_command_max_bytes : ℕ
live_command_max_bytes = 1048576

pub record Broker : Type 0 where
  pub hub : Hub Event
  pub live : List (Text × LiveCommand)

abbrev pub new : Broker
new = record { hub = record { subs = []; channels = λ i. make_channel 16; fresh = 0 }; live = [] }

unfoldable pub subscribe : Text → Broker → Broker × ℕ
subscribe stack b =
    let (hub, id) = add_subscriber stack (make_channel 16) b.hub in (record b { hub = hub }, id)

unfoldable pub unsub : Text → ℕ → Broker → Option Broker
unsub stack id b = do hub ← unsubscribe stack id b.hub; some (record b { hub = hub })

unfoldable pub publish : Text → Event → Broker → Option Broker
publish stack ev b = do hub ← send stack ev b.hub; some (record b { hub = hub })

unfoldable pub live_record_id : Text → Text
live_record_id command = codes "live:" ++ command

abbrev pub fresh_command : LiveCommand
fresh_command = record { output = []; last_seq = pos 0; updated_at = 0 }

-- `b.live[commandID]`, or the buffer that is made for a command without one.
abbrev pub live_or_fresh : Option LiveCommand → LiveCommand
live_or_fresh none = fresh_command
live_or_fresh (some lc) = lc

-- The text that one line adds: `[phase] line`, or the line alone where the phase is empty.
unfoldable pub rendered : Text → Text → Text
rendered phase line =
    if is_empty phase
    then line ++ codes "\n"
    else codes "[" ++ (phase ++ (codes "] " ++ (line ++ codes "\n")))

-- The body of `if seq > lc.lastSeq`.
unfoldable pub append_line : Text → Text → ℤ → LiveCommand → LiveCommand
append_line phase line seq lc =
    if ltbℤ lc.last_seq seq
    then record lc {
      output =
          if ltb (byte_length lc.output) live_command_max_bytes
          then lc.output ++ rendered phase line
          else lc.output;
      last_seq = seq;
    }
    else lc

-- `sweepLiveLocked` at the time `now`.
unfoldable pub sweep : ℕ → List (Text × LiveCommand) → List (Text × LiveCommand)
sweep now [] = []
sweep now ((id, lc) ∷ live) =
    let rest = sweep now live in
    if ltb (lc.updated_at + live_command_retention) now then rest else (id, lc) ∷ rest

-- The buffer of the command after the line, stamped with the time.
unfoldable pub buffer_after : Text → Text → Text → ℤ → ℕ → Broker → LiveCommand
buffer_after command phase line seq now b =
    record (append_line phase line seq (live_or_fresh (lookup b.live command))) { updated_at = now }

-- `PublishLine`, with the times of its two calls of `time.Now`.
unfoldable pub publish_line : Text → Text → Text → Text → ℤ → ℕ → ℕ → Broker → Option Broker
publish_line stack [] phase line seq now later b = some b
publish_line stack (c ∷ command) phase line seq now later b =
    let lc = buffer_after (c ∷ command) phase line seq now b in
    publish stack
      (record {
        record_id = live_record_id (c ∷ command);
        output = lc.output;
        status = codes "running";
      })
      (record b { live = sweep later (put b.live (c ∷ command) lc) })

unfoldable pub forget_live_command : Text → Broker → Broker
forget_live_command command b = record b { live = remove b.live command }
