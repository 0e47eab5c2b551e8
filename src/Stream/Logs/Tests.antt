-- ===== src/Stream/Logs/Tests.antt =====
-- The log broker on concrete lines.
use wireops.Prelude.{ℕ, ◌≡◌, some, [], ◌∷◌, All, In, arith}
use wireops.Go.Text.{codes}
use wireops.Go.Int.{pos}
use wireops.Go.Value.{lookup}
use wireops.Stream.{get_list}
use wireops.Stream.Delivery.{offered}
use wireops.Stream.Sound.{IsSound}
use wireops.Stream.Logs.{LiveCommand, Broker, new, fresh_command, publish_line}
use wireops.Stream.Logs.Lines.{Line, append_lines, append_lines-redelivered}
use wireops.Stream.Logs.Safety.{IsRecent, IsBuffer, IsExtended, line_event, publish_line-lem}

abbrev pulling : Line
pulling = record { phase = codes "pull"; text = codes "web"; seq = pos 1 }

abbrev started : Line
started = record { phase = []; text = codes "up"; seq = pos 2 }

append_lines-redelivered_example :
    append_lines (pulling ∷ started ∷ pulling ∷ []) fresh_command
    ≡ append_lines (pulling ∷ started ∷ []) fresh_command
append_lines-redelivered_example =
    append_lines-redelivered [] (started ∷ []) [] pulling fresh_command

new-IsSound : IsSound new.hub
unfolding get_list lookup
new-IsSound = record {
  old = λ k i j. elim j [ ];
  opened = λ k i j. elim j [ ];
  once = λ k. tt;
  one_key = λ j k i a. elim a [ ];
}

publish_line-lem_example :
    (d : Broker) × (old : LiveCommand) × (lc : LiveCommand) × (publish_line
        (codes "s")
        (codes "c1")
        (codes "pull")
        (codes "web")
        (pos 1)
        5
        6
        new
      ≡ some d)
    × IsSound d.hub
    × IsBuffer new (codes "c1") old
    × IsExtended old (codes "pull") (codes "web") (pos 1) 5 lc
    × (lookup d.live (codes "c1") ≡ some lc)
    × All (λ e. IsRecent 6 e.1) d.live
    × ((i : ℕ)
        → In i (get_list new.hub.subs (codes "s"))
        → d.hub.channels i ≡ offered (line_event (codes "c1") lc) (new.hub.channels i))
publish_line-lem_example =
    publish_line-lem (codes "s") b'c' (codes "1") (codes "pull") (codes "web") (pos 1) 5 6 new
      new-IsSound (omega arith)
