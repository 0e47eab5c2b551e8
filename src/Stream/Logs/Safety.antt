-- ===== src/Stream/Logs/Safety.antt =====
-- `PublishLine` as a whole: it returns, its subscribers get the buffer, and old buffers are swept.
use mathlib.Core.Path.{subst}
use wireops.Prelude.{
  ◌++◌, ◌<◌, ◌≢◌, ◌⊎◌, Option-cases, none, true, arith, ℕ, ◌+◌, ◌≤◌, ◌≡◌, refl, ap, sym, ◌∙◌, inl,
  inr, false, some, List, [], ◌∷◌, ltb, Bool-cases, some_inj, All, In, ltb-false, ltb_is_false,
}
use wireops.Go.Text.{Text, codes, text_eq, byte_length}
use wireops.Go.Int.{ℤ, pos, ltbℤ}
use wireops.Go.Value.{lookup}
use wireops.Go.Assoc.{put, lookup-put}
use wireops.Stream.{get_list}
use wireops.Stream.Delivery.{offered}
use wireops.Stream.Sound.{IsSound, send-delivers}
use wireops.Stream.Logs.{
  Event, LiveCommand, Broker, live_command_retention, live_command_max_bytes, live_or_fresh,
  rendered, append_line, live_record_id, sweep, buffer_after, publish, publish_line,
}

-- A buffer that the sweep keeps at the time `now`.
abbrev pub IsRecent : ℕ → LiveCommand → Type 0
IsRecent now lc = now ≤ lc.updated_at + live_command_retention

sweep-All :
    (now : ℕ) (live : List (Text × LiveCommand)) → All (λ e. IsRecent now e.1) (sweep now live)
unfolding sweep
sweep-All now [] = tt
sweep-All now ((id, lc) ∷ live) =
    elim (Bool-cases (ltb (lc.updated_at + live_command_retention) now)) [
      | inl t ↦ rw (t, sweep) (sweep-All now live)
      | inr f ↦ rw (f, sweep) (ltb-false f, sweep-All now live)
    ]

sweep-keeps :
    (now : ℕ) (live : List (Text × LiveCommand)) (id : Text) {lc : LiveCommand}
    → lookup live id ≡ some lc
    → IsRecent now lc
    → lookup (sweep now live) id ≡ some lc
unfolding sweep lookup
sweep-keeps now [] id e r = cc e
sweep-keeps now ((j, l) ∷ live) id {lc} e r = elim (Bool-cases (text_eq j id)) [
  | inl t ↦
      let same : lc ≡ l = some_inj (sym e ∙ rw (t, lookup) refl) in
      let kept : ltb (l.updated_at + live_command_retention) now ≡ false =
        ltb_is_false (subst (IsRecent now) same r) in
      rw (kept, sweep) (rw (t, lookup) (ap some (sym same)))
  | inr f ↦
      let ih = sweep-keeps now live id {lc = lc} (rw (f, lookup) refl ∙ e) r in
      elim (Bool-cases (ltb (l.updated_at + live_command_retention) now)) [
        | inl u ↦ rw (u, sweep) ih
        | inr u ↦ rw (u, sweep) (rw (f, lookup) ih)
      ]
]

-- The text that one line adds: the phase in brackets before it, if there is one.
abbrev pub IsEntry : Text → Text → Text → Type 0
IsEntry phase line entry =
    ((phase ≡ []) × (entry ≡ line ++ codes "\n"))
    ⊎ ((phase ≢ []) × (entry ≡ codes "[" ++ (phase ++ (codes "] " ++ (line ++ codes "\n")))))

-- The output after a line with a new number: the line is behind the old output, unless that has
-- reached its limit.
abbrev pub IsOutputAfter : LiveCommand → Text → Text → Text → Type 0
IsOutputAfter old phase line output =
    ((byte_length old.output < live_command_max_bytes)
      × ((entry : Text) × IsEntry phase line entry × (output ≡ old.output ++ entry)))
    ⊎ ((live_command_max_bytes ≤ byte_length old.output) × (output ≡ old.output))

-- The buffer `lc` is the old one with the line: a new number is the last one, and another one changes
-- nothing but the time.
pub record IsExtended (old : LiveCommand) (phase line : Text) (seq : ℤ) (now : ℕ) (lc : LiveCommand)
    : Type 0 where
  pub extended :
      ((ltbℤ old.last_seq seq ≡ true)
        × (lc.last_seq ≡ seq)
        × IsOutputAfter old phase line lc.output)
      ⊎ ((ltbℤ old.last_seq seq ≡ false) × (lc.last_seq ≡ old.last_seq) × (lc.output ≡ old.output))
  pub stamped : lc.updated_at ≡ now

-- The buffer of the command before the line: an empty one, if the broker has none.
abbrev pub IsBuffer : Broker → Text → LiveCommand → Type 0
IsBuffer b command old =
    (lookup b.live command ≡ some old)
    ⊎ ((lookup b.live command ≡ none)
        × (old ≡ record { output = []; last_seq = pos 0; updated_at = 0 }))

rendered-IsEntry : (phase line : Text) → IsEntry phase line (rendered phase line)
unfolding rendered
rendered-IsEntry [] line = inl (refl, refl)
rendered-IsEntry (c ∷ phase) line = inr (λ e. cc e, refl)

append_line-IsOutputAfter :
    (phase line : Text) (seq : ℤ) (old : LiveCommand)
    → ltbℤ old.last_seq seq ≡ true
    → IsOutputAfter old phase line (append_line phase line seq old).output
unfolding append_line
append_line-IsOutputAfter phase line seq old newer =
    elim (Bool-cases (ltb (byte_length old.output) live_command_max_bytes)) [
      | inl room ↦ inl (
        ground arith,
        (rendered phase line, rendered-IsEntry phase line, rw (newer, append_line) (rw room refl)),
      )
      | inr full ↦ inr (ltb-false full, rw (newer, append_line) (rw full refl))
    ]

append_line-IsExtended :
    (phase line : Text) (seq : ℤ) (now : ℕ) (old : LiveCommand)
    → IsExtended old phase line seq now
        (record (append_line phase line seq old) { updated_at = now })
append_line-IsExtended phase line seq now old = record {
  extended = elim (Bool-cases (ltbℤ old.last_seq seq)) [
    | inl newer ↦ inl (
      newer,
      unfold append_line in rw (newer, append_line) refl,
      append_line-IsOutputAfter phase line seq old newer,
    )
    | inr stale ↦ inr (
      stale,
      unfold append_line in rw (stale, append_line) refl,
      unfold append_line in rw (stale, append_line) refl,
    )
  ];
  stamped = refl;
}

live_or_fresh-IsBuffer :
    (b : Broker) (command : Text) → IsBuffer b command (live_or_fresh (lookup b.live command))
live_or_fresh-IsBuffer b command = elim (Option-cases (lookup b.live command)) [
  | inl e ↦ inr (e, ap live_or_fresh e)
  | inr (lc, e) ↦ inl (e ∙ ap some (sym (ap live_or_fresh e)))
]

-- The event that a line of output is published as.
abbrev pub line_event : Text → LiveCommand → Event
line_event command lc = record {
  record_id = codes "live:" ++ command;
  output = lc.output;
  status = codes "running";
}

-- A line of a command is published without a panic. The command's buffer, the one from before or an
-- empty one, is extended by the line: a line with a new number is put behind the output, with its phase
-- in brackets before it if it has one, unless the output has reached its limit; an old number changes
-- nothing but the time. The output is offered to each of the stack's subscribers under the command's
-- live id; the broker keeps the buffer, unless more than the retention passes between the two looks at
-- the clock, and keeps no buffer that is idle for longer than the retention.
pub publish_line-lem :
    (stack : Text) (c : ℕ) (cs phase line : Text) (seq : ℤ) (now later : ℕ) (b : Broker)
    → IsSound b.hub
    → later ≤ now + live_command_retention
    → (d : Broker) × (old : LiveCommand) × (lc : LiveCommand) × (publish_line stack
          (c ∷ cs)
          phase
          line
          seq
          now
          later
          b
        ≡ some d)
      × IsSound d.hub
      × IsBuffer b (c ∷ cs) old
      × IsExtended old phase line seq now lc
      × (lookup d.live (c ∷ cs) ≡ some lc)
      × All (λ e. IsRecent later e.1) d.live
      × ((i : ℕ)
          → In i (get_list b.hub.subs stack)
          → d.hub.channels i ≡ offered (line_event (c ∷ cs) lc) (b.hub.channels i))
unfolding publish_line publish buffer_after live_record_id
publish_line-lem stack c cs phase line seq now later b s short =
    let old = live_or_fresh (lookup b.live (c ∷ cs)) in
    let lc : LiveCommand = record (append_line phase line seq old) { updated_at = now } in
    let live = put b.live (c ∷ cs) lc in
    let (hub, e, sound, reached, others) = send-delivers b.hub s stack (line_event (c ∷ cs) lc) in
    (
      record { hub = hub; live = sweep later live },
      old,
      lc,
      rw e refl,
      sound,
      live_or_fresh-IsBuffer b (c ∷ cs),
      append_line-IsExtended phase line seq now old,
      sweep-keeps later live (c ∷ cs) (lookup-put b.live (c ∷ cs) lc) short,
      sweep-All later live,
      reached,
    )
