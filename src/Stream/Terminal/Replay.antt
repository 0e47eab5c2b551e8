-- ===== src/Stream/Terminal/Replay.antt =====
-- The pending events of a session: their bound, and what the first subscriber gets.
use wireops.Prelude.{
  ℕ, suc, ◌+◌, ◌≤◌, ◌<◌, ◌≡◌, refl, ap, sym, ◌∙◌, false, some, List, [], ◌∷◌, ◌++◌, length,
  length-append, leb_iff, leb-false, order-cases, ◌⊎◌, inl, inr, Bool-cases, leb, if◌then◌else◌,
  arith,
}
use mathlib.Core.List.{append_assoc, append-nil}
use wireops.Stream.{Channel, send_events}
use wireops.Stream.Delivery.{try_send-room}
use wireops.Stream.Terminal.{Event, keep_last}

module _ {ℓ} {E : Type ℓ} where
  -- A backlog that fits is replayed whole, in order.
  pub send_events-room :
      (evs : List E) (c : Channel E)
      → c.closed ≡ false
      → length c.queue + length evs ≤ c.capacity
      → send_events evs c ≡ some (record c { queue = c.queue ++ evs })
  unfolding send_events
  send_events-room [] c o r = ap (λ q. some (record c { queue = q })) (sym (append-nil c.queue))
  send_events-room (ev ∷ evs) c o r = rw (try_send-room ev c o (omega (arith, r))) (
      send_events-room evs (record c { queue = c.queue ++ (ev ∷ []) }) o
        (omega (arith, r, length-append c.queue (ev ∷ [])))
      ∙ ap (λ q. some (record c { queue = q })) (append_assoc c.queue (ev ∷ []) evs))

module _ (limit : ℕ) where
  pub keep_last-bounded :
      1 ≤ limit
      → (buf : List Event) (ev : Event) → length buf ≤ limit
      → length (keep_last limit buf ev) ≤ limit
  unfolding keep_last
  keep_last-bounded some_room [] ev h = some_room
  keep_last-bounded some_room (x ∷ buf) ev h = ground (arith, h, length-append buf (ev ∷ []))

  -- The last events: from the front, events are given up until no more than the limit are left.
  abbrev pub recent : List Event → List Event
  recent [] = []
  recent (x ∷ l) = let rest = recent l in if leb (length (x ∷ l)) limit then x ∷ l else rest

  recent-short : (l : List Event) → length l ≤ limit → recent l ≡ l
  recent-short [] h = refl
  recent-short (x ∷ l) h = ground (arith, h)

  recent-long : (x : Event) (l : List Event) → limit < length (x ∷ l) → recent (x ∷ l) ≡ recent l
  recent-long x l h = ground (arith, h)

  keep_last-room :
      (buf : List Event) (ev : Event)
      → length buf < limit
      → keep_last limit buf ev ≡ buf ++ (ev ∷ [])
  unfolding keep_last
  keep_last-room [] ev h = refl
  keep_last-room (x ∷ buf) ev h = ground (arith, h)

  keep_last-full :
      (x : Event) (buf : List Event) (ev : Event)
      → limit ≤ length (x ∷ buf)
      → keep_last limit (x ∷ buf) ev ≡ buf ++ (ev ∷ [])
  unfolding keep_last
  keep_last-full x buf ev h = ground (arith, h)

  length-snoc : (l : List Event) (ev : Event) → length (l ++ (ev ∷ [])) ≡ suc (length l)
  length-snoc l ev = omega (arith, length-append l (ev ∷ []))

  pub keep_last-recent :
      1 ≤ limit
      → (l : List Event) (ev : Event) → keep_last limit (recent l) ev ≡ recent (l ++ (ev ∷ []))
  keep_last-recent some_room [] ev =
      keep_last-room [] ev some_room ∙ sym (recent-short (ev ∷ []) some_room)
  keep_last-recent some_room (x ∷ l) ev = elim (order-cases (length (x ∷ l)) limit) [
    | inl less ↦
        ap (λ b. keep_last limit b ev) (recent-short (x ∷ l) (omega (arith, less)))
        ∙ keep_last-room (x ∷ l) ev less
        ∙ sym (recent-short (x ∷ l ++ (ev ∷ [])) (omega (arith, less, length-snoc l ev)))
    | inr (inl same) ↦
        ap (λ b. keep_last limit b ev) (recent-short (x ∷ l) (omega (arith, same)))
        ∙ keep_last-full x l ev (omega (arith, same))
        ∙ sym (recent-short (l ++ (ev ∷ [])) (omega (arith, same, length-snoc l ev)))
        ∙ sym (recent-long x (l ++ (ev ∷ [])) (omega (arith, same, length-snoc l ev)))
    | inr (inr more) ↦
        ap (λ b. keep_last limit b ev) (recent-long x l more)
        ∙ keep_last-recent some_room l ev
        ∙ sym (recent-long x (l ++ (ev ∷ [])) (omega (arith, more, length-snoc l ev)))
  ]

  -- What a list of events consists of: those given up, and those kept, which reach the limit if any
  -- was given up.
  abbrev pub IsReplayOf : List Event → List Event → Type 0
  IsReplayOf queue evs =
      (missed : List Event) × (evs ≡ missed ++ queue)
      × (length queue ≤ limit)
      × ((missed ≡ []) ⊎ (length queue ≡ limit))

  pub recent-IsReplayOf : (evs : List Event) → IsReplayOf (recent evs) evs
  recent-IsReplayOf [] = ([], refl, omega arith, inl refl)
  recent-IsReplayOf (x ∷ evs) =
      let (missed, e, short, full) = recent-IsReplayOf evs in
      elim (Bool-cases (leb (length (x ∷ evs)) limit)) [
        | inl t ↦ rw t ([], refl, (leb_iff _ _).0 t, inl refl)
        | inr f ↦ rw f (
          x ∷ missed,
          ap (λ l. x ∷ l) e,
          short,
          inr (elim full [
            | inl m ↦ omega (
              arith,
              leb-false f,
              short,
              ap length m,
              ap length e,
              length-append missed (recent evs),
            )
            | inr g ↦ g
          ]),
        )
      ]
