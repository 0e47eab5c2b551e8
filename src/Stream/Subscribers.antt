-- ===== src/Stream/Subscribers.antt =====
-- Subscribing, unsubscribing and reading keep the invariant of the subscribers.
use mathlib.Core.Path.{subst}
use wireops.Prelude.{
  ℕ, ◌≡◌, ◌≢◌, ◌⊎◌, refl, ap, sym, ◌∙◌, true, false, some, List, [], ◌∷◌, ◌++◌, In, In-append_cases,
  arith, Option-cases, inl, inr,
}
use wireops.Go.Text.{Text, Text-cases}
use wireops.Go.Assoc.{put}
use wireops.Stream.{
  Channel, Hub, get_list, set_channel, take_out, close, drop_empty, add_subscriber, unsubscribe,
  receive,
}
use wireops.Stream.Taken.{Taken, take_out-lem, IsNodup-append}
use wireops.Stream.Delivery.{
  IsNodup, set_channel-closed, set_channel-same, set_channel-other, get_list-put,
  get_list-put_other,
}
use wireops.Stream.Sound.{IsSound, IsSound-shrink, get_list-drop_empty}

module _ {ℓ} {E : Type ℓ} (h : Hub E) (s : IsSound h) where
  added_at :
      (key : Text) (j : Text) (i : ℕ)
      → In i (get_list (put h.subs key (get_list h.subs key ++ (h.fresh ∷ []))) j)
      → In i (get_list h.subs j) ⊎ ((i ≡ h.fresh) × (key ≡ j))
  added_at key j i k = elim (Text-cases key j) [
    | inl e ↦
        let here_too : In i (get_list h.subs key ++ (h.fresh ∷ [])) =
          subst (In i) (get_list-put h.subs key _) (
            subst (λ l. In i (get_list (put h.subs key (get_list h.subs key ++ (h.fresh ∷ []))) l))
              (sym e) k) in
        elim (In-append_cases (get_list h.subs key) here_too) [
          | inl l ↦ inl (subst (λ l. In i (get_list h.subs l)) e l)
          | inr f ↦ inr (f, e)
        ]
    | inr n ↦ inl (subst (In i) (get_list-put_other h.subs _ n) k)
  ]

  once_added :
      (key : Text) (j : Text)
      → IsNodup (get_list (put h.subs key (get_list h.subs key ++ (h.fresh ∷ []))) j)
  once_added key j = elim (Text-cases key j) [
    | inl e ↦
        subst (λ l. IsNodup (get_list (put h.subs key (get_list h.subs key ++ (h.fresh ∷ []))) l)) e
          (subst IsNodup (sym (get_list-put h.subs key _)) (
            IsNodup-append (get_list h.subs key) h.fresh (s.once key)
              (λ i. omega (arith, s.old key h.fresh i))))
    | inr n ↦ subst IsNodup (sym (get_list-put_other h.subs _ n)) (s.once j)
  ]

  pub add_subscriber-IsSound :
      (key : Text) (c : Channel E) → c.closed ≡ false → IsSound (add_subscriber key c h).0
  unfolding add_subscriber
  add_subscriber-IsSound key c o = record {
    old = λ j i k. elim (added_at key j i k) [
      | inl l ↦ omega (arith, s.old j i l)
      | inr (f, e) ↦ omega (arith, f)
    ];
    opened = λ j i k. elim (added_at key j i k) [
      | inl l ↦
          ap (λ d. d.closed) (set_channel-other h.channels c (λ e. omega (arith, e, s.old j i l)))
          ∙ s.opened j i l
      | inr (f, e) ↦ rw f (ap (λ d. d.closed) (set_channel-same h.channels h.fresh c) ∙ o)
    ];
    once = once_added key;
    one_key = λ j k i a b. elim (added_at key j i a) [
      | inl l ↦ elim (added_at key k i b) [
        | inl m ↦ s.one_key j k i l m
        | inr (f, e) ↦ absurd (omega (arith, f, s.old j i l))
      ]
      | inr (f, e) ↦ elim (added_at key k i b) [
        | inl m ↦ absurd (omega (arith, f, s.old k i m))
        | inr (g, d) ↦ sym e ∙ d
      ]
    ];
  }

  left_at :
      (key : Text) (c : ℕ) {rest : List ℕ}
      → Taken c (get_list h.subs key) rest
      → (j : Text) (i : ℕ) → In i (get_list (drop_empty key (put h.subs key rest)) j)
      → In i (get_list h.subs j) × (i ≢ c)
  left_at key c {rest} t j i k =
      let there_too : In i (get_list (put h.subs key rest) j) =
        subst (In i) (get_list-drop_empty key (put h.subs key rest) j) k in
      elim (Text-cases key j) [
        | inl e ↦
            let l : In i rest =
              subst (In i)
                (ap (get_list (put h.subs key rest)) (sym e) ∙ get_list-put h.subs key rest)
                there_too in
            (
              subst (λ l. In i (get_list h.subs l)) e (t.kept i l),
              λ f. t.gone (subst (λ x. In x rest) f l),
            )
        | inr n ↦
            let l : In i (get_list h.subs j) =
              subst (In i) (get_list-put_other h.subs rest n) there_too in
            (l, λ f. n (s.one_key key j c t.was_in (subst (λ x. In x (get_list h.subs j)) f l)))
      ]

  once_left :
      (key : Text) (c : ℕ) {rest : List ℕ}
      → Taken c (get_list h.subs key) rest
      → (j : Text) → IsNodup (get_list (drop_empty key (put h.subs key rest)) j)
  once_left key c {rest} t j =
      subst IsNodup (sym (get_list-drop_empty key (put h.subs key rest) j))
        (elim (Text-cases key j) [
          | inl e ↦
              subst (λ l. IsNodup (get_list (put h.subs key rest) l)) e
                (subst IsNodup (sym (get_list-put h.subs key rest)) t.nodup)
          | inr n ↦ subst IsNodup (sym (get_list-put_other h.subs rest n)) (s.once j)
        ])

  -- Neither does an `unsubscribe`, be it called once or again.
  pub unsubscribe-safe :
      (key : Text) (c : ℕ) → (k : Hub E) × (unsubscribe key c h ≡ some k) × IsSound k
  unfolding unsubscribe close
  unsubscribe-safe key c = elim (Option-cases (take_out c (get_list h.subs key))) [
    | inl e ↦ (
      record h { subs = drop_empty key h.subs },
      rw (e, unsubscribe) refl,
      IsSound-shrink h s (drop_empty key h.subs) h.channels
          (λ j i k.
            let l = subst (In i) (get_list-drop_empty key h.subs j) k in (l, s.opened j i l))
          (λ j. subst IsNodup (sym (get_list-drop_empty key h.subs j)) (s.once j)),
    )
    | inr (rest, e) ↦
        let t = take_out-lem c (get_list h.subs key) (s.once key) e in
        let closed : Channel E = record (h.channels c) { closed = true } in
        (
          record h {
            subs = drop_empty key (put h.subs key rest);
            channels = set_channel h.channels c closed;
          },
          rw (e, unsubscribe) (rw (s.opened key c t.was_in, close) refl),
          IsSound-shrink h s (drop_empty key (put h.subs key rest))
              (set_channel h.channels c closed)
              (λ j i k.
                let (l, n) = left_at key c t j i k in
                (l, ap (λ d. d.closed) (set_channel-other h.channels closed n) ∙ s.opened j i l))
              (once_left key c t),
        )
  ]

  pub receive-IsSound : (i : ℕ) → IsSound (receive i h)
  unfolding receive
  receive-IsSound i = by_queue (h.channels i).queue refl
    where
      by_queue : (q : List E) → (h.channels i).queue ≡ q → IsSound (receive i h)
      by_queue [] e = rw (e, receive) s
      by_queue (x ∷ q) e =
          rw (e, receive)
            (IsSound-shrink h s h.subs _
              (λ j k l. (
                l,
                set_channel-closed h.channels i (record (h.channels i) { queue = q }) refl k
                    ∙ s.opened j k l,
              ))
              s.once)
