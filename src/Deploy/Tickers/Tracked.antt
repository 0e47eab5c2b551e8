-- ===== src/Deploy/Tickers/Tracked.antt =====
-- Which tickers run after a history of registrations.
use mathlib.Core.Path.{subst}
use wireops.Prelude.{
  ℕ, ◌≡◌, ◌≢◌, ◌<◌, ◌∙◌, sym, ap, ◌↔◌, inl, inr, Bool, true, false, none, some, List, [], ◌∷◌,
  arith, Option-cases, some_inj, In, In-cons, if◌then◌else◌, here, there,
}
use wireops.Go.Text.{Text, Text-cases}
use wireops.Go.Value.{lookup}
use wireops.Go.Assoc.{put, remove, lookup-put, lookup-put_other, lookup-remove, lookup-remove_other}
use wireops.Deploy.Tickers.{
  Tickers, no_tickers, start_job, cancel, register_stack, register_repo, unregister, Call,
  registering, fetching, unregistering, perform, perform_all, start_all,
}

-- The ticker was started for the key, and its cancel function was not called.
abbrev pub IsLive : Tickers → Text → ℕ → Type 0
IsLive s id t = In (id, t) s.started × (In t s.cancelled → ⊥)

-- Numbers are used once.
record IsNumbered (s : Tickers) : Type 0 where
  started_below : (id : Text) (t : ℕ) → In (id, t) s.started → t < s.next
  cancelled_below : (t : ℕ) → In t s.cancelled → t < s.next
  one_key : (id j : Text) (t : ℕ) → In (id, t) s.started → In (j, t) s.started → id ≡ j

abbrev IsKnown : Tickers → Text → Type 0
IsKnown s id = (t : ℕ) → IsLive s id t ↔ (lookup s.jobs id ≡ some t)

record IsTracked (s : Tickers) : Type 0 where
  numbered : IsNumbered s
  known : (id : Text) → IsKnown s id

-- The key has no live ticker, and the others are known.
record IsStopped (id : Text) (s : Tickers) : Type 0 where
  numbered : IsNumbered s
  known : (j : Text) → id ≢ j → IsKnown s j
  none_live : (t : ℕ) → IsLive s id t → ⊥

cancel-IsStopped :
    (id : Text) (s : Tickers) → IsTracked s → IsStopped id (cancel (lookup s.jobs id) s)
unfolding cancel
cancel-IsStopped id s v = elim (Option-cases (lookup s.jobs id)) [
  | inl e ↦
      rw (e, cancel)
        (record {
          numbered = v.numbered;
          known = λ j n. v.known j;
          none_live = λ t live. cc (e, (v.known id t).0 live);
        })
  | inr (t, e) ↦ rw (e, cancel) (stopped t e)
]
  where
    stopped :
        (t : ℕ)
        → lookup s.jobs id ≡ some t
        → IsStopped id (record s { cancelled = t ∷ s.cancelled })
    stopped t e =
        let (was, live) = (v.known id t).1 e in
        record {
          numbered = record {
            started_below = v.numbered.started_below;
            cancelled_below = λ u i. elim (In-cons i) [
              | inl same ↦ rw same (v.numbered.started_below id t was)
              | inr old ↦ v.numbered.cancelled_below u old
            ];
            one_key = v.numbered.one_key;
          };
          known = λ j n u. (
            λ l. (v.known j u).0 (l.0, λ i. l.1 (there i)),
            λ k.
                let (begun, on) = (v.known j u).1 k in
                (
                  begun,
                  λ i. elim (In-cons i) [
                    | inl same ↦ n (
                        v.numbered.one_key id j t was (subst (λ x. In (j, x) s.started) same begun))
                    | inr old ↦ on old
                  ],
                ),
          );
          none_live = λ u l. elim (Option-cases (lookup s.jobs id)) [
            | inl none_there ↦ cc (e, none_there)
            | inr there_is ↦
                let now = (v.known id u).0 (l.0, λ i. l.1 (there i)) in
                l.1 (subst (λ x. In x (t ∷ s.cancelled)) (some_inj (sym e ∙ now)) here)
          ];
        }

start-IsTracked : (id : Text) (s : Tickers) → IsStopped id s → IsTracked (start_job id s)
unfolding start_job
start-IsTracked id s v = record {
  numbered = record {
    started_below = λ j t i. elim (In-cons i) [
      | inl same ↦ rw (ap (λ x. x.1) same) (omega arith)
      | inr old ↦ omega (arith, v.numbered.started_below j t old)
    ];
    cancelled_below = λ t i. omega (arith, v.numbered.cancelled_below t i);
    one_key = λ i j t a b. elim (In-cons a) [
      | inl new ↦ elim (In-cons b) [
        | inl also ↦ ap (λ x. x.0) (new ∙ sym also)
        | inr old ↦ absurd (not_new j t old (ap (λ x. x.1) new))
      ]
      | inr old ↦ elim (In-cons b) [
        | inl new ↦ absurd (not_new i t old (ap (λ x. x.1) new))
        | inr both ↦ v.numbered.one_key i j t old both
      ]
    ];
  };
  known = λ j t. elim (Text-cases id j) [
    | inl same ↦ (
      λ l. elim (In-cons l.0) [
        | inl new ↦ at_key j same ∙ ap some (sym (ap (λ x. x.1) new))
        | inr old ↦ absurd (v.none_live t (subst (λ x. In (x, t) s.started) (sym same) old, l.1))
      ],
      λ k.
          let now = some_inj (sym (at_key j same) ∙ k) in
          (
            rw (← same, ← now) here,
            λ i. let h = v.numbered.cancelled_below t i in omega (arith, h, now),
          ),
    )
    | inr n ↦ rw (lookup-put_other s.jobs s.next n) (
      λ l. (v.known j n t).0 (
        elim (In-cons l.0) [ inl new ↦ absurd (n (sym (ap (λ x. x.0) new))) | inr old ↦ old ],
        l.1,
      ),
      λ k. let (begun, on) = (v.known j n t).1 k in (there begun, on),
    )
  ];
}
  where
    not_new : (j : Text) (t : ℕ) → In (j, t) s.started → t ≡ s.next → ⊥
    not_new j t old e = let h = v.numbered.started_below j t old in omega (arith, h, e)

    at_key : (j : Text) → id ≡ j → lookup (put s.jobs id s.next) j ≡ some s.next
    at_key j same = rw (← same) (lookup-put s.jobs id s.next)

remove-IsTracked :
    (id : Text) (s : Tickers) → IsStopped id s → IsTracked (record s { jobs = remove s.jobs id })
remove-IsTracked id s v = record {
  numbered = record {
    started_below = v.numbered.started_below;
    cancelled_below = v.numbered.cancelled_below;
    one_key = v.numbered.one_key;
  };
  known = λ j t. elim (Text-cases id j) [
    | inl same ↦ (
      λ l. absurd (v.none_live t (subst (λ x. IsLive s x t) (sym same) l)),
      λ k. absurd (cc (lookup-remove s.jobs id, ap (lookup (remove s.jobs id)) same, k)),
    )
    | inr n ↦ rw (lookup-remove_other s.jobs n) (v.known j n t)
  ];
}

register_stack-IsTracked :
    (id : Text) (paused : Bool) (s : Tickers) → IsTracked s → IsTracked (register_stack id paused s)
unfolding register_stack
register_stack-IsTracked id true s v = remove-IsTracked id _ (cancel-IsStopped id s v)
register_stack-IsTracked id false s v = start-IsTracked id _ (cancel-IsStopped id s v)

unregister-IsTracked : (id : Text) (s : Tickers) → IsTracked s → IsTracked (unregister id s)
unfolding unregister cancel
unregister-IsTracked id s v = elim (Option-cases (lookup s.jobs id)) [
  | inl e ↦ rw (e, unregister) v
  | inr (t, e) ↦
      rw (e, unregister)
        (remove-IsTracked id (record s { cancelled = t ∷ s.cancelled })
          (rw (e, cancel) at (cancel-IsStopped id s v)))
]

perform-IsTracked : (c : Call) (s : Tickers) → IsTracked s → IsTracked (perform c s)
unfolding perform register_repo
perform-IsTracked (registering id paused) s v = register_stack-IsTracked id paused s v
perform-IsTracked (fetching id) s v = start-IsTracked id _ (cancel-IsStopped id s v)
perform-IsTracked (unregistering id) s v = unregister-IsTracked id s v

all-IsTracked : (cs : List Call) (s : Tickers) → IsTracked s → IsTracked (perform_all cs s)
unfolding perform_all
all-IsTracked [] s v = v
all-IsTracked (c ∷ cs) s v = all-IsTracked cs (perform c s) (perform-IsTracked c s v)

none-IsTracked : IsTracked no_tickers
unfolding lookup
none-IsTracked = record {
  numbered = record {
    started_below = λ id t i. elim i [ ];
    cancelled_below = λ t i. elim i [ ];
    one_key = λ i j t a b. elim a [ ];
  };
  known = λ id t. ((λ l. elim l.0 [ ]), (λ k. cc k));
}

-- No stack that Start finds has a ticker yet when it comes to it.
abbrev pub IsBoot : List (Text × Bool) → Tickers → Type 0
IsBoot [] s = Unit
IsBoot ((id, paused) ∷ stacks) s =
    (lookup s.jobs id ≡ none) × IsBoot stacks (if paused then s else start_job id s)

boot-step :
    (id : Text) (paused : Bool) (s : Tickers)
    → IsTracked s
    → lookup s.jobs id ≡ none
    → IsTracked (if paused then s else start_job id s)
unfolding cancel
boot-step id true s v e = v
boot-step id false s v e = start-IsTracked id s (rw (e, cancel) at (cancel-IsStopped id s v))

start_all-IsTracked :
    (stacks : List (Text × Bool)) (s : Tickers)
    → IsTracked s
    → IsBoot stacks s
    → IsTracked (start_all stacks s)
unfolding start_all
start_all-IsTracked [] s v b = v
start_all-IsTracked ((id, paused) ∷ stacks) s v (e, b) =
    start_all-IsTracked stacks _ (boot-step id paused s v e) b

-- After Start on stacks with different ids, whatever is registered and unregistered, and in whichever order:
-- the tickers of a key that were started and not cancelled are exactly the one that the map holds for the
-- key. So no key has two tickers that run, and none runs that the scheduler cannot stop.
pub perform_all-IsLive_iff :
    (stacks : List (Text × Bool)) (cs : List Call) (id : Text) (t : ℕ)
    → IsBoot stacks no_tickers
    → IsLive (perform_all cs (start_all stacks no_tickers)) id t
      ↔ (lookup (perform_all cs (start_all stacks no_tickers)).jobs id ≡ some t)
perform_all-IsLive_iff stacks cs id t b =
    (all-IsTracked cs _ (start_all-IsTracked stacks no_tickers none-IsTracked b)).known id t
