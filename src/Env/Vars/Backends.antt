-- ===== src/Env/Vars/Backends.antt =====
-- When the gate of the secret backends opens.
use wireops.Env.Vars.Precedence.{ok_inj}
use wireops.Env.Vars.{judge}
use mathlib.Core.Path.{subst}
use wireops.Prelude.{
  ◌≡◌, refl, ◌∙◌, ap, ◌↔◌, ◌⊎◌, inl, inr, true, false, Option, none, some, List, [], ◌∷◌, ◌++◌,
  Bool-cases, In, here, there, In-cons, some_inj,
}
use wireops.Go.Text.{Text, text_eq-apart, text_eq_refl, Text-cases}
use wireops.Go.Value.{keys}
use wireops.Go.Assoc.{put}
use wireops.Go.Sort.{sort_strings, sort_strings-In, In-sort_strings}
use wireops.Env.Vars.{
  EnvRecord, Loaded, ok, err, Integration, found, no_rows, failed, passed, is_external, Offenders,
  keys_at, collect, collect_all, disabled_of, verdict, check_records, check_loaded,
  load_global_records, load_locals, check_secret_backends,
}

In-put :
    {V : Type 0} (m : List (Text × V)) (k j : Text) (v : V)
    → In j (keys (put m k v)) ↔ ((j ≡ k) ⊎ In j (keys m))
unfolding put
In-put [] k j v = (In-cons, λ c. elim c [ inl e ↦ rw e here | inr i ↦ there i ])
In-put ((i, w) ∷ m) k j v = elim (Text-cases i k) [
  | inl same ↦ rw (same, text_eq_refl k) (inr, λ c. elim c [ inl e ↦ rw e here | inr a ↦ a ])
  | inr other ↦ rw (text_eq-apart other) (
    λ a. elim (In-cons a) [
      | inl e ↦ inr (rw e here)
      | inr b ↦ elim ((In-put m k j v).0 b) [ inl e ↦ inl e | inr c ↦ inr (there c) ]
    ],
    λ c. elim c [
      | inl e ↦ there ((In-put m k j v).1 (inl e))
      | inr a ↦ elim (In-cons a) [ inl e ↦ rw e here | inr b ↦ there ((In-put m k j v).1 (inr b)) ]
    ],
  )
]

abbrev IsAskedBy : EnvRecord → Text → Type 0
IsAskedBy r p = (is_external r ≡ true) × (p ≡ r.secret_provider)

-- The backend is asked for by a secret.
abbrev IsAsked : List EnvRecord → Text → Type 0
IsAsked rs p = (r : EnvRecord) × In r rs × IsAskedBy r p

collect-keys :
    (r : EnvRecord) (o : Offenders) (p : Text)
    → In p (keys (collect r o)) ↔ (IsAskedBy r p ⊎ In p (keys o))
unfolding collect
collect-keys r o p = elim (Bool-cases (is_external r)) [
  | inl e ↦
      rw (e, collect)
        (
          λ i. elim ((In-put o r.secret_provider p _).0 i) [
            | inl same ↦ inl (refl, same)
            | inr old ↦ inr old
          ],
          λ c.
              (In-put o r.secret_provider p _).1
                (elim c [ inl (x, same) ↦ inl same | inr old ↦ inr old ]),
        )
  | inr n ↦ rw (n, collect) (inr, λ c. elim c [ inl (x, same) ↦ cc x | inr old ↦ old ])
]

collect_all-keys :
    (rs : List EnvRecord) (o : Offenders) (p : Text)
    → In p (keys (collect_all rs o)) ↔ (IsAsked rs p ⊎ In p (keys o))
unfolding collect_all
collect_all-keys [] o p = (inr, λ c. elim c [ inl (r, i, e) ↦ elim i [ ] | inr i ↦ i ])
collect_all-keys (r ∷ rs) o p =
    let (to, from) = collect_all-keys rs (collect r o) p in
    let (to_one, from_one) = collect-keys r o p in
    (
      λ i. elim (to i) [
        | inl (q, j, e) ↦ inl (q, there j, e)
        | inr j ↦ elim (to_one j) [ inl e ↦ inl (r, here, e) | inr old ↦ inr old ]
      ],
      λ c. from (elim c [
        | inl (q, j, e) ↦ elim (In-cons j) [
          | inl is ↦ inr (from_one (inl (subst (λ x. IsAskedBy x p) is e)))
          | inr k ↦ inl (q, k, e)
        ]
        | inr old ↦ inr (from_one (inr old))
      ]),
    )

judge_iff :
    (p : Text) (ks : List Text) (x : Integration) (rest : Option Offenders)
    → (judge p ks x rest ≡ some []) ↔ ((x ≡ found true) × (rest ≡ some []))
judge_iff p ks failed rest = (λ e. cc e, λ (e, f). cc e)
judge_iff p ks no_rows none = (λ e. cc e, λ (e, f). cc e)
judge_iff p ks no_rows (some ds) = (λ e. cc e, λ (e, f). cc e)
judge_iff p ks (found false) none = (λ e. cc e, λ (e, f). cc f)
judge_iff p ks (found false) (some ds) = (λ e. cc e, λ (e, f). cc e)
judge_iff p ks (found true) rest = (λ e. (refl, e), λ (e, f). f)

module _ (integration : Text → Integration) where
  disabled_of_iff :
      (o : Offenders) (ps : List Text)
      → (disabled_of integration o ps ≡ some [])
        ↔ ((p : Text) → In p ps → integration p ≡ found true)
  unfolding disabled_of
  disabled_of_iff o [] = (λ e p i. elim i [ ], λ f. refl)
  disabled_of_iff o (p ∷ ps) =
      let (to, from) =
        judge_iff p (sort_strings (keys_at o p)) (integration p) (disabled_of integration o ps) in
      let (to_rest, from_rest) = disabled_of_iff o ps in
      (
        λ e q i. elim (In-cons i) [
          | inl is ↦ ap integration is ∙ (to e).0
          | inr j ↦ to_rest (to e).1 q j
        ],
        λ f. from (f p here, from_rest (λ q i. f q (there i))),
      )

  verdict_iff : (d : Option Offenders) → (verdict d ≡ passed) ↔ (d ≡ some [])
  verdict_iff none = (λ e. cc e, λ e. cc e)
  verdict_iff (some []) = (λ e. refl, λ e. refl)
  verdict_iff (some (d ∷ ds)) = (λ e. cc e, λ e. absurd (cc (some_inj e)))

  records_iff :
      (rs : List EnvRecord)
      → (check_records integration rs ≡ passed) ↔ (
          (r : EnvRecord)
          → In r rs
          → is_external r ≡ true
          → integration r.secret_provider ≡ found true)
  records_iff rs =
      let o = collect_all rs [] in
      let (to, from) = disabled_of_iff o (sort_strings (keys o)) in
      (
        λ e r i x. to ((verdict_iff _).0 e) r.secret_provider (
            sort_strings-In ((collect_all-keys rs [] r.secret_provider).1 (inl (r, i, (x, refl))))),
        λ f. (verdict_iff _).1 (
            from (λ p i. elim ((collect_all-keys rs [] p).0 (In-sort_strings (keys o) i)) [
              | inl (r, j, (x, same)) ↦ ap integration same ∙ f r j x
              | inr j ↦ elim j [ ]
            ])),
      )

  loaded :
      (g o : Loaded (List EnvRecord))
      → (check_loaded integration g o ≡ passed) ↔ (
          (globals : List EnvRecord) × (own : List EnvRecord) × (g ≡ ok globals)
          × (o ≡ ok own)
          × ((r : EnvRecord)
              → In r (globals ++ own)
              → is_external r ≡ true
              → integration r.secret_provider ≡ found true))
  loaded (err e) o = (λ h. cc h, λ (globals, own, a, b, f). cc a)
  loaded (ok globals) (err e) = (λ h. cc h, λ (x, own, a, b, f). cc b)
  loaded (ok globals) (ok own) = (
    λ h. (globals, own, refl, refl, (records_iff (globals ++ own)).0 h),
    λ (x, y, a, b, f). (records_iff (globals ++ own)).1 (λ r i.
        f r (subst (In r) (ap (λ v. globals ++ v) (ok_inj b) ∙ ap (λ u. u ++ y) (ok_inj a)) i)),
  )

  -- The gate opens exactly if the database brings the records, and the integration of each external
  -- backend that a secret with a key asks for is enabled.
  pub check_secret_backends_iff :
      (find : Text → Option EnvRecord) (bindings : Option (List Text))
      (locals : Option (List EnvRecord))
      → (check_secret_backends integration find bindings locals ≡ passed) ↔ (
          (globals : List EnvRecord) × (own : List EnvRecord) × (load_global_records find bindings
            ≡ ok globals)
          × (load_locals locals ≡ ok own)
          × ((r : EnvRecord)
              → In r (globals ++ own)
              → is_external r ≡ true
              → integration r.secret_provider ≡ found true))
  unfolding check_secret_backends
  check_secret_backends_iff find bindings locals =
      loaded (load_global_records find bindings) (load_locals locals)
