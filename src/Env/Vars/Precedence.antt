-- ===== src/Env/Vars/Precedence.antt =====
-- Which value a variable has, and what the lists of the environment hold.
use mathlib.Core.Path.{subst}
use wireops.Prelude.{
  ◌≡◌, refl, ◌∙◌, sym, ap, inl, inr, false, Option, none, some, List, [], ◌∷◌, map, or_else,
  if◌then◌else◌, Bool-cases, In, here, there,
}
use wireops.Go.Text.{Text, text_eq, text_eq_refl, text_eq-apart, Text-cases, is_empty}
use wireops.Go.Value.{lookup, keys}
use wireops.Go.Assoc.{put, lookup-put, lookup-put_other}
use wireops.Go.Sort.{sort_strings-In}
use wireops.Env.Vars.{
  EnvRecord, Loaded, ok, err, ◌>>=◌, Values, Registry, trimmed_key, value_of, put_resolved,
  put_all_resolved, load_global_records, load_locals, load_effective, entry, value_at,
  sorted_env_list, as_values, put_over, overlay_sops_env,
}

-- The value that a record gives to a key.
abbrev pub resolved : Loaded Text → Option Text
resolved (ok v) = some v
resolved (err e) = none

abbrev pub given : Registry → Text → EnvRecord → Option Text
given registry k r =
    if is_empty (trimmed_key r)
    then none
    else if text_eq (trimmed_key r) k
    then resolved (value_of registry (trimmed_key r) r)
    else none

-- The value of the last record that gives one.
abbrev pub latest : Registry → Text → List EnvRecord → Option Text
latest registry k [] = none
latest registry k (r ∷ rs) = or_else (latest registry k rs) (given registry k r)

or_else_assoc : (a b c : Option Text) → or_else (or_else a b) c ≡ or_else a (or_else b c)
or_else_assoc none b c = refl
or_else_assoc (some a) b c = refl

pub ok_inj : {A : Type 0} {a b : A} → ok a ≡ ok b → a ≡ b
ok_inj {a = a} h = ap (λ o. elim o [ ok x ↦ x | err e ↦ a ]) h

-- What is before the end of a chain of fallible calls.
pub >>=-ok :
    {A B : Type 0} {y : B} (first : Loaded A) (next : A → Loaded B)
    → (first >>= next) ≡ ok y
    → (x : A) × (first ≡ ok x) × (next x ≡ ok y)
>>=-ok (ok x) next final = (x, refl, final)
>>=-ok (err e) next final = cc final

or_else-none : (a : Option Text) → or_else a none ≡ a
or_else-none none = refl
or_else-none (some a) = refl

module _ (registry : Registry) where
  put_resolved-lookup :
      (r : EnvRecord) (values out : Values) (k : Text)
      → put_resolved registry r values ≡ ok out
      → lookup out k ≡ or_else (given registry k r) (lookup values k)
  unfolding put_resolved
  put_resolved-lookup r values out k h = elim (Bool-cases (is_empty (trimmed_key r))) [
    | inl e ↦ rw e (ap (λ m. lookup m k) (sym (ok_inj (rw (e, put_resolved) at h))))
    | inr n ↦
        let (v, is, final) =
          >>=-ok (value_of registry (trimmed_key r) r) (λ v. ok (put values (trimmed_key r) v))
            (rw (n, put_resolved) at h) in
        ap (λ m. lookup m k) (sym (ok_inj final)) ∙ kept v is n
  ]
    where
      kept :
          (v : Text)
          → value_of registry (trimmed_key r) r ≡ ok v
          → is_empty (trimmed_key r) ≡ false
          → lookup (put values (trimmed_key r) v) k ≡ or_else (given registry k r) (lookup values k)
      kept v is n = elim (Text-cases (trimmed_key r) k) [
        | inl same ↦
            rw (← same, lookup-put values (trimmed_key r) v, n, text_eq_refl (trimmed_key r), is)
              refl
        | inr other ↦ rw (n, text_eq-apart other) (lookup-put_other values v other)
      ]

  put_all_resolved-lookup :
      (rs : List EnvRecord) (values out : Values) (k : Text)
      → put_all_resolved registry rs values ≡ ok out
      → lookup out k ≡ or_else (latest registry k rs) (lookup values k)
  unfolding put_all_resolved
  put_all_resolved-lookup [] values out k h = ap (λ m. lookup m k) (sym (ok_inj h))
  put_all_resolved-lookup (r ∷ rs) values out k h =
      let (mid, one, rest) =
        >>=-ok (put_resolved registry r values) (put_all_resolved registry rs) h in
      put_all_resolved-lookup rs mid out k rest
      ∙ ap (or_else (latest registry k rs)) (put_resolved-lookup r values mid k one)
      ∙ sym (or_else_assoc (latest registry k rs) (given registry k r) (lookup values k))

  -- In the environment that is loaded, a key has the value of the last local record for it that is read,
  -- and only where there is none that of the last bound global; keys are compared trimmed, and a record
  -- without a key counts for nothing.
  pub load_effective-lookup :
      (find : Text → Option EnvRecord) (bindings : Option (List Text))
      (locals : Option (List EnvRecord)) (values : Values) (k : Text)
      → load_effective registry find bindings locals ≡ ok values
      → (globals : List EnvRecord) × (own : List EnvRecord) × (load_global_records find bindings
          ≡ ok globals)
        × (load_locals locals ≡ ok own)
        × (lookup values k ≡ or_else (latest registry k own) (latest registry k globals))
  unfolding load_effective lookup
  load_effective-lookup find bindings locals values k h =
      let (globals, g, h1) = >>=-ok (load_global_records find bindings) _ h in
      let (mid, m, h2) = >>=-ok (put_all_resolved registry globals []) _ h1 in
      let (own, o, h3) = >>=-ok (load_locals locals) _ h2 in
      (
        globals,
        own,
        g,
        o,
        put_all_resolved-lookup own mid values k h3
            ∙ ap (or_else (latest registry k own)) (
                put_all_resolved-lookup globals [] mid k m
                ∙ or_else-none (latest registry k globals)),
      )

lookup-keys : (m : Values) (k v : Text) → lookup m k ≡ some v → In k (keys m)
unfolding lookup
lookup-keys [] k v e = cc e
lookup-keys ((j, w) ∷ m) k v e = elim (Text-cases j k) [
  | inl same ↦ rw same here
  | inr other ↦ there (lookup-keys m k v (rw (text_eq-apart other) at e))
]

In-map : {A B : Type 0} (f : A → B) {x : A} {xs : List A} → In x xs → In (f x) (map f xs)
In-map f here = here
In-map f (there i) = there (In-map f i)

sorted_env_list-In :
    (m : Values) (k v : Text) → lookup m k ≡ some v → In (entry k v) (sorted_env_list m)
unfolding sorted_env_list
sorted_env_list-In m k v e =
    subst (λ x. In (entry k x) (sorted_env_list m)) (rw (value_at, e) refl)
      (In-map (λ j. entry j (value_at m j)) (sort_strings-In (lookup-keys m k v e)))

put_over-lookup :
    (values overlay : Values) (k : Text)
    → lookup (put_over values overlay) k ≡ or_else (lookup overlay k) (lookup values k)
unfolding put_over lookup
put_over-lookup values [] k = refl
put_over-lookup values ((j, w) ∷ overlay) k = elim (Text-cases j k) [
  | inl same ↦ rw (← same, lookup-put (put_over values overlay) j w, text_eq_refl j) refl
  | inr other ↦
      rw (text_eq-apart other)
        (lookup-put_other (put_over values overlay) w other ∙ put_over-lookup values overlay k)
]

-- Every value that SOPS decrypts is in the environment under its key, whatever the variables say.
pub overlay_sops_env-wins :
    (vars : List Text) (overlay : Values) (k v : Text)
    → lookup overlay k ≡ some v
    → In (entry k v) (overlay_sops_env vars overlay)
unfolding overlay_sops_env lookup
overlay_sops_env-wins vars [] k v e = cc e
overlay_sops_env-wins vars (x ∷ overlay) k v e =
    sorted_env_list-In (put_over (as_values vars []) (x ∷ overlay)) k v (
      put_over-lookup (as_values vars []) (x ∷ overlay) k
      ∙ ap (λ o. or_else o (lookup (as_values vars []) k)) e)
