-- ===== src/Stream/Taken.antt =====
-- Taking a channel out of a list without repeats, as `unsubscribe` does.
use mathlib.Core.Path.{subst}
use wireops.Prelude.{
  ℕ, ◌≡◌, ◌≢◌, refl, sym, ◌∙◌, true, false, none, some, List, [], ◌∷◌, ◌++◌, ◌==◌, ==_iff, In, here,
  there, In-cons, In-append_cases, Bool-cases, Option-cases, some_inj, inl, inr,
}
use wireops.Stream.{take_out}
use wireops.Stream.Delivery.{IsNodup}

-- What taking a number out of a list without repeats leaves.
pub record Taken (c : ℕ) (xs rest : List ℕ) : Type 0 where
  pub was_in : In c xs
  pub gone : ¬ (In c rest)
  pub kept : (i : ℕ) → In i rest → In i xs
  pub nodup : IsNodup rest

take_out-here : (c x : ℕ) (xs : List ℕ) → (x == c) ≡ true → take_out c (x ∷ xs) ≡ some xs
unfolding take_out
take_out-here c x xs t = rw (t, take_out) refl

take_out-none :
    (c x : ℕ) (xs : List ℕ) → (x == c) ≡ false → take_out c xs ≡ none → take_out c (x ∷ xs) ≡ none
unfolding take_out
take_out-none c x xs f e = rw (f, take_out) (rw e refl)

take_out-later :
    (c x : ℕ) (xs : List ℕ) {ys : List ℕ}
    → (x == c) ≡ false
    → take_out c xs ≡ some ys
    → take_out c (x ∷ xs) ≡ some (x ∷ ys)
unfolding take_out
take_out-later c x xs f e = rw (f, take_out) (rw e refl)

Taken-here : {c x : ℕ} {xs : List ℕ} → IsNodup (x ∷ xs) → x ≡ c → Taken c (x ∷ xs) xs
Taken-here {c} {x} {xs} d t = record {
  was_in = rw t here;
  gone = λ i. d.0 (rw t i);
  kept = λ i k. there k;
  nodup = d.1;
}

Taken-later :
    {c x : ℕ} {xs ys : List ℕ}
    → IsNodup (x ∷ xs)
    → x ≢ c
    → Taken c xs ys
    → Taken c (x ∷ xs) (x ∷ ys)
Taken-later {c} {x} {xs} {ys} d n t = record {
  was_in = there t.was_in;
  gone = λ i. elim (In-cons i) [ inl e ↦ n (sym e) | inr k ↦ t.gone k ];
  kept = λ i k. elim (In-cons k) [ inl e ↦ rw e here | inr l ↦ there (t.kept i l) ];
  nodup = (λ i. d.0 (t.kept x i), t.nodup);
}

pub take_out-lem :
    (c : ℕ) (xs : List ℕ) {rest : List ℕ} → IsNodup xs → take_out c xs ≡ some rest → Taken c xs rest
unfolding take_out
take_out-lem c [] d e = cc e
take_out-lem c (x ∷ xs) {rest} d e = elim (Bool-cases (x == c)) [
  | inl t ↦
      subst (Taken c (x ∷ xs)) (some_inj (sym (take_out-here c x xs t) ∙ e))
        (Taken-here d ((==_iff x c).0 t))
  | inr f ↦ elim (Option-cases (take_out c xs)) [
    | inl n ↦ cc (e, take_out-none c x xs f n)
    | inr (ys, y) ↦
        subst (Taken c (x ∷ xs)) (some_inj (sym (take_out-later c x xs f y) ∙ e))
          (Taken-later d (λ t. cc (f, (==_iff x c).1 t)) (take_out-lem c xs d.1 y))
  ]
]

pub IsNodup-append : (xs : List ℕ) (y : ℕ) → IsNodup xs → ¬ (In y xs) → IsNodup (xs ++ (y ∷ []))
IsNodup-append [] y d n = ((λ i. elim i [ ]), tt)
IsNodup-append (x ∷ xs) y d n = (
  λ i. elim (In-append_cases xs i) [ inl k ↦ d.0 k | inr e ↦ n (rw e here) ],
  IsNodup-append xs y d.1 (λ k. n (there k)),
)
