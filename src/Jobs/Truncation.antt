-- ===== src/Jobs/Truncation.antt =====
-- internal/jobscheduler/scheduler.go: what updateJobRun keeps of a long output.
use wireops.Prelude.{
  ℕ, zero, suc, ◌+◌, ◌-◌, ◌/◌, ◌≤◌, ◌<◌, ◌≡◌, refl, sym, ap, ◌∙◌, List, [], ◌∷◌, ◌++◌, arith,
  length, length-append, take, drop, ltb, true, Bool-cases, inl, inr, ◌⊎◌, ltb-false,
}
use wireops.Go.Text.{Text}
use wireops.Jobs.{truncate, truncate_output, max_output_length, truncation_marker}

module _ {ℓ} {A : Type ℓ} where
  take-drop : (n : ℕ) (xs : List A) → take n xs ++ drop n xs ≡ xs
  take-drop zero xs = refl
  take-drop (suc n) [] = refl
  take-drop (suc n) (x ∷ xs) = ap (λ t. x ∷ t) (take-drop n xs)

  length-take : (n : ℕ) (xs : List A) → n ≤ length xs → length (take n xs) ≡ n
  length-take zero xs h = refl
  length-take (suc n) [] h = absurd (omega arith)
  length-take (suc n) (x ∷ xs) h = omega (arith, length-take n xs)

  length-drop : (n : ℕ) (xs : List A) → length (drop n xs) ≡ length xs - n
  length-drop zero xs = omega arith
  length-drop (suc n) [] = omega arith
  length-drop (suc n) (x ∷ xs) = omega (arith, length-drop n xs)

  drop-nil : (n : ℕ) → ◌≡◌ {A = List A} (drop {A = A} n []) []
  drop-nil zero = refl
  drop-nil (suc n) = refl

  drop-drop : (n k m : ℕ) (xs : List A) → m ≡ k + n → drop n (drop k xs) ≡ drop m xs
  drop-drop n zero m xs e = ap (λ i. drop i xs) (omega (arith, e))
  drop-drop n (suc k) zero xs e = absurd (omega arith)
  drop-drop n (suc k) (suc m) [] e = drop-nil n
  drop-drop n (suc k) (suc m) (x ∷ xs) e = drop-drop n k m xs (omega arith)

lt→ltb : {a b : ℕ} → a < b → ltb a b ≡ true
lt→ltb h = ground arith

-- A text is cut at two places, the first not behind the second.
pub record IsCut (limit : ℕ) (marker output cut : Text) : Type 0 where
  pub front : Text
  pub lost : Text
  pub back : Text
  pub whole : output ≡ front ++ (lost ++ back)
  pub kept : cut ≡ front ++ (marker ++ back)
  pub front_length : length front ≡ (limit - length marker) / 2
  pub full : length cut ≡ limit

truncate-IsCut :
    (limit : ℕ) (marker output : Text)
    → length marker ≤ limit
    → limit < length output
    → IsCut limit marker output (truncate limit marker output)
unfolding truncate
truncate-IsCut limit marker output fits long =
    let available = limit - length marker in
    let head = available / 2 in
    let tail = available - head in
    let at = length output - tail in
    let lost = take (at - head) (drop head output) in
    let back = drop at output in
    let rest = drop-drop (at - head) head at output (omega arith) in
    let front_ok = length-take head output (omega arith) in
    let back_ok = length-drop at output in
    record {
      front = take head output;
      lost = lost;
      back = back;
      whole =
          sym (take-drop head output)
          ∙ ap (λ t. take head output ++ t)
              (sym (take-drop (at - head) (drop head output)) ∙ ap (λ t. lost ++ t) rest);
      kept = rw (lt→ltb long) refl;
      front_length = front_ok;
      full = rw (lt→ltb long) (
          omega (
            arith,
            length-append (take head output) (marker ++ back),
            length-append marker back,
            front_ok,
            back_ok,
          ));
    }

marker_length : length truncation_marker ≡ 39
marker_length = refl

-- Output of at most a million bytes is saved whole. Of longer output exactly a million bytes are saved:
-- its beginning, the marker, and its end, with half of the room for the beginning.
pub truncate_output-IsCut :
    (output : Text)
    → ((length output ≤ max_output_length) × (truncate_output output ≡ output))
      ⊎ ((max_output_length < length output)
          × IsCut max_output_length truncation_marker output (truncate_output output))
unfolding truncate_output
truncate_output-IsCut output = elim (Bool-cases (ltb max_output_length (length output))) [
  | inl long ↦ inr (
    ground (arith, long),
    truncate-IsCut max_output_length truncation_marker output fits (ground (arith, long)),
  )
  | inr short ↦ inl (ltb-false short, unfold truncate in rw short refl)
]
  where
    fits : length truncation_marker ≤ max_output_length
    fits = omega (arith, marker_length)
