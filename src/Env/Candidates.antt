-- ===== src/Env/Candidates.antt =====
-- worker/executor/redact.go: what is collected for redaction stays collected.
use wireops.Prelude.{
  ◌≤◌, ◌&&◌, not, List, [], ◌∷◌, ◌++◌, any, leb, ltb, Bool-cases, inl, inr, In, here, there,
  find_any, leb_iff,
}
use wireops.Go.Text.{Text, text_eq, text_eq_iff, trim_space, byte_length}
use wireops.Env.Redact.{
  min_redactable_secret_len, fields_func, is_line_end, add, add_lines, add_values, insert_longest,
  longest_first, redaction_candidates,
}

pub In-left {ℓ} : {A : Type ℓ} {a : A} {xs : List A} (ys : List A) → In a xs → In a (xs ++ ys)
In-left ys here = here
In-left ys (there i) = there (In-left ys i)

pub In-right {ℓ} : {A : Type ℓ} {a : A} (xs : List A) {ys : List A} → In a ys → In a (xs ++ ys)
In-right [] i = i
In-right (x ∷ xs) i = there (In-right xs i)

add-keeps : {v : Text} (cs : List Text) (x : Text) → In v cs → In v (add cs x)
unfolding add
add-keeps cs x i =
    elim (Bool-cases (leb min_redactable_secret_len (byte_length x) && not (any (text_eq x) cs))) [
      | inl e ↦ rw e (In-left (x ∷ []) i)
      | inr e ↦ rw e i
    ]

add-adds : (cs : List Text) (x : Text) → 4 ≤ byte_length x → In x (add cs x)
unfolding add
add-adds cs x long = elim (Bool-cases (any (text_eq x) cs)) [
  | inl seen ↦
      let (y, i, e) = find_any (text_eq x) cs seen in
      rw (seen, (leb_iff 4 (byte_length x)).1 long) (rw ((text_eq_iff x y).0 e) i)
  | inr new ↦ rw (new, (leb_iff 4 (byte_length x)).1 long) (In-right cs here)
]

add_lines-keeps : {v : Text} (cs lines : List Text) → In v cs → In v (add_lines cs lines)
unfolding add_lines
add_lines-keeps cs [] i = i
add_lines-keeps cs (line ∷ lines) i =
    add_lines-keeps (add (add cs line) (trim_space line)) lines
      (add-keeps (add cs line) (trim_space line) (add-keeps cs line i))

add_values-keeps : {v : Text} (cs values : List Text) → In v cs → In v (add_values cs values)
unfolding add_values
add_values-keeps cs [] i = i
add_values-keeps cs (x ∷ values) i =
    add_values-keeps (add_lines (add cs x) (fields_func is_line_end x)) values
      (add_lines-keeps (add cs x) (fields_func is_line_end x) (add-keeps cs x i))

add_values-adds :
    {v : Text} (cs : List Text) {values : List Text}
    → 4 ≤ byte_length v
    → In v values
    → In v (add_values cs values)
unfolding add_values
add_values-adds {v} cs long (here {xs = values}) =
    add_values-keeps _ values
      (add_lines-keeps (add cs v) (fields_func is_line_end v) (add-adds cs v long))
add_values-adds cs long (there {x = x} i) =
    add_values-adds (add_lines (add cs x) (fields_func is_line_end x)) long i

insert_longest-In : (x : Text) (l : List Text) → In x (insert_longest x l)
unfolding insert_longest
insert_longest-In x [] = here
insert_longest-In x (y ∷ ys) = elim (Bool-cases (ltb (byte_length x) (byte_length y))) [
  | inl e ↦ rw e (there (insert_longest-In x ys))
  | inr e ↦ rw e here
]

insert_longest-keeps : {v : Text} (x : Text) {l : List Text} → In v l → In v (insert_longest x l)
unfolding insert_longest
insert_longest-keeps {v} x (here {xs = ys}) =
    elim (Bool-cases (ltb (byte_length x) (byte_length v))) [
      | inl e ↦ rw e here
      | inr e ↦ rw e (there here)
    ]
insert_longest-keeps x (there {x = y} {xs = ys} i) =
    elim (Bool-cases (ltb (byte_length x) (byte_length y))) [
      | inl e ↦ rw e (there (insert_longest-keeps x i))
      | inr e ↦ rw e (there (there i))
    ]

longest_first-In : {v : Text} {l : List Text} → In v l → In v (longest_first l)
unfolding longest_first
longest_first-In {v} (here {xs = l}) = insert_longest-In v (longest_first l)
longest_first-In (there {x = x} i) = insert_longest-keeps x (longest_first-In i)

-- Each value of four bytes or more is a candidate.
pub redaction_candidates-In :
    {v : Text} {values : List Text}
    → 4 ≤ byte_length v
    → In v values
    → In v (redaction_candidates values)
unfolding redaction_candidates
redaction_candidates-In long i = longest_first-In (add_values-adds [] long i)
