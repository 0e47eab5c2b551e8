-- ===== src/Env/Entries.antt =====
-- The entries of the .env file: what a line of the server's writer gives the worker's reader.
use mathlib.Core.List.{append_assoc}
use mathlib.Core.Path.{subst}
use wireops.Prelude.{
  ◌≡◌, ◌≤◌, refl, sym, ap, ◌∙◌, Bool, true, false, ◌||◌, not, [], ◌∷◌, ◌++◌, arith, any, Bool-cases,
  inl, inr, In, here, if◌then◌else◌, leb_iff,
}
use wireops.Go.Text.{
  Text, codes, text_eq_iff, is_empty, contains_rune, has_prefix, before, after, is_space, trim,
  trim_space, byte_length,
}
use wireops.Go.Trim.{trim-ends, trimmed_head}
use wireops.Env.{
  Result, ok, err, malformed, >>=-ok, ◌>>=◌, is_forbidden, check_characters, validate_env_key,
  quote_env_value, render_entry,
}
use wireops.Env.Redact.{values_of, line_values, long_enough}
use wireops.Env.Candidates.{In-left}
use wireops.Env.RoundTrip.{decode-quote}
use wireops.Env.Lines.{
  is_odd_space, Written, quote-Written, Written-trimmed, Written-end, any-contains_rune,
}

-- A key that validateEnvKey accepts.
pub record IsKey (key : Text) : Type 0 where
  pub not_empty : is_empty key ≡ false
  pub trimmed : trim is_space key ≡ key
  pub allowed : any is_forbidden key ≡ false

check_characters-ok : (key s : Text) → check_characters key s ≡ ok tt → any is_forbidden s ≡ false
unfolding check_characters
check_characters-ok key [] h = refl
check_characters-ok key (c ∷ s) h = ground (arith, h, check_characters-ok key s)

validate-IsKey : (key : Text) → validate_env_key key ≡ ok tt → IsKey key
unfolding validate_env_key trim_space
validate-IsKey key h = record {
  not_empty = ground (arith, h);
  trimmed = (text_eq_iff (trim is_space key) key).0 (ground (arith, h));
  allowed = check_characters-ok key key (ground (arith, h));
}

unfoldable pub line_of : Text → Text → Text
line_of key q = key ++ (b'=' ∷ q)

line_of-trimmed :
    {key val q : Text}
    → IsKey key
    → any is_odd_space val ≡ false
    → Written val q
    → trim is_space (line_of key q) ≡ line_of key q
unfolding line_of
line_of-trimmed {key = []} v o w = cc (v.not_empty)
line_of-trimmed {key = c ∷ key} {val} {q} v o w =
    let (p, d, e, n) = Written-end o w in
    trim-ends is_space c d (key ++ (b'=' ∷ q)) ((c ∷ key) ++ p)
      (trimmed_head is_space c key v.trimmed) n
      (ap (λ t. (c ∷ key) ++ t) e ∙ sym (append_assoc (c ∷ key) p (d ∷ [])))

after-append : (key q : Text) → contains_rune key b'=' ≡ false → after b'=' (key ++ (b'=' ∷ q)) ≡ q
unfolding after contains_rune
after-append [] q n = refl
after-append (c ∷ key) q n = ground (arith, n, after-append key q)

line_of-has_sep : (key q : Text) → contains_rune (key ++ (b'=' ∷ q)) b'=' ≡ true
unfolding contains_rune
line_of-has_sep [] q = refl
line_of-has_sep (c ∷ key) q = ground (arith, line_of-has_sep key q)

has_sep : (key q : Text) → contains_rune (line_of key q) b'=' ≡ true
unfolding line_of
has_sep key q = line_of-has_sep key q

after_sep : (key q : Text) → IsKey key → after b'=' (line_of key q) ≡ q
unfolding line_of
after_sep key q v = after-append key q (any-contains_rune is_forbidden key b'=' refl v.allowed)

-- Whether a key begins like a comment.
abbrev pub is_comment : Text → Bool
is_comment key = has_prefix key (codes "#")

long_enough-In : (v : Text) → 4 ≤ byte_length v → In v (long_enough v)
long_enough-In v h = rw ((leb_iff 4 (byte_length v)).1 h) here

trim_space_lem : (s t : Text) → trim is_space s ≡ t → trim_space s ≡ t
unfolding trim_space
trim_space_lem s t e = e

line_of-entry :
    (key q : Text)
    → is_empty key ≡ false
    → is_comment key ≡ false
    → (is_empty (line_of key q) || has_prefix (line_of key q) (codes "#")) ≡ false
unfolding line_of has_prefix
line_of-entry [] q n c = absurd (cc n)
line_of-entry (x ∷ key) q n c = ground (arith, c)

-- The line of a value of four bytes or more has the value among its candidates.
pub line_values-In :
    (key val : Text)
    → IsKey key
    → is_comment key ≡ false
    → any is_odd_space val ≡ false
    → 4 ≤ byte_length val
    → In val (line_values (line_of key (quote_env_value val)))
unfolding line_values values_of
line_values-In key val v c o long =
    let q : Text = quote_env_value val in
    let w = quote-Written val in
    let t = trim_space_lem (line_of key q) (line_of key q) (line_of-trimmed v o w) in
    rw
      (
        t,
        line_of-entry key q v.not_empty c,
        has_sep key q,
        after_sep key q v,
        trim_space_lem q q (Written-trimmed o w),
        decode-quote val,
      )
      (In-left _ (long_enough-In val long))

-- An entry that the writer accepts, and what it writes for it.
pub render_entry-ok :
    (kv line : Text)
    → render_entry kv ≡ ok line
    → IsKey (before b'=' kv)
      × (line ≡ line_of (before b'=' kv) (quote_env_value (after b'=' kv)) ++ (b'\n' ∷ []))
unfolding render_entry line_of
render_entry-ok kv line h = elim (Bool-cases (contains_rune kv b'=')) [
  | inr n ↦ cc (subst (λ b. (if not b then err (malformed kv) else rendered) ≡ ok line) n h)
  | inl y ↦
      let (u, valid, e) =
        >>=-ok (validate_env_key (before b'=' kv)) _
          (subst (λ b. (if not b then err (malformed kv) else rendered) ≡ ok line) y h) in
      (
        validate-IsKey (before b'=' kv) valid,
        some_line e
            ∙ sym (
                append_assoc (before b'=' kv) (b'=' ∷ quote_env_value (after b'=' kv))
                  (b'\n' ∷ [])),
      )
]
  where
    rendered : Result Text
    rendered = validate_env_key (before b'=' kv) >>= λ _.
        ok (before b'=' kv ++ (b'=' ∷ (quote_env_value (after b'=' kv) ++ (b'\n' ∷ []))))

    some_line : {s t : Text} → ok s ≡ ok t → t ≡ s
    some_line e = cc e
