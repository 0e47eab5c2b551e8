-- ===== src/Env/Secrets.antt =====
-- The secrets of a deploy, from the .env file that the server writes to the output that the worker
-- sends back.
use mathlib.Core.List.{append_assoc}
use wireops.Prelude.{
  ◌≡◌, ◌≤◌, refl, ap, ◌∙◌, false, List, [], ◌∷◌, ◌++◌, arith, any, Bool-cases, inl, inr, In, here,
  there, ltb, ltb_is_false,
}
use wireops.Go.Text.{Text, codes, contains_rune, before, after, split, byte_length}
use wireops.Go.Replace.{contains, replace_all, IsApart, contains-replace_from, contains-replaced}
use wireops.Env.{ok, >>=-ok, is_forbidden, quote_env_value, render_entry, serialize_env_content}
use wireops.Env.Redact.{line_values, lines_values, parse_env_values, mask, redact_secrets}
use wireops.Env.Candidates.{In-left, In-right, redaction_candidates-In}
use wireops.Go.Cuts.{contains_rune-append}
use wireops.Env.Lines.{is_odd_space, quote-Written, Written-one_line, any-contains_rune}
use wireops.Env.Entries.{IsKey, is_comment, line_of, line_values-In, render_entry-ok}

split-line :
    (s rest : Text)
    → contains_rune s b'\n' ≡ false
    → split b'\n' (s ++ (b'\n' ∷ rest)) ≡ s ∷ split b'\n' rest
unfolding split contains_rune
split-line [] rest n = refl
split-line (c ∷ s) rest n = ground (arith, n, split-line s rest)

line_of-one_line :
    (key val : Text) → IsKey key → contains_rune (line_of key (quote_env_value val)) b'\n' ≡ false
unfolding line_of
line_of-one_line key val v =
    rw
      (
        contains_rune-append key (b'=' ∷ quote_env_value val) b'\n',
        any-contains_rune is_forbidden key b'\n' refl v.allowed,
      )
      (unfold contains_rune in Written-one_line (quote-Written val))

-- What a variable must be like for its value to be masked: its key begins no comment, and its value
-- has four bytes or more and no white space but blanks, tabs and line ends.
pub record IsSecret (kv : Text) : Type 0 where
  pub key_no_comment : is_comment (before b'=' kv) ≡ false
  pub no_odd_space : any is_odd_space (after b'=' kv) ≡ false
  pub long : 4 ≤ byte_length (after b'=' kv)

first_line :
    (line rest : Text) (kv : Text)
    → render_entry kv ≡ ok line
    → lines_values (split b'\n' (line ++ rest))
      ≡ line_values (line_of (before b'=' kv) (quote_env_value (after b'=' kv)))
        ++ lines_values (split b'\n' rest)
unfolding lines_values
first_line line rest kv h =
    let (v, e) = render_entry-ok kv line h in
    let body = line_of (before b'=' kv) (quote_env_value (after b'=' kv)) in
    ap (λ t. lines_values (split b'\n' (t ++ rest))) e
    ∙ ap (λ t. lines_values (split b'\n' t)) (append_assoc body (b'\n' ∷ []) rest)
    ∙ ap lines_values (split-line body rest (line_of-one_line (before b'=' kv) (after b'=' kv) v))

-- The lines of the first entry and of the others.
serialize-lines :
    (kv : Text) (envs : List Text) (content : Text)
    → serialize_env_content (kv ∷ envs) ≡ ok content
    → IsKey (before b'=' kv)
      × (rest : Text) × (serialize_env_content envs ≡ ok rest)
      × (lines_values (split b'\n' content)
          ≡ line_values (line_of (before b'=' kv) (quote_env_value (after b'=' kv)))
            ++ lines_values (split b'\n' rest))
unfolding serialize_env_content
serialize-lines kv envs content h =
    let (line, r, h2) = >>=-ok (render_entry kv) _ h in
    let (rest, k, e) = >>=-ok (serialize_env_content envs) _ h2 in
    let same : content ≡ line ++ rest = cc e in
    (
      (render_entry-ok kv line r).0,
      rest,
      k,
      ap (λ t. lines_values (split b'\n' t)) same ∙ first_line line rest kv r,
    )

lines_values-In :
    {kv : Text} {envs : List Text} (content : Text)
    → serialize_env_content envs ≡ ok content
    → In kv envs
    → IsSecret kv
    → In (after b'=' kv) (lines_values (split b'\n' content))
lines_values-In {kv} content h (here {xs = envs}) x =
    let (v, rest, k, e) = serialize-lines kv envs content h in
    rw e (
      In-left _
        (line_values-In (before b'=' kv) (after b'=' kv) v x.key_no_comment x.no_odd_space x.long))
lines_values-In content h (there {x = first} {xs = envs} i) x =
    let (v, rest, k, e) = serialize-lines first envs content h in
    rw e (In-right _ (lines_values-In rest k i x))

-- The value of each entry that the server writes into the .env file is a candidate for redaction on
-- the worker, if the entry's key begins no comment, and its value has at least four bytes and no
-- white space but blanks, tabs and line ends.
pub parse-serialize :
    (envs : List Text) (kv content : Text)
    → serialize_env_content envs ≡ ok content
    → In kv envs
    → IsSecret kv
    → In (after b'=' kv) (parse_env_values content)
unfolding parse_env_values
parse-serialize envs kv content h i x =
    redaction_candidates-In x.long (lines_values-In content h i x)

-- A text that has no bracket and is not a part of the placeholder's word.
abbrev pub IsMaskable : Text → Type 0
IsMaskable s = IsApart s b'[' (codes "REDACTED") b']'

mask-masks : (text s : Text) → 4 ≤ byte_length s → IsMaskable s → contains (mask text s) s ≡ false
unfolding mask replace_all
mask-masks text s long m =
    rw (ltb_is_false long) (contains-replaced b'[' (codes "REDACTED") b']' s 0 text m)

mask-keeps :
    (text secret s : Text)
    → IsMaskable s
    → contains text s ≡ false
    → contains (mask text secret) s ≡ false
unfolding mask replace_all
mask-keeps text secret s m n = elim (Bool-cases (ltb (byte_length secret) 4)) [
  | inl short ↦ rw short n
  | inr long ↦ rw long (contains-replace_from b'[' (codes "REDACTED") b']' secret s 0 text m n)
]

still_masked :
    (secrets : List Text) (text s : Text)
    → IsMaskable s
    → contains text s ≡ false
    → contains (redact_secrets text secrets) s ≡ false
unfolding redact_secrets
still_masked [] text s m n = n
still_masked (secret ∷ secrets) text s m n =
    still_masked secrets (mask text secret) s m (mask-keeps text secret s m n)

-- The output that the worker sends back contains none of its candidates that have four bytes or more,
-- no bracket, and are not a part of the word REDACTED.
pub redact_secrets-masks :
    (s text : Text) {secrets : List Text}
    → In s secrets
    → 4 ≤ byte_length s
    → IsMaskable s
    → contains (redact_secrets text secrets) s ≡ false
unfolding redact_secrets
redact_secrets-masks s text (here {xs = secrets}) long m =
    still_masked secrets (mask text s) s m (mask-masks text s long m)
redact_secrets-masks s text (there {x = secret} i) long m =
    redact_secrets-masks s (mask text secret) i long m

-- Output that the worker redacts with the .env file that the server wrote shows the value of no entry
-- whose key begins no comment, and whose value has at least four bytes, no white space but blanks,
-- tabs and line ends, and no bracket, and is not a part of the word REDACTED.
pub redact-serialize :
    (envs : List Text) (kv content output : Text)
    → serialize_env_content envs ≡ ok content
    → In kv envs
    → IsSecret kv
    → IsMaskable (after b'=' kv)
    → contains (redact_secrets output (parse_env_values content)) (after b'=' kv) ≡ false
redact-serialize envs kv content output h i x m =
    redact_secrets-masks (after b'=' kv) output (parse-serialize envs kv content h i x) x.long m
