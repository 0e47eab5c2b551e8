-- ===== src/Env.antt =====
-- internal/sync/envfile.go: the .env file that the server renders for the worker.
pub mod Vars
pub mod Redact
pub mod RoundTrip
pub mod Candidates
pub mod Lines
pub mod Entries
pub mod Secrets
pub mod Tests
use wireops.Prelude.{
  ℕ, ◌≡◌, refl, Bool, true, false, ◌&&◌, ◌||◌, not, List, [], ◌∷◌, ◌++◌, any, ltb, ◌==◌,
  if◌then◌else◌,
}
use wireops.Go.Text.{Text, codes, text_eq, is_empty, contains_rune, before, after, trim_space}

pub data EnvError : Type 0 where
  malformed : Text → EnvError
  empty_key : EnvError
  surrounding_space : Text → EnvError
  invalid_character : Text → ℕ → EnvError

pub data Result (A : Type 0) : Type 0 where
  ok : A → Result A
  err : EnvError → Result A

infixl 5 ◌>>=◌
abbrev pub ◌>>=◌ : {A B : Type 0} → Result A → (A → Result B) → Result B
ok x >>= next = next x
err e >>= next = err e

-- What is before the end of a chain of fallible calls.
pub >>=-ok :
    {A B : Type 0} {y : B} (first : Result A) (next : A → Result B)
    → (first >>= next) ≡ ok y
    → (x : A) × (first ≡ ok x) × (next x ≡ ok y)
>>=-ok (ok x) next final = (x, refl, final)
>>=-ok (err e) next final = cc final

-- `c == '=' || c == '\n' || c == '\r' || c < 0x20`.
abbrev pub is_forbidden : ℕ → Bool
is_forbidden c = c == b'=' || c == b'\n' || c == b'\r' || ltb c 0x20

-- The loop over the characters of a key: the first that a key must not hold is reported.
unfoldable pub check_characters : Text → Text → Result (Unit {0})
check_characters key [] = ok tt
check_characters key (c ∷ s) =
    let rest = check_characters key s in
    if is_forbidden c then err (invalid_character key c) else rest

unfoldable pub validate_env_key : Text → Result (Unit {0})
validate_env_key key =
    if is_empty key
    then err empty_key
    else if not (text_eq (trim_space key) key)
    then err (surrounding_space key)
    else check_characters key key

-- The characters that make a value need quotes, next to `$` and the single quote.
abbrev pub is_special : ℕ → Bool
is_special c =
    c == b' ' || c == b'\t' || c == b'"' || c == b'#' || c == b'\\' || c == b'\n' || c == b'\r'

unfoldable pub needs_quote : Text → Bool
needs_quote val = contains_rune val b'$' || contains_rune val b'\'' || any is_special val

-- The pairs of `strings.NewReplacer`, which replaces character by character.
unfoldable pub escape_rune : ℕ → Text
escape_rune c =
    if c == b'\\'
    then b'\\' ∷ b'\\' ∷ []
    else if c == b'"'
    then b'\\' ∷ b'"' ∷ []
    else if c == b'$'
    then b'\\' ∷ b'$' ∷ []
    else if c == b'\n'
    then b'\\' ∷ b'n' ∷ []
    else if c == b'\r'
    then b'\\' ∷ b'r' ∷ []
    else if c == b'\t'
    then b'\\' ∷ b't' ∷ []
    else c ∷ []

unfoldable pub escape : Text → Text
escape [] = []
escape (c ∷ s) = escape_rune c ++ escape s

-- `strings.HasSuffix(s, x)` for a suffix of one character.
unfoldable pub ends_with : Text → ℕ → Bool
ends_with [] x = false
ends_with (c ∷ []) x = c == x
ends_with (c ∷ d ∷ s) x = ends_with (d ∷ s) x

-- Whether the value keeps its meaning between single quotes.
abbrev pub is_single_quotable : Text → Bool
is_single_quotable val =
    contains_rune val b'$'
    && not (contains_rune val b'\'')
    && not (contains_rune val b'\r' || contains_rune val b'\n')
    && not (ends_with val b'\\')

abbrev pub between : ℕ → Text → Text
between q s = q ∷ (s ++ (q ∷ []))

unfoldable pub quote_env_value : Text → Text
quote_env_value val =
    if not (needs_quote val)
    then val
    else if is_single_quotable val
    then between b'\'' val
    else between b'"' (escape val)

-- One `KEY=VALUE` entry as a line of the file.
unfoldable pub render_entry : Text → Result Text
render_entry kv =
    if not (contains_rune kv b'=')
    then err (malformed kv)
    else validate_env_key (before b'=' kv) >>= λ _.
        ok (before b'=' kv ++ (b'=' ∷ (quote_env_value (after b'=' kv) ++ (b'\n' ∷ []))))

unfoldable pub serialize_env_content : List Text → Result Text
serialize_env_content [] = ok []
serialize_env_content (kv ∷ envs) =
    render_entry kv >>= λ line. serialize_env_content envs >>= λ rest. ok (line ++ rest)

quote_dollar : quote_env_value (codes "a$b") ≡ codes "'a$b'"
unfolding quote_env_value needs_quote contains_rune ends_with
quote_dollar = refl

quote_line_end : quote_env_value (b'a' ∷ b'\n' ∷ []) ≡ codes "\"a\\n\""
unfolding quote_env_value needs_quote contains_rune ends_with escape escape_rune
quote_line_end = refl
