-- ===== src/Env/Redact.antt =====
-- worker/executor/redact.go: what the worker masks in the output of commands. A Go string is a list of
-- code points; the quotes and escapes are ASCII, so the code's bytes are characters here.
use wireops.Prelude.{
  ℕ, ◌≡◌, refl, Bool, ◌&&◌, ◌||◌, not, Option, none, some, List, [], ◌∷◌, ◌++◌, any, ltb, leb, ◌==◌,
  if◌then◌else◌,
}
use wireops.Go.Text.{
  Text, codes, text_eq, is_empty, has_prefix, contains_rune, after, split, push_front, trim_space,
  byte_length,
}
use wireops.Go.Replace.{replace_all}
use wireops.Env.{ends_with}

abbrev pub redacted_placeholder : Text
redacted_placeholder = codes "[REDACTED]"

abbrev pub min_redactable_secret_len : ℕ
min_redactable_secret_len = 4

-- `value[:len(value)-1]`.
unfoldable pub drop_last : Text → Text
drop_last [] = []
drop_last (c ∷ []) = []
drop_last (c ∷ d ∷ s) = c ∷ drop_last (d ∷ s)

abbrev pub is_quote : ℕ → Bool
is_quote c = c == b'\'' || c == b'"'

-- The character that a backslash and this one stand for.
abbrev pub escaped_rune : ℕ → Option ℕ
escaped_rune d =
    if d == b'n'
    then some b'\n'
    else if d == b'r'
    then some b'\r'
    else if d == b't'
    then some b'\t'
    else if d == b'\\' || d == b'"' || d == b'$'
    then some d
    else none

-- The loop over the text between double quotes.
unfoldable pub unescape : Text → Text
unescape [] = []
unescape (c ∷ []) = c ∷ []
unescape (c ∷ d ∷ s) = elim (if c == b'\\' then escaped_rune d else none) [
  | some x ↦ x ∷ unescape s
  | none ↦ c ∷ unescape (d ∷ s)
]

-- A value of one character is left as it is: nothing is behind its first.
unfoldable pub decode_env_value : Text → Text
decode_env_value [] = []
decode_env_value (q ∷ rest) =
    if is_quote q && ends_with rest q
    then if q == b'\'' then drop_last rest else unescape (drop_last rest)
    else q ∷ rest

-- The serialized form without its quotes.
unfoldable pub unquoted : Text → Text
unquoted [] = []
unquoted (q ∷ rest) = if is_quote q && ends_with rest q then drop_last rest else q ∷ rest

-- `strings.FieldsFunc(value, …)` with the test for line ends.
abbrev pub is_line_end : ℕ → Bool
is_line_end c = c == b'\n' || c == b'\r'

unfoldable pub split_func : (ℕ → Bool) → Text → List Text
split_func f [] = [] ∷ []
split_func f (x ∷ s) = let rest = split_func f s in if f x then [] ∷ rest else push_front x rest

unfoldable pub non_empty : List Text → List Text
non_empty [] = []
non_empty (s ∷ l) = let rest = non_empty l in if is_empty s then rest else s ∷ rest

unfoldable pub fields_func : (ℕ → Bool) → Text → List Text
fields_func f s = non_empty (split_func f s)

-- `add`; what is seen are the candidates.
unfoldable pub add : List Text → Text → List Text
add candidates value =
    if leb min_redactable_secret_len (byte_length value) && not (any (text_eq value) candidates)
    then candidates ++ (value ∷ [])
    else candidates

unfoldable pub add_lines : List Text → List Text → List Text
add_lines candidates [] = candidates
add_lines candidates (line ∷ lines) = add_lines (add (add candidates line) (trim_space line)) lines

unfoldable pub add_values : List Text → List Text → List Text
add_values candidates [] = candidates
add_values candidates (value ∷ values) =
    add_values (add_lines (add candidates value) (fields_func is_line_end value)) values

-- `sort.Slice` by falling length. Go's sort is not stable: candidates of the same length may come in
-- another order.
unfoldable pub insert_longest : Text → List Text → List Text
insert_longest x [] = x ∷ []
insert_longest x (y ∷ ys) =
    let rest = insert_longest x ys in
    if ltb (byte_length x) (byte_length y) then y ∷ rest else x ∷ y ∷ ys

unfoldable pub longest_first : List Text → List Text
longest_first [] = []
longest_first (x ∷ xs) = insert_longest x (longest_first xs)

unfoldable pub redaction_candidates : List Text → List Text
redaction_candidates values = longest_first (add_values [] values)

abbrev pub long_enough : Text → List Text
long_enough value = if leb min_redactable_secret_len (byte_length value) then value ∷ [] else []

-- The values that an entry with the serialized value adds: the decoded one, and the serialized form
-- where that is another.
unfoldable pub values_of : Text → List Text
values_of encoded =
    let value = decode_env_value encoded in
    let form = unquoted encoded in
    long_enough value ++ (if text_eq form value then [] else long_enough form)

unfoldable pub line_values : Text → List Text
line_values line =
    let entry = trim_space line in
    if is_empty entry || has_prefix entry (codes "#")
    then []
    else if contains_rune entry b'='
    then values_of (trim_space (after b'=' entry))
    else []

unfoldable pub lines_values : List Text → List Text
lines_values [] = []
lines_values (line ∷ lines) = line_values line ++ lines_values lines

unfoldable pub parse_env_values : Text → List Text
parse_env_values content = redaction_candidates (lines_values (split b'\n' content))

-- One round of the loop of `redactSecrets`, and the loop.
unfoldable pub mask : Text → Text → Text
mask text secret =
    if ltb (byte_length secret) min_redactable_secret_len
    then text
    else replace_all text secret redacted_placeholder

unfoldable pub redact_secrets : Text → List Text → Text
redact_secrets text [] = text
redact_secrets text (secret ∷ secrets) = redact_secrets (mask text secret) secrets

redact_one : redact_secrets (codes "pw=hunter2!") (codes "hunter2" ∷ []) ≡ codes "pw=[REDACTED]!"
unfolding redact_secrets mask replace_all wireops.Go.Text.has_prefix byte_length
    wireops.Go.Text.rune_length wireops.Go.Replace.replace_from
redact_one = refl
