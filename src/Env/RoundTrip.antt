-- ===== src/Env/RoundTrip.antt =====
-- The worker reads back each value that the server wrote: decodeEnvValue of worker/executor/redact.go
-- undoes quoteEnvValue of internal/sync/envfile.go.
use wireops.Prelude.{
  ℕ, ◌≡◌, refl, true, false, [], ◌∷◌, ◌++◌, arith, ◌==◌, Bool-cases, inl, inr, ◌∙◌, ap,
}
use wireops.Go.Text.{Text, contains_rune}
use wireops.Env.{
  escape_rune, escape, ends_with, needs_quote, is_single_quotable, between, quote_env_value,
}
use wireops.Env.Redact.{drop_last, is_quote, unescape, decode_env_value}

ends_with-added : (s : Text) (q : ℕ) → ends_with (s ++ (q ∷ [])) q ≡ true
unfolding ends_with
ends_with-added [] q = ground arith
ends_with-added (c ∷ []) q = ground arith
ends_with-added (c ∷ d ∷ s) q = ends_with-added (d ∷ s) q

drop_last-added : (s : Text) (q : ℕ) → drop_last (s ++ (q ∷ [])) ≡ s
unfolding drop_last
drop_last-added [] q = refl
drop_last-added (c ∷ []) q = refl
drop_last-added (c ∷ d ∷ s) q = ap (λ t. c ∷ t) (drop_last-added (d ∷ s) q)

unescape-plain : (c : ℕ) (s : Text) → (c == b'\\') ≡ false → unescape (c ∷ s) ≡ c ∷ unescape s
unfolding unescape
unescape-plain c [] n = refl
unescape-plain c (d ∷ s) n = ground (arith, n)

unescape-escape_rune : (c : ℕ) (s : Text) → unescape (escape_rune c ++ s) ≡ c ∷ unescape s
unfolding escape_rune
unescape-escape_rune c s = elim (Bool-cases (c == b'\\')) [
  | inl e ↦ unfold unescape in ground (arith, e)
  | inr n ↦ unfold unescape in ground (arith, n, unescape-plain c s n)
]

-- The loop between double quotes undoes the replacer.
unescape-escape : (s : Text) → unescape (escape s) ≡ s
unfolding escape
unescape-escape [] = unfold unescape in refl
unescape-escape (c ∷ s) = unescape-escape_rune c (escape s) ∙ ap (λ t. c ∷ t) (unescape-escape s)

decode-single : (s : Text) → decode_env_value (between b'\'' s) ≡ s
unfolding decode_env_value
decode-single s = ground (arith, ends_with-added s b'\'', drop_last-added s b'\'')

decode-double : (s : Text) → decode_env_value (between b'"' (escape s)) ≡ s
unfolding decode_env_value
decode-double s =
    ground
      (arith, ends_with-added (escape s) b'"', drop_last-added (escape s) b'"', unescape-escape s)

unquoted_head : (c : ℕ) (s : Text) → needs_quote (c ∷ s) ≡ false → is_quote c ≡ false
unfolding needs_quote contains_rune
unquoted_head c s n = ground (arith, n)

decode-plain : (s : Text) → needs_quote s ≡ false → decode_env_value s ≡ s
unfolding decode_env_value
decode-plain [] n = refl
decode-plain (c ∷ s) n = ground (arith, unquoted_head c s n)

-- Whatever a value holds, the worker decodes what the server quotes to the value.
pub decode-quote : (val : Text) → decode_env_value (quote_env_value val) ≡ val
unfolding quote_env_value
decode-quote val = elim (Bool-cases (needs_quote val)) [
  | inl y ↦ elim (Bool-cases (is_single_quotable val)) [
    | inl e ↦ rw y (rw e (decode-single val))
    | inr e ↦ rw y (rw e (decode-double val))
  ]
  | inr n ↦ rw n (decode-plain val n)
]
