-- ===== src/Env/Tests.antt =====
-- A .env file with a password, and the output of a command that prints it.
use wireops.Prelude.{◌≡◌, refl, false, List, [], ◌∷◌, ◌++◌, arith, In, here, there}
use wireops.Go.Text.{Text, codes, after}
use wireops.Go.Replace.{contains}
use wireops.Env.{ok, serialize_env_content, quote_env_value}
use wireops.Env.Redact.{parse_env_values, redact_secrets, decode_env_value}
use wireops.Env.RoundTrip.{decode-quote}
use wireops.Env.Secrets.{
  IsSecret, IsMaskable, parse-serialize, redact_secrets-masks, redact-serialize,
}

abbrev password : Text
password = codes "PW=pa$s w"

abbrev variables : List Text
variables = codes "A=1" ∷ password ∷ []

abbrev file : Text
file = codes "A=1" ++ (b'\n' ∷ (codes "PW='pa$s w'" ++ (b'\n' ∷ [])))

variables_written : serialize_env_content variables ≡ ok file
unfolding serialize_env_content wireops.Env.render_entry wireops.Env.validate_env_key
    wireops.Env.check_characters wireops.Env.quote_env_value wireops.Env.needs_quote
    wireops.Env.ends_with wireops.Go.Text.contains_rune wireops.Go.Text.before wireops.Go.Text.after
    wireops.Go.Text.trim_space wireops.Go.Text.trim wireops.Go.Text.trim_left
    wireops.Go.Text.is_space wireops.Go.Text.text_eq
variables_written = refl

password-IsSecret : IsSecret password
unfolding after wireops.Go.Text.before wireops.Go.Text.byte_length wireops.Go.Text.rune_length
    wireops.Go.Text.has_prefix wireops.Go.Text.is_space
password-IsSecret = record { key_no_comment = refl; no_odd_space = refl; long = omega arith }

password-IsMaskable : IsMaskable (after b'=' password)
unfolding after contains wireops.Go.Text.has_prefix wireops.Go.Text.contains_rune
password-IsMaskable = record {
  no_mark = refl;
  no_stop = refl;
  not_in_word = refl;
  not_empty = refl;
}

decode-quote_example : decode_env_value (quote_env_value (codes "it's $5\\")) ≡ codes "it's $5\\"
decode-quote_example = decode-quote (codes "it's $5\\")

parse-serialize_example : In (after b'=' password) (parse_env_values file)
parse-serialize_example =
    parse-serialize variables password file variables_written (there here) password-IsSecret

redact_secrets-masks_example :
    contains (redact_secrets (codes "login hunter2") (codes "hunter2" ∷ [])) (codes "hunter2")
    ≡ false
unfolding contains wireops.Go.Text.has_prefix wireops.Go.Text.contains_rune
redact_secrets-masks_example =
    redact_secrets-masks (codes "hunter2") (codes "login hunter2") here
      (unfold wireops.Go.Text.byte_length wireops.Go.Text.rune_length in omega arith)
      (record { no_mark = refl; no_stop = refl; not_in_word = refl; not_empty = refl })

redact-serialize_example :
    contains (redact_secrets (codes "PW is pa$s w") (parse_env_values file)) (after b'=' password)
    ≡ false
redact-serialize_example =
    redact-serialize variables password file (codes "PW is pa$s w") variables_written (there here)
      password-IsSecret password-IsMaskable
