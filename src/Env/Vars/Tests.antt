-- ===== src/Env/Vars/Tests.antt =====
-- A global variable that a stack overrides, and a secret of a backend.
use wireops.Prelude.{◌≡◌, refl, ◌↔◌, true, false, Option, some, List, [], ◌∷◌, ◌++◌, or_else, In}
use wireops.Go.Text.{Text, codes, text_eq}
use wireops.Go.Value.{lookup}
use wireops.Env.Vars.{
  EnvRecord, Loaded, ok, err, Values, Registry, Integration, found, passed, is_external,
  load_global_records, load_locals, load_effective, check_secret_backends, sorted_env_list,
}
use wireops.Env.Vars.Precedence.{latest, load_effective-lookup}
use wireops.Env.Vars.Backends.{check_secret_backends_iff}

abbrev plain : Text → Text → EnvRecord
plain key value = record { key = key; value = value; secret = false; secret_provider = [] }

abbrev token : EnvRecord
token = record {
  key = codes "TOKEN";
  value = codes "t";
  secret = true;
  secret_provider = codes "vault";
}

abbrev registry : Registry
registry = some (λ slug. some (λ value. some (codes "s3cret")))

abbrev find : Text → Option EnvRecord
find id = some (plain (codes "MODE") (codes "global"))

abbrev bindings : Option (List Text)
bindings = some (codes "g1" ∷ [])

abbrev locals : Option (List EnvRecord)
locals = some (token ∷ plain (codes " MODE ") (codes "local") ∷ [])

abbrev values : Values
values = (codes "MODE", codes "local") ∷ (codes "TOKEN", codes "s3cret") ∷ []

loaded : load_effective registry find bindings locals ≡ ok values
unfolding load_effective load_global_records wireops.Env.Vars.load_bound
    wireops.Env.Vars.put_all_resolved wireops.Env.Vars.put_resolved wireops.Go.Text.trim_space
    wireops.Env.Vars.value_of load_locals wireops.Go.Assoc.put text_eq
loaded = refl

load_effective-lookup_example :
    (globals : List EnvRecord) × (own : List EnvRecord) × (load_global_records find bindings
      ≡ ok globals)
    × (load_locals locals ≡ ok own)
    × (lookup values (codes "MODE")
        ≡ or_else (latest registry (codes "MODE") own) (latest registry (codes "MODE") globals))
load_effective-lookup_example =
    load_effective-lookup registry find bindings locals values (codes "MODE") loaded

abbrev enabled : Text → Integration
enabled slug = found true

check_secret_backends_iff_example :
    (check_secret_backends enabled find bindings locals ≡ passed) ↔ (
      (globals : List EnvRecord) × (own : List EnvRecord) × (load_global_records find bindings
        ≡ ok globals)
      × (load_locals locals ≡ ok own)
      × ((r : EnvRecord)
          → In r (globals ++ own)
          → is_external r ≡ true
          → enabled r.secret_provider ≡ found true))
check_secret_backends_iff_example = check_secret_backends_iff enabled find bindings locals

gate_open : check_secret_backends enabled find bindings locals ≡ passed
unfolding check_secret_backends load_global_records wireops.Env.Vars.load_bound load_locals
    wireops.Env.Vars.disabled_of wireops.Go.Sort.sort_strings wireops.Env.Vars.collect_all
    wireops.Env.Vars.collect text_eq wireops.Go.Text.trim_space wireops.Go.Assoc.put
gate_open = refl
