-- ===== src/Env/Vars.antt =====
-- internal/envvars/resolver.go and backend_check.go, and overlaySopsEnv of internal/sync/reconciler.go: the
-- environment of a stack or a job. The database's records and the providers of secrets are parameters.
pub mod Precedence
pub mod Backends
pub mod Tests
use wireops.Prelude.{
  ℕ, ◌≡◌, Bool, true, false, ◌&&◌, ◌||◌, not, Option, none, some, List, [], ◌∷◌, ◌++◌, map,
  if◌then◌else◌,
}
use wireops.Go.Text.{Text, codes, text_eq, is_empty, trim_space, before, after, contains_rune}
use wireops.Go.Value.{lookup, keys}
use wireops.Go.Assoc.{put}
use wireops.Go.Sort.{sort_strings}

-- A record of `global_env_vars`, `stack_env_vars` or `job_env_vars`.
pub record EnvRecord : Type 0 where
  pub key : Text
  pub value : Text
  pub secret : Bool
  pub secret_provider : Text

pub data VarsError : Type 0 where
  query_failed : VarsError
  no_global : Text → VarsError
  no_registry : Text → VarsError
  no_provider : Text → VarsError
  not_resolved : Text → VarsError

pub data Loaded (A : Type 0) : Type 0 where
  ok : A → Loaded A
  err : VarsError → Loaded A

infixl 5 ◌>>=◌
abbrev pub ◌>>=◌ : {A B : Type 0} → Loaded A → (A → Loaded B) → Loaded B
ok x >>= next = next x
err e >>= next = err e

abbrev pub Values : Type 0
Values = List (Text × Text)

-- The providers of secrets by their slugs, each of which may fail to resolve a value; `none` is the nil
-- registry.
abbrev pub Registry : Type 0
Registry = Option (Text → Option (Text → Option Text))

abbrev pub trimmed_key : EnvRecord → Text
trimmed_key r = trim_space r.key

abbrev pub provided : Text → Text → Option (Text → Option Text) → Loaded Text
provided key value none = err (no_provider key)
provided key value (some resolve) = elim (resolve value) [
  | none ↦ err (not_resolved key)
  | some v ↦ ok v
]

-- The value of a record with the key `key`.
unfoldable pub value_of : Registry → Text → EnvRecord → Loaded Text
value_of registry key r =
    if r.secret
    then elim registry [
      | none ↦ err (no_registry key)
      | some get ↦ provided key r.value (get r.secret_provider)
    ]
    else ok r.value

unfoldable pub put_resolved : Registry → EnvRecord → Values → Loaded Values
put_resolved registry r values =
    if is_empty (trimmed_key r)
    then ok values
    else value_of registry (trimmed_key r) r >>= λ v. ok (put values (trimmed_key r) v)

unfoldable pub put_all_resolved : Registry → List EnvRecord → Values → Loaded Values
put_all_resolved registry [] values = ok values
put_all_resolved registry (r ∷ rs) values =
    put_resolved registry r values >>= put_all_resolved registry rs

-- A query is `none` where it fails, and brings no record where the collection does not exist. The globals
-- that are bound, by the ids of the bindings; `find` is `FindRecordById`.
unfoldable pub load_bound : (Text → Option EnvRecord) → List Text → Loaded (List EnvRecord)
load_bound find [] = ok []
load_bound find (id ∷ ids) =
    let rest = load_bound find ids in
    if is_empty id
    then rest
    else elim (find id) [ none ↦ err (no_global id) | some r ↦ rest >>= λ rs. ok (r ∷ rs) ]

unfoldable pub load_global_records :
    (Text → Option EnvRecord) → Option (List Text) → Loaded (List EnvRecord)
load_global_records find none = err query_failed
load_global_records find (some ids) = load_bound find ids

unfoldable pub load_locals : Option (List EnvRecord) → Loaded (List EnvRecord)
load_locals none = err query_failed
load_locals (some rs) = ok rs

-- `loadEffective`, which is LoadJob: the bindings, the globals and the local records of the database.
unfoldable pub load_effective :
    Registry
    → (Text → Option EnvRecord)
    → Option (List Text)
    → Option (List EnvRecord)
    → Loaded Values
load_effective registry find bindings locals = load_global_records find bindings >>= λ globals.
    put_all_resolved registry globals [] >>= λ values.
    load_locals locals >>= λ own. put_all_resolved registry own values

abbrev pub entry : Text → Text → Text
entry k v = k ++ (b'=' ∷ v)

-- `values[key]`, empty where there is none.
abbrev pub value_at : Values → Text → Text
value_at values k = elim (lookup values k) [ none ↦ [] | some v ↦ v ]

unfoldable pub sorted_env_list : Values → List Text
sorted_env_list values = map (λ k. entry k (value_at values k)) (sort_strings (keys values))

abbrev pub listed : Loaded Values → Loaded (List Text)
listed r = r >>= λ values. ok (sorted_env_list values)

-- `LoadStack`.
unfoldable pub load_stack :
    Registry
    → (Text → Option EnvRecord)
    → Option (List Text)
    → Option (List EnvRecord)
    → Loaded (List Text)
load_stack registry find bindings locals = listed (load_effective registry find bindings locals)

-- overlaySopsEnv. The variables as a map: an entry without "=" is dropped.
unfoldable pub as_values : List Text → Values → Values
as_values [] values = values
as_values (kv ∷ vars) values =
    as_values vars
      (if contains_rune kv b'=' then put values (before b'=' kv) (after b'=' kv) else values)

-- The overlay is a map, so that its keys differ and the order of its entries does not matter.
unfoldable pub put_over : Values → Values → Values
put_over values [] = values
put_over values ((k, v) ∷ overlay) = put (put_over values overlay) k v

unfoldable pub overlay_sops_env : List Text → Values → List Text
overlay_sops_env vars [] = vars
overlay_sops_env vars (x ∷ overlay) = sorted_env_list (put_over (as_values vars []) (x ∷ overlay))

-- backend_check.go. What the query for an integration brings.
pub data Integration : Type 0 where
  found : Bool → Integration
  no_rows : Integration
  failed : Integration

pub data Checked : Type 0 where
  passed : Checked
  unreadable : Checked
  disabled : List (Text × List Text) → Checked

-- A secret of an external backend, with a key.
abbrev pub is_external : EnvRecord → Bool
is_external r =
    r.secret
    && (not (is_empty r.secret_provider || text_eq r.secret_provider (codes "internal"))
        && not (is_empty (trimmed_key r)))

-- `offenders`: the keys by their providers.
abbrev pub Offenders : Type 0
Offenders = List (Text × List Text)

abbrev pub keys_at : Offenders → Text → List Text
keys_at o provider = elim (lookup o provider) [ none ↦ [] | some ks ↦ ks ]

unfoldable pub collect : EnvRecord → Offenders → Offenders
collect r o =
    if is_external r
    then put o r.secret_provider (keys_at o r.secret_provider ++ (trimmed_key r ∷ []))
    else o

unfoldable pub collect_all : List EnvRecord → Offenders → Offenders
collect_all [] o = o
collect_all (r ∷ rs) o = collect_all rs (collect r o)

abbrev pub add_disabled : Text → List Text → Option Offenders → Option Offenders
add_disabled p ks none = none
add_disabled p ks (some ds) = some ((p, ks) ∷ ds)

-- One provider, before those that follow.
abbrev pub judge : Text → List Text → Integration → Option Offenders → Option Offenders
judge p ks failed rest = none
judge p ks no_rows rest = add_disabled p ks rest
judge p ks (found false) rest = add_disabled p ks rest
judge p ks (found true) rest = rest

-- The loop over the providers: `none` where a query fails.
unfoldable pub disabled_of : (Text → Integration) → Offenders → List Text → Option Offenders
disabled_of integration o [] = some []
disabled_of integration o (p ∷ ps) =
    judge p (sort_strings (keys_at o p)) (integration p) (disabled_of integration o ps)

abbrev pub verdict : Option Offenders → Checked
verdict none = unreadable
verdict (some []) = passed
verdict (some (d ∷ ds)) = disabled (d ∷ ds)

abbrev pub check_records : (Text → Integration) → List EnvRecord → Checked
check_records integration rs =
    let o = collect_all rs [] in verdict (disabled_of integration o (sort_strings (keys o)))

abbrev pub check_loaded :
    (Text → Integration) → Loaded (List EnvRecord) → Loaded (List EnvRecord) → Checked
check_loaded integration (err e) own = unreadable
check_loaded integration (ok globals) (err e) = unreadable
check_loaded integration (ok globals) (ok own) = check_records integration (globals ++ own)

unfoldable pub check_secret_backends :
    (Text → Integration)
    → (Text → Option EnvRecord)
    → Option (List Text)
    → Option (List EnvRecord)
    → Checked
check_secret_backends integration find bindings locals =
    check_loaded integration (load_global_records find bindings) (load_locals locals)
