-- ===== src/Deploy/Tickers.antt =====
-- internal/sync/scheduler.go: the tickers that start a stack's reconciles and a repository's fetches. A
-- ticker is a number, its context's cancel function is called once or more, and its goroutine ends when it
-- was. Each method holds the lock throughout. The two maps work alike; a repository is never paused.
pub mod Tracked
use wireops.Prelude.{
  arith, ℕ, zero, suc, ◌+◌, ◌*◌, ◌≡◌, ◌≤◌, ◌<◌, refl, Bool, true, false, not, Option, none, some,
  List, [], ◌∷◌, ltb, leb, ◌==◌, any, if◌then◌else◌, In, here, there,
}
use wireops.Go.Text.{Text, codes, text_eq}
use wireops.Go.Int.{ℤ, pos, negsuc}
use wireops.Go.Value.{lookup}
use wireops.Go.Assoc.{put, remove}

-- The map, the tickers that were started with their keys, those whose cancel function was called, and the
-- number of the next.
pub record Tickers : Type 0 where
  pub jobs : List (Text × ℕ)
  pub started : List (Text × ℕ)
  pub cancelled : List ℕ
  pub next : ℕ

abbrev pub no_tickers : Tickers
no_tickers = record { jobs = []; started = []; cancelled = []; next = 0 }

-- `startJobLocked` and `startRepoJobLocked`.
unfoldable pub start_job : Text → Tickers → Tickers
start_job id s = record {
  jobs = put s.jobs id s.next;
  started = (id, s.next) ∷ s.started;
  cancelled = s.cancelled;
  next = suc s.next;
}

unfoldable pub cancel : Option ℕ → Tickers → Tickers
cancel none s = s
cancel (some t) s = record s { cancelled = t ∷ s.cancelled }

unfoldable pub register_stack : Text → Bool → Tickers → Tickers
register_stack id paused s =
    let stopped = cancel (lookup s.jobs id) s in
    if paused then record stopped { jobs = remove stopped.jobs id } else start_job id stopped

unfoldable pub register_repo : Text → Tickers → Tickers
register_repo id s = start_job id (cancel (lookup s.jobs id) s)

unfoldable pub unregister : Text → Tickers → Tickers
unregister id s = elim (lookup s.jobs id) [
  | none ↦ s
  | some t ↦ record (cancel (some t) s) { jobs = remove s.jobs id }
]

-- `Start`, on the ids of the stacks with whether each is paused.
unfoldable pub start_all : List (Text × Bool) → Tickers → Tickers
start_all [] s = s
start_all ((id, paused) ∷ stacks) s = start_all stacks (if paused then s else start_job id s)

abbrev pub max_sync_interval_seconds : ℕ
max_sync_interval_seconds = 365 * 24 * 60 * 60

-- In nanoseconds; `scan_period` is the global default.
unfoldable pub interval_from_seconds : ℕ → ℤ → ℕ
interval_from_seconds scan_period (pos zero) = scan_period
interval_from_seconds scan_period (negsuc n) = scan_period
interval_from_seconds scan_period (pos (suc n)) =
    if ltb max_sync_interval_seconds (suc n)
    then max_sync_interval_seconds * 1000000000
    else suc n * 1000000000

-- With a global default that time.NewTicker takes, every interval is one that it takes: positive, and
-- within an int64 of nanoseconds, whatever a record says.
pub interval_from_seconds-bounded :
    (scan_period : ℕ) (seconds : ℤ)
    → 0 < scan_period
    → scan_period < 0x8000000000000000
    → (0 < interval_from_seconds scan_period seconds)
      × (interval_from_seconds scan_period seconds < 0x8000000000000000)
unfolding interval_from_seconds
interval_from_seconds-bounded p (pos zero) h k = (h, k)
interval_from_seconds-bounded p (negsuc n) h k = (h, k)
interval_from_seconds-bounded p (pos (suc n)) h k = ground arith

pub data Call : Type 0 where
  registering : Text → Bool → Call
  fetching : Text → Call
  unregistering : Text → Call

unfoldable pub perform : Call → Tickers → Tickers
perform (registering id paused) s = register_stack id paused s
perform (fetching id) s = register_repo id s
perform (unregistering id) s = unregister id s

unfoldable pub perform_all : List Call → Tickers → Tickers
perform_all [] s = s
perform_all (c ∷ cs) s = perform_all cs (perform c s)
