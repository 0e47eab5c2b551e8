-- ===== src/Deploy/Converge.antt =====
-- internal/sync/deploy_timeout.go: whether the record of a stack is advanced after a deploy that its own
-- time limit killed. The details are the parts that the messages are formatted from.
use wireops.Prelude.{
  ◌≡◌, ◌≢◌, ◌↔◌, Bool, true, false, ◌||◌, not, Option, none, some, List, [], ◌∷◌, arith,
  if◌then◌else◌,
}
use wireops.Go.Text.{Text, codes, text_eq, text_eq_iff, text_eq-apart, is_empty}
use wireops.Health.PostCheck.{StackStatus, PostCheckResult}

-- `protocol.InspectResult`: the distinct commit labels of the containers, and one of the labels.
pub record InspectResult : Type 0 where
  pub commit_shas : List Text
  pub commit_sha : Text

pub data Disagreement : Type 0 where
  straddle : List Text → Disagreement
  one_label_only : Disagreement
  still_on : Text → Disagreement

pub data Note : Type 0 where
  no_note : Note
  only_check : Note
  commit_unchanged : Note
  left_alone : Disagreement → Note
  converged_note : Note

-- `timeoutConvergence`; `status` is `none` where it is the empty string.
pub record TimeoutConvergence : Type 0 where
  pub status : Option StackStatus
  pub note : Note
  pub converged : Bool

-- By the number of the labels.
unfoldable pub agree : Text → List Text → Text × Option Disagreement
agree sha [] = if is_empty sha then ([], none) else ([], some one_label_only)
agree sha (only ∷ []) = (only, none)
agree sha (first ∷ second ∷ more) = ([], some (straddle (first ∷ second ∷ more)))

abbrev pub agreed_revision : InspectResult → Text × Option Disagreement
agreed_revision i = agree i.commit_sha i.commit_shas

unfoldable pub describe_commit : Text → Text
describe_commit sha = if is_empty sha then codes "an unknown revision" else sha

abbrev pub disagreement_of : Text × Option Disagreement → Disagreement
disagreement_of (revision, none) = still_on (describe_commit revision)
disagreement_of (revision, some d) = d

-- After the check, where the containers can tell.
unfoldable pub by_revision : StackStatus → Text → Text × Option Disagreement → TimeoutConvergence
by_revision status commit agreed =
    if text_eq agreed.0 commit
    then record { status = some status; note = converged_note; converged = true }
    else record {
      status = some status;
      note = left_alone (disagreement_of agreed);
      converged = false;
    }

-- `convergeAfterTimeout`: whether there is a dispatcher, the result of the post-deploy check, and what the
-- worker says of the containers.
unfoldable pub converge_after_timeout :
    Bool → PostCheckResult → InspectResult → Text → Text → TimeoutConvergence
converge_after_timeout dispatcher check inspected commit previous =
    if not dispatcher || is_empty commit
    then record { status = none; note = no_note; converged = false }
    else if check.skipped
    then record { status = none; note = only_check; converged = false }
    else if text_eq commit previous
    then record { status = some check.status; note = commit_unchanged; converged = false }
    else by_revision check.status commit (agreed_revision inspected)

-- What the record's advance rests on.
pub record IsEvident (dispatcher : Bool) (check : PostCheckResult) (inspected : InspectResult)
    (commit previous : Text) : Type 0 where
  pub reachable : dispatcher ≡ true
  pub named : is_empty commit ≡ false
  pub verified : check.skipped ≡ false
  pub changed : commit ≢ previous
  pub agreed : inspected.commit_shas ≡ commit ∷ []

agreed_on :
    (sha : Text) (shas : List Text) (commit : Text)
    → is_empty commit ≡ false
    → (text_eq (agree sha shas).0 commit ≡ true) ↔ (shas ≡ commit ∷ [])
unfolding agree text_eq
agreed_on sha [] commit n = ground (arith, n)
agreed_on sha (only ∷ []) commit n = ground (arith, text_eq_iff only commit)
agreed_on sha (first ∷ second ∷ more) commit n = ground (arith, n)

-- The record is advanced exactly if there is a dispatcher and a commit, the check verified something, the
-- commit is not the one that was deployed before, and it is the one and only label of the containers.
pub converge_after_timeout_iff :
    (dispatcher : Bool) (check : PostCheckResult) (inspected : InspectResult)
    (commit previous : Text)
    → ((converge_after_timeout dispatcher check inspected commit previous).converged ≡ true)
      ↔ IsEvident dispatcher check inspected commit previous
unfolding converge_after_timeout by_revision
converge_after_timeout_iff dispatcher check inspected commit previous = (to, from)
  where
    to :
        (converge_after_timeout dispatcher check inspected commit previous).converged ≡ true
        → IsEvident dispatcher check inspected commit previous
    to h =
        let r : dispatcher ≡ true = ground (arith, h) in
        let n : is_empty commit ≡ false = ground (arith, h) in
        let v : check.skipped ≡ false = ground (arith, h) in
        let c : text_eq commit previous ≡ false = ground (arith, h) in
        let a : text_eq (agreed_revision inspected).0 commit ≡ true = ground (arith, h) in
        record {
          reachable = r;
          named = n;
          verified = v;
          changed = λ e. ground (arith, c, text_eq_iff commit previous, e);
          agreed = (agreed_on inspected.commit_sha inspected.commit_shas commit n).0 a;
        }

    from :
        IsEvident dispatcher check inspected commit previous
        → (converge_after_timeout dispatcher check inspected commit previous).converged ≡ true
    from v =
        let a = (agreed_on inspected.commit_sha inspected.commit_shas commit v.named).1 v.agreed in
        ground (arith, v.reachable, v.named, v.verified, text_eq-apart v.changed, a)
