-- ===== src/Inspect/Policy.antt =====
-- packages/core/src/policy/policy.ts: the dispatcher of the policy axes.
use Prim.Native.String.{◌++◌ as concat}
use linklint.Common.{Bool, List, Option, String, [], ltb, none, some, ℕ, ◌++◌, ◌+◌, ◌∷◌}
use linklint.Inspect.{CollectedFinding, Scan}

pub record PolicyOutcome : Type 0 where
  pub findings : List CollectedFinding
  pub skipped_axes : List String
  pub any_axis_ran : Bool

-- The variables of `runPolicy`.
pub record Run : Type 0 where
  pub findings : List CollectedFinding
  pub skipped_axes : List String
  pub completed : ℕ

abbrev pub at_axis : String → Option (List CollectedFinding) → Run → Run
at_axis id none r = record r { skipped_axes = r.skipped_axes ++ (id ∷ []) }
at_axis id (some found) r = record r { findings = r.findings ++ found; completed = r.completed + 1 }

module _ {C : Type 0} (context : C) where
  unfoldable pub run_axes : List (Scan C) → Run → Run
  run_axes [] r = r
  run_axes (a ∷ as') r = run_axes as' (at_axis a.id (a.run context) r)

  unfoldable pub run_policy : List (Scan C) → PolicyOutcome
  run_policy axes =
      let r = run_axes axes (record { findings = []; skipped_axes = []; completed = 0 }) in
      record {
        findings = r.findings;
        skipped_axes = r.skipped_axes;
        any_axis_ran = ltb 0 r.completed;
      }

abbrev pub policy_id : String → String
policy_id id = concat "policy:" id
