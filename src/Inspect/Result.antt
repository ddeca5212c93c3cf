-- ===== src/Inspect/Result.antt =====
-- packages/core/src/schema/serialize.ts and inspect.ts: the results and how one is built. The
-- parsed components, the data versions and the snapshot's provenance are left out of the record.
use Prim.Native.String.{compare}
use Prim.Native.Nat.{Ordering}
use linklint.Common.{
  Bool, List, Option, String, [], false, if◌then◌else◌, is_empty, ltb, map, none, some, true, ℕ,
  ◌++◌, ◌==◌, ◌∷◌,
}
use linklint.Score.{Layer, Reason, Severity, aggregate, lexical}
use linklint.Score.Suppress.{SuppressionRule, apply_suppressions}
use linklint.Inspect.{Collected, CollectedFinding, Confusable}

pub data Status : Type 0 where
  ok invalid : Status

pub record InspectResult : Type 0 where
  pub status : Status
  pub input : String
  pub score : Option ℕ
  pub severity : Option Severity
  pub reasons : List Reason
  pub confusables : List Confusable
  pub checks_run : List String
  pub checks_skipped : List String

pub record ReasonCodeMeta : Type 0 where
  pub layer : Layer
  pub weight : ℕ

-- `compareReasons(a, b) <= 0`
abbrev pub comes_first : Reason → Reason → Bool
comes_first a b =
    if a.weight == b.weight
    then elim (compare a.code b.code) [ Ordering.gt ↦ false | _ ↦ true ]
    else ltb b.weight a.weight

-- `sort(compareReasons)`, which is stable.
abbrev pub insert_reason : Reason → List Reason → List Reason
insert_reason r [] = r ∷ []
insert_reason r (s ∷ ss) =
    let rest = insert_reason r ss in if comes_first r s then r ∷ s ∷ ss else s ∷ rest

unfoldable pub sort_reasons : List Reason → List Reason
sort_reasons [] = []
sort_reasons (r ∷ rs) = insert_reason r (sort_reasons rs)

abbrev pub confusables_of : List CollectedFinding → List Confusable
confusables_of [] = []
confusables_of (f ∷ fs) = f.confusables ++ confusables_of fs

abbrev pub push_if : Bool → String → List String → List String
push_if b token tokens = if b then tokens ++ (token ∷ []) else tokens

-- The registry of reason codes.
module _ (meta : String → ReasonCodeMeta) where
  abbrev pub reason_of : CollectedFinding → Reason
  reason_of f = record {
    code = f.code;
    layer = (meta f.code).layer;
    detail = f.detail;
    weight = (meta f.code).weight;
    suppressed = false;
  }

  abbrev parse_error : Option String → List Reason
  parse_error detail =
      record {
        code = "parse_error";
        layer = lexical;
        detail = elim detail [ none ↦ "input is not a parseable URL or hostname" | some d ↦ d ];
        weight = 0;
        suppressed = false;
      }
      ∷ []

  unfoldable pub build_invalid_result :
      String → List CollectedFinding → Option String → List String → InspectResult
  unfolding sort_reasons
  build_invalid_result input findings detail option_skipped =
      let silent = is_empty findings in
      record {
        status = invalid;
        input = input;
        score = none;
        severity = none;
        reasons = if silent then parse_error detail else sort_reasons (map reason_of findings);
        confusables = if silent then [] else confusables_of findings;
        checks_run = if silent then [] else "lexical" ∷ [];
        checks_skipped =
            option_skipped
            ++ (if silent
                then "lexical" ∷ "resolution" ∷ "reputation" ∷ []
                else "resolution" ∷ "reputation" ∷ []);
      }

  unfoldable pub build_ok_result :
      String
      → List SuppressionRule
      → Option String
      → Collected
      → List CollectedFinding
      → Bool
      → Bool
      → Bool
      → InspectResult
  unfolding sort_reasons
  build_ok_result input rules scope c policy_findings policy_ran agent_ran suppress_ran =
      let built = map reason_of (c.findings ++ policy_findings) in
      let reasons = sort_reasons (apply_suppressions built rules scope) in
      let scored = aggregate reasons in
      record {
        status = ok;
        input = input;
        score = some scored.score;
        severity = some scored.severity;
        reasons = reasons;
        confusables = confusables_of c.findings;
        checks_run =
            push_if suppress_ran "suppression"
              (push_if agent_ran "agent" (push_if policy_ran "policy" ("lexical" ∷ [])));
        checks_skipped = c.skipped ++ ("resolution" ∷ "reputation" ∷ []);
      }
