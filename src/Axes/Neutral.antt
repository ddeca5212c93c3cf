-- ===== src/Axes/Neutral.antt =====
-- The axes annotate only (packages/core/src/policy).
use linklint.Common.{
  All, All-append, Bool, Bool-cases, List, Option, String, Text, [], any, false, if◌then◌else◌, inl,
  inr, none, not, some, true, ℕ, ◌&&◌, ◌++◌, ◌==◌, ◌∷◌, ◌≡◌,
}
use linklint.Inspect.{CollectedFinding, Scan}
use linklint.Inspect.Checks.{scan_findings}
use linklint.Inspect.Verdict.{inspect-policy_neutral, with_policy}
use linklint.Inspect.Inspection.{Engine, Input, Options, inspect}
use linklint.Inspect.Result.{ReasonCodeMeta}
use linklint.Axes.Lists.{Strings}
use linklint.Axes.{
  AxisContext, at_port, find_if, is_standard, lower_scheme, policy_axes, run_host_axis,
  run_port_axis, run_scheme_axis, run_tld_axis, standard_for,
}

-- The codes that the axes declare to emit.
abbrev pub emitted : List String
emitted =
    "tld_denied" ∷ "tld_not_allowlisted" ∷ "host_denied" ∷ "host_not_allowlisted" ∷ "scheme_denied"
    ∷ "port_denied" ∷ []

abbrev pub with_axes : {S C : Type 0} → Engine S C → List (Scan C) → Engine S C
with_axes engine axes = record engine { axes = axes }

module _ (strings : Strings) (meta : String → ReasonCodeMeta) where
  IsWeightless : List CollectedFinding → Type 0
  IsWeightless fs = All (λ f. (meta f.code).weight ≡ 0) fs

  find_if-IsWeightless :
      (b : Bool) (code : String) (detail : Text)
      → (meta code).weight ≡ 0
      → IsWeightless (find_if strings b code detail)
  unfolding IsWeightless
  find_if-IsWeightless true code detail h = (h, tt)
  find_if-IsWeightless false code detail h = tt

  both-IsWeightless :
      (fs gs : List CollectedFinding) → IsWeightless fs → IsWeightless gs → IsWeightless (fs ++ gs)
  unfolding IsWeightless
  both-IsWeightless fs gs h k = All-append (λ f. (meta f.code).weight ≡ 0) fs gs h k

  two-IsWeightless :
      (on b d : Bool) (code code' : String) (detail detail' : Text)
      → (meta code).weight ≡ 0
      → (meta code').weight ≡ 0
      → IsWeightless
          (if on then find_if strings b code detail ++ find_if strings d code' detail' else [])
  unfolding IsWeightless
  two-IsWeightless true b d code code' detail detail' h k =
      both-IsWeightless (find_if strings b code detail) (find_if strings d code' detail')
        (find_if-IsWeightless b code detail h) (find_if-IsWeightless d code' detail' k)
  two-IsWeightless false b d code code' detail detail' h k = tt

  at_port-IsWeightless :
      (c : AxisContext) (port : Option ℕ)
      → (meta "port_denied").weight ≡ 0
      → IsWeightless (at_port strings c port)
  unfolding IsWeightless
  at_port-IsWeightless c none h = tt
  at_port-IsWeightless c (some port) h =
      let standard = standard_for strings (lower_scheme strings c.scheme) in
      let wrong = c.policy.deny_non_standard_ports && not (is_standard strings standard port) in
      elim (Bool-cases (any (λ n. n == port) c.policy.deny_ports.values)) [
        | inl denied' ↦ rw denied' (h, tt)
        | inr passed ↦ elim (Bool-cases wrong) [
          | inl odd ↦ rw (passed, odd) (h, tt)
          | inr fine ↦ rw (passed, fine) tt
        ]
      ]

  run_tld_axis-IsWeightless :
      (c : AxisContext)
      → (meta "tld_denied").weight ≡ 0
      → (meta "tld_not_allowlisted").weight ≡ 0
      → IsWeightless (run_tld_axis strings c)
  unfolding run_tld_axis
  run_tld_axis-IsWeightless c h k =
      two-IsWeightless _ _ _ "tld_denied" "tld_not_allowlisted" _ _ h k

  run_host_axis-IsWeightless :
      (c : AxisContext)
      → (meta "host_denied").weight ≡ 0
      → (meta "host_not_allowlisted").weight ≡ 0
      → IsWeightless (run_host_axis strings c)
  unfolding run_host_axis
  run_host_axis-IsWeightless c h k =
      two-IsWeightless _ _ _ "host_denied" "host_not_allowlisted" _ _ h k

  run_scheme_axis-IsWeightless :
      (c : AxisContext)
      → (meta "scheme_denied").weight ≡ 0
      → IsWeightless (run_scheme_axis strings c)
  unfolding run_scheme_axis
  run_scheme_axis-IsWeightless c h = two-IsWeightless _ _ _ "scheme_denied" "scheme_denied" _ _ h h

  axes-IsWeightless :
      {C : Type 0} (view : C → AxisContext) (context : C)
      → All (λ code. (meta code).weight ≡ 0) emitted
      → All (λ f. (meta f.code).weight ≡ 0) (scan_findings context (policy_axes strings view))
  unfolding IsWeightless policy_axes run_port_axis
  axes-IsWeightless view context (td, (tn, (hd, (hn, (sd, (pd, _)))))) =
      let c = view context in
      let ports =
        both-IsWeightless (run_port_axis strings c) [] (at_port-IsWeightless c c.port pd) tt in
      let schemes =
        both-IsWeightless (run_scheme_axis strings c) (run_port_axis strings c ++ [])
          (run_scheme_axis-IsWeightless c sd) ports in
      let hosts =
        both-IsWeightless (run_host_axis strings c)
          (run_scheme_axis strings c ++ (run_port_axis strings c ++ []))
          (run_host_axis-IsWeightless c hd hn) schemes in
      both-IsWeightless (run_tld_axis strings c)
        (run_host_axis strings c ++ (run_scheme_axis strings c ++ (run_port_axis strings c ++ [])))
        (run_tld_axis-IsWeightless c td tn) hosts

-- With the four axes of the table, and a registry that gives no weight to the six codes that they
-- declare, the policy channel never changes the score or the severity of an inspection.
pub policy_axes-neutral :
    {S C : Type 0} (strings : Strings) (view : C → AxisContext) (engine : Engine S C)
    (options : Options) (i : Input)
    → All (λ code. (engine.meta code).weight ≡ 0) emitted
    → ((inspect (with_axes engine (policy_axes strings view)) (with_policy options true) i).score
        ≡ (inspect
            (with_axes engine (policy_axes strings view))
            (with_policy options false)
            i).score)
      × ((inspect
            (with_axes engine (policy_axes strings view))
            (with_policy options true)
            i).severity
          ≡ (inspect
              (with_axes engine (policy_axes strings view))
              (with_policy options false)
              i).severity)
policy_axes-neutral strings view engine options i h =
    inspect-policy_neutral (with_axes engine (policy_axes strings view)) options i
      (λ context. axes-IsWeightless strings engine.meta view context h)
