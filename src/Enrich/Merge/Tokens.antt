-- ===== src/Enrich/Merge/Tokens.antt =====
-- Which checks name the token of a run (packages/core/src/inspect-async.ts).
use text.Mathlib.TextPositions.{eq_refl}
use linklint.Common.{
  All, Bool, Bool-cases, List, String, [], all, any, arith, false, if◌then◌else◌, inl, inr,
  is_empty, not, refl, str_eq, true, ◌&&◌, ◌++◌, ◌||◌, ◌∷◌, ◌≡◌,
}
use linklint.Enrich.{
  Enricher, EnricherRun, EnrichmentOutcome, EnrichmentStatus, failure, is_completed, no_hit,
  run_is_available, skipped, success,
}
use linklint.Enrich.Plan.Rounds.Settles.{All-weaken}
use linklint.Enrich.Merge.{
  drop_placeholders, is_configured, is_incomplete, is_placeholder, run_tokens, skipped_tokens,
}

abbrev pub has_text : String → List String → Bool
has_text t ts = any (λ u. str_eq u t) ts

-- A completed run is named as run, any other as skipped.
abbrev pub is_accounted : List String → List String → EnricherRun → Bool
is_accounted run skips r =
    if run_is_available r then has_text r.token run else has_text r.token skips

pub has_text-append_left :
    (t : String) (xs ys : List String) → has_text t xs ≡ true → has_text t (xs ++ ys) ≡ true
has_text-append_left t [] ys h = absurd (ground arith)
has_text-append_left t (x ∷ xs) ys h = elim (Bool-cases (str_eq x t)) [
  | inl same ↦ rw same refl
  | inr differs' ↦ rw differs' (has_text-append_left t xs ys (rw differs' at h))
]

pub has_text-append_right :
    (t : String) (xs ys : List String) → has_text t ys ≡ true → has_text t (xs ++ ys) ≡ true
has_text-append_right t [] ys h = h
has_text-append_right t (x ∷ xs) ys h = ground (arith, has_text-append_right t xs ys h)

any-completed :
    (os : List EnrichmentOutcome)
    → is_empty os ≡ false
    → all is_completed os ≡ true
    → any is_completed os ≡ true
any-completed [] h k = cc
any-completed (o ∷ os) h k = ground arith

incomplete_status :
    (s : EnrichmentStatus)
    → elim s [ success ↦ false | no_hit ↦ false | skipped ↦ true | failure ↦ true ]
      ≡ not (elim s [ success ↦ true | no_hit ↦ true | skipped ↦ false | failure ↦ false ])
incomplete_status success = refl
incomplete_status no_hit = refl
incomplete_status skipped = refl
incomplete_status failure = refl

is_incomplete-not : (o : EnrichmentOutcome) → is_incomplete o ≡ not (is_completed o)
is_incomplete-not o = incomplete_status o.status

any-incomplete :
    (os : List EnrichmentOutcome) → all is_completed os ≡ false → any is_incomplete os ≡ true
any-incomplete [] h = absurd (ground arith)
any-incomplete (o ∷ os) h = ground (arith, is_incomplete-not o, any-incomplete os)

-- More names do not lose one.
pub is_accounted_mono :
    (run run' skips skips' : List String) (r : EnricherRun)
    → ((t : String) → has_text t run ≡ true → has_text t run' ≡ true)
    → ((t : String) → has_text t skips ≡ true → has_text t skips' ≡ true)
    → is_accounted run skips r ≡ true
    → is_accounted run' skips' r ≡ true
is_accounted_mono run run' skips skips' r f g h = elim (Bool-cases (run_is_available r)) [
  | inl done ↦ rw done (f r.token (rw done at h))
  | inr open' ↦ rw open' (g r.token (rw open' at h))
]

has_text-cons_if :
    (t u : String) (b : Bool) (ts : List String)
    → has_text t ts ≡ true
    → has_text t (if b then u ∷ ts else ts) ≡ true
has_text-cons_if t u true ts h = ground (arith, h)
has_text-cons_if t u false ts h = h

head-accounted :
    (r : EnricherRun) (rs : List EnricherRun)
    → is_empty r.report.outcomes ≡ false
    → is_accounted (run_tokens (r ∷ rs)) (skipped_tokens (r ∷ rs)) r ≡ true
head-accounted r rs h = elim (Bool-cases (run_is_available r)) [
  | inl done ↦ rw (done, any-completed r.report.outcomes h done, eq_refl r.token) refl
  | inr open' ↦ rw (open', any-incomplete r.report.outcomes open', eq_refl r.token) refl
]

pub runs-accounted :
    (rs : List EnricherRun)
    → All (λ r. is_empty r.report.outcomes ≡ false) rs
    → All (λ r. is_accounted (run_tokens rs) (skipped_tokens rs) r ≡ true) rs
runs-accounted [] h = tt
runs-accounted (r ∷ rs) h = (
  head-accounted r rs h.0,
  All-weaken rs
      (λ x k.
        is_accounted_mono (run_tokens rs) (run_tokens (r ∷ rs)) (skipped_tokens rs)
          (skipped_tokens (r ∷ rs)) x
          (λ t. has_text-cons_if t r.token (any is_completed r.report.outcomes) (run_tokens rs))
          (λ t.
            has_text-cons_if t r.token (any is_incomplete r.report.outcomes) (skipped_tokens rs))
          k)
      (runs-accounted rs h.1),
)

pub or_mono : (p a b : Bool) → (a ≡ true → b ≡ true) → p || a ≡ true → p || b ≡ true
or_mono true a b f h = refl
or_mono false a b f h = f h

first-kept :
    (t : String) (b : Bool) (ts : List String) → b || has_text t (if b then ts else t ∷ ts) ≡ true
first-kept t true ts = refl
first-kept t false ts = rw (eq_refl t) refl

has_text-unless :
    (u t : String) (b : Bool) (ts : List String)
    → has_text u ts ≡ true
    → has_text u (if b then ts else t ∷ ts) ≡ true
has_text-unless u t true ts h = h
has_text-unless u t false ts h = ground (arith, h)

pub dropped_or_kept :
    (enrichers : List Enricher) (ts : List String)
    → All
        (λ t.
          (is_placeholder t && is_configured enrichers t)
            || has_text t (drop_placeholders enrichers ts)
          ≡ true)
        ts
dropped_or_kept enrichers [] = tt
dropped_or_kept enrichers (t ∷ ts) =
    let rest = drop_placeholders enrichers ts in
    let dropped = is_placeholder t && is_configured enrichers t in
    (
      first-kept t dropped rest,
      All-weaken ts
          (λ u.
            or_mono (is_placeholder u && is_configured enrichers u) (has_text u rest)
              (has_text u (if dropped then rest else t ∷ rest)) (has_text-unless u t dropped rest))
          (dropped_or_kept enrichers ts),
    )
