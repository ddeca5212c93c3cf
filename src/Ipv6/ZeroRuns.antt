-- ===== src/Ipv6/ZeroRuns.antt =====
-- The longest run of zeros that ip.ts finds in the groups of an address is one.
use mathlib.Core.List.{append_assoc, append-nil}
use linklint.Common.{
  ==_iff, Bool-cases, List, Option, [], ap, arith, inl, inr, length, length-append, ltb, none, refl,
  replicate, some, suc, sym, zero, ℕ, ◌++◌, ◌==◌, ◌∙◌, ◌∷◌, ◌≡◌,
}
use linklint.Ipv6.{ZeroSearch, next_run, runs_from, search_start, start_or}

abbrev pub zeros : ℕ → List ℕ
zeros n = replicate n 0

-- A run of zeros at that place.
pub record Run (groups : List ℕ) (start len : ℕ) : Type 0 where
  pub pre : List ℕ
  pub post : List ℕ
  pub whole : groups ≡ pre ++ (zeros len ++ post)
  pub starts : length pre ≡ start

abbrev StartsAt : Option ℕ → ℕ → ℕ → Type 0
StartsAt none len i = len ≡ 0
StartsAt (some start) len i = i ≡ start

-- The groups that were passed end in the current run, and hold the best one.
record Passed (groups : List ℕ) (runs : ZeroSearch) : Type 0 where
  best : Run groups runs.best_start runs.best_len
  pre : List ℕ
  ends : groups ≡ pre ++ zeros runs.cur_len
  starts : StartsAt runs.cur_start runs.cur_len (length pre)

zeros-suc : (n : ℕ) → zeros n ++ zeros 1 ≡ zeros (suc n)
zeros-suc zero = refl
zeros-suc (suc n) = ap (λ t. 0 ∷ t) (zeros-suc n)

Run-append :
    (groups : List ℕ) (start len g : ℕ) → Run groups start len → Run (groups ++ (g ∷ [])) start len
Run-append groups start len g r = record {
  pre = r.pre;
  post = r.post ++ (g ∷ []);
  whole = ap (λ t. t ++ (g ∷ [])) r.whole ∙ simp append_assoc;
  starts = r.starts;
}

longer :
    (groups pre : List ℕ) (n : ℕ)
    → groups ≡ pre ++ zeros n
    → groups ++ zeros 1 ≡ pre ++ zeros (suc n)
longer groups pre n e =
    ap (λ t. t ++ zeros 1) e
    ∙ append_assoc pre (zeros n) (zeros 1)
    ∙ ap (λ t. pre ++ t) (zeros-suc n)

start_or-StartsAt :
    (groups pre : List ℕ) (start : Option ℕ) (n : ℕ)
    → groups ≡ pre ++ zeros n
    → StartsAt start n (length pre)
    → length pre ≡ start_or start (length groups)
start_or-StartsAt groups pre none n e h = rw (e, h, append-nil pre)
start_or-StartsAt groups pre (some s) n e h = h

next_run-Passed :
    (groups : List ℕ) (g : ℕ) (runs : ZeroSearch)
    → Passed groups runs
    → Passed (groups ++ (g ∷ [])) (next_run (length groups) g runs)
unfolding next_run
next_run-Passed groups g runs p = elim (Bool-cases (g == 0)) [
  | inr other ↦ rw other (record {
    best = Run-append groups runs.best_start runs.best_len g p.best;
    pre = groups ++ (g ∷ []);
    ends = sym (append-nil (groups ++ (g ∷ [])));
    starts = refl;
  })
  | inl hit ↦
      let e : g ≡ 0 = (==_iff g 0).0 hit in
      let at : length p.pre ≡ start_or runs.cur_start (length groups) =
        start_or-StartsAt groups p.pre runs.cur_start runs.cur_len p.ends p.starts in
      let ends : groups ++ (g ∷ []) ≡ p.pre ++ zeros (suc runs.cur_len) =
        rw e (longer groups p.pre runs.cur_len p.ends) in
      elim (Bool-cases (ltb runs.best_len (suc runs.cur_len))) [
        | inl better ↦
            rw (hit, better)
              (record {
                best = record {
                  pre = p.pre;
                  post = [];
                  whole = ends ∙ ap (λ t. p.pre ++ t) (sym (append-nil (zeros (suc runs.cur_len))));
                  starts = at;
                };
                pre = p.pre;
                ends = ends;
                starts = at;
              })
        | inr worse ↦
            rw (hit, worse)
              (record {
                best = Run-append groups runs.best_start runs.best_len g p.best;
                pre = p.pre;
                ends = ends;
                starts = at;
              })
      ]
]

runs_from-Passed :
    (groups rest : List ℕ) (runs : ZeroSearch)
    → Passed groups runs
    → Passed (groups ++ rest) (runs_from (length groups) rest runs)
unfolding runs_from
runs_from-Passed groups [] runs p = rw (append-nil groups) p
runs_from-Passed groups (g ∷ rest) runs p =
    let more = groups ++ (g ∷ []) in
    let whole : more ++ rest ≡ groups ++ (g ∷ rest) = append_assoc groups (g ∷ []) rest in
    let len : length more ≡ suc (length groups) = omega (arith, length-append groups (g ∷ [])) in
    rw (← whole, ← len)
      (runs_from-Passed more rest (next_run (length groups) g runs)
        (next_run-Passed groups g runs p))

-- The best run that the search answers is one.
pub runs_from-Run :
    (groups : List ℕ)
    → Run groups
        (runs_from 0 groups search_start).best_start
        (runs_from 0 groups search_start).best_len
runs_from-Run groups =
    (runs_from-Passed [] groups search_start (record {
      best = record { pre = []; post = []; whole = refl; starts = refl };
      pre = [];
      ends = refl;
      starts = refl;
    })).best
