-- ===== src/Der/Bounds.antt =====
-- The bounds of what the reader returns (packages/online/src/transport/tls-der.ts).
use mathlib.Core.Path.{subst, sym}
use linklint.Common.{
  Bool, Bool-cases, List, Option, [], ap, arith, false, get_or, inl, inr, length, ltb, ltb→lt, none,
  refl, some, suc, true, zero, ℕ, ◌%◌, ◌+◌, ◌/◌, ◌<◌, ◌==◌, ◌∙◌, ◌∷◌, ◌≡◌, ◌≤◌, ◌⊎◌,
}
use linklint.Der.{
  Bytes, Tlv, at_content, at_long, at_round, children_of, cons_tlv, read_length, read_tlv,
}

-- A value that lies in the bytes, after its tag and its length.
abbrev pub IsInside : Bytes → (at : ℕ) → Tlv → Type 0
IsInside bytes at t =
    (at + 2 ≤ t.content_start) × (t.content_start ≤ t.content_end) × (t.content_end ≤ length bytes)

at_content-IsInside :
    (bytes : Bytes) (at tag cursor content_length : ℕ) (t : Tlv)
    → at + 2 ≤ cursor
    → at_content bytes tag cursor content_length ≡ some t
    → IsInside bytes at t
at_content-IsInside bytes at tag cursor content_length t low h =
    (ground arith, ground arith, ground arith)

at_long-IsInside :
    (bytes : Bytes) (at tag cursor count : ℕ) (t : Tlv)
    → at + 2 ≤ cursor
    → at_long bytes tag cursor count ≡ some t
    → IsInside bytes at t
at_long-IsInside bytes at tag cursor count t low h =
    at_content-IsInside bytes at tag (cursor + count) (read_length bytes count cursor 0) t
      (omega arith) (ground arith)

-- A value that is read starts after its tag and length and ends within the bytes.
pub read_tlv-IsInside :
    (bytes : Bytes) (at : ℕ) (t : Tlv) → read_tlv bytes at ≡ some t → IsInside bytes at t
unfolding read_tlv
read_tlv-IsInside bytes at t h = elim (Bool-cases (get_or bytes (at + 1) 0 / 128 % 2 == 0)) [
  | inl short ↦
      at_content-IsInside bytes at (get_or bytes at 0) (at + 2) (get_or bytes (at + 1) 0) t
        (omega arith) (ground arith)
  | inr long ↦
      at_long-IsInside bytes at (get_or bytes at 0) (at + 2) (get_or bytes (at + 1) 0 % 128) t
        (omega arith) (ground arith)
]

-- Values that tile the bytes from `at` on, up to `end` or beyond.
abbrev pub Tiles : Bytes → (at end : ℕ) → List Tlv → Type 0
Tiles bytes at end [] = end ≤ at
Tiles bytes at end (t ∷ ts) =
    (at < end)
    × (read_tlv bytes at ≡ some t)
    × IsInside bytes at t
    × Tiles bytes t.content_end end ts

cons_tlv-cases :
    (t : Tlv) (o : Option (List Tlv)) (ts : List Tlv)
    → cons_tlv t o ≡ some ts
    → (rest : List Tlv) × (o ≡ some rest) × (ts ≡ t ∷ rest)
cons_tlv-cases t none ts h = absurd (ground arith)
cons_tlv-cases t (some rest) ts h = (rest, refl, ground arith)

at_round-cases :
    (more : Bool) (o : Option Tlv) (rest : ℕ → Option (List Tlv)) (ts : List Tlv)
    → at_round more o rest ≡ some ts
    → ((more ≡ false) × (ts ≡ []))
      ⊎ ((t : Tlv) × (us : List Tlv) × (more ≡ true)
          × (o ≡ some t)
          × (rest t.content_end ≡ some us)
          × (ts ≡ t ∷ us))
at_round-cases false o rest ts h = inl (refl, ground arith)
at_round-cases true none rest ts h = absurd (ground arith)
at_round-cases true (some t) rest ts h =
    let (us, e, same) = cons_tlv-cases t (rest t.content_end) ts h in
    inr (t, us, refl, refl, e, same)

at_round-ext :
    (more : Bool) (o : Option Tlv) (f g : ℕ → Option (List Tlv))
    → ((t : Tlv) → o ≡ some t → f t.content_end ≡ g t.content_end)
    → at_round more o f ≡ at_round more o g
at_round-ext false o f g h = refl
at_round-ext true none f g h = refl
at_round-ext true (some t) f g h = ap (cons_tlv t) (h t refl)

-- The children that are read tile the bytes: the first starts where the content starts, each later
-- one where the one before it ends, every one lies within the bytes, and the last one reaches the
-- end of the content.
pub children_of-Tiles :
    (fuel : ℕ) (bytes : Bytes) (at end : ℕ) (ts : List Tlv)
    → children_of fuel bytes at end ≡ some ts
    → Tiles bytes at end ts
unfolding children_of
children_of-Tiles zero bytes at end ts h = absurd (ground arith)
children_of-Tiles (suc fuel) bytes at end ts h =
    elim (at_round-cases (ltb at end) (read_tlv bytes at) (λ next. children_of fuel bytes next end)
      ts h) [
        | inl (over, same) ↦ subst (Tiles bytes at end) (sym same) (ground arith)
        | inr (t, us, more, e, rest, same) ↦ subst (Tiles bytes at end) (sym same) (
          ltb→lt at end more,
          e,
          read_tlv-IsInside bytes at t e,
          children_of-Tiles fuel bytes t.content_end end us rest,
        )
      ]

children_of-suc :
    (fuel : ℕ) (bytes : Bytes) (at end : ℕ)
    → length bytes ≤ fuel + at
    → children_of (suc (suc fuel)) bytes at end ≡ children_of (suc fuel) bytes at end
unfolding children_of
children_of-suc zero bytes at end h =
    at_round-ext (ltb at end) (read_tlv bytes at) (λ next. children_of 1 bytes next end)
      (λ next. children_of 0 bytes next end)
      (λ t e. let inside = read_tlv-IsInside bytes at t e in absurd (omega arith))
children_of-suc (suc fuel) bytes at end h =
    at_round-ext (ltb at end) (read_tlv bytes at)
      (λ next. children_of (suc (suc fuel)) bytes next end)
      (λ next. children_of (suc fuel) bytes next end)
      (λ t e.
        let inside = read_tlv-IsInside bytes at t e in
        children_of-suc fuel bytes t.content_end end (omega arith))

-- Every value takes two bytes at least, so the iteration ends: with one round more than there are
-- bytes the answer is final, and more fuel changes nothing.
pub children_of-fuel :
    (extra : ℕ) (bytes : Bytes) (at end : ℕ)
    → children_of (extra + suc (length bytes)) bytes at end
      ≡ children_of (suc (length bytes)) bytes at end
children_of-fuel zero bytes at end = ap (λ n. children_of n bytes at end) (omega arith)
children_of-fuel (suc extra) bytes at end =
    let left : suc extra + suc (length bytes) ≡ suc (suc (extra + length bytes)) = omega arith in
    let right : suc (extra + length bytes) ≡ extra + suc (length bytes) = omega arith in
    ap (λ n. children_of n bytes at end) left
    ∙ children_of-suc (extra + length bytes) bytes at end (omega arith)
    ∙ ap (λ n. children_of n bytes at end) right
    ∙ children_of-fuel extra bytes at end
