-- ===== src/Pem/Fuel.antt =====
-- The fuel of the search for PEM blocks.
use sylica.Base.{
  ℕ, zero, suc, ◌+◌, ◌≤◌, ◌<◌, ◌≡◌, refl, ap, ◌⊎◌, inl, inr, List, [], ◌∷◌, ◌++◌, ◌==◌, Bool-cases,
  length, Option, none, some, arith,
}
use sylica.Pem.{begin_marker, end_marker, strip, split_at, find_blocks, pem_blocks}

Option-cases {ℓ} : {A : Type ℓ} (o : Option A) → ((a : A) × (o ≡ some a)) ⊎ (o ≡ none)
Option-cases none = inr refl
Option-cases (some a) = inl (a, refl)

length-strip :
    (marker text : List ℕ) {after : List ℕ}
    → strip marker text ≡ some after
    → length text ≡ length marker + length after
unfolding strip
length-strip [] text {after} h = let e : text ≡ after = cc (h) in omega (arith, ap length e)
length-strip (c ∷ marker) [] h = cc (h)
length-strip (c ∷ marker) (d ∷ text) h = elim (Bool-cases (c == d)) [
  | inl e ↦ omega (arith, length-strip marker text (rw e at h))
  | inr e ↦ cc (rw e at h)
]

length-split_at :
    (marker text : List ℕ) {before after : List ℕ}
    → split_at marker text ≡ some (before, after)
    → length marker + length after ≤ length text
unfolding split_at
length-split_at marker [] {before} {after} h = elim (Option-cases (strip marker [])) [
  | inl (a, e) ↦
      let same : a ≡ after = cc (rw (split_at, e) at h) in
      omega (arith, length-strip marker [] e, ap length same)
  | inr e ↦ cc (rw (split_at, e) at h)
]
length-split_at marker (c ∷ text) {before} {after} h =
    elim (Option-cases (strip marker (c ∷ text))) [
      | inl (a, e) ↦
          let same : a ≡ after = cc (rw (split_at, e) at h) in
          omega (arith, length-strip marker (c ∷ text) e, ap length same)
      | inr e ↦ elim (Option-cases (split_at marker text)) [
        | inl ((b, a), f) ↦
            let same : a ≡ after = cc (rw (split_at, e, f) at h) in
            omega (arith, length-split_at marker text f, ap length same)
        | inr f ↦ cc (rw (split_at, e, f) at h)
      ]
    ]

find_blocks-fuel :
    (f g : ℕ) (text : List ℕ)
    → length text < f
    → length text < g
    → find_blocks f text ≡ find_blocks g text
unfolding find_blocks
find_blocks-fuel zero g text h k = absurd (omega arith)
find_blocks-fuel (suc f) zero text h k = absurd (omega arith)
find_blocks-fuel (suc f) (suc g) text h k = elim (Option-cases (split_at begin_marker text)) [
  | inr e ↦ rw (find_blocks, e) refl
  | inl ((skipped, inside), e) ↦ elim (Option-cases (split_at end_marker inside)) [
    | inr e' ↦ rw (find_blocks, e, e') refl
    | inl ((body, rest), e') ↦
        let shorter : length rest < length text =
          omega
            (arith, length-split_at begin_marker text e, length-split_at end_marker inside e') in
        rw (find_blocks, e, e')
          (ap (λ x. (begin_marker ++ (body ++ end_marker)) ∷ x)
            (find_blocks-fuel f g rest (omega arith) (omega arith)))
  ]
]

-- The fuel of the search for PEM blocks is never used up: on any text, more of it gives no other
-- blocks.
pub pem_blocks-find_blocks :
    (text : List ℕ) (more : ℕ) → find_blocks (suc (length text) + more) text ≡ pem_blocks text
unfolding pem_blocks
pem_blocks-find_blocks text more =
    find_blocks-fuel (suc (length text) + more) (suc (length text)) text (omega arith) (omega arith)
