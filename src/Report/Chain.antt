-- ===== src/Report/Chain.antt =====
-- The pieces of the text of a chain.
use sylica.Base.{
  ℕ, zero, suc, ◌≡◌, refl, sym, ap, ◌∙◌, ◌⊎◌, inl, inr, List, [], ◌∷◌, ◌++◌, append-nil, ◌==◌,
  ==_iff, Bool-cases, length, Option, none, some,
}
use sylica.Pem.{begin_marker, strip, split_at}
use sylica.Report.{split_text, chain_pieces}

Found {ℓ} : {A : Type ℓ} (o : Option A) → ((a : A) × (o ≡ some a)) ⊎ (o ≡ none)
Found none = inr refl
Found (some a) = inl (a, refl)

strip-eq :
    (marker text : List ℕ) {after : List ℕ}
    → strip marker text ≡ some after
    → text ≡ marker ++ after
unfolding strip
strip-eq [] text h = cc (h)
strip-eq (c ∷ marker) [] h = cc (h)
strip-eq (c ∷ marker) (d ∷ text) {after} h = elim (Bool-cases (c == d)) [
  | inl e ↦
      let rest : text ≡ marker ++ after = strip-eq marker text (rw e at h) in
      let same : c ≡ d = (==_iff c d).0 e in cc (rest, same)
  | inr e ↦ cc (rw e at h)
]

-- What is found is the marker.
split_at-eq :
    (marker text : List ℕ) {before after : List ℕ}
    → split_at marker text ≡ some (before, after)
    → text ≡ before ++ (marker ++ after)
unfolding split_at
split_at-eq marker [] {before} {after} h = elim (Found (strip marker [])) [
  | inl (a, e) ↦
      let all = strip-eq marker [] e in
      let same : some ([], a) ≡ some (before, after) = rw (split_at, e) at h in cc (all, same)
  | inr e ↦ cc (rw (split_at, e) at h)
]
split_at-eq marker (c ∷ text) {before} {after} h = elim (Found (strip marker (c ∷ text))) [
  | inl (a, e) ↦
      let all = strip-eq marker (c ∷ text) e in
      let same : some ([], a) ≡ some (before, after) = rw (split_at, e) at h in cc (all, same)
  | inr e ↦ elim (Found (split_at marker text)) [
    | inl (found, f) ↦
        let rest : text ≡ found.0 ++ (marker ++ found.1) = split_at-eq marker text f in
        let same : some (c ∷ found.0, found.1) ≡ some (before, after) = rw (split_at, e, f) at h in
        cc (rest, same)
    | inr f ↦ cc (rw (split_at, e, f) at h)
  ]
]

-- Each piece behind a marker.
abbrev pub behind_markers : List (List ℕ) → List ℕ
behind_markers [] = []
behind_markers (piece ∷ pieces) = begin_marker ++ (piece ++ behind_markers pieces)

split_text-behind :
    (fuel : ℕ) (text : List ℕ) → behind_markers (split_text fuel text) ≡ begin_marker ++ text
unfolding split_text
split_text-behind zero text = ap (λ x. begin_marker ++ x) (append-nil text)
split_text-behind (suc fuel) text = elim (Found (split_at begin_marker text)) [
  | inl (found, e) ↦
      rw (split_text, e)
        (ap (λ x. begin_marker ++ x)
          (ap (λ x. found.0 ++ x) (split_text-behind fuel found.1)
            ∙ sym (split_at-eq begin_marker text e)))
  | inr e ↦ rw (split_text, e) (ap (λ x. begin_marker ++ x) (append-nil text))
]

split_text-eq :
    (fuel : ℕ) (text front : List ℕ) (pieces : List (List ℕ))
    → split_text fuel text ≡ front ∷ pieces
    → text ≡ front ++ behind_markers pieces
unfolding split_text
split_text-eq zero text front pieces h =
    let e : text ≡ front = cc (h) in
    let n : pieces ≡ [] = cc (h) in rw (n, ← e) (sym (append-nil text))
split_text-eq (suc fuel) text front pieces h = elim (Found (split_at begin_marker text)) [
  | inl (found, e) ↦
      let same : found.0 ∷ split_text fuel found.1 ≡ front ∷ pieces = rw (split_text, e) at h in
      let first : found.0 ≡ front = cc (same) in
      let rest : split_text fuel found.1 ≡ pieces = cc (same) in
      split_at-eq begin_marker text e
      ∙ ap (λ x. x ++ (begin_marker ++ found.1)) first
      ∙ ap (λ x. front ++ x) (sym (split_text-behind fuel found.1) ∙ ap behind_markers rest)
  | inr e ↦
      let same : text ∷ [] ≡ front ∷ pieces = rw (split_text, e) at h in
      let first : text ≡ front = cc (same) in
      let n : pieces ≡ [] = cc (same) in rw (n, ← first) (sym (append-nil text))
]

-- The pieces of a text, with markers in between, are the text.
pub chain_pieces-eq :
    (text front : List ℕ) (pieces : List (List ℕ))
    → chain_pieces text ≡ front ∷ pieces
    → text ≡ front ++ behind_markers pieces
unfolding chain_pieces
chain_pieces-eq text front pieces h = split_text-eq (length text) text front pieces h
