-- ===== src/Memory/Coverage.antt =====
-- Which addresses the ranges cover, at every moment of the loop.
use sylica.Base.{
  ℕ, ◌+◌, ◌≡◌, refl, ap, ap₂, ◌∙◌, List, [], ◌∷◌, ◌++◌, Bool, true, false, not, ◌&&◌, ◌||◌, ltb,
  leb, ◌==◌, arith, &&_split, Bool-cases, inl, inr,
}
use sylica.Memory.{
  TdvfSection, MemoryRange, cut, cut_all, insert_range, sort_ranges, is_accepted, accept,
  accept_all, memory_ranges,
}

unfoldable pub inside : ℕ → ℕ → ℕ → Bool
inside x s e = leb s x && ltb x e

-- Some range of the kind `acc` holds the address `x`.
unfoldable pub covers : Bool → List MemoryRange → ℕ → Bool
covers acc [] x = false
covers true (r ∷ rs) x = (r.acc && inside x r.s r.e) || covers true rs x
covers false (r ∷ rs) x = (not r.acc && inside x r.s r.e) || covers false rs x

-- Some accepted section holds the address `x`.
unfoldable pub claimed : List TdvfSection → ℕ → Bool
claimed [] x = false
claimed (section ∷ rest) x =
    (is_accepted section
      && inside x section.memory_address (section.memory_address + section.memory_data_size))
    || claimed rest x

covers-append :
    (acc : Bool) (ps qs : List MemoryRange) (x : ℕ)
    → covers acc (ps ++ qs) x ≡ (covers acc ps x || covers acc qs x)
unfolding covers
covers-append true [] qs x = refl
covers-append false [] qs x = refl
covers-append true (p ∷ ps) qs x = ground (arith, covers-append true ps qs x)
covers-append false (p ∷ ps) qs x = ground (arith, covers-append false ps qs x)

covers-insert :
    (acc : Bool) (r : MemoryRange) (rs : List MemoryRange) (x : ℕ)
    → covers acc (insert_range r rs) x ≡ covers acc (r ∷ rs) x
unfolding covers insert_range
covers-insert true r [] x = refl
covers-insert false r [] x = refl
covers-insert true r (q ∷ qs) x = ground (arith, covers-insert true r qs x)
covers-insert false r (q ∷ qs) x = ground (arith, covers-insert false r qs x)

covers-sort :
    (acc : Bool) (rs : List MemoryRange) (x : ℕ) → covers acc (sort_ranges rs) x ≡ covers acc rs x
unfolding covers sort_ranges
covers-sort acc [] x = refl
covers-sort true (r ∷ rs) x =
    covers-insert true r (sort_ranges rs) x
    ∙ ap (λ b. (r.acc && inside x r.s r.e) || b) (covers-sort true rs x)
covers-sort false (r ∷ rs) x =
    covers-insert false r (sort_ranges rs) x
    ∙ ap (λ b. (not r.acc && inside x r.s r.e) || b) (covers-sort false rs x)

-- A cut takes the section out of a range that is not accepted.
covers-cut-false :
    (s e : ℕ) (r : MemoryRange) (x : ℕ)
    → ltb s e ≡ true
    → covers false (cut s e r) x ≡ (covers false (r ∷ []) x && not (inside x s e))
unfolding covers cut inside
covers-cut-false s e r x h = ground arith

covers-cut-true :
    (s e : ℕ) (r : MemoryRange) (x : ℕ) → covers true (cut s e r) x ≡ covers true (r ∷ []) x
unfolding covers cut inside
covers-cut-true s e r x = ground arith

covers-cut_all-false :
    (s e : ℕ) (rs : List MemoryRange) (x : ℕ)
    → ltb s e ≡ true
    → covers false (cut_all s e rs) x ≡ (covers false rs x && not (inside x s e))
unfolding cut_all covers
covers-cut_all-false s e [] x h = refl
covers-cut_all-false s e (r ∷ rs) x h =
    covers-append false (cut s e r) (cut_all s e rs) x
    ∙ ap₂ ◌||◌ (covers-cut-false s e r x h) (covers-cut_all-false s e rs x h)
    ∙ ground arith

covers-cut_all-true :
    (s e : ℕ) (rs : List MemoryRange) (x : ℕ) → covers true (cut_all s e rs) x ≡ covers true rs x
unfolding cut_all covers
covers-cut_all-true s e [] x = refl
covers-cut_all-true s e (r ∷ rs) x =
    covers-append true (cut s e r) (cut_all s e rs) x
    ∙ ap₂ ◌||◌ (covers-cut-true s e r x) (covers-cut_all-true s e rs x)
    ∙ ground arith

is_accepted-lt :
    (section : TdvfSection)
    → is_accepted section ≡ true
    → ltb section.memory_address (section.memory_address + section.memory_data_size) ≡ true
unfolding is_accepted
is_accepted-lt section h =
    (&&_split (section.sec_type == 2 || section.sec_type == 3)
      (ltb section.memory_address (section.memory_address + section.memory_data_size)) h).1

-- The ranges that are not accepted lose the section, and the accepted ones gain it.
covers-accept-false :
    (rs : List MemoryRange) (section : TdvfSection) (x : ℕ)
    → covers false (accept rs section) x ≡ (covers false rs x && not (claimed (section ∷ []) x))
unfolding accept claimed covers
covers-accept-false rs section x =
    let s : ℕ = section.memory_address in
    let e : ℕ = section.memory_address + section.memory_data_size in
    let new : List MemoryRange = record { acc = true; s = s; e = e } ∷ [] in
    elim (Bool-cases (is_accepted section)) [
      | inl y ↦ rw y (
          covers-sort false (cut_all s e rs ++ new) x
          ∙ covers-append false (cut_all s e rs) new x
          ∙ ap (λ b. b || false) (covers-cut_all-false s e rs x (is_accepted-lt section y))
          ∙ ground arith)
      | inr n ↦ rw n (ground arith)
    ]

covers-accept-true :
    (rs : List MemoryRange) (section : TdvfSection) (x : ℕ)
    → covers true (accept rs section) x ≡ (covers true rs x || claimed (section ∷ []) x)
unfolding accept claimed covers
covers-accept-true rs section x =
    let s : ℕ = section.memory_address in
    let e : ℕ = section.memory_address + section.memory_data_size in
    let new : List MemoryRange = record { acc = true; s = s; e = e } ∷ [] in
    elim (Bool-cases (is_accepted section)) [
      | inl y ↦ rw y (
          covers-sort true (cut_all s e rs ++ new) x
          ∙ covers-append true (cut_all s e rs) new x
          ∙ ap (λ b. b || (inside x s e || false)) (covers-cut_all-true s e rs x))
      | inr n ↦ rw n (ground arith)
    ]

covers-accept_all-false :
    (sections : List TdvfSection) (rs : List MemoryRange) (x : ℕ)
    → covers false (accept_all sections rs) x ≡ (covers false rs x && not (claimed sections x))
unfolding accept_all claimed
covers-accept_all-false [] rs x = ground arith
covers-accept_all-false (section ∷ rest) rs x =
    covers-accept_all-false rest (accept rs section) x
    ∙ ap (λ b. b && not (claimed rest x)) (covers-accept-false rs section x)
    ∙ ground arith

covers-accept_all-true :
    (sections : List TdvfSection) (rs : List MemoryRange) (x : ℕ)
    → covers true (accept_all sections rs) x ≡ (covers true rs x || claimed sections x)
unfolding accept_all claimed
covers-accept_all-true [] rs x = ground arith
covers-accept_all-true (section ∷ rest) rs x =
    covers-accept_all-true rest (accept rs section) x
    ∙ ap (λ b. b || claimed rest x) (covers-accept-true rs section x)
    ∙ ground arith

-- An address lies in a range that is not accepted exactly when it is below the memory size and in
-- no accepted section; it lies in an accepted range exactly when some accepted section holds it.
pub covers-memory_ranges :
    (memory_size : ℕ) (sections : List TdvfSection) (x : ℕ)
    → (covers false (memory_ranges memory_size sections) x
        ≡ (ltb x memory_size && not (claimed sections x)))
      × (covers true (memory_ranges memory_size sections) x ≡ claimed sections x)
unfolding memory_ranges covers inside
covers-memory_ranges memory_size sections x =
    let start : List MemoryRange = record { acc = false; s = 0; e = memory_size } ∷ [] in
    (
      covers-accept_all-false sections start x ∙ ground arith,
      covers-accept_all-true sections start x ∙ ground arith,
    )
