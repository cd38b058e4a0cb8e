-- ===== src/Memory/Blocks.antt =====
-- The hand-off blocks: their number and size, and the end address in the first of them.
use sylica.Base.{
  ℕ, ◌+◌, ◌*◌, ◌≤◌, ◌≡◌, refl, ap, List, [], ◌∷◌, ◌++◌, true, false, leb, if◌then◌else◌, length,
  length-append, take, drop, take-append, drop-append, length-take, length-drop, replicate,
  encode_le, length-encode_le, ok, arith, Bool-cases, inl, inr,
}
use sylica.Memory.{
  TdvfSection, MemoryRange, cut_all, insert_range, sort_ranges, accept, accept_all, memory_ranges,
  hob_base, sub_u64, handoff_table, resource_hob, range_hobs, last_hobs, pop, patch_end, build_hob,
  is_accepted,
}

length-insert_range :
    (r : MemoryRange) (rs : List MemoryRange) → length (insert_range r rs) ≡ length rs + 1
unfolding insert_range
length-insert_range r [] = refl
length-insert_range r (q ∷ qs) = ground (arith, length-insert_range r qs)

length-sort_ranges : (rs : List MemoryRange) → length (sort_ranges rs) ≡ length rs
unfolding sort_ranges
length-sort_ranges [] = refl
length-sort_ranges (r ∷ rs) =
    omega (arith, length-insert_range r (sort_ranges rs), length-sort_ranges rs)

accept-nonempty :
    (rs : List MemoryRange) (section : TdvfSection) → 1 ≤ length rs → 1 ≤ length (accept rs section)
unfolding accept
accept-nonempty rs section h =
    let s : ℕ = section.memory_address in
    let e : ℕ = section.memory_address + section.memory_data_size in
    let new : List MemoryRange = record { acc = true; s = s; e = e } ∷ [] in
    elim (Bool-cases (is_accepted section)) [
      | inl y ↦ rw y (
          omega
            (arith, length-sort_ranges (cut_all s e rs ++ new), length-append (cut_all s e rs) new))
      | inr n ↦ rw n h
    ]

accept_all-nonempty :
    (sections : List TdvfSection) (rs : List MemoryRange)
    → 1 ≤ length rs
    → 1 ≤ length (accept_all sections rs)
unfolding accept_all
accept_all-nonempty [] rs h = h
accept_all-nonempty (section ∷ rest) rs h =
    accept_all-nonempty rest (accept rs section) (accept-nonempty rs section h)

-- There is always a range to pop.
pop_total :
    (rs : List MemoryRange)
    → 1 ≤ length rs
    → (front : List MemoryRange) × (last : MemoryRange) × (pop rs ≡ ok (front, last))
      × (front ++ (last ∷ []) ≡ rs)
unfolding pop
pop_total [] h = absurd (omega arith)
pop_total (r ∷ []) h = ([], r, refl, refl)
pop_total (r ∷ q ∷ qs) h =
    let (front, last, e, whole) = pop_total (q ∷ qs) (omega arith) in
    (r ∷ front, last, rw (e, pop), ap (◌∷◌ r) whole)

length-resource_hob : (type start len : ℕ) → length (resource_hob type start len) ≡ 48
unfolding resource_hob encode_le replicate
length-resource_hob type start len = refl

length-range_hobs : (rs : List MemoryRange) → length (range_hobs rs) ≡ 48 * length rs
unfolding range_hobs
length-range_hobs [] = refl
length-range_hobs (r ∷ rs) =
    let head : List ℕ = resource_hob (if r.acc then 0x00 else 0x07) r.s (sub_u64 r.e r.s) in
    omega (
      arith,
      length-append head (range_hobs rs),
      length-resource_hob (if r.acc then 0x00 else 0x07) r.s (sub_u64 r.e r.s),
      length-range_hobs rs,
    )

-- The number of blocks that the last range takes.
abbrev pub last_count : ℕ → ℕ
last_count memory_size = if leb 0xB0000000 memory_size then 2 else 1

length-last_hobs :
    (memory_size : ℕ) (last : MemoryRange)
    → length (last_hobs memory_size last) ≡ 48 * last_count memory_size
unfolding last_hobs
length-last_hobs memory_size last = elim (Bool-cases (leb 0xB0000000 memory_size)) [
  | inl y ↦ rw y (
      omega (
        arith,
        length-append (resource_hob 0x07 last.s (sub_u64 0x80000000 last.s))
            (resource_hob 0x07 0x100000000 (sub_u64 last.e 0x80000000)),
        length-resource_hob 0x07 last.s (sub_u64 0x80000000 last.s),
        length-resource_hob 0x07 0x100000000 (sub_u64 last.e 0x80000000),
      ))
  | inr n ↦ rw n (length-resource_hob 0x07 last.s (sub_u64 last.e last.s))
]

length-handoff_table : length handoff_table ≡ 56
unfolding handoff_table encode_le replicate
length-handoff_table = refl

-- The end address replaces eight bytes.
patch_end_lem :
    (base : ℕ) (hob : List ℕ)
    → 56 ≤ length hob
    → (length (patch_end base hob) ≡ length hob)
      × (take 8 (drop 48 (patch_end base hob)) ≡ encode_le 8 (base + length hob + 8))
unfolding patch_end
patch_end_lem base hob h =
    let front : List ℕ = take 48 hob in
    let stamp : List ℕ = encode_le 8 (base + length hob + 8) in
    let l : length front ≡ 48 = omega (arith, length-take 48 hob) in
    (
      omega (
        arith,
        length-append front (stamp ++ drop 56 hob),
        length-append stamp (drop 56 hob),
        length-encode_le 8 (base + length hob + 8),
        length-drop 56 hob,
        l,
      ),
      rw (rw l at (drop-append front (stamp ++ drop 56 hob)))
          (rw (length-encode_le 8 (base + length hob + 8)) at (take-append stamp (drop 56 hob))),
    )

-- The blocks are always built: 56 bytes for the hand-off table, 48 for each range, and 48 more for
-- the last one when the memory reaches around the hole below 4 GiB; at offset 48 stands the address
-- of the end of the list, 8 bytes behind the blocks.
pub build_hob_total :
    (memory_size : ℕ) (sections : List TdvfSection)
    → (hob : List ℕ) × (build_hob memory_size sections ≡ ok hob)
      × (length hob + 48
          ≡ 56 + 48 * (length (memory_ranges memory_size sections) + last_count memory_size))
      × (take 8 (drop 48 hob) ≡ encode_le 8 (hob_base sections 0x809000 + length hob + 8))
unfolding build_hob
build_hob_total memory_size sections =
    let start : List MemoryRange = record { acc = false; s = 0; e = memory_size } ∷ [] in
    let (front, last, e, whole) =
      pop_total (memory_ranges memory_size sections)
        (unfold memory_ranges in accept_all-nonempty sections start (omega arith)) in
    let base : ℕ = hob_base sections 0x809000 in
    let blocks : List ℕ = range_hobs front ++ last_hobs memory_size last in
    let hob : List ℕ = handoff_table ++ blocks in
    let size : length hob + 48
        ≡ 56 + 48 * (length (memory_ranges memory_size sections) + last_count memory_size) =
      omega (
        arith,
        length-append handoff_table blocks,
        length-append (range_hobs front) (last_hobs memory_size last),
        length-handoff_table,
        length-range_hobs front,
        length-last_hobs memory_size last,
        length-append front (last ∷ []),
        ap (λ (l : List MemoryRange). length l) whole,
      ) in
    let (l, stamp) =
      patch_end_lem base hob
        (omega (arith, length-append handoff_table blocks, length-handoff_table)) in
    (patch_end base hob, rw (e, build_hob), rw l size, rw l stamp)
