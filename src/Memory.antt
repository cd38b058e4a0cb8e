-- ===== src/Memory.antt =====
-- tools/measure-browser/static/measure.js, the first half of `tdx_measure`: which ranges of guest
-- memory the firmware has accepted (TD_HOB and TEMP_MEM sections), and the hand-off blocks (HOB)
-- that tell the guest so.
-- Addresses are exact numbers; the source's are, below 2 ^ 53.
pub mod Coverage
pub mod Blocks
use sylica.Base.{
  ℕ, ◌+◌, ◌-◌, ◌*◌, ◌%◌, ◌^◌, List, [], ◌∷◌, ◌++◌, Bool, true, false, not, ◌&&◌, ◌||◌, ltb, leb,
  ◌==◌, if◌then◌else◌, length, replicate, encode_le, Result, ok, err, type_error, take, drop,
}

-- A section of the TDVF metadata, as `ovmf_measure_tdx` returns it.
pub record TdvfSection : Type 0 where
  pub data_offset : ℕ
  pub raw_data_size : ℕ
  pub memory_address : ℕ
  pub memory_data_size : ℕ
  pub sec_type : ℕ
  pub attributes : ℕ

-- A range `{acc, s, e}` of addresses, its end excluded.
pub record MemoryRange : Type 0 where
  pub acc : Bool
  pub s : ℕ
  pub e : ℕ

-- What the call of `flatMap` makes of a range.
unfoldable pub cut : ℕ → ℕ → MemoryRange → List MemoryRange
cut s_addr e_addr r =
    if r.acc || (leb r.e s_addr || leb e_addr r.s)
    then r ∷ []
    else (if ltb r.s s_addr then record { acc = false; s = r.s; e = s_addr } ∷ [] else [])
      ++ (if ltb e_addr r.e then record { acc = false; s = e_addr; e = r.e } ∷ [] else [])

unfoldable pub cut_all : ℕ → ℕ → List MemoryRange → List MemoryRange
cut_all s_addr e_addr [] = []
cut_all s_addr e_addr (r ∷ rs) = cut s_addr e_addr r ++ cut_all s_addr e_addr rs

-- `ranges.sort((a, b) => a.s - b.s)`, which is stable: by insertion from the right.
unfoldable pub insert_range : MemoryRange → List MemoryRange → List MemoryRange
insert_range r [] = r ∷ []
insert_range r (q ∷ qs) =
    let rest = q ∷ insert_range r qs in if leb r.s q.s then r ∷ (q ∷ qs) else rest

unfoldable pub sort_ranges : List MemoryRange → List MemoryRange
sort_ranges [] = []
sort_ranges (r ∷ rs) = insert_range r (sort_ranges rs)

-- A section that the firmware accepts: TD_HOB (2) or TEMP_MEM (3), and not empty.
unfoldable pub is_accepted : TdvfSection → Bool
is_accepted section =
    (section.sec_type == 2 || section.sec_type == 3)
    && ltb section.memory_address (section.memory_address + section.memory_data_size)

-- One turn of the loop over the sections, on `ranges`.
unfoldable pub accept : List MemoryRange → TdvfSection → List MemoryRange
accept ranges section =
    let s_addr = section.memory_address in
    let e_addr = section.memory_address + section.memory_data_size in
    if is_accepted section
    then sort_ranges
        (cut_all s_addr e_addr ranges ++ (record { acc = true; s = s_addr; e = e_addr } ∷ []))
    else ranges

unfoldable pub accept_all : List TdvfSection → List MemoryRange → List MemoryRange
accept_all [] ranges = ranges
accept_all (section ∷ rest) ranges = accept_all rest (accept ranges section)

-- `ranges` behind the loop.
unfoldable pub memory_ranges : ℕ → List TdvfSection → List MemoryRange
memory_ranges memory_size sections =
    accept_all sections (record { acc = false; s = 0; e = memory_size } ∷ [])

-- `hobBase` behind the loop: the address of the last TD_HOB section.
unfoldable pub hob_base : List TdvfSection → ℕ → ℕ
hob_base [] base = base
hob_base (section ∷ rest) base =
    hob_base rest (if section.sec_type == 2 then section.memory_address else base)

-- The difference of two numbers as 64 bits, also where it is negative.
unfoldable pub sub_u64 : ℕ → ℕ → ℕ
sub_u64 a b = (a + 2 ^ 64 - b % 2 ^ 64) % 2 ^ 64

-- EFI_HOB_HANDOFF_INFO_TABLE
unfoldable pub handoff_table : List ℕ
handoff_table =
    (0x01 ∷ 0x00 ∷ [])
    ++ (encode_le 2 56
        ++ (replicate 4 0
            ++ (encode_le 4 9 ++ (replicate 4 0 ++ (replicate 32 0 ++ replicate 8 0)))))

-- `addHob(type, start, len)`: what it pushes.
unfoldable pub resource_hob : ℕ → ℕ → ℕ → List ℕ
resource_hob type start len =
    (0x03 ∷ 0x00 ∷ [])
    ++ (encode_le 2 48
        ++ (replicate 4 0
            ++ (replicate 16 0
                ++ ((type ∷ 0 ∷ 0 ∷ 0 ∷ [])
                    ++ (encode_le 4 7 ++ (encode_le 8 start ++ encode_le 8 len))))))

unfoldable pub range_hobs : List MemoryRange → List ℕ
range_hobs [] = []
range_hobs (r ∷ rs) =
    resource_hob (if r.acc then 0x00 else 0x07) r.s (sub_u64 r.e r.s) ++ range_hobs rs

-- The block of the last range, or its two blocks around the hole below 4 GiB.
unfoldable pub last_hobs : ℕ → MemoryRange → List ℕ
last_hobs memory_size last =
    if leb 0xB0000000 memory_size
    then resource_hob 0x07 last.s (sub_u64 0x80000000 last.s)
      ++ resource_hob 0x07 0x100000000 (sub_u64 last.e 0x80000000)
    else resource_hob 0x07 last.s (sub_u64 last.e last.s)

-- `ranges.pop()`: the last range and those before it; the accesses to the last one throw where
-- there is none.
unfoldable pub pop : List MemoryRange → Result (List MemoryRange × MemoryRange)
pop [] = err type_error
pop (r ∷ []) = ok ([], r)
pop (r ∷ q ∷ qs) = elim (pop (q ∷ qs)) [ ok (front, last) ↦ ok (r ∷ front, last) | err x ↦ err x ]

-- The bytes of all blocks, with the end address put in at 48.
unfoldable pub patch_end : ℕ → List ℕ → List ℕ
patch_end base hob = take 48 hob ++ (encode_le 8 (base + length hob + 8) ++ drop 56 hob)

unfoldable pub build_hob : ℕ → List TdvfSection → Result (List ℕ)
unfolding memory_ranges
build_hob memory_size sections = elim (pop (memory_ranges memory_size sections)) [
  | ok (front, last) ↦ ok (
      patch_end (hob_base sections 0x809000)
        (handoff_table ++ (range_hobs front ++ last_hobs memory_size last)))
  | err x ↦ err x
]
