-- ===== src/Examples/Regions.antt =====
-- The memory of a TDX guest with two sections that the firmware has accepted.
use sylica.Base.{
  ℕ, ◌+◌, ◌*◌, ◌≡◌, refl, List, [], ◌∷◌, true, false, not, ◌&&◌, ltb, length, take, drop, encode_le,
  ok,
}
use sylica.Memory.{
  TdvfSection, cut, cut_all, insert_range, sort_ranges, is_accepted, accept, accept_all,
  memory_ranges, hob_base, build_hob,
}
use sylica.Memory.Coverage.{covers, claimed, covers-memory_ranges}
use sylica.Memory.Blocks.{build_hob_total, last_count}

abbrev td_hob : TdvfSection
td_hob = record {
  data_offset = 0;
  raw_data_size = 0;
  memory_address = 0x809000;
  memory_data_size = 0x2000;
  sec_type = 2;
  attributes = 0;
}

abbrev temp_mem : TdvfSection
temp_mem = record {
  data_offset = 0;
  raw_data_size = 0;
  memory_address = 0x810000;
  memory_data_size = 0x10000;
  sec_type = 3;
  attributes = 0;
}

abbrev both : List TdvfSection
both = td_hob ∷ temp_mem ∷ []

-- Five ranges: the accepted ones and those around them.
five_ranges : memory_ranges 0x1000000 both ≡ (
    record { acc = false; s = 0; e = 0x809000 }
    ∷ record { acc = true; s = 0x809000; e = 0x80b000 }
    ∷ record { acc = false; s = 0x80b000; e = 0x810000 }
    ∷ record { acc = true; s = 0x810000; e = 0x820000 }
    ∷ record { acc = false; s = 0x820000; e = 0x1000000 }
    ∷ [])
unfolding memory_ranges accept_all accept is_accepted sort_ranges cut_all cut insert_range
five_ranges = refl

covers-memory_ranges_example :
    (covers false (memory_ranges 0x1000000 both) 0x80a000
      ≡ (ltb 0x80a000 0x1000000 && not (claimed both 0x80a000)))
    × (covers true (memory_ranges 0x1000000 both) 0x80a000 ≡ claimed both 0x80a000)
covers-memory_ranges_example = covers-memory_ranges 0x1000000 both 0x80a000

build_hob_total_example :
    (hob : List ℕ) × (build_hob 0x1000000 both ≡ ok hob)
    × (length hob + 48 ≡ 56 + 48 * (length (memory_ranges 0x1000000 both) + last_count 0x1000000))
    × (take 8 (drop 48 hob) ≡ encode_le 8 (hob_base both 0x809000 + length hob + 8))
build_hob_total_example = build_hob_total 0x1000000 both
