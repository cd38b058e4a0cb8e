-- ===== src/Firmware/Tdvf.antt =====
-- measure.js, `ovmf_measure_tdx`: the TDVF metadata of a firmware image, and the measurement of the
-- image (MRTD), one hash of a stream of records.
-- Sums of addresses are exact; the source's are, below 2 ^ 53.
use sylica.Base.{
  ℕ, zero, suc, ◌+◌, ◌-◌, ◌*◌, ◌/◌, ◌%◌, ◌^◌, ltb, List, [], ◌∷◌, ◌++◌, Bool, leb, ◌==◌,
  if◌then◌else◌, length, slice, replicate, set_bytes, encode_le, get_le, join, Result, ok, err,
  ◌>>=◌, ◌>>◌, guard, range_error, missing_tdx_metadata, invalid_tdvf_descriptor,
  unsupported_tdvf_version,
}
use sylica.Memory.{TdvfSection}
use sylica.Launch.Hashes.{GuidText}
use sylica.Firmware.{Table}
use sylica.Firmware.Sev.{entry_of}

abbrev pub tdx_metadata_guid : GuidText
tdx_metadata_guid = record {
  g₀ = 0xe4 ∷ 0x7a ∷ 0x65 ∷ 0x35 ∷ [];
  g₁ = 0x98 ∷ 0x4a ∷ [];
  g₂ = 0x47 ∷ 0x98 ∷ [];
  g₃ = 0x86 ∷ 0x5e ∷ [];
  g₄ = 0x46 ∷ 0x85 ∷ 0xa7 ∷ 0xbf ∷ 0x8e ∷ 0xc2 ∷ [];
}

-- `a - b` as an offset into a DataView: a negative one is out of range.
unfoldable pub offset_back : ℕ → ℕ → Result ℕ
offset_back a b = if leb b a then ok (a - b) else err range_error

-- Of `n`, the nearest multiple of `unit`; of two, the even one.
unfoldable pub nearest_multiple : ℕ → ℕ → ℕ
nearest_multiple n unit =
    if ltb (n % unit * 2) unit
    then n / unit * unit
    else (if ltb unit (n % unit * 2)
        then (n / unit + 1) * unit
        else (n / unit + n / unit % 2) * unit)

-- A double has 53 bits: the unit is doubled until they are enough.
unfoldable pub round_double : ℕ → ℕ → ℕ → ℕ
unfolding nearest_multiple
round_double zero unit n = nearest_multiple n unit
round_double (suc left) unit n =
    let coarser = round_double left (unit * 2) n in
    if ltb n (unit * 2 ^ 53) then nearest_multiple n unit else coarser

-- `Number(n)` of a 64-bit BigInt: the units are 2 to 2 ^ 11.
unfoldable pub double_of : ℕ → ℕ
unfolding round_double
double_of n = if ltb n (2 ^ 53) then n else round_double 10 2 n

unfoldable pub read_section : List ℕ → ℕ → Result TdvfSection
unfolding double_of
read_section fw base = do
  data_offset ← get_le 4 fw base
  raw_data_size ← get_le 4 fw (base + 4)
  memory_address ← get_le 8 fw (base + 8)
  memory_data_size ← get_le 8 fw (base + 16)
  sec_type ← get_le 4 fw (base + 24)
  attributes ← get_le 4 fw (base + 28)
  ok (record {
    data_offset = data_offset;
    raw_data_size = raw_data_size;
    memory_address = double_of memory_address;
    memory_data_size = double_of memory_data_size;
    sec_type = sec_type;
    attributes = attributes;
  })

-- The loop over `numSections`, `left` of them to go.
unfoldable pub read_tdvf_sections : ℕ → List ℕ → ℕ → Result (List TdvfSection)
unfolding read_section
read_tdvf_sections zero fw base = ok []
read_tdvf_sections (suc left) fw base = do
  section ← read_section fw base
  rest ← read_tdvf_sections left fw (base + 32)
  ok (section ∷ rest)

unfoldable pub tdvf_sections : List ℕ → List ℕ → Result (List TdvfSection)
unfolding offset_back read_tdvf_sections
tdvf_sections meta_entry fw = do
  last ← offset_back (length meta_entry) 4
  meta_offset_from_end ← get_le 4 meta_entry last
  meta_off ← offset_back (length fw) meta_offset_from_end
  signature ← get_le 4 fw meta_off
  guard (signature == 0x46564454) invalid_tdvf_descriptor
  version ← get_le 4 fw (meta_off + 8)
  guard (version == 1) unsupported_tdvf_version
  num_sections ← get_le 4 fw (meta_off + 12)
  read_tdvf_sections num_sections fw (meta_off + 16)

abbrev pub mem_page_add : List ℕ
mem_page_add =
    b'M' ∷ b'E' ∷ b'M' ∷ b'.' ∷ b'P' ∷ b'A' ∷ b'G' ∷ b'E' ∷ b'.' ∷ b'A' ∷ b'D' ∷ b'D' ∷ []

abbrev pub mr_extend : List ℕ
mr_extend = b'M' ∷ b'R' ∷ b'.' ∷ b'E' ∷ b'X' ∷ b'T' ∷ b'E' ∷ b'N' ∷ b'D' ∷ []

-- `rec`: a name, and an address at byte 16.
unfoldable pub tdx_record : List ℕ → ℕ → Result (List ℕ)
tdx_record name address = do
  a ← set_bytes (replicate 128 0) 0 name
  set_bytes a 16 (encode_le 8 address)

-- `s.attributes & 0x2` and `s.attributes & 0x1`
unfoldable pub is_skipped : TdvfSection → Bool
is_skipped s = s.attributes / 2 % 2 == 1

unfoldable pub is_extended : TdvfSection → Bool
is_extended s = s.attributes % 2 == 1

-- The loop over the 16 chunks of a page, `left` of them to go.
unfoldable pub extend_chunks : ℕ → List ℕ → (gpa off chunk : ℕ) → Result (List (List ℕ))
unfolding tdx_record
extend_chunks zero fw gpa off chunk = ok []
extend_chunks (suc left) fw gpa off chunk = do
  rec ← tdx_record mr_extend (gpa + chunk * 256)
  let at = off + chunk * 256
  rest ← extend_chunks left fw gpa off (suc chunk)
  ok (rec ∷ (slice fw at (at + 256) ∷ rest))

-- What a page adds to `chunks`.
unfoldable pub page_chunks : List ℕ → TdvfSection → ℕ → Result (List (List ℕ))
unfolding extend_chunks
page_chunks fw s page = do
  let gpa = s.memory_address + page * 4096
  added ← (if is_skipped s then ok [] else (do rec ← tdx_record mem_page_add gpa; ok (rec ∷ [])))
  extended ←
      (if is_extended s then extend_chunks 16 fw gpa (s.data_offset + page * 4096) 0 else ok [])
  ok (added ++ extended)

-- The loop over the pages, `left` of them to go.
unfoldable pub section_chunks : ℕ → List ℕ → TdvfSection → ℕ → Result (List (List ℕ))
unfolding page_chunks
section_chunks zero fw s page = ok []
section_chunks (suc left) fw s page = do
  here ← page_chunks fw s page
  rest ← section_chunks left fw s (suc page)
  ok (here ++ rest)

-- `page < s.memoryDataSize / 4096`, of numbers that are not whole: a page begun counts.
unfoldable pub page_count : TdvfSection → ℕ
page_count s = (s.memory_data_size + 4095) / 4096

unfoldable pub all_chunks : List ℕ → List TdvfSection → Result (List (List ℕ))
unfolding section_chunks page_count
all_chunks fw [] = ok []
all_chunks fw (s ∷ rest) = do
  here ← section_chunks (page_count s) fw s 0
  there ← all_chunks fw rest
  ok (here ++ there)

-- What `ovmf_measure_tdx` returns: the digest, and what `tdx_measure` needs.
pub record TdxConfig : Type 0 where
  pub ovmf_hash : List ℕ
  pub sections : List TdvfSection
  pub image : List ℕ

-- `ovmf_measure_tdx(table, data)`
unfoldable pub ovmf_measure_tdx : (List ℕ → List ℕ) → Table → List ℕ → Result TdxConfig
unfolding tdvf_sections all_chunks
ovmf_measure_tdx sha384 table data_bytes = do
  meta_entry ← entry_of tdx_metadata_guid missing_tdx_metadata table
  sections ← tdvf_sections meta_entry data_bytes
  chunks ← all_chunks data_bytes sections
  stream ← join chunks
  ok (record { ovmf_hash = sha384 stream; sections = sections; image = data_bytes })
