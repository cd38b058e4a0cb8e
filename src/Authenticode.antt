-- ===== src/Authenticode.antt =====
-- tools/measure-browser/static/binutil.js, `authenticode`: the bytes of a PE image that its signature
-- covers.
pub mod Regions
use sylica.Base.{
  ℕ, zero, suc, ◌+◌, List, [], ◌∷◌, ◌++◌, Bool, ◌&&◌, ltb, leb, ◌==◌, if◌then◌else◌, length, max,
  slice, get_le, join, Result, ok, ◌>>=◌, ◌>>◌, guard, missing_mz, missing_pe,
}

-- An entry of `sections`.
pub record PeSection : Type 0 where
  pub pointer : ℕ
  pub size : ℕ

-- What is read from the headers.
pub record PeHeader : Type 0 where
  pub size_of_headers : ℕ
  pub checksum_offset : ℕ
  pub security_dir_offset : ℕ
  pub cert_address : ℕ
  pub sections : List PeSection

-- The loop over the section headers, `left` of them to go: empty sections are left out.
unfoldable pub read_pe_sections : ℕ → List ℕ → ℕ → Result (List PeSection)
read_pe_sections zero u8 header_pos = ok []
read_pe_sections (suc left) u8 header_pos = do
  raw_size ← get_le 4 u8 (header_pos + 16)
  raw_pointer ← get_le 4 u8 (header_pos + 20)
  rest ← read_pe_sections left u8 (header_pos + 40)
  ok (if ltb 0 raw_size then record { pointer = raw_pointer; size = raw_size } ∷ rest else rest)

unfoldable pub read_pe : List ℕ → Result PeHeader
unfolding read_pe_sections
read_pe u8 = do
  mz ← get_le 2 u8 0
  guard (mz == 0x5A4D) missing_mz
  pe_offset ← get_le 4 u8 0x3C
  signature ← get_le 4 u8 pe_offset
  guard (signature == 0x00004550) missing_pe
  number_of_sections ← get_le 2 u8 (pe_offset + 6)
  size_of_optional_header ← get_le 2 u8 (pe_offset + 20)
  let optional_header_offset = pe_offset + 24
  magic ← get_le 2 u8 optional_header_offset
  size_of_headers ← get_le 4 u8 (optional_header_offset + 60)
  let security_dir_offset = optional_header_offset + (if magic == 0x020B then 144 else 128)
  cert_address ← get_le 4 u8 security_dir_offset
  sections ←
      read_pe_sections number_of_sections u8 (optional_header_offset + size_of_optional_header)
  ok (record {
    size_of_headers = size_of_headers;
    checksum_offset = optional_header_offset + 64;
    security_dir_offset = security_dir_offset;
    cert_address = cert_address;
    sections = sections;
  })

-- `sections.sort((a, b) => a.pointer - b.pointer)`, which is stable: by insertion from the right.
unfoldable pub insert_section : PeSection → List PeSection → List PeSection
insert_section s [] = s ∷ []
insert_section s (t ∷ ts) =
    let rest = t ∷ insert_section s ts in if leb s.pointer t.pointer then s ∷ (t ∷ ts) else rest

unfoldable pub sort_sections : List PeSection → List PeSection
unfolding insert_section
sort_sections [] = []
sort_sections (s ∷ ss) = insert_section s (sort_sections ss)

-- The loop over the sorted sections: their bytes, and `pos` behind it.
unfoldable pub section_parts : List PeSection → List ℕ → List (List ℕ)
section_parts [] u8 = []
section_parts (s ∷ rest) u8 = slice u8 s.pointer (s.pointer + s.size) ∷ section_parts rest u8

unfoldable pub end_pos : List PeSection → ℕ → ℕ
end_pos [] pos = pos
end_pos (s ∷ rest) pos = end_pos rest (max pos (s.pointer + s.size))

-- The end of what is signed: the table of certificates, or the end of the file.
unfoldable pub limit_of : PeHeader → List ℕ → ℕ
limit_of h u8 =
    if ltb 0 h.cert_address && ltb h.cert_address (length u8) then h.cert_address else length u8

unfoldable pub overlay : ℕ → ℕ → List ℕ → List (List ℕ)
overlay pos limit u8 = if ltb pos limit then slice u8 pos limit ∷ [] else []

-- `authenticode(buffer)`
unfoldable pub authenticode : List ℕ → Result (List ℕ)
unfolding read_pe sort_sections section_parts end_pos limit_of overlay
authenticode u8 = do
  h ← read_pe u8
  let sorted = sort_sections h.sections
  let pos = end_pos sorted h.size_of_headers
  join (
      slice u8 0 h.checksum_offset
      ∷ (slice u8 (h.checksum_offset + 4) h.security_dir_offset
          ∷ (slice u8 (h.security_dir_offset + 8) h.size_of_headers
              ∷ (section_parts sorted u8 ++ overlay pos (limit_of h u8) u8))))
