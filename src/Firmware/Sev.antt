-- ===== src/Firmware/Sev.antt =====
-- measure.js, `ovmf_measure_snp`: the SEV metadata of a firmware image, and the launch digest of the
-- image itself.
-- An image is shorter than 4 GiB; a signed 32-bit number is its pattern.
use sylica.Base.{
  ◌≡◌, ap, ℕ, zero, suc, ◌+◌, ◌-◌, ◌*◌, ◌^◌, List, [], ◌∷◌, Bool, ◌&&◌, Option, none, some, ltb,
  if◌then◌else◌, length, take, drop, replicate, same_bytes, get_le, Result, ok, err, ◌>>=◌, ◌>>◌,
  guard, Error, missing_sev_hashes, missing_reset_block, missing_sev_metadata, wrong_sev_signature,
  wrong_sev_version,
}
use sylica.Ctype.{inherited, member, number, is_number}
use sylica.Ctype.Size.{ctype_size}
use sylica.Ctype.Unpack.{unpack}
use sylica.Types.Ovmf.{ovmf_sev_metadata_header, ovmf_sev_metadata_section_desc}
use sylica.Launch.{update_normal_pages}
use sylica.Launch.Hashes.{GuidText}
use sylica.Launch.Snp.{Section, Config}
use sylica.Firmware.{Table, buffer_bytes, index_of}

abbrev pub sev_hashes_guid : GuidText
sev_hashes_guid = record {
  g₀ = 0x72 ∷ 0x55 ∷ 0x37 ∷ 0x1f ∷ [];
  g₁ = 0x3a ∷ 0x3b ∷ [];
  g₂ = 0x4b ∷ 0x04 ∷ [];
  g₃ = 0x92 ∷ 0x7b ∷ [];
  g₄ = 0x1d ∷ 0xa6 ∷ 0xef ∷ 0xa8 ∷ 0xd4 ∷ 0x54 ∷ [];
}

abbrev pub reset_eip_guid : GuidText
reset_eip_guid = record {
  g₀ = 0x00 ∷ 0xf7 ∷ 0x71 ∷ 0xde ∷ [];
  g₁ = 0x1a ∷ 0x7e ∷ [];
  g₂ = 0x4f ∷ 0xcb ∷ [];
  g₃ = 0x89 ∷ 0x0e ∷ [];
  g₄ = 0x68 ∷ 0xc7 ∷ 0x7e ∷ 0x2f ∷ 0xb4 ∷ 0x4e ∷ [];
}

abbrev pub sev_metadata_guid : GuidText
sev_metadata_guid = record {
  g₀ = 0xdc ∷ 0x88 ∷ 0x65 ∷ 0x66 ∷ [];
  g₁ = 0x98 ∷ 0x4a ∷ [];
  g₂ = 0x47 ∷ 0x98 ∷ [];
  g₃ = 0xa7 ∷ 0x5e ∷ [];
  g₄ = 0x55 ∷ 0x85 ∷ 0xa7 ∷ 0xbf ∷ 0x67 ∷ 0xcc ∷ [];
}

-- Texts of GUIDs are compared group by group.
unfoldable pub same_guid : GuidText → GuidText → Bool
same_guid a b =
    same_bytes a.g₀ b.g₀
    && (same_bytes a.g₁ b.g₁
        && (same_bytes a.g₂ b.g₂ && (same_bytes a.g₃ b.g₃ && same_bytes a.g₄ b.g₄)))

-- `table[guid]`
unfoldable pub lookup : GuidText → Table → Option (List ℕ)
lookup guid [] = none
lookup guid ((key, content) ∷ rest) =
    let others = lookup guid rest in if same_guid key guid then some content else others

unfoldable pub entry_of : GuidText → Error → Table → Result (List ℕ)
entry_of guid missing table = elim (lookup guid table) [ none ↦ err missing | some c ↦ ok c ]

pub entry_of_ok :
    (guid : GuidText) (missing : Error) (table : Table) (content : List ℕ)
    → lookup guid table ≡ some content
    → entry_of guid missing table ≡ ok content
unfolding entry_of
entry_of_ok guid missing table content h =
    ap (λ x. elim x as (λ _. Result (List ℕ)) [ none ↦ err missing | some c ↦ ok c ]) h

-- The index that `slice` makes of `size - offset + ahead`, `offset` a signed number of 32 bits.
unfoldable pub signed_index : (size ahead offset : ℕ) → ℕ
signed_index size ahead offset =
    if ltb offset (2 ^ 31)
    then index_of size (size + ahead) offset
    else size + ahead + (2 ^ 32 - offset)

-- The loop over the items, `left` of them to go.
unfoldable pub read_sections : ℕ → ℕ → List ℕ → Result (List Section)
read_sections zero i items = ok []
read_sections (suc left) i items = do
  n ← ctype_size ovmf_sev_metadata_section_desc
  item ← unpack inherited ovmf_sev_metadata_section_desc (drop (i * n) items)
  rest ← read_sections left (suc i) items
  ok (
      record {
        gpa = number (member "gpa" item);
        size = number (member "size" item);
        type = number (member "type" item);
      }
      ∷ rest)

-- The metadata, from the content of its table entry on.
unfoldable pub sev_sections : List ℕ → List ℕ → Result (List Section)
unfolding read_sections signed_index
sev_sections sev_metadata data_bytes = do
  offset_from_end ← get_le 4 sev_metadata 0
  let size = length data_bytes
  header ←
      unpack inherited ovmf_sev_metadata_header
        (drop (signed_index size 0 offset_from_end) data_bytes)
  guard (same_bytes (buffer_bytes (member "signature" header)) (0x41 ∷ 0x53 ∷ 0x45 ∷ 0x56 ∷ []))
      wrong_sev_signature
  guard (is_number (member "version" header) 1) wrong_sev_version
  n ← ctype_size ovmf_sev_metadata_header
  let items =
      take (number (member "size" header)) (drop (signed_index size n offset_from_end) data_bytes)
  read_sections (number (member "num_items" header)) 0 items

-- `ovmf_measure_snp(table, data)`. The two numbers are read where the result is made.
unfoldable pub ovmf_measure_snp : (List ℕ → List ℕ) → Table → List ℕ → Result Config
unfolding lookup entry_of sev_sections
ovmf_measure_snp sha384 table data_bytes = do
  sev_hashes_entry ← entry_of sev_hashes_guid missing_sev_hashes table
  reset_entry ← entry_of reset_eip_guid missing_reset_block table
  sev_metadata ← entry_of sev_metadata_guid missing_sev_metadata table
  sections ← sev_sections sev_metadata data_bytes
  ovmf_hash ←
      update_normal_pages sha384 (replicate 48 0) (0x100000000 - length data_bytes) data_bytes
  sev_hashes ← get_le 4 sev_hashes_entry 0
  reset_eip ← get_le 4 reset_entry 0
  ok (record {
    ovmf_hash = ovmf_hash;
    sections = sections;
    sev_hashes = sev_hashes;
    reset_eip = reset_eip;
  })
