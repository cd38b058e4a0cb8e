-- ===== src/Launch.antt =====
-- tools/measure-browser/static/measure.js, the class `GCTX`: the launch digest of an SEV-SNP guest.
-- SHA-384 is the browser's (`crypto.subtle.digest`), a parameter.
pub mod Pages
pub mod Hashes
pub mod Vmsa
pub mod SectionType
pub mod Snp
pub mod Areas
pub mod Entries
pub mod Table
pub mod Digest
use sylica.Base.{
  ℕ, zero, suc, ◌+◌, ◌*◌, ◌/◌, ◌%◌, List, [], ◌∷◌, ◌==◌, length, take, drop, replicate, encode_le,
  set_bytes, Result, ok, err, ◌>>=◌, ◌>>◌, guard, invalid_length,
}

-- `GCTX.LD_SIZE`, `GCTX.VMSA_GPA` and `GCTX.ZEROS`.
abbrev pub ld_size : ℕ
ld_size = 48

abbrev pub vmsa_gpa : ℕ
vmsa_gpa = 0xFFFFFFFFF000

unfoldable pub zeros : List ℕ
zeros = replicate 48 0

-- The bytes that `_update` hashes: the array is filled by `set`, and its last 16 bytes through a
-- DataView at offset 96.
unfoldable pub page_info : List ℕ → ℕ → ℕ → List ℕ → Result (List ℕ)
page_info ld page_type gpa contents = do
  guard (length contents == ld_size) invalid_length
  a₁ ← set_bytes (replicate 0x70 0) 0 ld
  a₂ ← set_bytes a₁ ld_size contents
  a₃ ← set_bytes a₂ 96 (encode_le 2 0x70)
  a₄ ← set_bytes a₃ 98 (encode_le 1 page_type)
  a₅ ← set_bytes a₄ 99 (encode_le 1 0)
  a₆ ← set_bytes a₅ 100 (encode_le 1 0)
  a₇ ← set_bytes a₆ 101 (encode_le 1 0)
  a₈ ← set_bytes a₇ 102 (encode_le 1 0)
  a₉ ← set_bytes a₈ 103 (encode_le 1 0)
  a₁₀ ← set_bytes a₉ 104 (encode_le 8 gpa)
  ok a₁₀

module _ (sha384 : List ℕ → List ℕ) where
  -- `_update`: the new `_ld`.
  unfoldable pub update : List ℕ → ℕ → ℕ → List ℕ → Result (List ℕ)
  update ld page_type gpa contents = do info ← page_info ld page_type gpa contents; ok (sha384 info)

  -- The loop of `update_normal_pages`, with `left` pages to go.
  unfoldable pub normal_pages : ℕ → ℕ → ℕ → List ℕ → List ℕ → Result (List ℕ)
  normal_pages zero offset start_gpa contents ld = ok ld
  normal_pages (suc left) offset start_gpa contents ld = do
    let page = take 4096 (drop offset contents)
    ld' ← update ld 0x01 (start_gpa + offset) (sha384 page)
    normal_pages left (offset + 4096) start_gpa contents ld'

  unfoldable pub update_normal_pages : List ℕ → ℕ → List ℕ → Result (List ℕ)
  unfolding normal_pages
  update_normal_pages ld start_gpa contents = do
    guard (length contents % 4096 == 0) invalid_length
    normal_pages (length contents / 4096) 0 start_gpa contents ld

  unfoldable pub update_vmsa_page : List ℕ → List ℕ → Result (List ℕ)
  update_vmsa_page ld contents = do
    guard (length contents == 4096) invalid_length
    update ld 0x02 vmsa_gpa (sha384 contents)

  -- The loop of `update_zero_pages`, with `left` pages to go.
  unfoldable pub zero_pages : ℕ → ℕ → ℕ → List ℕ → Result (List ℕ)
  zero_pages zero offset gpa ld = ok ld
  zero_pages (suc left) offset gpa ld = do
    ld' ← update ld 0x03 (gpa + offset) zeros
    zero_pages left (offset + 4096) gpa ld'

  unfoldable pub update_zero_pages : List ℕ → ℕ → ℕ → Result (List ℕ)
  unfolding zero_pages
  update_zero_pages ld gpa length_bytes = do
    guard (length_bytes % 4096 == 0) invalid_length
    zero_pages (length_bytes / 4096) 0 gpa ld

  unfoldable pub update_secrets_page : List ℕ → ℕ → Result (List ℕ)
  update_secrets_page ld gpa = update ld 0x05 gpa zeros

  unfoldable pub update_cpuid_page : List ℕ → ℕ → Result (List ℕ)
  update_cpuid_page ld gpa = update ld 0x06 gpa zeros
