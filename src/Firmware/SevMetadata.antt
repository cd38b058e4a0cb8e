-- ===== src/Firmware/SevMetadata.antt =====
-- An image with SEV metadata, and what `ovmf_measure_snp` makes of it.
use sylica.Base.{
  ℕ, suc, ◌+◌, ◌-◌, ◌*◌, ◌^◌, ◌<◌, ◌≡◌, refl, subst, ◌∙◌, List, [], ◌∷◌, ◌++◌, true, some, ltb,
  le→leb, lt→ltb, length, take, drop, take-append, replicate, length-replicate, encode_le,
  length-encode_le, length-append, drop-append, get_le, At, At-append, At-get_le, All, same_bytes,
  ok, arith, missing_sev_hashes, missing_reset_block, missing_sev_metadata,
}
use sylica.Ctype.{
  inherited, Value, num, buffer, object, entry, empty, member, value, number, is_number,
}
use sylica.Ctype.Layout.{plain, plain_type, fresh, type_width}
use sylica.Ctype.Size.{ctype_size}
use sylica.Ctype.Unpack.{finish, read, unpack_from, unpack, set, safe, to_bigint}
use sylica.Ctype.Filled.{Chunk, AllFit, fits32, laid_out, unpack-laid_out}
use sylica.Types.Ovmf.{ovmf_sev_metadata_header, ovmf_sev_metadata_section_desc}
use sylica.Launch.Pages.{extend_all, normal_page_list, update_normal_pages-extend}
use sylica.Launch.Snp.{Section}
use sylica.Firmware.{Table, index_of}
use sylica.Firmware.Sev.{
  sev_hashes_guid, reset_eip_guid, sev_metadata_guid, lookup, entry_of_ok, signed_index,
  read_sections, sev_sections, ovmf_measure_snp,
}

pub record FitsSev (s : Section) : Type 0 where
  pub gpa_fits : s.gpa < 256 ^ 4
  pub size_fits : s.size < 256 ^ 4
  pub type_fits : s.type < 256 ^ 4

abbrev section_chunks : Section → List Chunk
section_chunks s = Chunk.number s.gpa ∷ Chunk.number s.size ∷ Chunk.number s.type ∷ []

-- The items, in front of nothing.
unfoldable pub items_bytes : List Section → List ℕ
items_bytes [] = []
items_bytes (s ∷ rest) =
    laid_out ovmf_sev_metadata_section_desc (section_chunks s) ++ items_bytes rest

-- "ASEV", the size of the items, the version and their number; the items, in front of `back`.
unfoldable pub sev_bytes : List Section → List ℕ → List ℕ
unfolding items_bytes
sev_bytes ss back =
    (0x41 ∷ 0x53 ∷ 0x45 ∷ 0x56 ∷ [])
    ++ (encode_le 4 (length (items_bytes ss))
        ++ (encode_le 4 1 ++ (encode_le 4 (length ss) ++ (items_bytes ss ++ back))))

desc_plain : plain ovmf_sev_metadata_section_desc ≡ true
unfolding plain plain_type fresh
desc_plain = refl

section_fits : (s : Section) → FitsSev s → AllFit ovmf_sev_metadata_section_desc (section_chunks s)
section_fits s f = (fits32 f.gpa_fits, (fits32 f.size_fits, (fits32 f.type_fits, tt)))

read_sections-At :
    (ss : List Section) (i : ℕ) (items : List ℕ)
    → All FitsSev ss
    → At items (i * 12) (items_bytes ss)
    → read_sections (length ss) i items ≡ ok ss
unfolding read_sections items_bytes ctype_size member value number encode_le type_width
read_sections-At [] i items f h = refl
read_sections-At (s ∷ rest) i items (f, fs) h =
    let first : List ℕ = laid_out ovmf_sev_metadata_section_desc (section_chunks s) in
    let u =
      unpack-laid_out ovmf_sev_metadata_section_desc (section_chunks s) (items_bytes rest)
        desc_plain (section_fits s f) in
    let next : At items (suc i * 12) (items_bytes rest) =
      subst (λ k. At items k (items_bytes rest))
        (let e : i * 12 + 12 ≡ suc i * 12 = omega arith in e)
        (At-append items (i * 12) 12 first (items_bytes rest) h refl) in
    rw (h, u, read_sections-At rest (suc i) items fs next) refl

abbrev asev : List ℕ
asev = 0x41 ∷ 0x53 ∷ 0x45 ∷ 0x56 ∷ []

header_value : (size count : ℕ) → Value
header_value size count = object ovmf_sev_metadata_header (
    entry "num_items" (num count)
      (entry "version" (num 1) (entry "size" (num size) (entry "signature" (buffer asev) empty))))

unpack_sev_header :
    (size count : ℕ) (more : List ℕ)
    → size < 256 ^ 4
    → count < 256 ^ 4
    → unpack inherited ovmf_sev_metadata_header
        (asev ++ (encode_le 4 size ++ (encode_le 4 1 ++ (encode_le 4 count ++ more))))
      ≡ ok (header_value size count)
unfolding unpack set safe to_bigint header_value unpack_from read finish take drop
unpack_sev_header size count more s c =
    let buf : List ℕ =
      asev ++ (encode_le 4 size ++ (encode_le 4 1 ++ (encode_le 4 count ++ more))) in
    let h₁ : At buf 8 (encode_le 4 1 ++ (encode_le 4 count ++ more)) =
      At-append buf 4 4 (encode_le 4 size) (encode_le 4 1 ++ (encode_le 4 count ++ more)) refl
        (length-encode_le 4 size) in
    let h₂ : At buf 12 (encode_le 4 count ++ more) =
      At-append buf 8 4 (encode_le 4 1) (encode_le 4 count ++ more) h₁ (length-encode_le 4 1) in
    let g₁ : get_le 4 buf 4 ≡ ok size =
      At-get_le buf 4 4 size (encode_le 4 1 ++ (encode_le 4 count ++ more)) refl (omega arith) s in
    let g₂ : get_le 4 buf 8 ≡ ok 1 =
      At-get_le buf 8 4 1 (encode_le 4 count ++ more) h₁ (omega arith) (omega arith) in
    let g₃ : get_le 4 buf 12 ≡ ok count = At-get_le buf 12 4 count more h₂ (omega arith) c in
    let small₁ : ltb size (2 ^ 32) ≡ true = lt→ltb size (2 ^ 32) (omega arith) in
    let small₃ : ltb count (2 ^ 32) ≡ true = lt→ltb count (2 ^ 32) (omega arith) in
    rw (g₁, small₁, g₂, g₃, small₃) refl

signed_index_lem :
    (front metadata : List ℕ) (ahead : ℕ)
    → length metadata < 2 ^ 31
    → signed_index (length (front ++ metadata)) ahead (length metadata) ≡ length front + ahead
unfolding signed_index index_of
signed_index_lem front metadata ahead h =
    let size : length (front ++ metadata) ≡ length front + length metadata =
      length-append front metadata in
    rw
      (
        lt→ltb (length metadata) (2 ^ 31) h,
        size,
        le→leb (length metadata) (length front + length metadata + ahead) (omega arith),
      )
      (omega arith)

-- A number of four bytes at the start of an entry.
unfoldable pub number_entry : ℕ → List ℕ → List ℕ
number_entry n more = encode_le 4 n ++ more

number_entry_at : (n : ℕ) (more : List ℕ) → n < 256 ^ 4 → get_le 4 (number_entry n more) 0 ≡ ok n
unfolding number_entry drop
number_entry_at n more h = At-get_le (encode_le 4 n ++ more) 0 4 n more refl (omega arith) h

sev_sections_ok :
    (front : List ℕ) (ss : List Section) (back more : List ℕ)
    → All FitsSev ss
    → length ss < 256 ^ 4
    → length (sev_bytes ss back) < 2 ^ 31
    → sev_sections (number_entry (length (sev_bytes ss back)) more) (front ++ sev_bytes ss back)
      ≡ ok ss
unfolding sev_sections ctype_size sev_bytes header_value member value number is_number same_bytes
    drop
sev_sections_ok front ss back more f n far =
    let items : List ℕ = items_bytes ss in
    let metadata : List ℕ =
      asev
      ++ (encode_le 4 (length items)
          ++ (encode_le 4 1 ++ (encode_le 4 (length ss) ++ (items ++ back)))) in
    let image : List ℕ = front ++ metadata in
    let short : length items < 256 ^ 4 = omega (
      arith,
      length-append (encode_le 4 (length items))
          (encode_le 4 1 ++ (encode_le 4 (length ss) ++ (items ++ back))),
      length-append (encode_le 4 1) (encode_le 4 (length ss) ++ (items ++ back)),
      length-append (encode_le 4 (length ss)) (items ++ back),
      length-append items back,
    ) in
    let p : length metadata < 256 ^ 4 = omega arith in
    let start : signed_index (length image) 0 (length metadata) ≡ length front =
      signed_index_lem front metadata 0 far ∙ (omega arith) in
    let behind : signed_index (length image) 16 (length metadata) ≡ length front + 16 =
      signed_index_lem front metadata 16 far in
    let h₄ : At image (length front + 4) (
        encode_le 4 (length items)
        ++ (encode_le 4 1 ++ (encode_le 4 (length ss) ++ (items ++ back)))) =
      At-append image (length front) 4 asev _ (drop-append front metadata) refl in
    let h₈ =
      At-append image (length front + 4) 4 (encode_le 4 (length items))
        (encode_le 4 1 ++ (encode_le 4 (length ss) ++ (items ++ back))) h₄
        (length-encode_le 4 (length items)) in
    let h₁₂ =
      At-append image (length front + 4 + 4) 4 (encode_le 4 1)
        (encode_le 4 (length ss) ++ (items ++ back)) h₈ (length-encode_le 4 1) in
    let h₁₆ =
      At-append image (length front + 4 + 4 + 4) 4 (encode_le 4 (length ss)) (items ++ back) h₁₂
        (length-encode_le 4 (length ss)) in
    let rest : drop (length front + 16) image ≡ items ++ back =
      subst (λ k. drop k image ≡ items ++ back)
        (let e : length front + 4 + 4 + 4 + 4 ≡ length front + 16 = omega arith in e) h₁₆ in
    rw
      (
        number_entry_at (length metadata) more p,
        start,
        drop-append front metadata,
        unpack_sev_header (length items) (length ss) (items ++ back) short n,
        behind,
        rest,
        take-append items back,
      )
      (read_sections-At ss 0 items f refl)

-- If the table has the three entries, the metadata starts where its entry says, within the last
-- 2 GiB, and the image is `n` whole pages, `ovmf_measure_snp` returns the sections that the metadata
-- lists, the two addresses that the other entries hold, and the launch digest of the image: it is
-- the extension of 48 zero bytes by its pages, which end at 4 GiB.
pub ovmf_measure_snp-sev_bytes :
    (sha384 : List ℕ → List ℕ) (table : Table) (front : List ℕ) (ss : List Section)
    (back more₁ more₂ more₃ : List ℕ) (hashes eip n : ℕ)
    → ((xs : List ℕ) → length (sha384 xs) ≡ 48)
    → lookup sev_hashes_guid table ≡ some (number_entry hashes more₁)
    → lookup reset_eip_guid table ≡ some (number_entry eip more₂)
    → lookup sev_metadata_guid table ≡ some (number_entry (length (sev_bytes ss back)) more₃)
    → hashes < 256 ^ 4
    → eip < 256 ^ 4
    → All FitsSev ss
    → length ss < 256 ^ 4
    → length (sev_bytes ss back) < 2 ^ 31
    → length (front ++ sev_bytes ss back) ≡ n * 4096
    → ovmf_measure_snp sha384 table (front ++ sev_bytes ss back)
      ≡ ok (record {
        ovmf_hash =
            extend_all sha384
              (replicate 48 0)
              (normal_page_list sha384 n 0 (0x100000000 - n * 4096) (front ++ sev_bytes ss back));
        sections = ss;
        sev_hashes = hashes;
        reset_eip = eip;
      })
unfolding ovmf_measure_snp
ovmf_measure_snp-sev_bytes sha384 table front ss back more₁ more₂ more₃ hashes eip n hl e₁ e₂ e₃ h₁
      h₂ f c far whole =
    rw
      (
        entry_of_ok sev_hashes_guid missing_sev_hashes table (number_entry hashes more₁) e₁,
        entry_of_ok reset_eip_guid missing_reset_block table (number_entry eip more₂) e₂,
        entry_of_ok sev_metadata_guid missing_sev_metadata table
            (number_entry (length (sev_bytes ss back)) more₃) e₃,
        sev_sections_ok front ss back more₃ f c far,
        update_normal_pages-extend sha384 hl n (0x100000000 - length (front ++ sev_bytes ss back))
            (front ++ sev_bytes ss back) (replicate 48 0) whole (length-replicate 48 0),
        number_entry_at hashes more₁ h₁,
        number_entry_at eip more₂ h₂,
        whole,
      )
      refl
