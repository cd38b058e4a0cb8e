-- ===== src/Firmware/TdvfMetadata.antt =====
-- An image with TDVF metadata, and what `ovmf_measure_tdx` makes of it.
use sylica.Base.{
  ℕ, ◌+◌, ◌-◌, ◌^◌, ◌<◌, ◌≡◌, refl, sym, ap, subst, ◌∙◌, List, [], ◌∷◌, ◌++◌, some, le→leb, lt→ltb,
  length, append-nil, encode_le, length-encode_le, length-append, drop-append, get_le, At,
  At-append, At-get_le, All, missing_tdx_metadata, ok, arith,
}
use sylica.Memory.{TdvfSection}
use sylica.Firmware.{Table}
use sylica.Firmware.Sev.{lookup, entry_of_ok}
use sylica.Firmware.Tdvf.{
  tdx_metadata_guid, offset_back, double_of, read_section, read_tdvf_sections, tdvf_sections,
  ovmf_measure_tdx,
}
use sylica.Firmware.Stream.{stream, build_operations, all_chunks-stream}

-- The numbers of a section fit, and the end of its memory is an exact double.
pub record FitsTdvf (s : TdvfSection) : Type 0 where
  pub data_offset_fits : s.data_offset < 256 ^ 4
  pub raw_data_size_fits : s.raw_data_size < 256 ^ 4
  pub memory_is_exact : s.memory_address + s.memory_data_size < 2 ^ 53
  pub sec_type_fits : s.sec_type < 256 ^ 4
  pub attributes_fits : s.attributes < 256 ^ 4

-- The entries of the metadata, in front of `more`.
unfoldable pub sections_bytes : List TdvfSection → List ℕ → List ℕ
sections_bytes [] more = more
sections_bytes (s ∷ rest) more =
    encode_le 4 s.data_offset
    ++ (encode_le 4 s.raw_data_size
        ++ (encode_le 8 s.memory_address
            ++ (encode_le 8 s.memory_data_size
                ++ (encode_le 4 s.sec_type
                    ++ (encode_le 4 s.attributes ++ sections_bytes rest more)))))

-- "TDVF", the length, the version, the number of entries and the entries, in front of `more`.
unfoldable pub tdvf_bytes : ℕ → List TdvfSection → List ℕ → List ℕ
unfolding sections_bytes
tdvf_bytes size ss more =
    encode_le 4 0x46564454
    ++ (encode_le 4 size ++ (encode_le 4 1 ++ (encode_le 4 (length ss) ++ sections_bytes ss more)))

number_step :
    (w n : ℕ) (buf : List ℕ) (off : ℕ) (more : List ℕ)
    → At buf off (encode_le w n ++ more)
    → 0 < w
    → n < 256 ^ w
    → (get_le w buf off ≡ ok n) × At buf (off + w) more
number_step w n buf off more h p f = (
  At-get_le buf off w n more h p f,
  At-append buf off w (encode_le w n) more h (length-encode_le w n),
)

-- Behind two steps.
At-later :
    (buf : List ℕ) (off a b : ℕ) (xs : List ℕ) → At buf (off + a + b) xs → At buf (off + (a + b)) xs
At-later buf off a b xs h =
    subst (λ k. At buf k xs) (let e : off + a + b ≡ off + (a + b) = omega arith in e) h

double_of-exact : (n : ℕ) → n < 2 ^ 53 → double_of n ≡ n
unfolding double_of
double_of-exact n h = rw (lt→ltb n (2 ^ 53) h) refl

read_section-At :
    (s : TdvfSection) (fw : List ℕ) (base : ℕ) (more : List ℕ)
    → FitsTdvf s
    → At fw base (sections_bytes (s ∷ []) more)
    → (read_section fw base ≡ ok s) × At fw (base + 32) more
unfolding read_section sections_bytes
read_section-At s fw base more f h =
    let (e₁, h₁) = number_step 4 s.data_offset fw base _ h (omega arith) f.data_offset_fits in
    let (e₂, h₂) =
      number_step 4 s.raw_data_size fw (base + 4) _ h₁ (omega arith) f.raw_data_size_fits in
    let (e₃, h₃) =
      number_step 8 s.memory_address fw (base + 8) _ (At-later fw base 4 4 _ h₂) (omega arith)
        (let e : s.memory_address < 256 ^ 8 = omega (arith, f.memory_is_exact) in e) in
    let (e₄, h₄) =
      number_step 8 s.memory_data_size fw (base + 16) _ (At-later fw base 8 8 _ h₃) (omega arith)
        (let e : s.memory_data_size < 256 ^ 8 = omega (arith, f.memory_is_exact) in e) in
    let (e₅, h₅) =
      number_step 4 s.sec_type fw (base + 24) _ (At-later fw base 16 8 _ h₄) (omega arith)
        f.sec_type_fits in
    let (e₆, h₆) =
      number_step 4 s.attributes fw (base + 28) _ (At-later fw base 24 4 _ h₅) (omega arith)
        f.attributes_fits in
    let exact₁ = double_of-exact s.memory_address (omega (arith, f.memory_is_exact)) in
    let exact₂ = double_of-exact s.memory_data_size (omega (arith, f.memory_is_exact)) in
    (rw (e₁, e₂, e₃, e₄, e₅, e₆, exact₁, exact₂) refl, At-later fw base 28 4 more h₆)

read_sections-At :
    (ss : List TdvfSection) (fw : List ℕ) (base : ℕ) (more : List ℕ)
    → All FitsTdvf ss
    → At fw base (sections_bytes ss more)
    → read_tdvf_sections (length ss) fw base ≡ ok ss
unfolding read_tdvf_sections sections_bytes
read_sections-At [] fw base more f h = refl
read_sections-At (s ∷ rest) fw base more (f, fs) h =
    let (e, h') = read_section-At s fw base (sections_bytes rest more) f h in
    rw (e, read_sections-At rest fw (base + 32) more fs h') refl

tdvf_sections-At :
    (entry fw : List ℕ) (last p off size : ℕ) (ss : List TdvfSection) (back : List ℕ)
    → offset_back (length entry) 4 ≡ ok last
    → get_le 4 entry last ≡ ok p
    → offset_back (length fw) p ≡ ok off
    → size < 256 ^ 4
    → length ss < 256 ^ 4
    → All FitsTdvf ss
    → At fw off (tdvf_bytes size ss back)
    → tdvf_sections entry fw ≡ ok ss
unfolding tdvf_sections tdvf_bytes
tdvf_sections-At entry fw last p off size ss back e₁ e₂ e₃ l n f h =
    let (g₁, h₁) = number_step 4 0x46564454 fw off _ h (omega arith) (omega arith) in
    let (g₂, h₂) = number_step 4 size fw (off + 4) _ h₁ (omega arith) l in
    let (g₃, h₃) =
      number_step 4 1 fw (off + 8) _ (At-later fw off 4 4 _ h₂) (omega arith) (omega arith) in
    let (g₄, h₄) =
      number_step 4 (length ss) fw (off + 12) _ (At-later fw off 8 4 _ h₃) (omega arith) n in
    rw (e₁, e₂, e₃, g₁, g₃, g₄)
      (read_sections-At ss fw (off + 16) back f (At-later fw off 12 4 _ h₄))

offset_back_ok : (a b c : ℕ) → a ≡ b + c → offset_back a c ≡ ok b
unfolding offset_back
offset_back_ok a b c h =
    rw (le→leb c a (omega arith)) (ap ok (let e : a - c ≡ b = omega arith in e))

-- The content of the table entry: any bytes, and how far the metadata starts in front of the end of
-- the image.
unfoldable pub tdvf_entry : List ℕ → ℕ → List ℕ
tdvf_entry pre p = pre ++ encode_le 4 p

-- If the table entry says where the TDVF metadata starts, `ovmf_measure_tdx` returns the sections
-- that the metadata lists, and the hash of the operations that build the guest from them: for each
-- section, page by page, the page is added unless bit 1 of the section's attributes forbids it, and
-- its 16 chunks of 256 bytes are measured if bit 0 asks for it; a page that the section's memory only
-- begins counts. The end of each section's memory is below 2 ^ 53.
pub ovmf_measure_tdx-tdvf_bytes :
    (sha384 : List ℕ → List ℕ) (table : Table) (pre front : List ℕ) (size : ℕ)
    (ss : List TdvfSection) (back : List ℕ)
    → lookup tdx_metadata_guid table ≡ some (tdvf_entry pre (length (tdvf_bytes size ss back)))
    → size < 256 ^ 4
    → length ss < 256 ^ 4
    → All FitsTdvf ss
    → length (tdvf_bytes size ss back) < 256 ^ 4
    → ovmf_measure_tdx sha384 table (front ++ tdvf_bytes size ss back)
      ≡ ok (record {
        ovmf_hash = sha384 (stream (build_operations (front ++ tdvf_bytes size ss back) ss));
        sections = ss;
        image = front ++ tdvf_bytes size ss back;
      })
unfolding ovmf_measure_tdx tdvf_entry
ovmf_measure_tdx-tdvf_bytes sha384 table pre front size ss back found l n f far =
    let metadata : List ℕ = tdvf_bytes size ss back in
    let p : ℕ = length metadata in
    let fw : List ℕ = front ++ metadata in
    let entry : List ℕ = pre ++ encode_le 4 p in
    let (cs, c, j) = all_chunks-stream fw ss in
    let at_end : At entry (length pre) (encode_le 4 p ++ []) =
      drop-append pre (encode_le 4 p) ∙ sym (append-nil (encode_le 4 p)) in
    let sections : tdvf_sections entry fw ≡ ok ss =
      tdvf_sections-At entry fw (length pre) p (length front) size ss back
        (offset_back_ok (length entry) (length pre) 4
          (omega (arith, length-append pre (encode_le 4 p), length-encode_le 4 p)))
        (At-get_le entry (length pre) 4 p [] at_end (omega arith) far)
        (offset_back_ok (length fw) (length front) p (length-append front metadata)) l n f
        (drop-append front metadata) in
    rw (entry_of_ok tdx_metadata_guid missing_tdx_metadata table entry found, sections, c, j) refl
