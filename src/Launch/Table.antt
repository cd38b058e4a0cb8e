-- ===== src/Launch/Table.antt =====
-- The layout of the table of hashes and of its page.
use sylica.Base.{
  ℕ, ◌+◌, ◌-◌, ◌%◌, ◌≤◌, ◌<◌, ◌≡◌, refl, ap, List, [], ◌++◌, false, length, ok, err, encode_le,
  replicate, arith, leb, le→leb, invalid_table_length, replicate-add, ◌∙◌, set_bytes_at, append-nil,
  replicate-zero, length-replicate, append_assoc, length-append, length-encode_le,
}
use sylica.Ctype.{Value, value, num, object, empty, entry}
use sylica.Ctype.Size.{ctype_size}
use sylica.Ctype.Unpack.{set, safe, to_bigint}
use sylica.Ctype.Pack.{pack, packed, write_fields, write, elements, to_number}
use sylica.Types.Hashes.{sev_hash_table, padded_sev_hash_table}
use sylica.Launch.Hashes.{
  SevHashes, guid_bytes, construct_table, hashes_page, sev_hash_table_header_guid,
  sev_kernel_entry_guid, sev_initrd_entry_guid, sev_cmdline_entry_guid,
}
use sylica.Launch.Entries.{
  guid_value, entry_value, entry_layout, pack-guid_value, pack-entry_value, length-entry_layout,
}

-- The table: its GUID, its size, and the entries of command line, initrd and kernel.
unfoldable pub table_layout : SevHashes → List ℕ
table_layout hashes =
    guid_bytes sev_hash_table_header_guid
    ++ (encode_le 2 168
        ++ (entry_layout sev_cmdline_entry_guid hashes.cmdline
            ++ (entry_layout sev_initrd_entry_guid hashes.initrd
                ++ entry_layout sev_kernel_entry_guid hashes.kernel)))

abbrev table_value : SevHashes → Value
table_value hashes = object sev_hash_table (
    entry "kernel" (entry_value sev_kernel_entry_guid hashes.kernel) (
      entry "initrd" (entry_value sev_initrd_entry_guid hashes.initrd) (
        entry "cmdline" (entry_value sev_cmdline_entry_guid hashes.cmdline)
          (entry "length" (num 168) (entry "guid" (guid_value sev_hash_table_header_guid) empty)))))

-- Hashes of SHA-256.
pub record HasHashes (hashes : SevHashes) : Type 0 where
  pub kernel_size : length hashes.kernel ≡ 32
  pub initrd_size : length hashes.initrd ≡ 32
  pub cmdline_size : length hashes.cmdline ≡ 32

guid_size :
    (length (guid_bytes sev_hash_table_header_guid) ≡ 16)
    × (length (guid_bytes sev_kernel_entry_guid) ≡ 16)
    × (length (guid_bytes sev_initrd_entry_guid) ≡ 16)
    × (length (guid_bytes sev_cmdline_entry_guid) ≡ 16)
unfolding guid_bytes
guid_size = (refl, refl, refl, refl)

pack-table_value :
    (hashes : SevHashes) → HasHashes hashes → pack (table_value hashes) ≡ ok (table_layout hashes)
unfolding pack packed write_fields write ctype_size elements to_number value
pack-table_value hashes w =
    let (gs, ks, is, cs) = guid_size in
    let guid : List ℕ = guid_bytes sev_hash_table_header_guid in
    let c : List ℕ = entry_layout sev_cmdline_entry_guid hashes.cmdline in
    let i : List ℕ = entry_layout sev_initrd_entry_guid hashes.initrd in
    let k : List ℕ = entry_layout sev_kernel_entry_guid hashes.kernel in
    let lc = length-entry_layout sev_cmdline_entry_guid hashes.cmdline cs w.cmdline_size in
    let li = length-entry_layout sev_initrd_entry_guid hashes.initrd is w.initrd_size in
    let lk = length-entry_layout sev_kernel_entry_guid hashes.kernel ks w.kernel_size in
    let h₁ : List ℕ = guid ++ encode_le 2 168 in
    let h₂ : List ℕ = h₁ ++ c in
    let h₃ : List ℕ = h₂ ++ i in
    let l₁ : length h₁ ≡ 18 =
      omega (arith, length-append guid (encode_le 2 168), length-encode_le 2 168) in
    let l₂ : length h₂ ≡ 68 = omega (arith, length-append h₁ c) in
    let l₃ : length h₃ ≡ 118 = omega (arith, length-append h₂ i) in
    rw
      (
        pack-guid_value sev_hash_table_header_guid gs,
        pack-entry_value sev_cmdline_entry_guid hashes.cmdline cs w.cmdline_size,
        pack-entry_value sev_initrd_entry_guid hashes.initrd is w.initrd_size,
        pack-entry_value sev_kernel_entry_guid hashes.kernel ks w.kernel_size,
        set_bytes_at [] guid 0 168 152 refl (rw gs),
        set_bytes_at guid (encode_le 2 168) 16 152 150 gs (rw length-encode_le),
        set_bytes_at h₁ c 18 150 100 l₁ (rw lc),
        set_bytes_at h₂ i 68 100 50 l₂ (rw li),
        set_bytes_at h₃ k 118 50 0 l₃ (rw lk),
      )
      (ap ok (simp (replicate-zero, append-nil, append_assoc) (unfold table_layout in refl)))

length-table_layout : (hashes : SevHashes) → HasHashes hashes → length (table_layout hashes) ≡ 168
unfolding table_layout
length-table_layout hashes w =
    let (gs, ks, is, cs) = guid_size in
    let guid : List ℕ = guid_bytes sev_hash_table_header_guid in
    let c : List ℕ = entry_layout sev_cmdline_entry_guid hashes.cmdline in
    let i : List ℕ = entry_layout sev_initrd_entry_guid hashes.initrd in
    let k : List ℕ = entry_layout sev_kernel_entry_guid hashes.kernel in
    omega (
      arith,
      gs,
      length-entry_layout sev_cmdline_entry_guid hashes.cmdline cs w.cmdline_size,
      length-entry_layout sev_initrd_entry_guid hashes.initrd is w.initrd_size,
      length-entry_layout sev_kernel_entry_guid hashes.kernel ks w.kernel_size,
      length-append guid (encode_le 2 168 ++ (c ++ (i ++ k))),
      length-append (encode_le 2 168) (c ++ (i ++ k)),
      length-append c (i ++ k),
      length-append i k,
      length-encode_le 2 168,
    )

pack-padded :
    (hashes : SevHashes)
    → HasHashes hashes
    → pack (object padded_sev_hash_table (entry "ht" (table_value hashes) empty))
      ≡ ok (table_layout hashes ++ replicate 8 0)
unfolding pack packed write_fields write ctype_size elements value
pack-padded hashes w =
    let l : length (table_layout hashes) ≡ 168 = length-table_layout hashes w in
    rw
      (
        pack-table_value hashes w,
        set_bytes_at [] (table_layout hashes) 0 176 8 refl (rw l),
        set_bytes_at (table_layout hashes) (replicate 8 0) 168 8 0 l (rw length-replicate),
      )
      (ap ok (simp (replicate-zero, append-nil)))

-- `construct_table` pads the table to 176 bytes.
pub construct_table-layout :
    (hashes : SevHashes)
    → HasHashes hashes
    → construct_table hashes ≡ ok (table_layout hashes ++ replicate 8 0)
unfolding construct_table set safe ctype_size to_bigint
construct_table-layout hashes w = pack-padded hashes w

-- The table at its offset in a page of zeros.
unfoldable pub page_layout : SevHashes → ℕ → List ℕ
page_layout hashes offset =
    replicate offset 0 ++ (table_layout hashes ++ replicate (4096 - offset - 168) 0)

length-padded :
    (hashes : SevHashes) → HasHashes hashes → length (table_layout hashes ++ replicate 8 0) ≡ 176
length-padded hashes w = omega (
  arith,
  length-append (table_layout hashes) (replicate 8 0),
  length-table_layout hashes w,
  length-replicate {A = ℕ} 8 0,
)

-- With three hashes of 32 bytes and room for 176 bytes behind the address's offset in its page, the
-- page is all zeros but for the table at that offset.
pub hashes_page-layout :
    (hashes : SevHashes) (gpa : ℕ)
    → HasHashes hashes
    → gpa % 4096 + 176 ≤ 4096
    → hashes_page hashes gpa ≡ ok (page_layout hashes (gpa % 4096))
unfolding hashes_page page_layout
hashes_page-layout hashes gpa w h =
    let offset : ℕ = gpa % 4096 in
    let padded : List ℕ = table_layout hashes ++ replicate 8 0 in
    let l : length padded ≡ 176 = length-padded hashes w in
    let zero_page : replicate {A = ℕ} 4096 0 ≡ replicate offset 0 ++ replicate (4096 - offset) 0 =
      ap (λ n. replicate {A = ℕ} n 0) (let e : 4096 ≡ offset + (4096 - offset) = omega arith in e)
      ∙ replicate-add {A = ℕ} offset (4096 - offset) 0 in
    let tail : replicate {A = ℕ} (4096 - offset - 168) 0
        ≡ replicate 8 0 ++ replicate (4096 - offset - 176) 0 =
      ap (λ n. replicate {A = ℕ} n 0)
        (let e : 4096 - offset - 168 ≡ 8 + (4096 - offset - 176) = omega arith in e)
      ∙ replicate-add {A = ℕ} 8 (4096 - offset - 176) 0 in
    rw
      (
        construct_table-layout hashes w,
        l,
        le→leb (offset + 176) 4096 h,
        zero_page,
        set_bytes_at (replicate offset 0) padded offset (4096 - offset) (4096 - offset - 176)
            (length-replicate {A = ℕ} offset 0) (rw l (omega arith)),
        tail,
      )
      (ap ok (simp append_assoc))

-- With three hashes of 32 bytes and less than 176 bytes of the page behind the address's offset in
-- it, the construction throws.
pub hashes_page_too_high :
    (hashes : SevHashes) (gpa : ℕ)
    → HasHashes hashes
    → 4096 < gpa % 4096 + 176
    → hashes_page hashes gpa ≡ err invalid_table_length
unfolding hashes_page
hashes_page_too_high hashes gpa w h =
    let no_room : leb (gpa % 4096 + 176) 4096 ≡ false = ground arith in
    rw (construct_table-layout hashes w, length-padded hashes w, no_room)

pub length-page_layout :
    (hashes : SevHashes) (offset : ℕ)
    → HasHashes hashes
    → offset + 176 ≤ 4096
    → length (page_layout hashes offset) ≡ 4096
unfolding page_layout
length-page_layout hashes offset w h = omega (
  arith,
  length-append (replicate offset 0) (table_layout hashes ++ replicate (4096 - offset - 168) 0),
  length-append (table_layout hashes) (replicate (4096 - offset - 168) 0),
  length-table_layout hashes w,
  length-replicate {A = ℕ} offset 0,
  length-replicate {A = ℕ} (4096 - offset - 168) 0,
)
