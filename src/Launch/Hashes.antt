-- ===== src/Launch/Hashes.antt =====
-- measure.js, the class `SevHashes`: the page with the hashes of kernel, initrd and command line;
-- types.js: the constructor and `format` of `GuidLe`.
-- Hexadecimal text stands for its bytes: the text of a GUID is given by its five groups.
use sylica.Base.{
  ℕ, ◌+◌, ◌%◌, List, [], ◌∷◌, ◌++◌, leb, length, take, drop, replicate, set_bytes, Result, ok,
  ◌>>=◌, ◌>>◌, guard, invalid_table_length,
}
use mathlib.Core.List.{reverse}
use sylica.Ctype.{Value, num, bytes, object, empty}
use sylica.Ctype.Size.{ctype_size}
use sylica.Ctype.Unpack.{set}
use sylica.Ctype.Pack.{pack}
use sylica.Types.Ovmf.{guid_le}
use sylica.Types.Hashes.{sev_hash_table_entry, sev_hash_table, padded_sev_hash_table}

-- The text "g₀-g₁-g₂-g₃-g₄" of a GUID; the first three groups are stored backwards.
pub record GuidText : Type 0 where
  pub g₀ : List ℕ
  pub g₁ : List ℕ
  pub g₂ : List ℕ
  pub g₃ : List ℕ
  pub g₄ : List ℕ

unfoldable pub guid_bytes : GuidText → List ℕ
guid_bytes t = reverse t.g₀ ++ (reverse t.g₁ ++ (reverse t.g₂ ++ (t.g₃ ++ t.g₄)))

-- `GuidLe.format(data)`
unfoldable pub format : List ℕ → GuidText
format real = record {
  g₀ = reverse (take 4 real);
  g₁ = reverse (take 2 (drop 4 real));
  g₂ = reverse (take 2 (drop 6 real));
  g₃ = take 2 (drop 8 real);
  g₄ = take 6 (drop 10 real);
}

-- `new GuidLe(text)`
unfoldable pub new_guid : GuidText → Result Value
new_guid t = do d ← set guid_le "data" (bytes (guid_bytes t)) empty; ok (object guid_le d)

abbrev pub sev_hash_table_header_guid : GuidText
sev_hash_table_header_guid = record {
  g₀ = 0x94 ∷ 0x38 ∷ 0xd6 ∷ 0x06 ∷ [];
  g₁ = 0x4f ∷ 0x22 ∷ [];
  g₂ = 0x4c ∷ 0xc9 ∷ [];
  g₃ = 0xb4 ∷ 0x79 ∷ [];
  g₄ = 0xa7 ∷ 0x93 ∷ 0xd4 ∷ 0x11 ∷ 0xfd ∷ 0x21 ∷ [];
}

abbrev pub sev_kernel_entry_guid : GuidText
sev_kernel_entry_guid = record {
  g₀ = 0x4d ∷ 0xe7 ∷ 0x94 ∷ 0x37 ∷ [];
  g₁ = 0xab ∷ 0xd2 ∷ [];
  g₂ = 0x42 ∷ 0x7f ∷ [];
  g₃ = 0xb8 ∷ 0x35 ∷ [];
  g₄ = 0xd5 ∷ 0xb1 ∷ 0x72 ∷ 0xd2 ∷ 0x04 ∷ 0x5b ∷ [];
}

abbrev pub sev_initrd_entry_guid : GuidText
sev_initrd_entry_guid = record {
  g₀ = 0x44 ∷ 0xba ∷ 0xf7 ∷ 0x31 ∷ [];
  g₁ = 0x3a ∷ 0x2f ∷ [];
  g₂ = 0x4b ∷ 0xd7 ∷ [];
  g₃ = 0x9a ∷ 0xf1 ∷ [];
  g₄ = 0x41 ∷ 0xe2 ∷ 0x91 ∷ 0x69 ∷ 0x78 ∷ 0x1d ∷ [];
}

abbrev pub sev_cmdline_entry_guid : GuidText
sev_cmdline_entry_guid = record {
  g₀ = 0x97 ∷ 0xd0 ∷ 0x2d ∷ 0xd8 ∷ [];
  g₁ = 0xbd ∷ 0x20 ∷ [];
  g₂ = 0x4c ∷ 0x94 ∷ [];
  g₃ = 0xaa ∷ 0x78 ∷ [];
  g₄ = 0xe7 ∷ 0x71 ∷ 0x4d ∷ 0x36 ∷ 0xab ∷ 0x2a ∷ [];
}

-- The three hashes, as bytes.
pub record SevHashes : Type 0 where
  pub kernel : List ℕ
  pub initrd : List ℕ
  pub cmdline : List ℕ

-- One entry of the table: its members are assigned in this order.
unfoldable pub table_entry : GuidText → List ℕ → Result Value
unfolding new_guid
table_entry text hash = do
  guid ← new_guid text
  d₁ ← set sev_hash_table_entry "guid" guid empty
  n ← ctype_size sev_hash_table_entry
  d₂ ← set sev_hash_table_entry "length" (num n) d₁
  d₃ ← set sev_hash_table_entry "hash" (bytes hash) d₂
  ok (object sev_hash_table_entry d₃)

-- `construct_table()`. The source fills the nested objects after it has hung them in the outer
-- ones; the values that `pack` meets are the same.
unfoldable pub construct_table : SevHashes → Result (List ℕ)
unfolding table_entry new_guid
construct_table hashes = do
  guid ← new_guid sev_hash_table_header_guid
  d₁ ← set sev_hash_table "guid" guid empty
  n ← ctype_size sev_hash_table
  d₂ ← set sev_hash_table "length" (num n) d₁
  cmdline ← table_entry sev_cmdline_entry_guid hashes.cmdline
  d₃ ← set sev_hash_table "cmdline" cmdline d₂
  initrd ← table_entry sev_initrd_entry_guid hashes.initrd
  d₄ ← set sev_hash_table "initrd" initrd d₃
  kernel ← table_entry sev_kernel_entry_guid hashes.kernel
  d₅ ← set sev_hash_table "kernel" kernel d₄
  d₆ ← set padded_sev_hash_table "ht" (object sev_hash_table d₅) empty
  pack (object padded_sev_hash_table d₆)

-- `construct_page(offset)`
unfoldable pub construct_page : SevHashes → ℕ → Result (List ℕ)
construct_page hashes offset = do
  hashes_table ← construct_table hashes
  guard (leb (offset + length hashes_table) 4096) invalid_table_length
  set_bytes (replicate 4096 0) offset hashes_table

-- `page(sev_hashes_table_gpa)`
unfoldable pub hashes_page : SevHashes → ℕ → Result (List ℕ)
unfolding construct_page construct_table
hashes_page hashes sev_hashes_table_gpa = construct_page hashes (sev_hashes_table_gpa % 4096)
