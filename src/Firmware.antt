-- ===== src/Firmware.antt =====
-- tools/measure-browser/static/measure.js, `ovmf_measure`: the table of GUIDs that ends in front of
-- the last 32 bytes of a firmware image, and is read from its end.
pub mod Walk
pub mod Fuel
pub mod Sev
pub mod Tdvf
pub mod SevMetadata
pub mod Stream
pub mod TdvfMetadata
pub mod Measure
pub mod Guest
use sylica.Base.{
  ℕ, zero, suc, ◌+◌, ◌-◌, List, [], ◌∷◌, not, ltb, leb, if◌then◌else◌, length, min, take, drop,
  slice, same_bytes, Result, ok, err, ◌>>=◌, ◌>>◌, guard, out_of_fuel, invalid_footer_guid,
  invalid_footer_table_size, invalid_entry_size,
}
use sylica.Ctype.{inherited, Value, buffer, member, number}
use sylica.Ctype.Size.{ctype_size}
use sylica.Ctype.Unpack.{unpack}
use sylica.Types.Ovmf.{ovmf_footer_table_entry}
use sylica.Launch.Hashes.{GuidText, guid_bytes, format}

-- The object `table`: its keys are the texts of GUIDs, the last assignment stands first.
abbrev pub Table : Type 0
Table = List (GuidText × List ℕ)

-- `new Uint8Array(entry.value("guid"))`
abbrev pub buffer_bytes : Value → List ℕ
buffer_bytes (buffer bs) = bs
buffer_bytes _ = []

-- `buf.slice(-n)` and `buf.slice(0, -n)`, for `n` above 0.
unfoldable pub last_bytes : ℕ → List ℕ → List ℕ
last_bytes n buf = drop (length buf - n) buf

unfoldable pub without_last : ℕ → List ℕ → List ℕ
without_last n buf = take (length buf - n) buf

-- The index that `slice` makes of `a - b`, in a buffer of `n` bytes: a negative one counts from the
-- end.
unfoldable pub index_of : ℕ → ℕ → ℕ → ℕ
index_of n a b = if leb b a then a - b else n - (b - a)

-- The loop over `table_bytes`.
unfoldable pub walk : ℕ → ℕ → List ℕ → Table → Result Table
walk header zero table_bytes table = err out_of_fuel
walk header (suc fuel) table_bytes table =
    if leb header (length table_bytes)
    then (do
      entry ← unpack inherited ovmf_footer_table_entry (last_bytes header table_bytes)
      let size = number (member "size" entry)
      guard (not (ltb size header)) invalid_entry_size
      walk header fuel (without_last size table_bytes) (
          (
            format (buffer_bytes (member "guid" entry)),
            without_last header (last_bytes size table_bytes),
          )
          ∷ table))
    else ok table

abbrev pub footer_guid : GuidText
footer_guid = record {
  g₀ = 0x96 ∷ 0xb5 ∷ 0x82 ∷ 0xde ∷ [];
  g₁ = 0x1f ∷ 0xb2 ∷ [];
  g₂ = 0x45 ∷ 0xf7 ∷ [];
  g₃ = 0xba ∷ 0xea ∷ [];
  g₄ = 0xa3 ∷ 0x66 ∷ 0xc5 ∷ 0x5a ∷ 0x08 ∷ 0x2d ∷ [];
}

-- `ovmf_measure`, up to the table. The fuel is one more than the bytes of the table.
unfoldable pub footer_table : List ℕ → Result Table
unfolding walk last_bytes without_last
footer_table data_bytes = do
  header ← ctype_size ovmf_footer_table_entry
  let size = length data_bytes
  let start = index_of size size (32 + header)
  footer ← unpack inherited ovmf_footer_table_entry (drop start data_bytes)
  guard (same_bytes (buffer_bytes (member "guid" footer)) (guid_bytes footer_guid))
      invalid_footer_guid
  let total = number (member "size" footer)
  guard (not (ltb total header)) invalid_footer_table_size
  let table_bytes = slice data_bytes (index_of size size (32 + total)) start
  walk header (suc (length table_bytes)) table_bytes []
