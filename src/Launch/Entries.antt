-- ===== src/Launch/Entries.antt =====
-- The layout of one entry of the table of hashes.
use sylica.Base.{
  ℕ, ◌≡◌, refl, ap, List, [], ◌++◌, length, ok, encode_le, replicate, arith, set_bytes_at,
  append-nil, replicate-zero, append_assoc, length-append, length-encode_le,
}
use sylica.Ctype.{Value, value, num, bytes, object, empty, entry}
use sylica.Ctype.Size.{ctype_size}
use sylica.Ctype.Pack.{pack, packed, write_fields, write, elements, to_number}
use sylica.Types.Ovmf.{guid_le}
use sylica.Types.Hashes.{sev_hash_table_entry}
use sylica.Launch.Hashes.{GuidText, guid_bytes}

abbrev pub guid_value : GuidText → Value
guid_value t = object guid_le (entry "data" (bytes (guid_bytes t)) empty)

abbrev pub entry_value : GuidText → List ℕ → Value
entry_value t hash =
    object sev_hash_table_entry
      (entry "hash" (bytes hash) (entry "length" (num 50) (entry "guid" (guid_value t) empty)))

-- An entry: GUID, size of the entry, hash.
unfoldable pub entry_layout : GuidText → List ℕ → List ℕ
entry_layout t hash = guid_bytes t ++ (encode_le 2 50 ++ hash)

pub pack-guid_value :
    (t : GuidText) → length (guid_bytes t) ≡ 16 → pack (guid_value t) ≡ ok (guid_bytes t)
unfolding pack write_fields write ctype_size elements value replicate
pack-guid_value t g =
    rw (set_bytes_at [] (guid_bytes t) 0 16 0 refl (rw g), append-nil (guid_bytes t))

pub pack-entry_value :
    (t : GuidText) (hash : List ℕ)
    → length (guid_bytes t) ≡ 16
    → length hash ≡ 32
    → pack (entry_value t hash) ≡ ok (entry_layout t hash)
unfolding pack packed write_fields write ctype_size elements to_number value entry_layout
pack-entry_value t hash g h =
    let guid : List ℕ = guid_bytes t in
    let head : List ℕ = guid ++ encode_le 2 50 in
    let l : length head ≡ 18 =
      omega (arith, length-append guid (encode_le 2 50), length-encode_le 2 50) in
    rw
      (
        pack-guid_value t g,
        set_bytes_at [] guid 0 50 34 refl (rw g),
        set_bytes_at guid (encode_le 2 50) 16 34 32 g (rw length-encode_le),
        set_bytes_at head hash 18 32 0 l (rw h),
      )
      (ap ok (simp (replicate-zero, append-nil, append_assoc) (unfold entry_layout in refl)))

pub length-entry_layout :
    (t : GuidText) (hash : List ℕ)
    → length (guid_bytes t) ≡ 16
    → length hash ≡ 32
    → length (entry_layout t hash) ≡ 50
unfolding entry_layout
length-entry_layout t hash g h = omega (
  arith,
  length-append (guid_bytes t) (encode_le 2 50 ++ hash),
  length-append (encode_le 2 50) hash,
  length-encode_le 2 50,
)
