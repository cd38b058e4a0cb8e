-- ===== src/Firmware/Walk.antt =====
-- The walk through the table.
use sylica.Base.{
  ℕ, zero, suc, ◌+◌, ◌-◌, ◌*◌, ◌%◌, ◌/◌, le→leb, lt→ltb, ◌^◌, ◌<◌, ◌≡◌, refl, ap, sym, ◌∙◌, List,
  [], ◌∷◌, ◌++◌, All, true, false, ltb, leb, length, take, drop, slice, ok, arith, encode_le,
  decode_le, length-append, length-encode_le, take-append, drop-append, get_le, append_assoc,
  append-nil, same_bytes_refl,
}
use sylica.Ctype.{inherited, Value, num, buffer, object, entry, empty, member, value, number}
use sylica.Ctype.Size.{ctype_size}
use sylica.Ctype.Unpack.{finish, read, unpack_from, unpack, set, safe, to_bigint}
use sylica.Types.Ovmf.{ovmf_footer_table_entry}
use sylica.Launch.Hashes.{guid_bytes, format}
use sylica.Firmware.{Table, last_bytes, without_last, index_of, walk, footer_guid, footer_table}

-- An entry: its GUID as it is stored, and its content.
pub record Entry : Type 0 where
  pub guid : List ℕ
  pub content : List ℕ

abbrev pub IsEntry : Entry → Type 0
IsEntry e = (length e.guid ≡ 16) × (length e.content + 18 < 65536)

-- Content, size and GUID.
unfoldable pub entry_bytes : Entry → List ℕ
entry_bytes e = e.content ++ (encode_le 2 (length e.content + 18) ++ e.guid)

-- The bytes of a table whose last entry stands first in the list.
unfoldable pub table_bytes : List Entry → List ℕ
table_bytes [] = []
table_bytes (e ∷ es) = table_bytes es ++ entry_bytes e

-- What the walk makes of the entries.
unfoldable pub found : List Entry → Table → Table
found [] t = t
found (e ∷ es) t = found es ((format e.guid, e.content) ∷ t)

take-length : (xs ys : List ℕ) (n : ℕ) → length xs ≡ n → take n (xs ++ ys) ≡ xs
take-length xs ys n h = rw (sym h) (take-append xs ys)

header_value : ℕ → List ℕ → Value
header_value n g =
    object ovmf_footer_table_entry (entry "guid" (buffer g) (entry "size" (num n) empty))

unpack-header :
    (n : ℕ) (g more : List ℕ)
    → n < 65536
    → length g ≡ 16
    → unpack inherited ovmf_footer_table_entry (encode_le 2 n ++ (g ++ more))
      ≡ ok (header_value n g)
unfolding unpack set safe to_bigint header_value get_le unpack_from read finish encode_le decode_le
    take drop
unpack-header n g more h l =
    let there : leb (0 + 2) (length (n % 256 ∷ n / 256 % 256 ∷ (g ++ more))) ≡ true =
      le→leb _ _ (omega arith) in
    let size : n % 256 + 256 * (n / 256 % 256 + 256 * 0) ≡ n = omega arith in
    let small : ltb n (2 ^ 16) ≡ true = lt→ltb _ _ (omega arith) in
    rw (there, size, small, take-length g more 16 l)

last_bytes-append : (xs ys : List ℕ) (n : ℕ) → length ys ≡ n → last_bytes n (xs ++ ys) ≡ ys
unfolding last_bytes
last_bytes-append xs ys n h =
    let start : length (xs ++ ys) - n ≡ length xs = omega (arith, length-append xs ys) in
    rw start (drop-append xs ys)

without_last-append : (xs ys : List ℕ) (n : ℕ) → length ys ≡ n → without_last n (xs ++ ys) ≡ xs
unfolding without_last
without_last-append xs ys n h =
    let start : length (xs ++ ys) - n ≡ length xs = omega (arith, length-append xs ys) in
    rw start (take-append xs ys)

length-header : (n : ℕ) (g : List ℕ) → length g ≡ 16 → length (encode_le 2 n ++ g) ≡ 18
length-header n g h = omega (arith, length-append (encode_le 2 n) g, length-encode_le 2 n)

length-entry_bytes : (e : Entry) → IsEntry e → length (entry_bytes e) ≡ length e.content + 18
unfolding entry_bytes
length-entry_bytes e (g, s) = omega (
  arith,
  length-append e.content (encode_le 2 (length e.content + 18) ++ e.guid),
  length-header (length e.content + 18) e.guid g,
)

-- The header in front of nothing.
unpack-last_header :
    (xs : List ℕ) (n : ℕ) (g : List ℕ)
    → n < 65536
    → length g ≡ 16
    → unpack inherited ovmf_footer_table_entry (last_bytes 18 (xs ++ (encode_le 2 n ++ g)))
      ≡ ok (header_value n g)
unpack-last_header xs n g h l =
    rw (last_bytes-append xs (encode_le 2 n ++ g) 18 (length-header n g l)) (
      ap (λ k. unpack inherited ovmf_footer_table_entry (encode_le 2 n ++ k)) (sym (append-nil g))
      ∙ unpack-header n g [] h l)

-- One turn of the loop.
walk_entry :
    (xs : List ℕ) (e : Entry) (fuel : ℕ) (t : Table)
    → IsEntry e
    → walk 18 (suc fuel) (xs ++ entry_bytes e) t ≡ walk 18 fuel xs ((format e.guid, e.content) ∷ t)
unfolding walk header_value number member value
walk_entry xs e fuel t (g, s) =
    let n : ℕ = length e.content + 18 in
    let header : List ℕ = encode_le 2 n ++ e.guid in
    let apart : xs ++ entry_bytes e ≡ (xs ++ e.content) ++ header =
      unfold entry_bytes in sym (append_assoc xs e.content header) in
    let there : leb 18 (length (xs ++ entry_bytes e)) ≡ true =
      le→leb _ _ (omega (arith, length-append xs (entry_bytes e), length-entry_bytes e (g, s))) in
    let parsed : unpack inherited ovmf_footer_table_entry (last_bytes 18 (xs ++ entry_bytes e))
        ≡ ok (header_value n e.guid) =
      rw apart (unpack-last_header (xs ++ e.content) n e.guid s g) in
    let large : ltb (length e.content + 18) 18 ≡ false = ground arith in
    let size : length (entry_bytes e) ≡ n = length-entry_bytes e (g, s) in
    let content : without_last 18 (entry_bytes e) ≡ e.content =
      unfold entry_bytes in without_last-append e.content header 18 (length-header n e.guid g) in
    rw (
      there,
      parsed,
      large,
      without_last-append xs (entry_bytes e) n size,
      last_bytes-append xs (entry_bytes e) n size,
      content,
    )

-- Enough fuel, and every entry is found.
walk-table_bytes :
    (es : List Entry) (fuel : ℕ) (t : Table)
    → All IsEntry es
    → length (table_bytes es) < fuel
    → walk 18 fuel (table_bytes es) t ≡ ok (found es t)
unfolding found table_bytes
walk-table_bytes [] zero t h f = absurd (omega arith)
walk-table_bytes [] (suc fuel) t h f = unfold walk in refl
walk-table_bytes (e ∷ es) zero t h f = absurd (omega arith)
walk-table_bytes (e ∷ es) (suc fuel) t (p, h) f =
    walk_entry (table_bytes es) e fuel t p
    ∙ walk-table_bytes es fuel ((format e.guid, e.content) ∷ t) h
        (omega (arith, length-append (table_bytes es) (entry_bytes e), length-entry_bytes e p))

slice-middle : (xs ys zs : List ℕ) → slice ((xs ++ ys) ++ zs) (length xs) (length (xs ++ ys)) ≡ ys
unfolding slice
slice-middle xs ys zs =
    let n : length (xs ++ ys) - length xs ≡ length ys = omega (arith, length-append xs ys) in
    rw (n, append_assoc xs ys zs, drop-append xs (ys ++ zs)) (take-append ys zs)

footer_header : List Entry → List ℕ
footer_header es = encode_le 2 (length (table_bytes es) + 18) ++ guid_bytes footer_guid

-- An image: any bytes, the entries, the footer and 32 bytes behind it.
unfoldable pub image : List ℕ → List Entry → List ℕ → List ℕ
unfolding footer_header
image front es back = (front ++ table_bytes es) ++ (footer_header es ++ back)

-- The table of an image that ends in a footer and 32 bytes is read completely: for entries with
-- GUIDs of 16 bytes and sizes, also of all entries with the footer, below 65536, `ovmf_measure`
-- finds the content of every entry under its GUID, the first entry in memory assigned last.
pub footer_table-image :
    (front : List ℕ) (es : List Entry) (back : List ℕ)
    → All IsEntry es
    → length (table_bytes es) + 18 < 65536
    → length back ≡ 32
    → footer_table (image front es back) ≡ ok (found es [])
unfolding footer_table image footer_header header_value number member value ctype_size
footer_table-image front es back h s b =
    let n : ℕ = length (table_bytes es) + 18 in
    let g : length (guid_bytes footer_guid) ≡ 16 = unfold guid_bytes in refl in
    let header : length (footer_header es) ≡ 18 = length-header n (guid_bytes footer_guid) g in
    let data_bytes : List ℕ = (front ++ table_bytes es) ++ (footer_header es ++ back) in
    let behind : List ℕ = footer_header es ++ back in
    let size : length data_bytes ≡ length front + length (table_bytes es) + 50 = omega (
      arith,
      length-append (front ++ table_bytes es) behind,
      length-append front (table_bytes es),
      length-append (footer_header es) back,
    ) in
    let start : index_of (length data_bytes) (length data_bytes) 50
        ≡ length (front ++ table_bytes es) =
      unfold index_of in
      rw (le→leb 50 (length data_bytes) (omega arith))
        (omega (arith, length-append front (table_bytes es))) in
    let first : index_of (length data_bytes) (length data_bytes) (32 + n) ≡ length front =
      unfold index_of in rw (le→leb (32 + n) (length data_bytes) (omega arith)) (omega arith) in
    let parsed : unpack inherited ovmf_footer_table_entry
          (drop (length (front ++ table_bytes es)) data_bytes)
        ≡ ok (header_value n (guid_bytes footer_guid)) =
      rw (drop-append (front ++ table_bytes es) behind) (
        ap (unpack inherited ovmf_footer_table_entry)
          (append_assoc (encode_le 2 n) (guid_bytes footer_guid) back)
        ∙ unpack-header n (guid_bytes footer_guid) back s g) in
    let large : ltb n 18 ≡ false = ground arith in
    let cut : slice data_bytes (length front) (length (front ++ table_bytes es)) ≡ table_bytes es =
      slice-middle front (table_bytes es) behind in
    rw (start, parsed, same_bytes_refl (guid_bytes footer_guid), large, first, cut)
      (walk-table_bytes es (suc (length (table_bytes es))) [] h (omega arith))
