-- ===== src/Ctype/Truncated.antt =====
-- `unpack` on a buffer that is too short.
use sylica.Base.{
  ℕ, zero, suc, ◌+◌, ◌≤◌, ◌<◌, ◌≡◌, String, Option, none, some, List, true, IsBytes, length, slice,
  slice-IsBytes, length-drop, length-take, drop, get_le_ok, get_le_short, err, range_error, arith,
  &&_split, slice_lem,
}
use native.Mathlib.Decide.{dec_le}
use sylica.Ctype.{
  Kind, inherited, overridden, no_default_constructor, FieldType, Fields, u8, u16, u32, u64, bool,
  array, custom, struct, end, field, Data, empty, entry,
}
use sylica.Ctype.Layout.{
  type_width, width, has_signer, plain_type, plain, plain_class, plain_field, ctype_size-eq-width,
}
use sylica.Ctype.Setting.{Found, Found-self, set_ok, IsRead, need}
use sylica.Ctype.Reading.{field-IsRead, plain_class-plain}
use sylica.Ctype.Unpack.{read_bytes, read, unpack_from, unpack}

read_bytes_short :
    (n : ℕ) (buf : List ℕ) (offset : ℕ)
    → offset ≤ length buf
    → length buf < offset + n
    → read_bytes n buf offset ≡ err range_error
unfolding read_bytes
read_bytes_short zero buf offset h k = absurd (omega arith)
read_bytes_short (suc n) buf offset h k = elim (dec_le (offset + 1) (length buf)) [
  | yes there ↦
      rw (get_le_ok 1 buf offset there, read_bytes_short n buf (offset + 1) there (omega arith))
  | no more ↦ rw (get_le_short 1 buf offset (omega arith))
]

length-slice_short :
    (buf : List ℕ) (start n : ℕ)
    → length buf < start + n
    → start ≤ length buf
    → length (slice buf start (start + n)) < n
length-slice_short buf start n h k =
    rw (slice_lem buf start n)
      (omega (arith, length-take n (drop start buf), length-drop start buf))

need-ge : (type : FieldType) (size : Option ℕ) → type_width type size ≤ need type size
unfolding type_width
need-ge bool size = omega arith
need-ge u8 size = omega arith
need-ge u16 size = omega arith
need-ge u32 size = omega arith
need-ge u64 size = omega arith
need-ge array size = omega arith
need-ge custom size = omega arith
need-ge (struct kind fields) size = omega arith

-- The loop stops where its field does, or goes on to the next.
field_short :
    (all : Fields) (name : String) (type : FieldType) (size : Option ℕ) (index : ℕ) (rest : Fields)
    (d : Data) (buf : List ℕ) (offset : ℕ)
    → read type size index buf offset ≡ err range_error
    → unpack_from all (field name type size index rest) d buf offset ≡ err range_error
unfolding unpack_from
field_short all name type size index rest d buf offset e = rw e

field_next :
    (all : Fields) (name : String) (type : FieldType) (size : Option ℕ) (index : ℕ) (rest : Fields)
    (d : Data) (buf : List ℕ) (offset : ℕ)
    → Found all (field name type size index rest)
    → (r : IsRead type size index buf offset)
    → unpack_from all rest (entry name r.0 d) buf (offset + type_width type size) ≡ err range_error
    → unpack_from all (field name type size index rest) d buf offset ≡ err range_error
unfolding unpack_from
field_next all name type size index rest d buf offset found (v, e, st, fits) next =
    rw (e, found.0 v d, set_ok name type size index v d fits, next)

mutual
  unfolding read plain_type type_width unpack_from plain_class

  read_short :
      (type : FieldType) (size : Option ℕ) (index after : ℕ) (buf : List ℕ) (offset : ℕ)
      → plain_type type size after ≡ true
      → IsBytes buf
      → offset ≤ length buf
      → length buf < offset + need type size
      → read type size index buf offset ≡ err range_error
  read_short u8 size index after buf offset p b h k = rw (get_le_short 1 buf offset k)
  read_short u16 size index after buf offset p b h k = rw (get_le_short 2 buf offset k)
  read_short u32 size index after buf offset p b h k = rw (get_le_short 4 buf offset k)
  read_short u64 size index after buf offset p b h k = rw (get_le_short 8 buf offset k)
  read_short bool size index after buf offset p b h k = rw (get_le_short 1 buf offset k)
  read_short array none index after buf offset p b h k = cc
  read_short array (some n) index after buf offset p b h k = rw (read_bytes_short n buf offset h k)
  read_short custom none index after buf offset p b h k = cc
  read_short custom (some zero) index after buf offset p b h k = absurd (omega arith)
  read_short custom (some (suc n)) index after buf offset p b h k = cc
  read_short (struct inherited fields) (some n) index after buf offset p b h k = cc
  read_short (struct overridden fields) (some n) index after buf offset p b h k = cc
  read_short (struct no_default_constructor fields) size index after buf offset p b h k = cc
  read_short (struct inherited fields) none index after buf offset p b h k = rw (
    ctype_size-eq-width fields p,
    unpack_from_short fields fields empty (slice buf offset (offset + width fields)) 0 p
        (Found-self fields p) (slice-IsBytes buf offset (offset + width fields) b) (omega arith)
        (omega (arith, length-slice_short buf offset (width fields) k h)),
  )
  read_short (struct overridden fields) none index after buf offset p b h k =
      let q = (&&_split (has_signer fields) (plain fields) p).1 in
      rw (
        ctype_size-eq-width fields q,
        unpack_from_short fields fields empty (slice buf offset (offset + width fields)) 0 q
            (Found-self fields q) (slice-IsBytes buf offset (offset + width fields) b) (omega arith)
            (omega (arith, length-slice_short buf offset (width fields) k h)),
      )

  unpack_from_short :
      (all rest : Fields) (d : Data) (buf : List ℕ) (offset : ℕ)
      → plain rest ≡ true
      → Found all rest
      → IsBytes buf
      → offset ≤ length buf
      → length buf < offset + width rest
      → unpack_from all rest d buf offset ≡ err range_error
  unpack_from_short all end d buf offset p f b h k = absurd (omega arith)
  unpack_from_short all (field name type size index rest) d buf offset p f b h k =
      let (q, fr, r) = plain_field name type size index rest p in
      elim (dec_le (offset + need type size) (length buf)) [
        | yes there ↦
            let v : IsRead type size index buf offset =
              field-IsRead type size index (width rest) buf offset q b there in
            field_next all name type size index rest d buf offset f v (
              unpack_from_short all rest (entry name v.0 d) buf (offset + type_width type size) r
                f.1 b (omega (arith, need-ge type size)) (omega arith))
        | no more ↦
            field_short all name type size index rest d buf offset
              (read_short type size index (width rest) buf offset q b h (omega arith))
      ]

-- `unpack` of a plain class throws a RangeError on fewer bytes than `ctype.size`.
pub unpack_short :
    (kind : Kind) (fields : Fields) (buf : List ℕ)
    → plain_class kind fields ≡ true
    → IsBytes buf
    → length buf < width fields
    → unpack kind fields buf ≡ err range_error
unfolding unpack
unpack_short no_default_constructor fields buf p b h = unfold plain_class in cc
unpack_short inherited fields buf p b h =
    let q = plain_class-plain inherited fields p in
    rw (
      unpack_from_short fields fields empty buf 0 q (Found-self fields q) b (omega arith)
        (omega arith))
unpack_short overridden fields buf p b h =
    let q = plain_class-plain overridden fields p in
    rw (
      unpack_from_short fields fields empty buf 0 q (Found-self fields q) b (omega arith)
        (omega arith))
