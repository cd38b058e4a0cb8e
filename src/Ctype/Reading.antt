-- ===== src/Ctype/Reading.antt =====
-- `unpack` on a buffer that is long enough: one field, the loop, and the whole.
use sylica.Base.{
  ℕ, zero, suc, ◌+◌, ◌^◌, ◌≤◌, ◌≡◌, refl, ◌∙◌, String, Option, none, some, List, true, not, str_eq,
  length, take, drop, decode_le, IsBytes, slice, slice-IsBytes, length-slice, get_le_ok, lt→ltb,
  leb→le, ok, &&_split, arith, ==_iff,
}
use sylica.Ctype.{
  Kind, inherited, overridden, no_default_constructor, FieldType, Fields, u8, u16, u32, u64, bool,
  array, custom, struct, end, field, Value, num, flag, bytes, view, object, Data, empty, entry,
}
use sylica.Ctype.Layout.{
  type_width, width, fresh, has_signer, plain_type, plain, plain_class, plain_field,
  ctype_size-eq-width,
}
use sylica.Ctype.Stored.{Stored, StoredAll, IsInert, value-entry_self, value-entry_ne}
use sylica.Ctype.Unpack.{to_bigint, safe, test_bit, read, unpack_from, unpack}
use sylica.Ctype.Setting.{
  Found, Found-self, set_ok, read_bytes_ok, finish_ok, need, IsRead, IsUnpacked, number_fits,
}

-- A nested structure, from its own loop over FIELDS.
struct_ok :
    (kind : Kind) (fields : Fields) (index : ℕ) (buf : List ℕ) (offset : ℕ)
    → plain_class kind fields ≡ true
    → plain fields ≡ true
    → offset + width fields ≤ length buf
    → IsUnpacked fields fields empty (slice buf offset (offset + width fields)) 0
    → IsRead (struct kind fields) none index buf offset
unfolding read Stored safe type_width
struct_ok no_default_constructor fields index buf offset p q h r = unfold plain_class in cc
struct_ok inherited fields index buf offset p q h (d, e, st, keep) =
    let part : List ℕ = slice buf offset (offset + width fields) in
    let (d', g, st') =
      finish_ok inherited fields d part p (omega (arith, length-slice buf offset (width fields) h))
        st in
    (
      object fields d',
      rw (ctype_size-eq-width fields q, e, g),
      (d', refl, st', h),
      rw (ctype_size-eq-width fields q, (==_iff (width fields) (width fields)).1 refl),
    )
struct_ok overridden fields index buf offset p q h (d, e, st, keep) =
    let part : List ℕ = slice buf offset (offset + width fields) in
    let (d', g, st') =
      finish_ok overridden fields d part p (omega (arith, length-slice buf offset (width fields) h))
        st in
    (
      object fields d',
      rw (ctype_size-eq-width fields q, e, g),
      (d', refl, st', h),
      rw (ctype_size-eq-width fields q, (==_iff (width fields) (width fields)).1 refl),
    )

-- One turn of the loop.
field_ok :
    (all : Fields) (name : String) (type : FieldType) (size : Option ℕ) (index : ℕ) (rest : Fields)
    (d : Data) (buf : List ℕ) (offset : ℕ)
    → fresh name rest ≡ true
    → Found all (field name type size index rest)
    → IsRead type size index buf offset
    → ((v : Value) → IsUnpacked all rest (entry name v d) buf (offset + type_width type size))
    → IsUnpacked all (field name type size index rest) d buf offset
unfolding unpack_from Stored fresh
field_ok all name type size index rest d buf offset f found (v, e, st, fits) next =
    let (d', g, st', keep) = next v in
    (
      d',
      rw (e, found.0 v d, set_ok name type size index v d fits, g),
      (rw (keep name f, value-entry_self name v d) st, st'),
      λ k h.
          let (n, g) = &&_split (not (str_eq name k)) (fresh k rest) h in
          keep k g ∙ value-entry_ne name k v d (ground arith),
    )

-- The bytes that a plain field needs are there, for a flag in the field behind it.
need-le :
    (type : FieldType) (size : Option ℕ) (after : ℕ)
    → plain_type type size after ≡ true
    → need type size ≤ type_width type size + after
unfolding plain_type type_width
need-le bool none after p = omega (arith, leb→le 1 after p)
need-le bool (some n) after p = cc
need-le u8 size after p = omega arith
need-le u16 size after p = omega arith
need-le u32 size after p = omega arith
need-le u64 size after p = omega arith
need-le array size after p = omega arith
need-le custom size after p = omega arith
need-le (struct kind fields) size after p = omega arith

mutual
  unfolding read Stored safe plain_type type_width unpack_from to_bigint plain_class

  pub field-IsRead :
      (type : FieldType) (size : Option ℕ) (index after : ℕ) (buf : List ℕ) (offset : ℕ)
      → plain_type type size after ≡ true
      → IsBytes buf
      → offset + need type size ≤ length buf
      → IsRead type size index buf offset
  field-IsRead u8 none index after buf offset p b h = (
    num (decode_le (take 1 (drop offset buf))),
    rw (get_le_ok 1 buf offset h),
    (refl, h),
    rw (lt→ltb (decode_le (take 1 (drop offset buf))) (2 ^ 8) (number_fits 1 buf offset b h)),
  )
  field-IsRead u8 (some n) index after buf offset p b h = cc
  field-IsRead u16 none index after buf offset p b h = (
    num (decode_le (take 2 (drop offset buf))),
    rw (get_le_ok 2 buf offset h),
    (refl, h),
    rw (lt→ltb (decode_le (take 2 (drop offset buf))) (2 ^ 16) (number_fits 2 buf offset b h)),
  )
  field-IsRead u16 (some n) index after buf offset p b h = cc
  field-IsRead u32 none index after buf offset p b h = (
    num (decode_le (take 4 (drop offset buf))),
    rw (get_le_ok 4 buf offset h),
    (refl, h),
    rw (lt→ltb (decode_le (take 4 (drop offset buf))) (2 ^ 32) (number_fits 4 buf offset b h)),
  )
  field-IsRead u32 (some n) index after buf offset p b h = cc
  field-IsRead u64 none index after buf offset p b h = (
    num (decode_le (take 8 (drop offset buf))),
    rw (get_le_ok 8 buf offset h),
    (refl, h),
    rw (lt→ltb (decode_le (take 8 (drop offset buf))) (2 ^ 64) (number_fits 8 buf offset b h)),
  )
  field-IsRead u64 (some n) index after buf offset p b h = cc
  field-IsRead bool none index after buf offset p b h = (
    flag (test_bit (decode_le (take 1 (drop offset buf))) index),
    rw (get_le_ok 1 buf offset h),
    tt,
    refl,
  )
  field-IsRead bool (some n) index after buf offset p b h = cc
  field-IsRead array none index after buf offset p b h = cc
  field-IsRead array (some n) index after buf offset p b h =
      (bytes (take n (drop offset buf)), rw (read_bytes_ok n buf offset h), (refl, h), refl)
  field-IsRead custom none index after buf offset p b h = cc
  field-IsRead custom (some zero) index after buf offset p b h = (view buf, refl, refl, refl)
  field-IsRead custom (some (suc n)) index after buf offset p b h = cc
  field-IsRead (struct inherited fields) (some n) index after buf offset p b h = cc
  field-IsRead (struct overridden fields) (some n) index after buf offset p b h = cc
  field-IsRead (struct no_default_constructor fields) (some n) index after buf offset p b h = cc
  field-IsRead (struct inherited fields) none index after buf offset p b h =
      struct_ok inherited fields index buf offset p p h (
        unpack_from_ok fields fields empty (slice buf offset (offset + width fields)) 0 p
          (Found-self fields p) (slice-IsBytes buf offset (offset + width fields) b)
          (omega (arith, length-slice buf offset (width fields) h)))
  field-IsRead (struct overridden fields) none index after buf offset p b h =
      let q = (&&_split (has_signer fields) (plain fields) p).1 in
      struct_ok overridden fields index buf offset p q h (
        unpack_from_ok fields fields empty (slice buf offset (offset + width fields)) 0 q
          (Found-self fields q) (slice-IsBytes buf offset (offset + width fields) b)
          (omega (arith, length-slice buf offset (width fields) h)))
  field-IsRead (struct no_default_constructor fields) none index after buf offset p b h = cc

  unpack_from_ok :
      (all rest : Fields) (d : Data) (buf : List ℕ) (offset : ℕ)
      → plain rest ≡ true
      → Found all rest
      → IsBytes buf
      → offset + width rest ≤ length buf
      → IsUnpacked all rest d buf offset
  unpack_from_ok all end d buf offset p f b h = (d, refl, tt, λ k e. refl)
  unpack_from_ok all (field name type size index rest) d buf offset p f b h =
      let (q, fr, r) = plain_field name type size index rest p in
      field_ok all name type size index rest d buf offset fr f
        (field-IsRead type size index (width rest) buf offset q b
          (omega (arith, need-le type size (width rest) q)))
        (λ v.
          unpack_from_ok all rest (entry name v d) buf (offset + type_width type size) r f.1 b
            (omega arith))

-- From the loop to `unpack` itself.
finish-unpack :
    (kind : Kind) (fields : Fields) (buf : List ℕ)
    → plain_class kind fields ≡ true
    → width fields ≤ length buf
    → IsUnpacked fields fields empty buf 0
    → (d : Data) × (unpack kind fields buf ≡ ok (object fields d))
      × StoredAll IsInert fields d buf 0
unfolding unpack
finish-unpack inherited fields buf p h (d, e, st, keep) =
    let (d', g, st') = finish_ok inherited fields d buf p h st in (d', rw (e, g), st')
finish-unpack overridden fields buf p h (d, e, st, keep) =
    let (d', g, st') = finish_ok overridden fields d buf p h st in (d', rw (e, g), st')
finish-unpack no_default_constructor fields buf p h r = unfold plain_class in cc

pub plain_class-plain :
    (kind : Kind) (fields : Fields) → plain_class kind fields ≡ true → plain fields ≡ true
unfolding plain_class
plain_class-plain inherited fields p = p
plain_class-plain overridden fields p = (&&_split (has_signer fields) (plain fields) p).1
plain_class-plain no_default_constructor fields p = cc

-- `unpack` of a plain class, on enough bytes.
pub unpack_ok :
    (kind : Kind) (fields : Fields) (buf : List ℕ)
    → plain_class kind fields ≡ true
    → IsBytes buf
    → width fields ≤ length buf
    → (d : Data) × (unpack kind fields buf ≡ ok (object fields d))
      × StoredAll IsInert fields d buf 0
unpack_ok kind fields buf p b h =
    let q = plain_class-plain kind fields p in
    finish-unpack kind fields buf p h
      (unpack_from_ok fields fields empty buf 0 q (Found-self fields q) b (omega arith))
