-- ===== src/Ctype/Layout.antt =====
-- The layouts that `unpack` and `pack` treat alike: every field has its own name, a number or a
-- nested structure has no explicit size, a flag is followed by bytes that hold it, and the only
-- custom field has size 0 and stands in front of four bytes or more.
use sylica.Base.{
  ℕ, zero, suc, ◌+◌, ◌*◌, ◌≡◌, refl, ap, String, Option, none, some, Bool, true, false, not, ◌&&◌,
  str_eq, leb, if◌then◌else◌, ok, &&_split, arith,
}
use sylica.Ctype.{
  Kind, inherited, overridden, no_default_constructor, FieldType, Fields, u8, u16, u32, u64, bool,
  array, custom, struct, end, field,
}
use sylica.Ctype.Size.{bit_size, sum_bits, ctype_size, whole_bytes_mul}

abbrev size_width : Option ℕ → ℕ
size_width none = 0
size_width (some n) = n

-- The bytes that a field, and a whole structure, takes.
unfoldable mutual
  pub type_width : FieldType → Option ℕ → ℕ
  type_width u8 size = 1
  type_width u16 size = 2
  type_width u32 size = 4
  type_width u64 size = 8
  type_width bool size = 0
  type_width array size = size_width size
  type_width custom size = size_width size
  type_width (struct kind fields) size = width fields

  pub width : Fields → ℕ
  width end = 0
  width (field name type size index rest) = type_width type size + width rest

-- No field of this name.
unfoldable pub fresh : String → Fields → Bool
fresh name end = true
fresh name (field k type size index rest) = not (str_eq k name) && fresh name rest

abbrev pub is_empty_custom : FieldType → Option ℕ → Bool
is_empty_custom custom (some zero) = true
is_empty_custom _ _ = false

-- The field "signing_key" is there, custom and of size 0.
unfoldable pub has_signer : Fields → Bool
has_signer end = false
has_signer (field k type size index rest) =
    if str_eq k "signing_key" then is_empty_custom type size else has_signer rest

-- `after` is the number of bytes that follow the field.
unfoldable mutual
  pub plain_type : FieldType → Option ℕ → ℕ → Bool
  plain_type u8 none after = true
  plain_type u16 none after = true
  plain_type u32 none after = true
  plain_type u64 none after = true
  plain_type bool none after = leb 1 after
  plain_type array (some n) after = true
  plain_type custom (some zero) after = leb 4 after
  plain_type (struct inherited fields) none after = plain fields
  plain_type (struct overridden fields) none after = has_signer fields && plain fields
  plain_type _ _ after = false

  pub plain : Fields → Bool
  plain end = true
  plain (field name type size index rest) =
      plain_type type size (width rest) && (fresh name rest && plain rest)

-- The kinds whose `unpack` can return.
unfoldable pub plain_class : Kind → Fields → Bool
plain_class inherited fields = plain fields
plain_class overridden fields = has_signer fields && plain fields
plain_class no_default_constructor fields = false

-- What `plain` says of the first field.
pub plain_field :
    (name : String) (type : FieldType) (size : Option ℕ) (index : ℕ) (rest : Fields)
    → plain (field name type size index rest) ≡ true
    → (plain_type type size (width rest) ≡ true) × (fresh name rest ≡ true) × (plain rest ≡ true)
unfolding plain
plain_field name type size index rest h =
    let (p, q) = &&_split (plain_type type size (width rest)) (fresh name rest && plain rest) h in
    let (f, r) = &&_split (fresh name rest) (plain rest) q in (p, f, r)

-- Of a plain layout, `ctype.size` is the width.
mutual
  unfolding bit_size plain_type type_width

  bit_size-eq :
      (type : FieldType) (size : Option ℕ) (after : ℕ)
      → plain_type type size after ≡ true
      → bit_size type size ≡ ok (type_width type size * 8)
  bit_size-eq u8 none after h = refl
  bit_size-eq u8 (some n) after h = cc
  bit_size-eq u16 none after h = refl
  bit_size-eq u16 (some n) after h = cc
  bit_size-eq u32 none after h = refl
  bit_size-eq u32 (some n) after h = cc
  bit_size-eq u64 none after h = refl
  bit_size-eq u64 (some n) after h = cc
  bit_size-eq bool none after h = refl
  bit_size-eq bool (some n) after h = cc
  bit_size-eq array none after h = cc
  bit_size-eq array (some n) after h = refl
  bit_size-eq custom none after h = cc
  bit_size-eq custom (some zero) after h = refl
  bit_size-eq custom (some (suc n)) after h = cc
  bit_size-eq (struct inherited fields) none after h = rw (sum_bits-eq fields h, whole_bytes_mul)
  bit_size-eq (struct overridden fields) none after h =
      rw (sum_bits-eq fields (&&_split (has_signer fields) (plain fields) h).1, whole_bytes_mul)
  bit_size-eq (struct no_default_constructor fields) none after h = cc
  bit_size-eq (struct inherited fields) (some n) after h = cc
  bit_size-eq (struct overridden fields) (some n) after h = cc
  bit_size-eq (struct no_default_constructor fields) (some n) after h = cc

  sum_bits-eq : (fields : Fields) → plain fields ≡ true → sum_bits fields ≡ ok (width fields * 8)
  sum_bits-eq end h = refl
  sum_bits-eq (field name type size index rest) h =
      let (p, f, q) = plain_field name type size index rest h in
      rw (bit_size-eq type size (width rest) p, sum_bits-eq rest q) (ap ok (omega arith))

pub ctype_size-eq-width :
    (fields : Fields) → plain fields ≡ true → ctype_size fields ≡ ok (width fields)
unfolding ctype_size
ctype_size-eq-width fields h = rw (sum_bits-eq fields h, whole_bytes_mul)
