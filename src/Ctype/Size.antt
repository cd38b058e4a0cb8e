-- ===== src/Ctype/Size.antt =====
-- binutil.js: the function `size` and the static method `ctype.size`.
use sylica.Base.{ℕ, ◌+◌, ◌*◌, ◌/◌, ◌%◌, ◌≡◌, Option, none, some, arith}
use sylica.Base.{Result, ok, err, invalid_type, invalid_size, ◌>>=◌, ◌==◌, if◌then◌else◌}
use sylica.Ctype.{FieldType, Fields, u8, u16, u32, u64, bool, array, custom, struct, end, field}

-- The last two lines of `ctype.size`: bits to bytes.
unfoldable pub whole_bytes : ℕ → Result ℕ
whole_bytes bits = if bits % 8 == 0 then ok (bits / 8) else err invalid_size

pub whole_bytes_mul : (n : ℕ) → whole_bytes (n * 8) ≡ ok n
unfolding whole_bytes
whole_bytes_mul n = ground arith

-- `size(type, size)` and the sum over FIELDS, in bits.
unfoldable mutual
  pub bit_size : FieldType → Option ℕ → Result ℕ
  bit_size type (some size) = ok (size * 8)
  bit_size u8 none = ok 8
  bit_size u16 none = ok 16
  bit_size u32 none = ok 32
  bit_size u64 none = ok 64
  bit_size bool none = ok 0
  bit_size array none = err invalid_type
  bit_size custom none = err invalid_type
  bit_size (struct kind fields) none = do bits ← sum_bits fields; n ← whole_bytes bits; ok (n * 8)

  pub sum_bits : Fields → Result ℕ
  sum_bits end = ok 0
  sum_bits (field name type size index rest) = do
    bits ← bit_size type size
    more ← sum_bits rest
    ok (bits + more)

-- `ctype.size(type)`
unfoldable pub ctype_size : Fields → Result ℕ
unfolding sum_bits whole_bytes
ctype_size fields = sum_bits fields >>= whole_bytes
