-- ===== src/Ctype/Pack.antt =====
-- binutil.js: the method `pack` of the class `ctype`.
use sylica.Base.{
  ℕ, ◌+◌, String, Option, none, some, List, [], ◌∷◌, true, str_eq, if◌then◌else◌, Result, ok, err,
  ◌>>=◌, type_error, missing_field, encode_le, set_bytes, replicate,
}
use sylica.Ctype.{
  FieldType, Fields, u8, u16, u32, u64, bool, array, custom, struct, end, field, Value, undefined,
  num, flag, bytes, buffer, view, signing_key, object, Data, empty, entry, value,
}
use sylica.Ctype.Size.{ctype_size}
use sylica.Ctype.Unpack.{to_bigint}

-- The number that a DataView setter makes of a value; what is no number counts as 0.
unfoldable pub to_number : Value → ℕ
to_number (num n) = n
to_number (flag true) = 1
to_number (bytes (b ∷ [])) = b
to_number _ = 0

-- `BigInt(v ?? 0)`
unfoldable pub to_bigint_or_zero : Value → Result ℕ
to_bigint_or_zero undefined = ok 0
to_bigint_or_zero v = to_bigint v

-- The elements that `TypedArray.set` takes from its argument. Neither an ArrayBuffer, a DataView
-- nor an object has a `length`, and the four letters of a text are no numbers, so they give 0.
unfoldable pub elements : Value → Result (List ℕ)
elements undefined = err type_error
elements (bytes bs) = ok bs
elements (signing_key s) = ok (replicate 4 0)
elements _ = ok []

-- `field.size`, which is there wherever `ctype.size` has not thrown.
abbrev pub size_or_zero : Option ℕ → ℕ
size_or_zero none = 0
size_or_zero (some n) = n

-- The size that a nested object adds to `offset`.
object_size : Value → Result ℕ
object_size (object constructor d) = ctype_size constructor
object_size _ = err type_error

-- `this.data[field.name].pack()`, from the table of the packed members.
unfoldable pub packed : String → List (String × Result (List ℕ)) → Result (List ℕ)
packed name [] = err type_error
packed name ((k, p) ∷ ps) = if str_eq k name then p else packed name ps

-- `undefined` is replaced by `size` zero bytes.
write_array : Value → ℕ → List ℕ → ℕ → Result (List ℕ)
write_array undefined size arr offset = set_bytes arr offset (replicate size 0)
write_array v size arr offset = do bs ← elements v; set_bytes arr offset bs

write_object : Value → Result (List ℕ) → List ℕ → ℕ → Result (List ℕ × ℕ)
unfolding object_size
write_object undefined p arr offset = err missing_field
write_object v p arr offset = do
  bs ← p
  arr' ← set_bytes arr offset bs
  n ← object_size v
  ok (arr', offset + n)

-- One turn of the switch in `pack`: the array and `offset` after it.
unfoldable pub write :
    FieldType → Option ℕ → Value → Result (List ℕ) → List ℕ → ℕ → Result (List ℕ × ℕ)
unfolding write_array write_object
write u8 size v p arr offset = do
  arr' ← set_bytes arr offset (encode_le 1 (to_number v))
  ok (arr', offset + 1)
write u16 size v p arr offset = do
  arr' ← set_bytes arr offset (encode_le 2 (to_number v))
  ok (arr', offset + 2)
write u32 size v p arr offset = do
  arr' ← set_bytes arr offset (encode_le 4 (to_number v))
  ok (arr', offset + 4)
write u64 size v p arr offset = do
  n ← to_bigint_or_zero v
  arr' ← set_bytes arr offset (encode_le 8 n)
  ok (arr', offset + 8)
write bool size v p arr offset = ok (arr, offset)
write array size v p arr offset = do
  arr' ← write_array v (size_or_zero size) arr offset
  ok (arr', offset + size_or_zero size)
write custom size v p arr offset = do
  bs ← elements v
  arr' ← set_bytes arr offset bs
  ok (arr', offset + size_or_zero size)
write (struct kind fields) size v p arr offset = write_object v p arr offset

-- The loop over FIELDS.
unfoldable pub write_fields :
    Fields → Data → List (String × Result (List ℕ)) → List ℕ → ℕ → Result (List ℕ)
write_fields end d ps arr offset = ok arr
write_fields (field name type size index rest) d ps arr offset = do
  (arr', offset') ← write type size (value name d) (packed name ps) arr offset
  write_fields rest d ps arr' offset'

-- `pack()` of a value, and of each member: it recurs on the object, since the class of a nested
-- value is the value's own constructor. A value that is no object has no such method.
unfoldable mutual
  pub pack : Value → Result (List ℕ)
  pack (object fields d) = do
    n ← ctype_size fields
    write_fields fields d (pack_members d) (replicate n 0) 0
  pack undefined = err type_error
  pack (num n) = err type_error
  pack (flag b) = err type_error
  pack (bytes bs) = err type_error
  pack (buffer bs) = err type_error
  pack (view bs) = err type_error
  pack (signing_key s) = err type_error

  pub pack_members : Data → List (String × Result (List ℕ))
  pack_members empty = []
  pack_members (entry name v d) = (name, pack v) ∷ pack_members d
