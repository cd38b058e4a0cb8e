-- ===== src/Ctype/Unpack.antt =====
-- binutil.js: `safe`, and of the class `ctype` the methods `set`, `flag` and `unpack`; types.js:
-- `ReportFlags.unpack`.
use sylica.Base.{
  ℕ, zero, suc, ◌+◌, ◌/◌, ◌%◌, ◌^◌, String, Option, none, some, List, [], ◌∷◌, Bool, true, false,
  str_eq, ltb, ◌==◌, if◌then◌else◌, Result, ok, err, ◌>>=◌, ◌>>◌, type_error, syntax_error,
  invalid_value, invalid_type, get_le, slice, drop, take,
}
use sylica.Ctype.{
  Kind, inherited, overridden, no_default_constructor, FieldType, Fields, u8, u16, u32, u64, bool,
  array, custom, struct, end, field, vcek, vlek, Value, undefined, num, flag, bytes, buffer, view,
  signing_key, object, Data, empty, entry, value,
}
use sylica.Ctype.Size.{ctype_size}

-- `BigInt(v)`. An array is converted through its text, the elements with commas between them.
unfoldable pub to_bigint : Value → Result ℕ
to_bigint undefined = err type_error
to_bigint (num n) = ok n
to_bigint (flag true) = ok 1
to_bigint (flag false) = ok 0
to_bigint (bytes []) = ok 0
to_bigint (bytes (b ∷ [])) = ok b
to_bigint (bytes (b ∷ c ∷ bs)) = err syntax_error
to_bigint (buffer bs) = err syntax_error
to_bigint (view bs) = err syntax_error
to_bigint (signing_key s) = err syntax_error
to_bigint (object fields d) = err syntax_error

-- `typeof v === "boolean"`
abbrev is_boolean : Value → Bool
is_boolean (flag b) = true
is_boolean _ = false

-- `BigInt(value) < (1n << BigInt(bits))`
below : Value → ℕ → Result Bool
below v bits = do n ← to_bigint v; ok (ltb n (2 ^ bits))

-- `ctype.size(value.constructor) === ctype.size(type)`
same_size : Value → Fields → Result Bool
same_size (object constructor d) fields = do
  m ← ctype_size constructor
  n ← ctype_size fields
  ok (m == n)
same_size _ fields = err type_error

-- No value has a member `size`; reading it of `undefined` throws.
has_members : Value → Result Bool
has_members undefined = err type_error
has_members _ = ok true

-- `BigInt(value) < (1n << BigInt(undefined))`
never_below : Value → Result Bool
never_below v = do n ← to_bigint v; err type_error

unfoldable pub safe : Value → FieldType → Option ℕ → Result Bool
unfolding below same_size has_members never_below
safe v type (some size) = has_members v
safe v u8 none = below v 8
safe v u16 none = below v 16
safe v u32 none = below v 32
safe v u64 none = below v 64
safe v bool none = ok (is_boolean v)
safe v array none = err invalid_type
safe v custom none = never_below v
safe v (struct kind fields) none = same_size v fields

-- `set(name, value)`: a name that FIELDS lacks changes nothing.
unfoldable pub set : Fields → String → Value → Data → Result Data
set end name v d = ok d
set (field k type size index rest) name v d =
    if str_eq k name
    then (do fits ← safe v type size; if fits then ok (entry name v d) else err invalid_value)
    else set rest name v d

-- `ctype.flag(data, index)`
unfoldable pub test_bit : ℕ → ℕ → Bool
test_bit byte index = byte / 2 ^ index % 2 == 1

-- `flags.value("signing_key").getUint8(0)`
first_byte : Value → Result ℕ
first_byte (view bs) = get_le 1 bs 0
first_byte _ = err type_error

-- What `ReportFlags.unpack` adds to the `unpack` that it inherits.
unfoldable pub set_signer : Fields → Data → Result Data
unfolding first_byte
set_signer fields d = do
  raw ← first_byte (value "signing_key" d)
  set fields "signing_key" (signing_key (if raw / 4 == 0 then vcek else vlek)) d

unfoldable pub finish : Kind → Fields → Data → Result Value
finish inherited fields d = ok (object fields d)
finish overridden fields d = do d' ← set_signer fields d; ok (object fields d')
finish no_default_constructor fields d = err type_error

-- `new this()` comes first: where it throws nothing is read.
abbrev pub construct : Kind → Result (Unit {0})
construct no_default_constructor = err type_error
construct _ = ok tt

-- The loop that copies an array byte by byte: `count` bytes are left.
unfoldable pub read_bytes : ℕ → List ℕ → ℕ → Result (List ℕ)
read_bytes zero buf offset = ok []
read_bytes (suc count) buf offset = do
  b ← get_le 1 buf offset
  bs ← read_bytes count buf (offset + 1)
  ok (b ∷ bs)

-- `read` is one turn of the switch in `unpack`: the value for `out.set` and the step of `offset`.
-- `unpack_from` is the loop over the FIELDS that are left; `all` is the whole of FIELDS.
unfoldable mutual
  pub read : FieldType → Option ℕ → ℕ → List ℕ → ℕ → Result (Value × ℕ)
  read u8 size index buf offset = do n ← get_le 1 buf offset; ok (num n, 1)
  read u16 size index buf offset = do n ← get_le 2 buf offset; ok (num n, 2)
  read u32 size index buf offset = do n ← get_le 4 buf offset; ok (num n, 4)
  read u64 size index buf offset = do n ← get_le 8 buf offset; ok (num n, 8)
  read bool size index buf offset = do n ← get_le 1 buf offset; ok (flag (test_bit n index), 0)
  read array (some size) index buf offset = do bs ← read_bytes size buf offset; ok (bytes bs, size)
  read array none index buf offset = ok (bytes [], 0)
  read custom (some size) index buf offset =
      ok (if size == 0 then view buf else buffer (take size (drop offset buf)), size)
  read custom none index buf offset = ok (buffer (drop offset buf), 0)
  read (struct kind fields) size index buf offset = do
    n ← ctype_size fields
    construct kind
    d ← unpack_from fields fields empty (slice buf offset (offset + n)) 0
    v ← finish kind fields d
    ok (v, n)

  pub unpack_from : Fields → Fields → Data → List ℕ → ℕ → Result Data
  unpack_from all end d buf offset = ok d
  unpack_from all (field name type size index rest) d buf offset = do
    (v, step) ← read type size index buf offset
    d' ← set all name v d
    unpack_from all rest d' buf (offset + step)

-- `unpack(buffer)` of a class.
unfoldable pub unpack : Kind → Fields → List ℕ → Result Value
unfolding read finish set_signer
unpack kind fields buf = do
  construct kind
  d ← unpack_from fields fields empty buf 0
  finish kind fields d
