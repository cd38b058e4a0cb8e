-- ===== src/Ctype.antt =====
-- tools/measure-browser/static/binutil.js, the class `ctype`: descriptions of binary structures
-- and the values that they hold.
pub mod Size
pub mod Unpack
pub mod Pack
pub mod Layout
pub mod Stored
pub mod Setting
pub mod Reading
pub mod Truncated
pub mod Writing
pub mod RoundTrip
pub mod Filled
pub mod Located
use sylica.Base.{ℕ, String, List, Option, none, some, Bool, false, [], ◌==◌, if◌then◌else◌, str_eq}

-- What a class does beside inheriting from `ctype`: `overridden` is `ReportFlags`, whose own
-- `unpack` extends the inherited one, and the
-- constructor of a `no_default_constructor` class throws when `unpack` calls it with no argument.
pub data Kind : Type 0 where
  inherited overridden no_default_constructor : Kind

-- An entry of FIELDS is `{name, type, size, index}`. `array` is the type `undefined`, and
-- `struct` is a class, given by its kind and its own FIELDS.
mutual
  pub data FieldType : Type 0 where
    u8 u16 u32 u64 bool array custom : FieldType
    struct : Kind → Fields → FieldType

  pub data Fields : Type 0 where
    end : Fields
    field : String → FieldType → Option ℕ → ℕ → Fields → Fields

-- The notation of the FIELDS lists.
infixr 67 ◌▸◌
abbrev pub ◌▸◌ : (Fields → Fields) → Fields → Fields
f ▸ rest = f rest

-- `{name, type}`
abbrev pub typed : String → FieldType → Fields → Fields
typed name type = field name type none 0

-- `{name, size}`
abbrev pub sized : String → ℕ → Fields → Fields
sized name size = field name array (some size) 0

-- `{name, size, type: "custom"}`
abbrev pub custom_sized : String → ℕ → Fields → Fields
custom_sized name size = field name custom (some size) 0

-- `{name, type: "bool", index}`
abbrev pub bit : String → ℕ → Fields → Fields
bit name index = field name bool none index

-- The two results of `ReportFlags.unpack`.
pub data Signer : Type 0 where
  vcek vlek : Signer

-- JavaScript values. `bytes` is a Uint8Array, `buffer` an ArrayBuffer, `view` a DataView and
-- `object` an instance of a class with its FIELDS and its member `data`, last assignment first.
mutual
  pub data Value : Type 0 where
    undefined : Value
    num : ℕ → Value
    flag : Bool → Value
    bytes buffer view : List ℕ → Value
    signing_key : Signer → Value
    object : Fields → Data → Value

  pub data Data : Type 0 where
    empty : Data
    entry : String → Value → Data → Data

-- `this.data[name]`, which is the method `value` too.
unfoldable pub value : String → Data → Value
value name empty = undefined
value name (entry k v d) = if str_eq k name then v else value name d

-- `object.value(name)` from outside, and a member that is known to be a number. What every caller
-- reads in this way was set by `unpack` from a number field.
unfoldable pub member : String → Value → Value
member name (object fields d) = value name d
member name _ = undefined

unfoldable pub number : Value → ℕ
number (num n) = n
number _ = 0

unfoldable pub byte_array : Value → List ℕ
byte_array (bytes bs) = bs
byte_array _ = []

-- `v === n` of a value and a number.
unfoldable pub is_number : Value → ℕ → Bool
is_number (num m) n = m == n
is_number _ n = false
