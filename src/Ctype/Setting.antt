-- ===== src/Ctype/Setting.antt =====
-- What `set` accepts, and what a field needs of the buffer: binutil.js, `safe` and `set`.
use sylica.Base.{
  ℕ, zero, suc, ◌+◌, ◌^◌, ◌≤◌, ◌≡◌, refl, String, Option, none, some, List, true, false, not,
  str_eq, str_eq_iff, str_eq_refl, length, take, drop, decode_le, decode_le-lt, IsBytes, All-take,
  All-drop, length-take, length-drop, get_le_ok, take-drop-suc, leb→le, ok, &&_split, arith, ◌==◌,
  Bool-cases, inl, inr, if◌then◌else◌, IsByte, ◌/◌, ◌<◌,
}
use sylica.Ctype.{
  Kind, inherited, overridden, no_default_constructor, FieldType, Fields, u8, u16, u32, u64, bool,
  array, custom, struct, end, field, Value, signing_key, object, Data, entry, value, vcek, vlek,
  Signer,
}
use sylica.Ctype.Layout.{
  type_width, width, fresh, has_signer, is_empty_custom, plain_type, plain, plain_class,
  plain_field,
}
use sylica.Ctype.Stored.{
  Stored, StoredAll, IsInert, IsView, StoredAll-IsInert, StoredAll-signer, StoredAll-view,
}
use sylica.Ctype.Unpack.{safe, set, set_signer, finish, read_bytes, read, unpack_from}

-- `set` finds each field of `rest` in `all`.
abbrev pub Found : Fields → Fields → Type 0
Found all end = Unit
Found all (field name type size index rest) =
    ((v : Value) (d : Data) → set all name v d ≡ set (field name type size index end) name v d)
    × Found all rest

Found-behind :
    (name : String) (type : FieldType) (size : Option ℕ) (index : ℕ) (all rest : Fields)
    → fresh name rest ≡ true
    → Found all rest
    → Found (field name type size index all) rest
unfolding set fresh
Found-behind name type size index all end f h = tt
Found-behind name type size index all (field k t s i rest) f h =
    let (n, g) = &&_split (not (str_eq k name)) (fresh name rest) f in
    let ne : str_eq name k ≡ false = ground (arith, str_eq_iff name k, str_eq_iff k name) in
    (λ v d. rw ne (h.0 v d), Found-behind name type size index all rest g h.1)

pub Found-self : (fields : Fields) → plain fields ≡ true → Found fields fields
unfolding set
Found-self end h = tt
Found-self (field name type size index rest) h =
    let (p, f, q) = plain_field name type size index rest h in
    (
      λ v d. rw (str_eq_refl name),
      Found-behind name type size index rest rest f (Found-self rest q),
    )

pub set_ok :
    (name : String) (type : FieldType) (size : Option ℕ) (index : ℕ) (v : Value) (d : Data)
    → safe v type size ≡ ok true
    → set (field name type size index end) name v d ≡ ok (entry name v d)
unfolding set
set_ok name type size index v d h = rw (str_eq_refl name, h)

pub read_bytes_ok :
    (n : ℕ) (buf : List ℕ) (offset : ℕ)
    → offset + n ≤ length buf
    → read_bytes n buf offset ≡ ok (take n (drop offset buf))
unfolding read_bytes take
read_bytes_ok zero buf offset h = refl
read_bytes_ok (suc n) buf offset h = rw (
  get_le_ok 1 buf offset (omega arith),
  read_bytes_ok n buf (offset + 1) (omega arith),
  ← take-drop-suc n offset buf (omega arith),
)

length-take-drop :
    (n offset : ℕ) (buf : List ℕ) → offset + n ≤ length buf → length (take n (drop offset buf)) ≡ n
length-take-drop n offset buf h =
    omega (arith, length-take n (drop offset buf), length-drop offset buf)

empty_custom-after :
    (type : FieldType) (size : Option ℕ) (after : ℕ)
    → is_empty_custom type size ≡ true
    → plain_type type size after ≡ true
    → 4 ≤ after
unfolding plain_type
empty_custom-after custom (some zero) after e h = leb→le 4 after h
empty_custom-after custom none after e h = cc
empty_custom-after custom (some (suc n)) after e h = cc
empty_custom-after u8 size after e h = cc
empty_custom-after u16 size after e h = cc
empty_custom-after u32 size after e h = cc
empty_custom-after u64 size after e h = cc
empty_custom-after bool size after e h = cc
empty_custom-after array size after e h = cc
empty_custom-after (struct kind fields) size after e h = cc

has_signer-width :
    (fields : Fields) → plain fields ≡ true → has_signer fields ≡ true → 4 ≤ width fields
unfolding has_signer width
has_signer-width end p k = cc
has_signer-width (field name type size index rest) p k =
    let (q, f, r) = plain_field name type size index rest p in
    elim (Bool-cases (str_eq name "signing_key")) [
      | inl e ↦ omega (arith, empty_custom-after type size (width rest) (rw e at k) q)
      | inr ne ↦ omega (arith, has_signer-width rest r (rw ne at k))
    ]

safe-signing_key :
    (type : FieldType) (size : Option ℕ) (s : Signer)
    → is_empty_custom type size ≡ true
    → safe (signing_key s) type size ≡ ok true
unfolding safe
safe-signing_key custom (some n) s e = refl
safe-signing_key custom none s e = cc
safe-signing_key u8 size s e = cc
safe-signing_key u16 size s e = cc
safe-signing_key u32 size s e = cc
safe-signing_key u64 size s e = cc
safe-signing_key bool size s e = cc
safe-signing_key array size s e = cc
safe-signing_key (struct kind fields) size s e = cc

set-signing_key :
    (fields : Fields) (s : Signer) (d : Data)
    → has_signer fields ≡ true
    → set fields "signing_key" (signing_key s) d ≡ ok (entry "signing_key" (signing_key s) d)
unfolding set has_signer
set-signing_key end s d k = cc
set-signing_key (field name type size index rest) s d k =
    elim (Bool-cases (str_eq name "signing_key")) [
      | inl e ↦ rw (e, safe-signing_key type size s (rw e at k))
      | inr ne ↦ rw ne (set-signing_key rest s d (rw ne at k))
    ]

-- The end of `unpack`: of the two kinds that construct, both return.
pub finish_ok :
    (kind : Kind) (fields : Fields) (d : Data) (buf : List ℕ)
    → plain_class kind fields ≡ true
    → width fields ≤ length buf
    → StoredAll IsView fields d buf 0
    → (d' : Data) × (finish kind fields d ≡ ok (object fields d'))
      × StoredAll IsInert fields d' buf 0
unfolding finish plain_class set_signer
finish_ok inherited fields d buf p h st = (d, refl, StoredAll-IsInert fields d buf 0 st)
finish_ok overridden fields d buf p h st =
    let (k, q) = &&_split (has_signer fields) (plain fields) p in
    let s : Signer = if decode_le (take 1 (drop 0 buf)) / 4 == 0 then vcek else vlek in
    (
      entry "signing_key" (signing_key s) d,
      rw (
        StoredAll-view fields d buf 0 k st,
        get_le_ok 1 buf 0 (omega (arith, has_signer-width fields q k)),
        set-signing_key fields s d k,
      ),
      StoredAll-signer fields s d buf 0 q k (StoredAll-IsInert fields d buf 0 st),
    )
finish_ok no_default_constructor fields d buf p h st = cc

-- The bytes that a field needs: a flag takes none and reads one.
abbrev pub need : FieldType → Option ℕ → ℕ
need bool size = 1
need type size = type_width type size

-- A field that is read, and passes the test of `set`.
abbrev pub IsRead : FieldType → Option ℕ → ℕ → List ℕ → ℕ → Type 0
IsRead type size index buf offset =
    (v : Value) × (read type size index buf offset ≡ ok (v, type_width type size))
    × Stored IsView type size v buf offset
    × (safe v type size ≡ ok true)

abbrev pub IsUnpacked : Fields → Fields → Data → List ℕ → ℕ → Type 0
IsUnpacked all rest d buf offset =
    (d' : Data) × (unpack_from all rest d buf offset ≡ ok d')
    × StoredAll IsView rest d' buf offset
    × ((k : String) → fresh k rest ≡ true → value k d' ≡ value k d)

pub number_fits :
    (n : ℕ) (buf : List ℕ) (offset : ℕ)
    → IsBytes buf
    → offset + n ≤ length buf
    → decode_le (take n (drop offset buf)) < 256 ^ n
number_fits n buf offset b h =
    decode_le-lt n (take n (drop offset buf)) (length-take-drop n offset buf h)
      (All-take IsByte n (drop offset buf) (All-drop IsByte offset buf b))
