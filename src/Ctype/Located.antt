-- ===== src/Ctype/Located.antt =====
-- Where a member of an object stands in the bytes that it was read from.
use sylica.Base.{
  ℕ, ◌+◌, ◌≤◌, ◌≡◌, sym, subst, String, Option, none, some, List, true, false, str_eq, str_eq_iff,
  Bool-cases, inl, inr, length, take, drop,
}
use sylica.Ctype.{
  FieldType, Fields, u8, u16, u32, u64, bool, array, custom, struct, end, field, Value, bytes, Data,
  value,
}
use native.Mathlib.Decide.{dec_le}
use sylica.Base.{ap, ok, arith, IsBytes}
use sylica.Ctype.{inherited, object, member, byte_array}
use sylica.Ctype.Size.{ctype_size}
use sylica.Ctype.Unpack.{unpack}
use sylica.Ctype.Reading.{unpack_ok}
use sylica.Ctype.RoundTrip.{unpack_truncated, ctype_size-width}
use sylica.Ctype.Stored.{IsInert}
use sylica.Ctype.Layout.{type_width, plain_class}
use sylica.Ctype.Stored.{Stored, StoredAll}

-- The size and the offset of an array.
unfoldable pub array_size : FieldType → Option ℕ → Option ℕ
array_size array size = size
array_size u8 size = none
array_size u16 size = none
array_size u32 size = none
array_size u64 size = none
array_size bool size = none
array_size custom size = none
array_size (struct kind fields) size = none

-- Whether a class has an array of `n` bytes of this name `offset` bytes behind `start`.
unfoldable pub IsLocated : Fields → String → ℕ → ℕ → ℕ → Type 0
IsLocated end name start n offset = ⊥
IsLocated (field key type size index rest) name start n offset = elim (str_eq key name) [
  | true ↦ (array_size type size ≡ some n) × (offset ≡ start)
  | false ↦ IsLocated rest name (start + type_width type size) n offset
]

array-Stored :
    (C : List ℕ → Value → Type 0) (type : FieldType) (size : Option ℕ) (v : Value) (buf : List ℕ)
    (offset n : ℕ)
    → array_size type size ≡ some n
    → Stored C type size v buf offset
    → (v ≡ bytes (take n (drop offset buf))) × (offset + n ≤ length buf)
unfolding array_size Stored
array-Stored C array none v buf offset n h s = cc
array-Stored C array (some m) v buf offset n h s =
    let e : m ≡ n = cc (h) in
    subst (λ k. (v ≡ bytes (take k (drop offset buf))) × (offset + k ≤ length buf)) e s
array-Stored C u8 size v buf offset n h s = cc
array-Stored C u16 size v buf offset n h s = cc
array-Stored C u32 size v buf offset n h s = cc
array-Stored C u64 size v buf offset n h s = cc
array-Stored C bool size v buf offset n h s = cc
array-Stored C custom size v buf offset n h s = cc
array-Stored C (struct kind fields) size v buf offset n h s = cc

-- An array holds the bytes at its place.
pub located_bytes :
    (C : List ℕ → Value → Type 0) (fields : Fields) (name : String) (d : Data) (buf : List ℕ)
    (start n offset : ℕ)
    → IsLocated fields name start n offset
    → StoredAll C fields d buf start
    → (value name d ≡ bytes (take n (drop offset buf))) × (offset + n ≤ length buf)
unfolding IsLocated StoredAll
located_bytes C end name d buf start n offset h s = elim h [ ]
located_bytes C (field key type size index rest) name d buf start n offset h (s, ss) =
    elim (Bool-cases (str_eq key name)) [
      | inl same ↦
          let (w, o) = rw (IsLocated, same) at h in
          let s' =
            subst (λ x. Stored C type size (value x d) buf start) ((str_eq_iff key name).0 same)
              s in
          subst (λ k. (value name d ≡ bytes (take n (drop k buf))) × (k + n ≤ length buf)) (sym o)
            (array-Stored C type size (value name d) buf start n w s')
      | inr other ↦
          located_bytes C rest name d buf (start + type_width type size) n offset
            (rw (IsLocated, other) at h) ss
    ]

-- What `unpack` reads for an array.
pub unpack-IsLocated :
    (fields : Fields) (n : ℕ) (buf : List ℕ) (name : String) (k offset : ℕ) {v : Value}
    → plain_class inherited fields ≡ true
    → ctype_size fields ≡ ok n
    → IsBytes buf
    → IsLocated fields name 0 k offset
    → unpack inherited fields buf ≡ ok v
    → (byte_array (member name v) ≡ take k (drop offset buf)) × (n ≤ length buf)
unfolding member byte_array
unpack-IsLocated fields n buf name k offset {v} p s b h u = elim (dec_le n (length buf)) [
  | yes fits ↦
      let (d, e, st) =
        unpack_ok inherited fields buf p b (omega (arith, ctype_size-width inherited fields p s)) in
      let same : v ≡ object fields d = cc (u, e) in
      let (w, _) = located_bytes IsInert fields name d buf 0 k offset h st in
      rw same (ap byte_array w, fits)
  | no short ↦ absurd (cc (u, unpack_truncated inherited fields n buf p s b (omega arith)))
]
