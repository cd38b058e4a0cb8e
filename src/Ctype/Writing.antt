-- ===== src/Ctype/Writing.antt =====
-- `pack` of an object that holds the bytes of a buffer.
use sylica.Base.{
  ℕ, zero, suc, ◌+◌, ◌≤◌, ◌≡◌, refl, ap, String, Option, none, some, List, ◌++◌, inl, inr, true,
  str_eq, length, take, drop, take-add, replicate, replicate-add, length-replicate, length-take,
  length-drop, IsBytes, IsByte, All-take, All-drop, decode_le, encode_le, encode_le-decode_le,
  slice, slice_lem, slice-IsBytes, set_bytes, set_bytes_fill, Result, ok, append_assoc, arith,
  append-nil, leb→le, &&_split, take-take, ◌-◌, length-slice, Bool-cases, zero-add, add-zero,
}
use sylica.Ctype.{
  Kind, inherited, overridden, no_default_constructor, FieldType, Fields, u8, u16, u32, u64, bool,
  array, custom, struct, end, field, Value, object, Data, empty, entry, value,
}
use sylica.Ctype.Layout.{
  type_width, width, has_signer, plain_type, plain, plain_field, ctype_size-eq-width,
}
use sylica.Ctype.Stored.{Stored, StoredAll, IsInert}
use sylica.Ctype.Unpack.{to_bigint}
use sylica.Ctype.Pack.{
  to_number, to_bigint_or_zero, elements, packed, write, write_fields, pack, pack_members,
}

-- What `pack` has written when `m` bytes are left.
abbrev filled : List ℕ → ℕ → ℕ → List ℕ
filled buf offset m = take offset buf ++ replicate m 0

-- The next `n` bytes of the buffer.
set_next :
    (buf : List ℕ) (offset n m : ℕ)
    → offset + n ≤ length buf
    → set_bytes (filled buf offset (n + m)) offset (take n (drop offset buf))
      ≡ ok (filled buf (offset + n) m)
set_next buf offset n m h =
    let a : length (take offset buf) ≡ offset = omega (arith, length-take offset buf) in
    let b : length (take n (drop offset buf)) ≡ n =
      omega (arith, length-take n (drop offset buf), length-drop offset buf) in
    rw take-add (rw (a, b) at (set_bytes_fill (take offset buf) (take n (drop offset buf)) m))

-- A number that was read is written as the bytes that it was read from.
set_number :
    (buf : List ℕ) (offset n m : ℕ)
    → IsBytes buf
    → offset + n ≤ length buf
    → set_bytes
        (filled buf offset (n + m))
        offset
        (encode_le n (decode_le (take n (drop offset buf))))
      ≡ ok (filled buf (offset + n) m)
set_number buf offset n m b h =
    let same : encode_le n (decode_le (take n (drop offset buf))) ≡ take n (drop offset buf) =
      encode_le-decode_le n (take n (drop offset buf))
        (omega (arith, length-take n (drop offset buf), length-drop offset buf))
        (All-take IsByte n (drop offset buf) (All-drop IsByte offset buf b)) in
    rw same (set_next buf offset n m h)

-- Zeros change nothing where zeros are.
set_zeros :
    (buf : List ℕ) (offset n m : ℕ)
    → offset ≤ length buf
    → set_bytes (filled buf offset (n + m)) offset (replicate n 0) ≡ ok (filled buf offset (n + m))
set_zeros buf offset n m h =
    let a : length (take offset buf) ≡ offset = omega (arith, length-take offset buf) in
    rw (replicate-add {A = ℕ} n m 0) (
      rw (a, length-replicate {A = ℕ} n 0, replicate-add {A = ℕ} n m 0, append_assoc) at
        (set_bytes_fill (take offset buf) (replicate n 0) m))

-- The table of packed members has what `pack` makes of each.
packed-members : (name : String) (d : Data) → packed name (pack_members d) ≡ pack (value name d)
unfolding packed pack value
packed-members name empty = refl
packed-members name (entry k v d) = elim (Bool-cases (str_eq k name)) [
  | inl e ↦ rw e
  | inr ne ↦ rw ne (packed-members name d)
]

-- A write of a nested object, of whatever `pack` made of it.
write_object_ok :
    (kind : Kind) (fields : Fields) (d : Data) (buf : List ℕ) (offset m : ℕ)
    → plain fields ≡ true
    → offset + width fields ≤ length buf
    → pack (object fields d) ≡ ok (take (width fields) (slice buf offset (offset + width fields)))
    → write
        (struct kind fields)
        none
        (object fields d)
        (pack (object fields d))
        (filled buf offset (width fields + m))
        offset
      ≡ ok (filled buf (offset + width fields) m, offset + width fields)
unfolding write
write_object_ok kind fields d buf offset m p h e =
    let cut : take (width fields) (slice buf offset (offset + width fields))
        ≡ take (width fields) (drop offset buf) =
      rw slice_lem (take-take (width fields) (width fields) (drop offset buf) (omega arith)) in
    rw (e, cut, set_next buf offset (width fields) m h, ctype_size-eq-width fields p)

-- A field that stores nothing.
write_inert :
    (v : Value) (p : Result (List ℕ)) (buf : List ℕ) (offset m : ℕ)
    → 4 ≤ m
    → offset ≤ length buf
    → IsInert buf v
    → write custom (some 0) v p (filled buf offset m) offset
      ≡ ok (filled buf (offset + 0) m, offset + 0)
unfolding write elements replicate
write_inert v p buf offset m k h (inl e) =
    rw (add-zero offset, e) (rw (rw zero-add at (set_zeros buf offset 0 m h)))
write_inert v p buf offset m k h (inr (s, e)) =
    let four : 4 + (m - 4) ≡ m = omega arith in
    rw (add-zero offset, e) (rw (rw four at (set_zeros buf offset 4 (m - 4) h)))

-- `pack` from its loop.
pack_object :
    (fields : Fields) (d : Data) (buf : List ℕ)
    → plain fields ≡ true
    → write_fields fields d (pack_members d) (filled buf 0 (width fields)) 0
      ≡ ok (take (0 + width fields) buf)
    → pack (object fields d) ≡ ok (take (width fields) buf)
unfolding pack take
pack_object fields d buf p e = rw (ctype_size-eq-width fields p) (rw zero-add at e)

abbrev IsWritten : FieldType → Option ℕ → Value → List ℕ → ℕ → ℕ → Type 0
IsWritten type size v buf offset m =
    write type size v (pack v) (filled buf offset (type_width type size + m)) offset
    ≡ ok (filled buf (offset + type_width type size) m, offset + type_width type size)

mutual
  unfolding write Stored plain_type type_width to_bigint_or_zero to_bigint to_number elements
      write_fields StoredAll replicate

  write_ok :
      (type : FieldType) (size : Option ℕ) (v : Value) (buf : List ℕ) (offset m : ℕ)
      → plain_type type size m ≡ true
      → IsBytes buf
      → offset + (type_width type size + m) ≤ length buf
      → Stored IsInert type size v buf offset
      → IsWritten type size v buf offset m
  write_ok u8 size v buf offset m p b h st = rw (st.0, set_number buf offset 1 m b st.1)
  write_ok u16 size v buf offset m p b h st = rw (st.0, set_number buf offset 2 m b st.1)
  write_ok u32 size v buf offset m p b h st = rw (st.0, set_number buf offset 4 m b st.1)
  write_ok u64 size v buf offset m p b h st = rw (st.0, set_number buf offset 8 m b st.1)
  write_ok bool size v buf offset m p b h st = rw (zero-add m, add-zero offset)
  write_ok array none v buf offset m p b h st = cc
  write_ok array (some n) v buf offset m p b h st = rw (st.0, set_next buf offset n m st.1)
  write_ok custom none v buf offset m p b h st = cc
  write_ok custom (some zero) v buf offset m p b h st =
      rw zero-add (write_inert v (pack v) buf offset m (leb→le 4 m p) (omega arith) st)
  write_ok custom (some (suc n)) v buf offset m p b h st = cc
  write_ok (struct no_default_constructor fields) none v buf offset m p b h st = cc
  write_ok (struct inherited fields) (some n) v buf offset m p b h st = cc
  write_ok (struct overridden fields) (some n) v buf offset m p b h st = cc
  write_ok (struct no_default_constructor fields) (some n) v buf offset m p b h st = cc
  write_ok (struct inherited fields) none v buf offset m p b h (d, e, st, k) =
      let part : List ℕ = slice buf offset (offset + width fields) in
      rw e (
        write_object_ok inherited fields d buf offset m p k (
          pack_object fields d part p (
            write_fields_ok fields d part 0 p (slice-IsBytes buf offset (offset + width fields) b)
              (omega (arith, length-slice buf offset (width fields) k)) st)))
  write_ok (struct overridden fields) none v buf offset m p b h (d, e, st, k) =
      let part : List ℕ = slice buf offset (offset + width fields) in
      let q = (&&_split (has_signer fields) (plain fields) p).1 in
      rw e (
        write_object_ok overridden fields d buf offset m q k (
          pack_object fields d part q (
            write_fields_ok fields d part 0 q (slice-IsBytes buf offset (offset + width fields) b)
              (omega (arith, length-slice buf offset (width fields) k)) st)))

  write_fields_ok :
      (rest : Fields) (d : Data) (buf : List ℕ) (offset : ℕ)
      → plain rest ≡ true
      → IsBytes buf
      → offset + width rest ≤ length buf
      → StoredAll IsInert rest d buf offset
      → write_fields rest d (pack_members d) (filled buf offset (width rest)) offset
        ≡ ok (take (offset + width rest) buf)
  write_fields_ok end d buf offset p b h st =
      rw (add-zero offset) (ap ok (append-nil (take offset buf)))
  write_fields_ok (field name type size index rest) d buf offset p b h st =
      let (q, f, r) = plain_field name type size index rest p in
      rw
        (
          packed-members name d,
          write_ok type size (value name d) buf offset (width rest) q b h st.0,
          write_fields_ok rest d buf (offset + type_width type size) r b (omega arith) st.1,
        )
        (ap (λ k. ok (take k buf))
          (let g : offset + type_width type size + width rest
                ≡ offset + (type_width type size + width rest) =
              omega arith in
            g))

-- `pack` of an object that holds the buffer's bytes.
pub pack_ok :
    (fields : Fields) (d : Data) (buf : List ℕ)
    → plain fields ≡ true
    → IsBytes buf
    → width fields ≤ length buf
    → StoredAll IsInert fields d buf 0
    → pack (object fields d) ≡ ok (take (width fields) buf)
pack_ok fields d buf p b h st =
    pack_object fields d buf p (write_fields_ok fields d buf 0 p b (omega arith) st)
