-- ===== src/Ctype/Stored.antt =====
-- What it means that an object holds the bytes of a buffer from an offset on.
use sylica.Base.{
  ℕ, ◌+◌, ◌≤◌, ◌≡◌, refl, sym, ◌⊎◌, inl, inr, String, Option, none, some, List, true, false, not,
  str_eq, str_eq_iff, str_eq_refl, length, take, drop, decode_le, slice, Bool-cases, &&_split,
  arith,
}
use sylica.Ctype.{
  FieldType, Fields, u8, u16, u32, u64, bool, array, custom, struct, end, field, Signer, Value, num,
  bytes, view, signing_key, object, Data, entry, value,
}
use sylica.Ctype.Layout.{type_width, width, fresh, has_signer, is_empty_custom, plain, plain_field}

-- What a custom field of size 0 may hold: nothing of it is stored.
abbrev pub IsInert : List ℕ → Value → Type 0
IsInert buf v = (v ≡ view buf) ⊎ ((s : Signer) × (v ≡ signing_key s))

abbrev pub IsView : List ℕ → Value → Type 0
IsView buf v = v ≡ view buf

-- A number of `n` bytes at an offset.
abbrev pub IsNumberAt : ℕ → Value → List ℕ → ℕ → Type 0
IsNumberAt n v buf offset =
    (v ≡ num (decode_le (take n (drop offset buf)))) × (offset + n ≤ length buf)

-- `C` says what a custom field holds.
unfoldable mutual
  pub Stored : (List ℕ → Value → Type 0) → FieldType → Option ℕ → Value → List ℕ → ℕ → Type 0
  Stored C u8 size v buf offset = IsNumberAt 1 v buf offset
  Stored C u16 size v buf offset = IsNumberAt 2 v buf offset
  Stored C u32 size v buf offset = IsNumberAt 4 v buf offset
  Stored C u64 size v buf offset = IsNumberAt 8 v buf offset
  Stored C bool size v buf offset = Unit {0}
  Stored C array none v buf offset = ⊥
  Stored C array (some n) v buf offset =
      (v ≡ bytes (take n (drop offset buf))) × (offset + n ≤ length buf)
  Stored C custom size v buf offset = C buf v
  Stored C (struct kind fields) size v buf offset =
      (d : Data) × (v ≡ object fields d)
      × StoredAll IsInert fields d (slice buf offset (offset + width fields)) 0
      × (offset + width fields ≤ length buf)

  pub StoredAll : (List ℕ → Value → Type 0) → Fields → Data → List ℕ → ℕ → Type 0
  StoredAll C end d buf offset = Unit {0}
  StoredAll C (field name type size index rest) d buf offset =
      Stored C type size (value name d) buf offset
      × StoredAll C rest d buf (offset + type_width type size)

-- A lookup behind an assignment.
pub value-entry_self : (k : String) (v : Value) (d : Data) → value k (entry k v d) ≡ v
unfolding value
value-entry_self k v d = rw (str_eq_refl k)

pub value-entry_ne :
    (k j : String) (v : Value) (d : Data) → str_eq k j ≡ false → value j (entry k v d) ≡ value j d
unfolding value
value-entry_ne k j v d h = rw h

-- A view is inert.
Stored-IsInert :
    (type : FieldType) (size : Option ℕ) (v : Value) (buf : List ℕ) (offset : ℕ)
    → Stored IsView type size v buf offset
    → Stored IsInert type size v buf offset
unfolding Stored
Stored-IsInert u8 size v buf offset h = h
Stored-IsInert u16 size v buf offset h = h
Stored-IsInert u32 size v buf offset h = h
Stored-IsInert u64 size v buf offset h = h
Stored-IsInert bool size v buf offset h = h
Stored-IsInert array none v buf offset h = h
Stored-IsInert array (some n) v buf offset h = h
Stored-IsInert custom size v buf offset h = inl h
Stored-IsInert (struct kind fields) size v buf offset h = h

pub StoredAll-IsInert :
    (fields : Fields) (d : Data) (buf : List ℕ) (offset : ℕ)
    → StoredAll IsView fields d buf offset
    → StoredAll IsInert fields d buf offset
unfolding StoredAll
StoredAll-IsInert end d buf offset h = h
StoredAll-IsInert (field name type size index rest) d buf offset h = (
  Stored-IsInert type size (value name d) buf offset h.0,
  StoredAll-IsInert rest d buf (offset + type_width type size) h.1,
)

-- An assignment to a name that no field has changes nothing.
pub StoredAll-entry :
    (C : List ℕ → Value → Type 0) (fields : Fields) (k : String) (v : Value) (d : Data)
    (buf : List ℕ) (offset : ℕ)
    → fresh k fields ≡ true
    → StoredAll C fields d buf offset
    → StoredAll C fields (entry k v d) buf offset
unfolding StoredAll fresh
StoredAll-entry C end k v d buf offset f h = h
StoredAll-entry C (field name type size index rest) k v d buf offset f h =
    let (n, g) = &&_split (not (str_eq name k)) (fresh k rest) f in
    let ne : str_eq k name ≡ false = ground (arith, str_eq_iff k name, str_eq_iff name k) in
    (
      rw (value-entry_ne k name v d ne) h.0,
      StoredAll-entry C rest k v d buf (offset + type_width type size) g h.1,
    )

Stored-signer :
    (type : FieldType) (size : Option ℕ) (s : Signer) (buf : List ℕ) (offset : ℕ)
    → is_empty_custom type size ≡ true
    → Stored IsInert type size (signing_key s) buf offset
unfolding Stored
Stored-signer custom size s buf offset h = inr (s, refl)
Stored-signer u8 size s buf offset h = cc
Stored-signer u16 size s buf offset h = cc
Stored-signer u32 size s buf offset h = cc
Stored-signer u64 size s buf offset h = cc
Stored-signer bool size s buf offset h = cc
Stored-signer array size s buf offset h = cc
Stored-signer (struct kind fields) size s buf offset h = cc

-- `ReportFlags.unpack` replaces the view by the name of the key.
pub StoredAll-signer :
    (fields : Fields) (s : Signer) (d : Data) (buf : List ℕ) (offset : ℕ)
    → plain fields ≡ true
    → has_signer fields ≡ true
    → StoredAll IsInert fields d buf offset
    → StoredAll IsInert fields (entry "signing_key" (signing_key s) d) buf offset
unfolding StoredAll has_signer
StoredAll-signer end s d buf offset p k h = h
StoredAll-signer (field name type size index rest) s d buf offset p k h =
    let (q, f, r) = plain_field name type size index rest p in
    elim (Bool-cases (str_eq name "signing_key")) [
      | inl e ↦
          let same : "signing_key" ≡ name = sym ((str_eq_iff name "signing_key").0 e) in
          let empty : is_empty_custom type size ≡ true = rw e at k in
          (
            rw (same, value-entry_self name (signing_key s) d)
                (Stored-signer type size s buf offset empty),
            rw same (
                StoredAll-entry IsInert rest name (signing_key s) d buf
                  (offset + type_width type size) f h.1),
          )
      | inr ne ↦
          let other : str_eq "signing_key" name ≡ false =
            ground (arith, str_eq_iff "signing_key" name, str_eq_iff name "signing_key") in
          (
            rw (value-entry_ne "signing_key" name (signing_key s) d other) h.0,
            StoredAll-signer rest s d buf (offset + type_width type size) r (rw ne at k) h.1,
          )
    ]

Stored-view :
    (type : FieldType) (size : Option ℕ) (v : Value) (buf : List ℕ) (offset : ℕ)
    → is_empty_custom type size ≡ true
    → Stored IsView type size v buf offset
    → v ≡ view buf
unfolding Stored
Stored-view custom size v buf offset e h = h
Stored-view u8 size v buf offset e h = cc
Stored-view u16 size v buf offset e h = cc
Stored-view u32 size v buf offset e h = cc
Stored-view u64 size v buf offset e h = cc
Stored-view bool size v buf offset e h = cc
Stored-view array size v buf offset e h = cc
Stored-view (struct kind fields) size v buf offset e h = cc

-- The view is there for `ReportFlags.unpack` to read.
pub StoredAll-view :
    (fields : Fields) (d : Data) (buf : List ℕ) (offset : ℕ)
    → has_signer fields ≡ true
    → StoredAll IsView fields d buf offset
    → value "signing_key" d ≡ view buf
unfolding StoredAll has_signer
StoredAll-view end d buf offset k h = cc
StoredAll-view (field name type size index rest) d buf offset k h =
    elim (Bool-cases (str_eq name "signing_key")) [
      | inl e ↦
          let same : "signing_key" ≡ name = sym ((str_eq_iff name "signing_key").0 e) in
          let empty : is_empty_custom type size ≡ true = rw e at k in
          rw same (Stored-view type size (value name d) buf offset empty h.0)
      | inr ne ↦ StoredAll-view rest d buf (offset + type_width type size) (rw ne at k) h.1
    ]
