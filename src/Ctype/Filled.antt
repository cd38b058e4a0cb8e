-- ===== src/Ctype/Filled.antt =====
-- Classes without flags and nested objects, described by the values of their fields.
use sylica.Base.{
  ℕ, ◌+◌, ◌^◌, ◌<◌, ◌≡◌, refl, ap, sym, ◌∙◌, Option, none, some, List, [], ◌∷◌, ◌++◌, true, length,
  take, drop, encode_le, length-encode_le, decode_le-encode_le, get_le, get_le_ok, length-append,
  take-append, drop-append, append_assoc, append-nil, take_all, ok, arith, lt→ltb,
  encode_le-IsBytes, IsBytes, IsByte, All-append,
}
use sylica.Ctype.{
  inherited, FieldType, Fields, u8, u16, u32, u64, array, end, field, Value, num, bytes, object,
  Data, entry, empty,
}
use sylica.Ctype.Layout.{type_width, width, plain, plain_class, ctype_size-eq-width}
use sylica.Ctype.Setting.{Found, Found-self, set_ok, read_bytes_ok}
use sylica.Ctype.Unpack.{to_bigint, safe, set, finish, read, unpack_from, unpack}
use sylica.Ctype.Pack.{pack}
use sylica.Ctype.RoundTrip.{pack-unpack}

-- The content of a field.
pub data Chunk : Type 0 where
  number : ℕ → Chunk
  raw : List ℕ → Chunk

abbrev pub chunk_value : Chunk → Value
chunk_value (number n) = num n
chunk_value (raw bs) = bytes bs

abbrev pub chunk_bytes : ℕ → Chunk → List ℕ
chunk_bytes w (number n) = encode_le w n
chunk_bytes w (raw bs) = bs

-- A number that fits its type, or as many bytes as the field says.
pub data Fits : FieldType → Option ℕ → Chunk → Type 0 where
  fits8 : {n : ℕ} → n < 256 ^ 1 → Fits u8 none (number n)
  fits16 : {n : ℕ} → n < 256 ^ 2 → Fits u16 none (number n)
  fits32 : {n : ℕ} → n < 256 ^ 4 → Fits u32 none (number n)
  fits64 : {n : ℕ} → n < 256 ^ 8 → Fits u64 none (number n)
  fits_array : {bs : List ℕ} (k : ℕ) → length bs ≡ k → IsBytes bs → Fits array (some k) (raw bs)

abbrev pub AllFit : Fields → List Chunk → Type 0
AllFit end [] = Unit {0}
AllFit end (c ∷ cs) = ⊥
AllFit (field name type size index rest) [] = ⊥
AllFit (field name type size index rest) (c ∷ cs) = Fits type size c × AllFit rest cs

-- The bytes and the members.
abbrev pub laid_out : Fields → List Chunk → List ℕ
laid_out end cs = []
laid_out (field name type size index rest) [] = []
laid_out (field name type size index rest) (c ∷ cs) =
    chunk_bytes (type_width type size) c ++ laid_out rest cs

abbrev pub filled : Fields → List Chunk → Data → Data
filled end cs d = d
filled (field name type size index rest) [] d = d
filled (field name type size index rest) (c ∷ cs) d = filled rest cs (entry name (chunk_value c) d)

take-middle :
    (pre bs more : List ℕ) (off k : ℕ)
    → length pre ≡ off
    → length bs ≡ k
    → take k (drop off (pre ++ (bs ++ more))) ≡ bs
take-middle pre bs more off k h l =
    rw (sym h, sym l, drop-append pre (bs ++ more)) (take-append bs more)

number_at :
    (w n off : ℕ) (pre more : List ℕ)
    → length pre ≡ off
    → n < 256 ^ w
    → get_le w (pre ++ (encode_le w n ++ more)) off ≡ ok n
number_at w n off pre more h f = rw (
  get_le_ok w (pre ++ (encode_le w n ++ more)) off (
      omega (
        arith,
        length-append pre (encode_le w n ++ more),
        length-append (encode_le w n) more,
        length-encode_le w n,
      )),
  take-middle pre (encode_le w n) more off w h (length-encode_le w n),
  decode_le-encode_le w n f,
)

length-chunk_bytes :
    (type : FieldType) (size : Option ℕ) (c : Chunk)
    → Fits type size c
    → length (chunk_bytes (type_width type size) c) ≡ type_width type size
unfolding type_width
length-chunk_bytes _ _ _ (fits8 {n} f) = length-encode_le 1 n
length-chunk_bytes _ _ _ (fits16 {n} f) = length-encode_le 2 n
length-chunk_bytes _ _ _ (fits32 {n} f) = length-encode_le 4 n
length-chunk_bytes _ _ _ (fits64 {n} f) = length-encode_le 8 n
length-chunk_bytes _ _ _ (fits_array k l b) = l

-- A turn of the loop of `unpack` on its own content.
read-chunk :
    (type : FieldType) (size : Option ℕ) (c : Chunk) (index off : ℕ) (pre more : List ℕ)
    → Fits type size c
    → length pre ≡ off
    → (read type size index (pre ++ (chunk_bytes (type_width type size) c ++ more)) off
        ≡ ok (chunk_value c, type_width type size))
      × (safe (chunk_value c) type size ≡ ok true)
unfolding read type_width safe to_bigint
read-chunk _ _ _ index off pre more (fits8 {n} f) h =
    (rw (number_at 1 n off pre more h f), rw (lt→ltb n (2 ^ 8) f))
read-chunk _ _ _ index off pre more (fits16 {n} f) h =
    (rw (number_at 2 n off pre more h f), rw (lt→ltb n (2 ^ 16) f))
read-chunk _ _ _ index off pre more (fits32 {n} f) h =
    (rw (number_at 4 n off pre more h f), rw (lt→ltb n (2 ^ 32) f))
read-chunk _ _ _ index off pre more (fits64 {n} f) h =
    (rw (number_at 8 n off pre more h f), rw (lt→ltb n (2 ^ 64) f))
read-chunk _ _ _ index off pre more (fits_array {bs} k l b) h = (
  rw (
    read_bytes_ok k (pre ++ (bs ++ more)) off
        (omega (arith, l, length-append pre (bs ++ more), length-append bs more)),
    take-middle pre bs more off k h l,
  ),
  refl,
)

unpack_from-laid_out :
    (all rest : Fields) (cs : List Chunk) (d : Data) (off : ℕ) (pre more : List ℕ)
    → Found all rest
    → AllFit rest cs
    → length pre ≡ off
    → unpack_from all rest d (pre ++ (laid_out rest cs ++ more)) off ≡ ok (filled rest cs d)
unfolding unpack_from
unpack_from-laid_out all end [] d off pre more f a h = refl
unpack_from-laid_out all end (c ∷ cs) d off pre more f a h = elim a [ ]
unpack_from-laid_out all (field name type size index rest) [] d off pre more f a h = elim a [ ]
unpack_from-laid_out all (field name type size index rest) (c ∷ cs) d off pre more f (a, as') h =
    let w : ℕ = type_width type size in
    let bs : List ℕ = chunk_bytes w c in
    let (r, s) = read-chunk type size c index off pre (laid_out rest cs ++ more) a h in
    let stored : set all name (chunk_value c) d ≡ ok (entry name (chunk_value c) d) =
      f.0 (chunk_value c) d ∙ set_ok name type size index (chunk_value c) d s in
    let ahead : length (pre ++ bs) ≡ off + w =
      omega (arith, length-append pre bs, length-chunk_bytes type size c a) in
    let next =
      unpack_from-laid_out all rest cs (entry name (chunk_value c) d) (off + w) (pre ++ bs) more f.1
        as' ahead in
    rw (append_assoc bs (laid_out rest cs) more, r, stored)
      (rw (append_assoc pre bs (laid_out rest cs ++ more)) at next)

-- A class whose members are all unsigned numbers of 8 to 64 bits or arrays of a given size reads back
-- a content of numbers that fit and of arrays of these sizes, laid out in front of any bytes.
pub unpack-laid_out :
    (fields : Fields) (cs : List Chunk) (more : List ℕ)
    → plain fields ≡ true
    → AllFit fields cs
    → unpack inherited fields (laid_out fields cs ++ more)
      ≡ ok (object fields (filled fields cs empty))
unfolding unpack finish
unpack-laid_out fields cs more p f =
    rw (unpack_from-laid_out fields fields cs empty 0 [] more (Found-self fields p) f refl)

pub length-laid_out :
    (fields : Fields) (cs : List Chunk)
    → AllFit fields cs
    → length (laid_out fields cs) ≡ width fields
unfolding width
length-laid_out end [] f = refl
length-laid_out end (c ∷ cs) f = elim f [ ]
length-laid_out (field name type size index rest) [] f = elim f [ ]
length-laid_out (field name type size index rest) (c ∷ cs) (f, fs) = omega (
  arith,
  length-append (chunk_bytes (type_width type size) c) (laid_out rest cs),
  length-chunk_bytes type size c f,
  length-laid_out rest cs fs,
)

chunk-IsBytes :
    (type : FieldType) (size : Option ℕ) (c : Chunk)
    → Fits type size c
    → IsBytes (chunk_bytes (type_width type size) c)
unfolding type_width
chunk-IsBytes _ _ _ (fits8 {n} f) = encode_le-IsBytes 1 n
chunk-IsBytes _ _ _ (fits16 {n} f) = encode_le-IsBytes 2 n
chunk-IsBytes _ _ _ (fits32 {n} f) = encode_le-IsBytes 4 n
chunk-IsBytes _ _ _ (fits64 {n} f) = encode_le-IsBytes 8 n
chunk-IsBytes _ _ _ (fits_array k l b) = b

pub laid_out-IsBytes :
    (fields : Fields) (cs : List Chunk) → AllFit fields cs → IsBytes (laid_out fields cs)
laid_out-IsBytes end [] f = tt
laid_out-IsBytes end (c ∷ cs) f = elim f [ ]
laid_out-IsBytes (field name type size index rest) [] f = elim f [ ]
laid_out-IsBytes (field name type size index rest) (c ∷ cs) (f, fs) =
    All-append IsByte (chunk_bytes (type_width type size) c) (laid_out rest cs)
      (chunk-IsBytes type size c f) (laid_out-IsBytes rest cs fs)

-- And `pack` writes it.
pub pack-filled :
    (fields : Fields) (cs : List Chunk)
    → plain fields ≡ true
    → AllFit fields cs
    → pack (object fields (filled fields cs empty)) ≡ ok (laid_out fields cs)
pack-filled fields cs p f =
    let size : length (laid_out fields cs) ≡ width fields = length-laid_out fields cs f in
    let u : unpack inherited fields (laid_out fields cs)
        ≡ ok (object fields (filled fields cs empty)) =
      ap (unpack inherited fields) (sym (append-nil (laid_out fields cs)))
      ∙ unpack-laid_out fields cs [] p f in
    let (_, q) =
      pack-unpack inherited fields (width fields) (laid_out fields cs)
        (object fields (filled fields cs empty)) (unfold plain_class in p)
        (ctype_size-eq-width fields p) (laid_out-IsBytes fields cs f) u in
    q ∙ ap ok (take_all (width fields) (laid_out fields cs) (omega arith))
