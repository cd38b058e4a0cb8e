-- ===== src/Ctype/RoundTrip.antt =====
-- `unpack` and `pack` together, for every plain class.
use sylica.Base.{
  ℕ, ◌≤◌, ◌<◌, ◌≡◌, sym, ◌∙◌, subst, List, true, IsBytes, length, take, ok, err, range_error, arith,
}
use native.Mathlib.Decide.{dec_le}
use sylica.Ctype.{Kind, Fields, Value, object, Data}
use sylica.Ctype.Size.{ctype_size}
use sylica.Ctype.Layout.{width, plain_class, ctype_size-eq-width}
use sylica.Ctype.Reading.{unpack_ok, plain_class-plain}
use sylica.Ctype.Truncated.{unpack_short}
use sylica.Ctype.Writing.{pack_ok}
use sylica.Ctype.Unpack.{unpack}
use sylica.Ctype.Pack.{pack}

ok-injective {ℓ} : {A : Type ℓ} {a b : A} → ok a ≡ ok b → a ≡ b
ok-injective e = cc

pub ctype_size-width :
    (kind : Kind) (fields : Fields) {n : ℕ}
    → plain_class kind fields ≡ true
    → ctype_size fields ≡ ok n
    → width fields ≡ n
ctype_size-width kind fields p e =
    ok-injective (sym (ctype_size-eq-width fields (plain_class-plain kind fields p)) ∙ e)

-- For a class whose layout passes the test `plain_class`, on a buffer of bytes that is at least
-- `ctype.size` long, `unpack` returns an object of that class, and `pack` of the object is the first
-- `ctype.size` bytes of the buffer.
pub unpack_total :
    (kind : Kind) (fields : Fields) (n : ℕ) (buf : List ℕ)
    → plain_class kind fields ≡ true
    → ctype_size fields ≡ ok n
    → IsBytes buf
    → n ≤ length buf
    → (d : Data) × (unpack kind fields buf ≡ ok (object fields d))
      × (pack (object fields d) ≡ ok (take n buf))
unpack_total kind fields n buf p e b h =
    let w : width fields ≡ n = ctype_size-width kind fields p e in
    let fits : width fields ≤ length buf = omega arith in
    let (d, u, st) = unpack_ok kind fields buf p b fits in
    (
      d,
      u,
      subst (λ k. pack (object fields d) ≡ ok (take k buf)) w
          (pack_ok fields d buf (plain_class-plain kind fields p) b fits st),
    )

-- For a class whose layout passes the test `plain_class`, on a buffer of fewer than `ctype.size`
-- bytes, `unpack` throws a RangeError.
pub unpack_truncated :
    (kind : Kind) (fields : Fields) (n : ℕ) (buf : List ℕ)
    → plain_class kind fields ≡ true
    → ctype_size fields ≡ ok n
    → IsBytes buf
    → length buf < n
    → unpack kind fields buf ≡ err range_error
unpack_truncated kind fields n buf p e b h =
    unpack_short kind fields buf p b (omega (arith, ctype_size-width kind fields p e))

-- Whatever `unpack` of a plain class returns, `pack` of it succeeds and gives back the first
-- `ctype.size` bytes of the buffer, which has that many.
pub pack-unpack :
    (kind : Kind) (fields : Fields) (n : ℕ) (buf : List ℕ) (v : Value)
    → plain_class kind fields ≡ true
    → ctype_size fields ≡ ok n
    → IsBytes buf
    → unpack kind fields buf ≡ ok v
    → (n ≤ length buf) × (pack v ≡ ok (take n buf))
pack-unpack kind fields n buf v p e b u = elim (dec_le n (length buf)) [
  | yes fits ↦
      let (d, u', q) = unpack_total kind fields n buf p e b fits in
      let same : object fields d ≡ v = ok-injective (sym u' ∙ u) in (fits, rw same at q)
  | no short ↦ cc (u, unpack_truncated kind fields n buf p e b (omega arith))
]
