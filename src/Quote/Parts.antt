-- ===== src/Quote/Parts.antt =====
-- The pieces that `TdxQuote.unpack` cuts out of the buffer: sizes, and what `pack` makes of each.
use sylica.Base.{
  ℕ, ◌+◌, ◌<◌, ◌≡◌, refl, subst, List, [], ◌∷◌, true, ◌==◌, take, drop, slice, slice_lem, take-take,
  le_refl, IsBytes, slice-IsBytes, ok, >>=-eq-ok, Spans, Spans-take, arith,
}
use sylica.Ctype.{
  inherited, Fields, Value, undefined, num, flag, bytes, buffer, view, signing_key, object, number,
  is_number,
}
use sylica.Ctype.Size.{ctype_size}
use sylica.Ctype.Layout.{plain, plain_class, plain_type, fresh}
use sylica.Ctype.Unpack.{unpack}
use sylica.Ctype.Pack.{pack}
use sylica.Ctype.RoundTrip.{pack-unpack}
use sylica.Types.Tdx.{
  tdx_quote_header, td_quote_body_descriptor, td_quote_body_v4, td_quote_body_v5, enclave_report,
  certification_data_header, ecdsa_signature_data, qe_report_cert_data,
}
use sylica.Quote.{unpack_at, part}

-- What `pack` turns into bytes is a part.
pub part-pack : (v : Value) (bs : List ℕ) → pack v ≡ ok bs → part v ≡ ok (bs ∷ [])
unfolding part pack
part-pack undefined bs e = cc
part-pack (num n) bs e = cc
part-pack (flag b) bs e = cc
part-pack (bytes xs) bs e = cc
part-pack (buffer xs) bs e = cc
part-pack (view xs) bs e = cc
part-pack (signing_key s) bs e = cc
part-pack (object fields d) bs e = rw e

-- A part that stands in the buffer between two offsets.
abbrev pub IsPart : List ℕ → ℕ → ℕ → Value → Type 0
IsPart buf start end v = (ps : List (List ℕ)) × (part v ≡ ok ps) × Spans buf start end ps

pub unpack-IsPart :
    (fields : Fields) (n : ℕ) (buf : List ℕ) (offset : ℕ) {v : Value}
    → plain_class inherited fields ≡ true
    → ctype_size fields ≡ ok n
    → IsBytes buf
    → unpack inherited fields (slice buf offset (offset + n)) ≡ ok v
    → IsPart buf offset (offset + n) v
unpack-IsPart fields n buf offset {v} p s b e =
    let q : pack v ≡ ok (take n (slice buf offset (offset + n))) =
      (pack-unpack inherited fields n (slice buf offset (offset + n)) v p s
        (slice-IsBytes buf offset (offset + n) b) e).1 in
    let cut : take n (slice buf offset (offset + n)) ≡ take n (drop offset buf) =
      rw slice_lem (take-take n n (drop offset buf) (le_refl n)) in
    (
      take n (drop offset buf) ∷ [],
      part-pack v (take n (drop offset buf)) (rw cut at q),
      Spans-take buf offset n,
    )

pub unpack_at-IsPart :
    (fields : Fields) (n : ℕ) (buf : List ℕ) (offset : ℕ) {v : Value} {offset' : ℕ}
    → plain_class inherited fields ≡ true
    → ctype_size fields ≡ ok n
    → IsBytes buf
    → unpack_at fields buf offset ≡ ok (v, offset')
    → IsPart buf offset offset' v
unfolding unpack_at
unpack_at-IsPart fields n buf offset {v} {offset'} p s b e =
    let (u, eu, e') =
      >>=-eq-ok (unpack inherited fields (slice buf offset (offset + n))) (λ v. ok (v, offset + n))
        (rw s at e) in
    let a : u ≡ v = cc in
    let c : offset + n ≡ offset' = cc in
    subst (λ x. IsPart buf offset x v) c
      (subst (λ x. IsPart buf offset (offset + n) x) a (unpack-IsPart fields n buf offset p s b eu))

-- The tests of `pack` and of `unpack` agree.
pub is_number-eq : (v : Value) (n : ℕ) → 0 < n → is_number v n ≡ (number v == n)
unfolding is_number number
is_number-eq (num m) n h = refl
is_number-eq undefined n h = ground arith
is_number-eq (flag b) n h = ground arith
is_number-eq (bytes xs) n h = ground arith
is_number-eq (buffer xs) n h = ground arith
is_number-eq (view xs) n h = ground arith
is_number-eq (signing_key s) n h = ground arith
is_number-eq (object fields d) n h = ground arith

pub size_header : ctype_size tdx_quote_header ≡ ok 48
unfolding ctype_size
size_header = refl

pub size_v4 : ctype_size td_quote_body_v4 ≡ ok 584
unfolding ctype_size
size_v4 = refl

pub size_v5 : ctype_size td_quote_body_v5 ≡ ok 648
unfolding ctype_size
size_v5 = refl

pub size_cert_data : ctype_size qe_report_cert_data ≡ ok 450
unfolding ctype_size
size_cert_data = refl

pub plain_header : plain_class inherited tdx_quote_header ≡ true
unfolding plain_class plain plain_type fresh
plain_header = refl

pub plain_v5 : plain_class inherited td_quote_body_v5 ≡ true
unfolding plain_class plain plain_type fresh
plain_v5 = refl

pub plain_cert_data : plain_class inherited qe_report_cert_data ≡ true
unfolding plain_class plain plain_type fresh
plain_cert_data = refl

pub plain_v4 : plain_class inherited td_quote_body_v4 ≡ true
unfolding plain_class plain plain_type fresh
plain_v4 = refl

pub size_descriptor : ctype_size td_quote_body_descriptor ≡ ok 6
unfolding ctype_size
size_descriptor = refl

pub plain_descriptor : plain_class inherited td_quote_body_descriptor ≡ true
unfolding plain_class plain plain_type fresh
plain_descriptor = refl

pub size_sig_data : ctype_size ecdsa_signature_data ≡ ok 132
unfolding ctype_size
size_sig_data = refl

pub plain_sig_data : plain_class inherited ecdsa_signature_data ≡ true
unfolding plain_class plain plain_type fresh
plain_sig_data = refl

pub size_cert_header : ctype_size certification_data_header ≡ ok 6
unfolding ctype_size
size_cert_header = refl

pub plain_cert_header : plain_class inherited certification_data_header ≡ true
unfolding plain_class plain plain_type fresh
plain_cert_header = refl

pub size_report : ctype_size enclave_report ≡ ok 384
unfolding ctype_size
size_report = refl
