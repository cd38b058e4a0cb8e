-- ===== src/Quote/RoundTrip.antt =====
-- Parsing a quote, and packing it again.
use sylica.Base.{
  ℕ, ◌≡◌, subst, List, [], ◌∷◌, ◌++◌, none, inl, inr, ◌==◌, take, drop, slice, IsBytes, ok, ◌>>=◌,
  >>=-eq-ok, Spans, Spans-append, Spans-take, join, join-Spans, slice_all, same_bytes_refl, arith,
  Result-cases, append_assoc,
}
use sylica.Ctype.{inherited, Value, undefined, member, number, is_number}
use sylica.Ctype.Unpack.{unpack}
use sylica.Ctype.RoundTrip.{pack-unpack}
use sylica.Types.Tdx.{tdx_quote_header, certification_data_header, ecdsa_signature_data}
use sylica.Quote.{
  TdxQuote, unpack_at, unpack_body, unpack_certification, unpack_quote, pack_quote, check_quote,
}
use sylica.Quote.Parts.{
  part-pack, IsPart, unpack_at-IsPart, is_number-eq, size_header, plain_header, size_sig_data,
  plain_sig_data, size_cert_header, plain_cert_header,
}
use sylica.Quote.Body.{IsBody, unpack_body-IsBody}
use sylica.Quote.Certification.{IsCertified, certification-IsCertified}

header-IsPart :
    (buf : List ℕ) {v : Value}
    → IsBytes buf
    → unpack inherited tdx_quote_header buf ≡ ok v
    → IsPart buf 0 48 v
unfolding drop
header-IsPart buf {v} b e = (
  take 48 buf ∷ [],
  part-pack v (take 48 buf)
      (pack-unpack inherited tdx_quote_header 48 buf v plain_header size_header b e).1,
  Spans-take buf 0 48,
)

-- The quote before its certification parts.
abbrev parsed : List ℕ → Value → Value → Value → ℕ → Value → Value → TdxQuote
parsed buf header descriptor body o sig cert = record {
  header = header;
  descriptor = descriptor;
  body = body;
  raw_report_for_signature = slice buf 0 o;
  sig_data = sig;
  cert_header = cert;
  qe_cert_data = undefined;
  raw_qe_report_bytes = none;
  qe_auth_data = none;
  pck_cert_header = undefined;
  pck_cert_chain_raw = none;
}

-- `pack` of the parts that stand one behind the other.
pack_quote_parts :
    (buf : List ℕ) (q : TdxQuote) (header descriptor body : Value) (o₁ : ℕ) (sig : Value) (o₂ : ℕ)
    (cert : Value) (o₃ : ℕ)
    → IsPart buf 0 48 header
    → IsBody buf 48 o₁ (number (member "version" header)) descriptor body
    → IsPart buf o₁ o₂ sig
    → IsPart buf o₂ o₃ cert
    → IsCertified buf o₃ (parsed buf header descriptor body o₁ sig cert) q
    → (n : ℕ) × (pack_quote q ≡ ok (take n buf))
unfolding pack_quote
pack_quote_parts buf q header descriptor body o₁ sig o₂ cert o₃ (hs, h, sh) (ds, bs, d, bd, sb)
      (ss, s, st) (cs, c, sc) (n, ps, p, sp, e₁, e₂, e₃, e₄, e₅) =
    let test : is_number (member "version" header) 5 ≡ (number (member "version" header) == 5) =
      is_number-eq (member "version" header) 5 (omega arith) in
    let whole : join (hs ++ (ds ++ (bs ++ (ss ++ (cs ++ ps))))) ≡ ok (take n buf) =
      join-Spans buf n (hs ++ (ds ++ (bs ++ (ss ++ (cs ++ ps))))) (
        Spans-append buf 0 48 n hs (ds ++ (bs ++ (ss ++ (cs ++ ps)))) sh (
          subst (λ x. Spans buf 48 n x) (append_assoc ds bs (ss ++ (cs ++ ps)))
            (Spans-append buf 48 o₁ n (ds ++ bs) (ss ++ (cs ++ ps)) sb (
              Spans-append buf o₁ o₂ n ss (cs ++ ps) st
                (Spans-append buf o₂ o₃ n cs ps sc sp))))) in
    (n, rw (p, e₁, e₂, e₃, e₄, e₅, h, test, d, bd, s, c) whole)

-- Whatever quote is parsed from a buffer of bytes, `pack` of it succeeds, and what it gives is an
-- initial segment of the buffer.
pub pack_quote-unpack_quote :
    (buf : List ℕ) (q : TdxQuote)
    → IsBytes buf
    → unpack_quote buf ≡ ok q
    → (n : ℕ) × (pack_quote q ≡ ok (take n buf))
unfolding unpack_quote
pack_quote-unpack_quote buf q b e =
    let (header, u₁, e₁) =
      >>=-eq-ok (unpack inherited tdx_quote_header buf)
        (λ header. unpack_body (number (member "version" header)) buf 48 >>= λ x.
          unpack_at ecdsa_signature_data buf x.2 >>= λ y.
          unpack_at certification_data_header buf y.1 >>= λ z.
          unpack_certification (parsed buf header x.0 x.1 x.2 y.0 z.0) buf z.1)
        (rw size_header at e) in
    let ((descriptor, body, o₁), u₂, e₂) =
      >>=-eq-ok (unpack_body (number (member "version" header)) buf 48)
        (λ x. unpack_at ecdsa_signature_data buf x.2 >>= λ y.
          unpack_at certification_data_header buf y.1 >>= λ z.
          unpack_certification (parsed buf header x.0 x.1 x.2 y.0 z.0) buf z.1)
        e₁ in
    let ((sig, o₂), u₃, e₃) =
      >>=-eq-ok (unpack_at ecdsa_signature_data buf o₁)
        (λ y. unpack_at certification_data_header buf y.1 >>= λ z.
          unpack_certification (parsed buf header descriptor body o₁ y.0 z.0) buf z.1)
        e₂ in
    let ((cert, o₃), u₄, e₄) =
      >>=-eq-ok (unpack_at certification_data_header buf o₂)
        (λ z. unpack_certification (parsed buf header descriptor body o₁ sig z.0) buf z.1) e₃ in
    pack_quote_parts buf q header descriptor body o₁ sig o₂ cert o₃ (header-IsPart buf b u₁)
      (unpack_body-IsBody (number (member "version" header)) buf 48 b u₂)
      (unpack_at-IsPart ecdsa_signature_data 132 buf o₁ plain_sig_data size_sig_data b u₃)
      (unpack_at-IsPart certification_data_header 6 buf o₂ plain_cert_header size_cert_header b u₄)
      (certification-IsCertified (parsed buf header descriptor body o₁ sig cert) buf o₃ b e₄)

-- The check of a parsed quote against the input never fails: on every buffer of bytes the
-- outcome, exceptions included, is that of parsing alone.
pub check_quote-eq-unpack_quote : (buf : List ℕ) → IsBytes buf → check_quote buf ≡ unpack_quote buf
unfolding check_quote
check_quote-eq-unpack_quote buf b = elim (Result-cases (unpack_quote buf)) [
  | inl (q, e) ↦
      let (n, p) = pack_quote-unpack_quote buf q b e in
      rw (e, p, slice_all n buf, same_bytes_refl (take n buf))
  | inr (x, e) ↦ rw e
]
