-- ===== src/Page/SignedPart.antt =====
-- The signed part of a quote, and the measurement of a TDX guest (MRTD) in it.
use sylica.Base.{
  ok-injective, ℕ, ◌+◌, ◌≤◌, ◌≡◌, sym, ap, ◌∙◌, subst, inl, inr, List, ◌==◌, Bool-cases, none, take,
  drop, slice, IsBytes, ok, ◌>>=◌, >>=-eq-ok,
}
use sylica.Ctype.{inherited, Value, member, number, byte_array, undefined}
use sylica.Ctype.Size.{ctype_size}
use sylica.Ctype.Unpack.{unpack}
use sylica.Types.Tdx.{
  tdx_quote_header, certification_data_header, ecdsa_signature_data, qe_report_cert_data,
  enclave_report,
}
use sylica.Quote.{TdxQuote, unpack_at, unpack_body, unpack_certification, unpack_quote}
use sylica.Quote.Parts.{size_header}
use sylica.Report.Parsing.{slice_prefix}
use sylica.Page.MrTd.{HasMrTd, mr_td_offset, unpack_body-HasMrTd}

unpack_certification-kept :
    (quote q : TdxQuote) (buf : List ℕ) (offset : ℕ)
    → unpack_certification quote buf offset ≡ ok q
    → (q.raw_report_for_signature ≡ quote.raw_report_for_signature)
      × (q.body ≡ quote.body)
      × (q.header ≡ quote.header)
unfolding unpack_certification
unpack_certification-kept quote q buf offset e =
    let type : ℕ = number (member "type" quote.cert_header) in
    elim (Bool-cases (type == 6)) [
      | inl six ↦
          let ((c, o₁), _, e₁) =
            >>=-eq-ok (unpack_at qe_report_cert_data buf offset) _ (rw six at e) in
          let (n, _, e₂) = >>=-eq-ok (ctype_size enclave_report) _ e₁ in
          let ((h, o₃), _, e₃) =
            >>=-eq-ok
              (unpack_at certification_data_header buf (o₁ + number (member "qe_auth_data_size" c)))
              _ e₂ in
          let same = ok-injective e₃ in
          (
            sym (ap (λ (x : TdxQuote). x.raw_report_for_signature) same),
            sym (ap (λ (x : TdxQuote). x.body) same),
            sym (ap (λ (x : TdxQuote). x.header) same),
          )
      | inr not_six ↦ elim (Bool-cases (type == 5)) [
        | inl five ↦
            let same = ok-injective (rw (not_six, five) at e) in
            (
              sym (ap (λ (x : TdxQuote). x.raw_report_for_signature) same),
              sym (ap (λ (x : TdxQuote). x.body) same),
              sym (ap (λ (x : TdxQuote). x.header) same),
            )
        | inr neither ↦ cc (rw (not_six, neither) at e)
      ]
    ]

-- The quote before its certification data is read.
abbrev signed_quote : List ℕ → Value → Value → Value → ℕ → Value → Value → TdxQuote
signed_quote buf header descriptor body end sig cert = record {
  header = header;
  descriptor = descriptor;
  body = body;
  raw_report_for_signature = slice buf 0 end;
  sig_data = sig;
  cert_header = cert;
  qe_cert_data = undefined;
  raw_qe_report_bytes = none;
  qe_auth_data = none;
  pck_cert_header = undefined;
  pck_cert_chain_raw = none;
}

-- The signed part of a parsed quote is a first part of the input, and MRTD stands in it.
pub quote-HasMrTd :
    (buf : List ℕ) (q : TdxQuote)
    → IsBytes buf
    → unpack_quote buf ≡ ok q
    → (end : ℕ) × (q.raw_report_for_signature ≡ take end buf)
      × HasMrTd buf q.body (mr_td_offset (number (member "version" q.header))) end
unfolding unpack_quote
quote-HasMrTd buf q b e =
    let (header, u₁, e₁) =
      >>=-eq-ok (unpack inherited tdx_quote_header buf)
        (λ header. unpack_body (number (member "version" header)) buf 48 >>= λ x.
          unpack_at ecdsa_signature_data buf x.2 >>= λ y.
          unpack_at certification_data_header buf y.1 >>= λ z.
          unpack_certification (signed_quote buf header x.0 x.1 x.2 y.0 z.0) buf z.1)
        (rw size_header at e) in
    let ((descriptor, body, end), u₂, e₂) =
      >>=-eq-ok (unpack_body (number (member "version" header)) buf 48)
        (λ x. unpack_at ecdsa_signature_data buf x.2 >>= λ y.
          unpack_at certification_data_header buf y.1 >>= λ z.
          unpack_certification (signed_quote buf header x.0 x.1 x.2 y.0 z.0) buf z.1)
        e₁ in
    let ((sig, o₂), u₃, e₃) =
      >>=-eq-ok (unpack_at ecdsa_signature_data buf end)
        (λ y. unpack_at certification_data_header buf y.1 >>= λ z.
          unpack_certification (signed_quote buf header descriptor body end y.0 z.0) buf z.1)
        e₂ in
    let ((cert, o₃), u₄, e₄) =
      >>=-eq-ok (unpack_at certification_data_header buf o₂)
        (λ z. unpack_certification (signed_quote buf header descriptor body end sig z.0) buf z.1)
        e₃ in
    let (raw, same, head) =
      unpack_certification-kept (signed_quote buf header descriptor body end sig cert) q buf o₃
        e₄ in
    let (m, h) = unpack_body-HasMrTd (number (member "version" header)) buf b u₂ in
    let version : mr_td_offset (number (member "version" q.header))
        ≡ mr_td_offset (number (member "version" header)) =
      ap (λ x. mr_td_offset (number (member "version" x))) head in
    (
      end,
      raw ∙ slice_prefix buf end,
      (
        ap (λ x. byte_array (member "mr_td" x)) same
            ∙ m
            ∙ ap (λ k. take 48 (drop k buf)) (sym version),
        subst (λ k. k + 48 ≤ end) (sym version) h,
      ),
    )
