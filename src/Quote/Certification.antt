-- ===== src/Quote/Certification.antt =====
-- The certification data of a quote, types 6 and 5.
use sylica.Base.{
  ℕ, ◌+◌, ◌≡◌, refl, ◌∙◌, subst, List, [], ◌∷◌, ◌++◌, true, false, some, inl, inr, ◌==◌, ==_iff,
  Bool-cases, slice, IsBytes, ok, ◌>>=◌, >>=-eq-ok, Spans, Spans-append, Spans-slice, arith,
}
use sylica.Ctype.{Value, member, number, is_number}
use sylica.Types.Tdx.{certification_data_header, qe_report_cert_data}
use sylica.Quote.{TdxQuote, unpack_at, unpack_certification, cert_parts}
use sylica.Quote.Parts.{
  IsPart, unpack_at-IsPart, is_number-eq, size_cert_data, plain_cert_data, size_cert_header,
  plain_cert_header, size_report,
}

-- The certification parts, from a quote whose header and body are parsed.
abbrev pub IsCertified : List ℕ → ℕ → TdxQuote → TdxQuote → Type 0
IsCertified buf start quote q =
    (end : ℕ) × (ps : List (List ℕ)) × (cert_parts q ≡ ok ps)
    × Spans buf start end ps
    × (q.header ≡ quote.header)
    × (q.descriptor ≡ quote.descriptor)
    × (q.body ≡ quote.body)
    × (q.sig_data ≡ quote.sig_data)
    × (q.cert_header ≡ quote.cert_header)

-- The quote that certification data of type 6 gives.
abbrev pub with_report : TdxQuote → List ℕ → ℕ → Value → ℕ → Value → ℕ → TdxQuote
with_report quote buf offset c o h o' = record quote {
  qe_cert_data = c;
  raw_qe_report_bytes = some (slice buf offset (offset + 384));
  qe_auth_data = some (slice buf o (o + number (member "qe_auth_data_size" c)));
  pck_cert_header = h;
  pck_cert_chain_raw = some (slice buf o' (o' + number (member "size" h)));
}

pub with_report-IsCertified :
    (quote : TdxQuote) (buf : List ℕ) (offset : ℕ) (c : Value) (o : ℕ) (h : Value) (o' : ℕ)
    → number (member "type" quote.cert_header) ≡ 6
    → IsPart buf offset o c
    → IsPart buf (o + number (member "qe_auth_data_size" c)) o' h
    → IsCertified buf offset quote (with_report quote buf offset c o h o')
unfolding cert_parts
with_report-IsCertified quote buf offset c o h o' six (ps, q, sp) (qs, r, sq) =
    let a : ℕ = o + number (member "qe_auth_data_size" c) in
    let z : ℕ = o' + number (member "size" h) in
    let auth : List (List ℕ) = slice buf o a ∷ [] in
    let chain : List (List ℕ) = slice buf o' z ∷ [] in
    let test : is_number (member "type" quote.cert_header) 6 ≡ true =
      is_number-eq (member "type" quote.cert_header) 6 (omega arith) ∙ rw six refl in
    (
      z,
      ps ++ (auth ++ (qs ++ chain)),
      rw (test, q, r),
      Spans-append buf offset o z ps (auth ++ (qs ++ chain)) sp (
          Spans-append buf o a z auth (qs ++ chain)
            (Spans-slice buf o (number (member "qe_auth_data_size" c)))
            (Spans-append buf a o' z qs chain sq (Spans-slice buf o' (number (member "size" h))))),
      refl,
      refl,
      refl,
      refl,
      refl,
    )

pub certification_six :
    (quote : TdxQuote) (buf : List ℕ) (offset : ℕ) {q : TdxQuote}
    → IsBytes buf
    → number (member "type" quote.cert_header) ≡ 6
    → unpack_certification quote buf offset ≡ ok q
    → IsCertified buf offset quote q
unfolding unpack_certification
certification_six quote buf offset {q} b six e =
    let ((c, o), u, r) =
      >>=-eq-ok (unpack_at qe_report_cert_data buf offset)
        (λ x.
          unpack_at certification_data_header buf (x.1 + number (member "qe_auth_data_size" x.0))
          >>= λ y. ok (with_report quote buf offset x.0 x.1 y.0 y.1))
        (rw (six, size_report) at e) in
    let a : ℕ = o + number (member "qe_auth_data_size" c) in
    let ((h, o'), w, t) =
      >>=-eq-ok (unpack_at certification_data_header buf a)
        (λ y. ok (with_report quote buf offset c o y.0 y.1)) r in
    let same : with_report quote buf offset c o h o' ≡ q = cc in
    subst (λ x. IsCertified buf offset quote x) same
      (with_report-IsCertified quote buf offset c o h o' six
        (unpack_at-IsPart qe_report_cert_data 450 buf offset plain_cert_data size_cert_data b u)
        (unpack_at-IsPart certification_data_header 6 buf a plain_cert_header size_cert_header b w))

pub certification_five :
    (quote : TdxQuote) (buf : List ℕ) (offset : ℕ) {q : TdxQuote}
    → number (member "type" quote.cert_header) ≡ 5
    → unpack_certification quote buf offset ≡ ok q
    → IsCertified buf offset quote q
unfolding unpack_certification cert_parts
certification_five quote buf offset {q} five e =
    let n : ℕ = number (member "size" quote.cert_header) in
    let given : TdxQuote = record quote {
      pck_cert_chain_raw = some (slice buf offset (offset + n));
    } in
    let same : given ≡ q = cc (rw five at e) in
    let six : is_number (member "type" quote.cert_header) 6 ≡ false =
      is_number-eq (member "type" quote.cert_header) 6 (omega arith) ∙ rw five refl in
    let test : is_number (member "type" quote.cert_header) 5 ≡ true =
      is_number-eq (member "type" quote.cert_header) 5 (omega arith) ∙ rw five refl in
    subst (λ x. IsCertified buf offset quote x) same
      (
        offset + n,
        slice buf offset (offset + n) ∷ [],
        rw (six, test),
        Spans-slice buf offset n,
        refl,
        refl,
        refl,
        refl,
        refl,
      )

pub certification-IsCertified :
    (quote : TdxQuote) (buf : List ℕ) (offset : ℕ) {q : TdxQuote}
    → IsBytes buf
    → unpack_certification quote buf offset ≡ ok q
    → IsCertified buf offset quote q
certification-IsCertified quote buf offset b e =
    let type : ℕ = number (member "type" quote.cert_header) in
    elim (Bool-cases (type == 6)) [
      | inl six ↦ certification_six quote buf offset b ((==_iff type 6).0 six) e
      | inr not_six ↦ elim (Bool-cases (type == 5)) [
        | inl five ↦ certification_five quote buf offset ((==_iff type 5).0 five) e
        | inr neither ↦ unfold unpack_certification in cc (rw (not_six, neither) at e)
      ]
    ]
