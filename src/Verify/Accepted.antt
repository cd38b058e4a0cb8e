-- ===== src/Verify/Accepted.antt =====
-- The steps of `verifyQuote`.
use sylica.Base.{
  guard-true, ℕ, ◌≡◌, refl, sym, ap, ◌∙◌, subst, ◌↔◌, List, [], ◌∷◌, true, ◌||◌, Option, none, some,
  take, same_bytes_refl, same_bytes→eq, ok, >>=-eq-ok, guard-eq-ok,
}
use sylica.Ctype.{member, byte_array, is_number}
use sylica.Quote.{TdxQuote}
use sylica.Pem.{Readers, extract_certs_from_pem_chain}
use sylica.Verify.{
  QuoteServices, root_digest, attestation_point, raw_signature, hash_input, assigned, chain_bytes,
  root_of, in_front, check_chain, verify_pck_cert_chain, check_quote_signature, check_qe_binding,
  check_qe_signature, verify_quote,
}

assigned-some : (o : Option (List ℕ)) {bs : List ℕ} → assigned o ≡ ok bs → o ≡ some bs
unfolding assigned
assigned-some none h = cc
assigned-some (some bs) h = cc

module _ (r : Readers) (k : QuoteServices r) where
  open r use {Certificate}
  open k use {Key, import_key, public_key, verify_signature, sha256, to_ber, chain_verify}

  -- The key that the quote brings along verifies the signature of the header and the body.
  abbrev pub IsQuoteSigned : TdxQuote → List ℕ → Type 0
  IsQuoteSigned q point =
      (key : Key) × (sig : List ℕ) × (import_key point ≡ ok key)
      × (raw_signature (member "signature" q.sig_data) ≡ ok sig)
      × (verify_signature key sig q.raw_report_for_signature ≡ true)

  -- The first half of the report data of the quoting enclave is the hash of that key and of the
  -- authentication data.
  abbrev pub IsBound : TdxQuote → List ℕ → Type 0
  IsBound q point =
      (auth : List ℕ) × (input : List ℕ) × (q.qe_auth_data ≡ some auth)
      × (hash_input point auth ≡ ok input)
      × (sha256 input
          ≡ take 32 (byte_array (member "report_data" (member "qe_report" q.qe_cert_data))))

  -- The chain starts with `leaf`, ends in the root of the known digest, and is valid below it.
  abbrev pub IsPckChain : TdxQuote → Certificate → Type 0
  IsPckChain q leaf =
      (others : List Certificate) × (extract_certs_from_pem_chain r
          (chain_bytes q.pck_cert_chain_raw)
        ≡ ok (leaf ∷ others))
      × (sha256 (to_ber (root_of r k leaf others)) ≡ root_digest)
      × (chain_verify (in_front r k leaf others) (root_of r k leaf others) ≡ true)

  -- The key of `leaf` verifies the signature of the quoting enclave's report.
  abbrev pub IsQeSigned : TdxQuote → Certificate → Type 0
  IsQeSigned q leaf =
      (key : Key) × (sig : List ℕ) × (report : List ℕ) × (public_key leaf ≡ ok key)
      × (raw_signature (member "qe_report_signature" q.qe_cert_data) ≡ ok sig)
      × (q.raw_qe_report_bytes ≡ some report)
      × (verify_signature key sig report ≡ true)

  -- Each step holds.
  abbrev pub IsTrusted : TdxQuote → Type 0
  IsTrusted q =
      ((is_number (member "version" q.header) 4 || is_number (member "version" q.header) 5) ≡ true)
      × (is_number (member "tee_type" q.header) 0x00000081 ≡ true)
      × (is_number (member "attestation_key_type" q.header) 2 ≡ true)
      × (is_number (member "type" q.cert_header) 6 ≡ true)
      × ((point : List ℕ) × (leaf : Certificate) × (attestation_point
              (member "attestation_key" q.sig_data)
            ≡ ok point)
          × IsQuoteSigned q point
          × IsBound q point
          × IsPckChain q leaf
          × IsQeSigned q leaf)

  quote_signature_iff :
      (q : TdxQuote) (point : List ℕ)
      → (check_quote_signature r k q point ≡ ok tt) ↔ IsQuoteSigned q point
  unfolding check_quote_signature
  quote_signature_iff q point = (
    λ h.
        let (key, i, h₁) = >>=-eq-ok (import_key point) _ h in
        let (sig, s, h₂) = >>=-eq-ok (raw_signature (member "signature" q.sig_data)) _ h₁ in
        (key, sig, i, s, guard-true _ _ h₂),
    λ (key, sig, i, s, v). rw (i, s, v) refl,
  )

  qe_binding_iff :
      (q : TdxQuote) (point : List ℕ) → (check_qe_binding r k q point ≡ ok tt) ↔ IsBound q point
  unfolding check_qe_binding assigned
  qe_binding_iff q point = (
    λ h.
        let (auth, a, h₁) = >>=-eq-ok (assigned q.qe_auth_data) _ h in
        let (input, i, h₂) = >>=-eq-ok (hash_input point auth) _ h₁ in
        (auth, input, assigned-some q.qe_auth_data a, i, same_bytes→eq _ _ (guard-true _ _ h₂)),
    λ (auth, input, a, i, e). rw (a, i, e, same_bytes_refl) refl,
  )

  check_chain-eq-ok :
      (certs : List Certificate) (leaf : Certificate)
      → check_chain r k certs ≡ ok leaf
      → (others : List Certificate) × (certs ≡ leaf ∷ others)
        × (sha256 (to_ber (root_of r k leaf others)) ≡ root_digest)
        × (chain_verify (in_front r k leaf others) (root_of r k leaf others) ≡ true)
  unfolding check_chain
  check_chain-eq-ok [] leaf h = cc
  check_chain-eq-ok (c ∷ others) leaf h =
      let (d, h₁) = guard-eq-ok _ _ _ h in
      let (v, h₂) = guard-eq-ok _ _ _ h₁ in
      let same : c ≡ leaf = cc (h₂) in
      subst
        (λ x.
          (os : List Certificate) × (c ∷ others ≡ x ∷ os)
          × (sha256 (to_ber (root_of r k x os)) ≡ root_digest)
          × (chain_verify (in_front r k x os) (root_of r k x os) ≡ true))
        same (others, refl, same_bytes→eq _ _ d, v)

  IsPckChain-iff :
      (q : TdxQuote) (leaf : Certificate)
      → (verify_pck_cert_chain r k (chain_bytes q.pck_cert_chain_raw) ≡ ok leaf) ↔ IsPckChain q leaf
  unfolding verify_pck_cert_chain
  IsPckChain-iff q leaf = (
    λ h.
        let (certs, e, h₁) =
          >>=-eq-ok (extract_certs_from_pem_chain r (chain_bytes q.pck_cert_chain_raw)) _ h in
        let (others, same, d, v) = check_chain-eq-ok certs leaf h₁ in
        (others, e ∙ ap ok same, d, v),
    λ (others, e, d, v). rw (e, check_chain, d, v, same_bytes_refl root_digest) refl,
  )

  qe_signature_iff :
      (q : TdxQuote) (leaf : Certificate)
      → (check_qe_signature r k q leaf ≡ ok tt) ↔ IsQeSigned q leaf
  unfolding check_qe_signature assigned
  qe_signature_iff q leaf = (
    λ h.
        let (key, p, h₁) = >>=-eq-ok (public_key leaf) _ h in
        let (sig, s, h₂) =
          >>=-eq-ok (raw_signature (member "qe_report_signature" q.qe_cert_data)) _ h₁ in
        let (report, b, h₃) = >>=-eq-ok (assigned q.raw_qe_report_bytes) _ h₂ in
        (key, sig, report, p, s, assigned-some q.raw_qe_report_bytes b, guard-true _ _ h₃),
    λ (key, sig, report, p, s, b, v). rw (p, s, b, v) refl,
  )

  -- The steps of `verifyQuote`, each of them as it is taken.
  pub verify_quote_steps :
      (q q' : TdxQuote) → (verify_quote r k q ≡ ok q') ↔ ((q' ≡ q) × IsTrusted q)
  unfolding verify_quote
  verify_quote_steps q q' = (
    λ h.
        let (version, h₁) = guard-eq-ok _ _ _ h in
        let (tee, h₂) = guard-eq-ok _ _ _ h₁ in
        let (type, h₃) = guard-eq-ok _ _ _ h₂ in
        let (point, p, h₄) =
          >>=-eq-ok (attestation_point (member "attestation_key" q.sig_data)) _ h₃ in
        let (_, signed, h₅) = >>=-eq-ok (check_quote_signature r k q point) _ h₄ in
        let (certified, h₆) = guard-eq-ok _ _ _ h₅ in
        let (_, bound, h₇) = >>=-eq-ok (check_qe_binding r k q point) _ h₆ in
        let (leaf, chain, h₈) =
          >>=-eq-ok (verify_pck_cert_chain r k (chain_bytes q.pck_cert_chain_raw)) _ h₇ in
        let (_, qe, h₉) = >>=-eq-ok (check_qe_signature r k q leaf) _ h₈ in
        (
          cc (h₉),
          (
            version,
            tee,
            type,
            certified,
            (
              point,
              leaf,
              p,
              (quote_signature_iff q point).0 signed,
              (qe_binding_iff q point).0 bound,
              (IsPckChain-iff q leaf).0 chain,
              (qe_signature_iff q leaf).0 qe,
            ),
          ),
        ),
    λ (same, (version, tee, type, certified, (point, leaf, p, signed, bound, chain, qe))).
        rw
          (
            version,
            tee,
            type,
            p,
            (quote_signature_iff q point).1 signed,
            certified,
            (qe_binding_iff q point).1 bound,
            (IsPckChain-iff q leaf).1 chain,
            (qe_signature_iff q leaf).1 qe,
          )
          (ap ok (sym same)),
  )
