-- ===== src/Verify/Signed.antt =====
-- Which quotes `verifyQuote` accepts.
use sylica.Base.{
  ℕ, ◌≡◌, refl, sym, ap, ◌∙◌, ◌↔◌, List, [], ◌∷◌, ◌++◌, append-nil, append_assoc, true, ◌||◌, some,
  length, length-append, take, drop, replicate, set_bytes, set_bytes_at, ok, ◌>>=◌, ◌+◌,
  ok-injective, arith,
}
use sylica.Ctype.{Value, member, byte_array, is_number}
use sylica.Quote.{TdxQuote}
use sylica.Pem.{Readers, extract_certs_from_pem_chain}
use sylica.Verify.{
  QuoteServices, root_digest, attestation_point, raw_signature, hash_input, chain_bytes, root_of,
  in_front, verify_quote,
}
use sylica.Verify.Accepted.{IsPckChain, verify_quote_steps}

-- Two arrays of 32 bytes behind `done`.
two_halves :
    (done a b : List ℕ) (offset : ℕ)
    → length done ≡ offset
    → length a ≡ 32
    → length b ≡ 32
    → (do c ← set_bytes (done ++ replicate 64 0) offset a; set_bytes c (offset + 32) b)
      ≡ ok (done ++ (a ++ b))
unfolding replicate
two_halves done a b offset d m n =
    let first = set_bytes_at done a offset 64 32 d (omega (arith, m)) in
    let second =
      set_bytes_at (done ++ a) b (offset + 32) 32 0 (omega (arith, d, m, length-append done a))
        (omega (arith, n)) in
    rw first (second ∙ ap ok (append-nil ((done ++ a) ++ b) ∙ append_assoc done a b))

attestation_point-layout :
    (key : Value)
    → length (byte_array (member "x" key)) ≡ 32
    → length (byte_array (member "y" key)) ≡ 32
    → attestation_point key
      ≡ ok (0x04 ∷ (byte_array (member "x" key) ++ byte_array (member "y" key)))
unfolding attestation_point
attestation_point-layout key h l =
    two_halves (0x04 ∷ []) (byte_array (member "x" key)) (byte_array (member "y" key)) 1 refl h l

raw_signature-layout :
    (sig : Value)
    → length (byte_array (member "r" sig)) ≡ 32
    → length (byte_array (member "s" sig)) ≡ 32
    → raw_signature sig ≡ ok (byte_array (member "r" sig) ++ byte_array (member "s" sig))
unfolding raw_signature
raw_signature-layout sig h l =
    two_halves [] (byte_array (member "r" sig)) (byte_array (member "s" sig)) 0 refl h l

hash_input-layout :
    (x y auth : List ℕ)
    → length x ≡ 32
    → length y ≡ 32
    → hash_input (0x04 ∷ (x ++ y)) auth ≡ ok ((x ++ y) ++ auth)
unfolding hash_input drop replicate
hash_input-layout x y auth h l =
    let size : length (x ++ y) ≡ 64 = omega (arith, h, l, length-append x y) in
    let first =
      set_bytes_at [] (x ++ y) 0 (64 + length auth) (length auth) refl (omega (arith, size)) in
    let second = set_bytes_at (x ++ y) auth 64 (length auth) 0 size (omega arith) in
    rw first (second ∙ ap ok (append-nil ((x ++ y) ++ auth)))

module _ (r : Readers) (k : QuoteServices r) where
  open r use {Certificate}
  open k use {Key, import_key, public_key, verify_signature, sha256, to_ber, chain_verify}

  -- The last certificate and those in front of it.
  front_and_root :
      (c : Certificate) (ds : List Certificate)
      → c ∷ ds ≡ in_front r k c ds ++ (root_of r k c ds ∷ [])
  unfolding in_front root_of
  front_and_root c [] = refl
  front_and_root c (d ∷ ds) = ap (λ xs. c ∷ xs) (front_and_root d ds)

  only_front_and_root :
      (c : Certificate) (ds front : List Certificate) (root : Certificate)
      → c ∷ ds ≡ front ++ (root ∷ [])
      → (in_front r k c ds ≡ front) × (root_of r k c ds ≡ root)
  unfolding in_front root_of
  only_front_and_root c [] [] root h = (refl, cc (h))
  only_front_and_root c [] (f ∷ []) root h = cc (h)
  only_front_and_root c [] (f ∷ (g ∷ front)) root h = cc (h)
  only_front_and_root c (d ∷ ds) [] root h = cc (h)
  only_front_and_root c (d ∷ ds) (f ∷ front) root h =
      let rest : d ∷ ds ≡ front ++ (root ∷ []) = cc (h) in
      let same : c ≡ f = cc (h) in
      let (a, b) = only_front_and_root d ds front root rest in (cc (a, same), b)

  -- The arrays of the attestation key and of the two signatures have the sizes of their classes.
  pub record IsSized (q : TdxQuote) : Type 0 where
    pub x_size : length (byte_array (member "x" (member "attestation_key" q.sig_data))) ≡ 32
    pub y_size : length (byte_array (member "y" (member "attestation_key" q.sig_data))) ≡ 32
    pub r_size : length (byte_array (member "r" (member "signature" q.sig_data))) ≡ 32
    pub s_size : length (byte_array (member "s" (member "signature" q.sig_data))) ≡ 32
    pub qe_r_size :
        length (byte_array (member "r" (member "qe_report_signature" q.qe_cert_data))) ≡ 32
    pub qe_s_size :
        length (byte_array (member "s" (member "qe_report_signature" q.qe_cert_data))) ≡ 32

  -- The coordinates of the attestation key.
  abbrev pub coordinates : TdxQuote → List ℕ
  coordinates q =
      byte_array (member "x" (member "attestation_key" q.sig_data))
      ++ byte_array (member "y" (member "attestation_key" q.sig_data))

  abbrev pub halves : Value → List ℕ
  halves sig = byte_array (member "r" sig) ++ byte_array (member "s" sig)

  -- The chain starts with `leaf` and ends in the known root, and is valid below it.
  abbrev pub IsChain : TdxQuote → Certificate → Type 0
  IsChain q leaf =
      (others : List Certificate) × (front : List Certificate) × (root : Certificate)
      × (extract_certs_from_pem_chain r (chain_bytes q.pck_cert_chain_raw) ≡ ok (leaf ∷ others))
      × (leaf ∷ others ≡ front ++ (root ∷ []))
      × (sha256 (to_ber root) ≡ root_digest)
      × (chain_verify front root ≡ true)

  abbrev pub IsGenuine : TdxQuote → Type 0
  IsGenuine q =
      ((is_number (member "version" q.header) 4 || is_number (member "version" q.header) 5) ≡ true)
      × (is_number (member "tee_type" q.header) 0x00000081 ≡ true)
      × (is_number (member "attestation_key_type" q.header) 2 ≡ true)
      × (is_number (member "type" q.cert_header) 6 ≡ true)
      × ((key : Key) × (auth : List ℕ) × (leaf : Certificate) × (leaf_key : Key) × (report : List ℕ)
          × (import_key (0x04 ∷ coordinates q) ≡ ok key)
          × (verify_signature key (halves (member "signature" q.sig_data))
                q.raw_report_for_signature
              ≡ true)
          × (q.qe_auth_data ≡ some auth)
          × (sha256 (coordinates q ++ auth)
              ≡ take 32 (byte_array (member "report_data" (member "qe_report" q.qe_cert_data))))
          × IsChain q leaf
          × (public_key leaf ≡ ok leaf_key)
          × (q.raw_qe_report_bytes ≡ some report)
          × (verify_signature leaf_key (halves (member "qe_report_signature" q.qe_cert_data)) report
              ≡ true))

  IsPckChain→IsChain : (q : TdxQuote) (leaf : Certificate) → IsPckChain r k q leaf → IsChain q leaf
  IsPckChain→IsChain q leaf (others, e, d, v) = (
    others,
    in_front r k leaf others,
    root_of r k leaf others,
    e,
    front_and_root leaf others,
    d,
    v,
  )

  IsChain→IsPckChain : (q : TdxQuote) (leaf : Certificate) → IsChain q leaf → IsPckChain r k q leaf
  IsChain→IsPckChain q leaf (others, front, root, e, all, d, v) =
      let (same_front, same_root) = only_front_and_root leaf others front root all in
      (others, e, rw same_root d, rw (same_front, same_root) v)

  -- Of a quote whose key and signatures have the sizes of their classes, `verifyQuote` returns no
  -- quote but the one that it got, and it returns it exactly when: the version is 4 or 5, the TEE
  -- type 0x81, the type of the attestation key 2 and that of the certification data 6; the key
  -- imported from 0x04 and the quote's own two coordinates verifies the quote's signature, r and s,
  -- of its first part; the report data of the quoting enclave starts with the hash of these
  -- coordinates and of the authentication data; the last certificate of the chain has the known
  -- digest, and the chain in front of it is valid below it; and the key of the first certificate
  -- verifies the signature, r and s, of the quoting enclave's report.
  pub verify_quote_iff :
      (q q' : TdxQuote) → IsSized q → (verify_quote r k q ≡ ok q') ↔ ((q' ≡ q) × IsGenuine q)
  verify_quote_iff q q' z =
      let point =
        attestation_point-layout (member "attestation_key" q.sig_data) z.x_size z.y_size in
      let signature = raw_signature-layout (member "signature" q.sig_data) z.r_size z.s_size in
      let qe_signature =
        raw_signature-layout (member "qe_report_signature" q.qe_cert_data) z.qe_r_size
          z.qe_s_size in
      let input = λ (auth : List ℕ).
        hash_input-layout (byte_array (member "x" (member "attestation_key" q.sig_data)))
          (byte_array (member "y" (member "attestation_key" q.sig_data))) auth z.x_size z.y_size in
      (
        λ h.
            let (same, (version, tee, type, certified, (p, leaf, p_ok, signed, bound, chain, qe))) =
              (verify_quote_steps r k q q').0 h in
            let (key, sig, imported, sig_ok, verified) = signed in
            let (auth, hashed, auth_ok, hashed_ok, matches) = bound in
            let (leaf_key, qe_sig, report, leaf_key_ok, qe_sig_ok, report_ok, qe_verified) = qe in
            let same_p : 0x04 ∷ coordinates q ≡ p = ok-injective (sym point ∙ p_ok) in
            let same_sig : halves (member "signature" q.sig_data) ≡ sig =
              ok-injective (sym signature ∙ sig_ok) in
            let same_qe : halves (member "qe_report_signature" q.qe_cert_data) ≡ qe_sig =
              ok-injective (sym qe_signature ∙ qe_sig_ok) in
            let same_input : coordinates q ++ auth ≡ hashed =
              ok-injective (sym (input auth) ∙ ap (λ x. hash_input x auth) same_p ∙ hashed_ok) in
            (
              same,
              (
                version,
                tee,
                type,
                certified,
                (
                  key,
                  auth,
                  leaf,
                  leaf_key,
                  report,
                  ap import_key same_p ∙ imported,
                  ap (λ x. verify_signature key x q.raw_report_for_signature) same_sig ∙ verified,
                  auth_ok,
                  ap sha256 same_input ∙ matches,
                  IsPckChain→IsChain q leaf chain,
                  leaf_key_ok,
                  report_ok,
                  ap (λ x. verify_signature leaf_key x report) same_qe ∙ qe_verified,
                ),
              ),
            ),
        λ (
          same,
          (
            version,
            tee,
            type,
            certified,
            (
              key, auth, leaf, leaf_key, report, imported, verified, auth_ok, matches, chain,
              leaf_key_ok, report_ok, qe_verified,
            ),
          ),
        ).
            (verify_quote_steps r k q q').1 (
              same,
              (
                version,
                tee,
                type,
                certified,
                (
                  0x04 ∷ coordinates q,
                  leaf,
                  point,
                  (key, _, imported, signature, verified),
                  (auth, _, auth_ok, input auth, matches),
                  IsChain→IsPckChain q leaf chain,
                  (leaf_key, _, report, leaf_key_ok, qe_signature, report_ok, qe_verified),
                ),
              ),
            ),
      )
