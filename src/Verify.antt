-- ===== src/Verify.antt =====
-- tools/measure-browser/static/verify.js, `verifyQuote` and `verifyPckCertChain`: the signatures and
-- the certificates of a TDX quote. Keys, signatures, SHA-256, certificates and the engine that
-- validates a chain, with its clock, are parameters.
pub mod Accepted
pub mod Signed
use sylica.Base.{
  ℕ, List, [], ◌∷◌, Bool, ◌||◌, Option, none, some, length, take, drop, ◌+◌, replicate, set_bytes,
  same_bytes, Result, ok, err, ◌>>=◌, ◌>>◌, guard, type_error, unsupported_version,
  unsupported_tee_type, unsupported_key_type, unverified_quote, mismatched_key, unverified_qe,
  empty_chain, mismatched_root, unverified_chain, unsupported_certification,
}
use sylica.Ctype.{Value, member, number, byte_array, is_number}
use sylica.Quote.{TdxQuote}
use sylica.Pem.{Readers, extract_certs_from_pem_chain}

-- The key of ECDSA on P-256 with SHA-256 that is imported from a point or taken from a certificate.
pub record QuoteServices (r : Readers) : Type 1 where
  pub Key : Type 0
  pub import_key : List ℕ → Result Key
  pub public_key : r.Certificate → Result Key
  pub verify_signature : Key → List ℕ → List ℕ → Bool
  pub sha256 : List ℕ → List ℕ
  pub to_ber : r.Certificate → List ℕ
  pub chain_verify : List (r.Certificate) → r.Certificate → Bool

-- "44a0196b2b99f889b8e149e95b807a350e7424964399e885a7cbb8ccfab674d3"
abbrev pub root_digest : List ℕ
root_digest =
    0x44 ∷ 0xa0 ∷ 0x19 ∷ 0x6b ∷ 0x2b ∷ 0x99 ∷ 0xf8 ∷ 0x89 ∷ 0xb8 ∷ 0xe1 ∷ 0x49 ∷ 0xe9 ∷ 0x5b ∷ 0x80
    ∷ 0x7a ∷ 0x35 ∷ 0x0e ∷ 0x74 ∷ 0x24 ∷ 0x96 ∷ 0x43 ∷ 0x99 ∷ 0xe8 ∷ 0x85 ∷ 0xa7 ∷ 0xcb ∷ 0xb8
    ∷ 0xcc ∷ 0xfa ∷ 0xb6 ∷ 0x74 ∷ 0xd3 ∷ []

-- `attestationKey`: a point that is not compressed.
unfoldable pub attestation_point : Value → Result (List ℕ)
attestation_point key = do
  a ← set_bytes (0x04 ∷ replicate 64 0) 1 (byte_array (member "x" key))
  set_bytes a 33 (byte_array (member "y" key))

-- `quoteSignature` and `qeSig`
unfoldable pub raw_signature : Value → Result (List ℕ)
raw_signature sig = do
  a ← set_bytes (replicate 64 0) 0 (byte_array (member "r" sig))
  set_bytes a 32 (byte_array (member "s" sig))

-- `hashInput`
unfoldable pub hash_input : List ℕ → List ℕ → Result (List ℕ)
hash_input attestation_key qe_auth_data = do
  a ← set_bytes (replicate (64 + length qe_auth_data) 0) 0 (drop 1 attestation_key)
  set_bytes a 64 qe_auth_data

-- A member that is read although it may be undefined.
unfoldable pub assigned : Option (List ℕ) → Result (List ℕ)
assigned none = err type_error
assigned (some bs) = ok bs

-- `new TextDecoder().decode(undefined)` decodes no bytes.
abbrev pub chain_bytes : Option (List ℕ) → List ℕ
chain_bytes none = []
chain_bytes (some bs) = bs

module _ (r : Readers) (k : QuoteServices r) where
  open r use {Certificate}
  open k use {Key, import_key, public_key, verify_signature, sha256, to_ber, chain_verify}

  -- `certs[certs.length - 1]` and what stands in front of it.
  unfoldable pub root_of : Certificate → List Certificate → Certificate
  root_of c [] = c
  root_of c (d ∷ ds) = root_of d ds

  unfoldable pub in_front : Certificate → List Certificate → List Certificate
  in_front c [] = []
  in_front c (d ∷ ds) = c ∷ in_front d ds

  unfoldable pub check_chain : List Certificate → Result Certificate
  unfolding root_of in_front
  check_chain [] = err empty_chain
  check_chain (leaf ∷ others) = do
    guard (same_bytes (sha256 (to_ber (root_of leaf others))) root_digest) mismatched_root
    guard (chain_verify (in_front leaf others) (root_of leaf others)) unverified_chain
    ok leaf

  -- `verifyPckCertChain(pckCertChainRaw)`
  unfoldable pub verify_pck_cert_chain : List ℕ → Result Certificate
  unfolding check_chain
  verify_pck_cert_chain pck_cert_chain_raw = do
    certs ← extract_certs_from_pem_chain r pck_cert_chain_raw
    check_chain certs

  -- The signature of the quote under the attestation key that the quote brings along.
  unfoldable pub check_quote_signature : TdxQuote → List ℕ → Result (Unit {0})
  check_quote_signature quote attestation_key = do
    att_pub_key ← import_key attestation_key
    quote_signature ← raw_signature (member "signature" quote.sig_data)
    guard (verify_signature att_pub_key quote_signature quote.raw_report_for_signature)
        unverified_quote

  -- The quoting enclave's report names the attestation key.
  unfoldable pub check_qe_binding : TdxQuote → List ℕ → Result (Unit {0})
  check_qe_binding quote attestation_key = do
    auth ← assigned quote.qe_auth_data
    input ← hash_input attestation_key auth
    guard
        (same_bytes (sha256 input)
          (take 32 (byte_array (member "report_data" (member "qe_report" quote.qe_cert_data)))))
        mismatched_key

  -- The certified key signs the quoting enclave's report.
  unfoldable pub check_qe_signature : TdxQuote → Certificate → Result (Unit {0})
  check_qe_signature quote pck = do
    pck_pub_key ← public_key pck
    qe_sig ← raw_signature (member "qe_report_signature" quote.qe_cert_data)
    report ← assigned quote.raw_qe_report_bytes
    guard (verify_signature pck_pub_key qe_sig report) unverified_qe

  -- `verifyQuote(quote)`
  unfoldable pub verify_quote : TdxQuote → Result TdxQuote
  unfolding check_quote_signature check_qe_binding check_qe_signature verify_pck_cert_chain
  verify_quote quote = do
    guard
        (is_number (member "version" quote.header) 4 || is_number (member "version" quote.header) 5)
        unsupported_version
    guard (is_number (member "tee_type" quote.header) 0x00000081) unsupported_tee_type
    guard (is_number (member "attestation_key_type" quote.header) 2) unsupported_key_type
    attestation_key ← attestation_point (member "attestation_key" quote.sig_data)
    check_quote_signature quote attestation_key
    guard (is_number (member "type" quote.cert_header) 6)
        (unsupported_certification (number (member "type" quote.cert_header)))
    check_qe_binding quote attestation_key
    pck ← verify_pck_cert_chain (chain_bytes quote.pck_cert_chain_raw)
    check_qe_signature quote pck
    ok quote
