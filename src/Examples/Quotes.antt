-- ===== src/Examples/Quotes.antt =====
-- A chain of two PEM blocks, and a quote that services accept.
use sylica.Base.{
  ◌+◌, ℕ, ◌≡◌, ◌↔◌, refl, List, [], ◌∷◌, ◌++◌, true, replicate, same_bytes, set_bytes, take, drop,
  Option, none, some, All, ok, ◌≤◌,
}
use sylica.Ctype.{
  Value, undefined, num, bytes, object, empty, entry, end, member, value, byte_array, is_number,
  number,
}
use sylica.Quote.{TdxQuote, check_quote}
use sylica.Pem.{
  Readers, begin_marker, end_marker, is_space, split_at, strip, without_spaces,
  extract_certs_from_pem_chain,
}
use sylica.Pem.Chain.{
  Block, IsBlock, chain_text, certificates_of, extract_certs_from_pem_chain-chain_text,
}
use sylica.Examples.{all_bytes-IsBytes}
use sylica.Examples.Formats.{quote_bytes, quote_bytes-IsBytes}
use sylica.Page.{Target, verify_tdx}
use sylica.Page.MrTd.{mr_td_offset}
use sylica.Page.Quoted.{verify_tdx_iff}
use sylica.Verify.{
  QuoteServices, root_digest, attestation_point, raw_signature, assigned, hash_input, verify_quote,
}
use sylica.Verify.Signed.{IsSized, IsGenuine, verify_quote_iff}

-- Text and bytes are the same here, and a certificate is its text.
abbrev readers : Readers
readers = record {
  Certificate = List ℕ;
  decode_text = λ raw. raw;
  from_base64 = λ text. ok text;
  from_ber = λ ber. ok ber;
}

abbrev leaf_block : Block
leaf_block = ([], b'L' ∷ 10 ∷ b'F' ∷ [])

abbrev root_block : Block
root_block = (10 ∷ [], b'R' ∷ b' ' ∷ b'T' ∷ [])

abbrev chain : List ℕ
chain =
    begin_marker
    ++ (b'L'
        ∷ 10
        ∷ b'F'
        ∷ (end_marker ++ (10 ∷ (begin_marker ++ (b'R' ∷ b' ' ∷ b'T' ∷ (end_marker ++ (10 ∷ [])))))))

chain-chain_text : chain ≡ chain_text (leaf_block ∷ (root_block ∷ [])) (10 ∷ [])
unfolding chain_text
chain-chain_text = refl

blocks-IsBlock : All IsBlock (leaf_block ∷ (root_block ∷ []))
blocks-IsBlock = ((tt, (refl, (refl, (refl, tt)))), (((refl, tt), (refl, (refl, (refl, tt)))), tt))

extract_certs_from_pem_chain-chain_text_example :
    extract_certs_from_pem_chain readers chain
    ≡ certificates_of readers (leaf_block ∷ (root_block ∷ []))
extract_certs_from_pem_chain-chain_text_example =
    extract_certs_from_pem_chain-chain_text readers chain leaf_block (root_block ∷ []) (10 ∷ [])
      blocks-IsBlock (refl, tt) chain-chain_text

-- The bodies lose their white space.
chain_certificates :
    certificates_of readers (leaf_block ∷ (root_block ∷ []))
    ≡ ok ((b'L' ∷ b'F' ∷ []) ∷ ((b'R' ∷ b'T' ∷ []) ∷ []))
unfolding without_spaces is_space
chain_certificates = refl

-- Every key verifies the signature that holds 7 everywhere, and everything has the hash that the
-- root must have.
abbrev services : QuoteServices readers
services = record {
  Key = List ℕ;
  import_key = λ point. ok point;
  public_key = λ certificate. ok certificate;
  verify_signature = λ key signature message. same_bytes signature (replicate 64 7);
  sha256 = λ message. root_digest;
  to_ber = λ certificate. certificate;
  chain_verify = λ certificates root. true;
}

abbrev quote_sig : Value
quote_sig =
    object end (entry "r" (bytes (replicate 32 7)) (entry "s" (bytes (replicate 32 7)) empty))

abbrev attestation_key : Value
attestation_key =
    object end (entry "x" (bytes (replicate 32 1)) (entry "y" (bytes (replicate 32 2)) empty))

abbrev qe_report : Value
qe_report = object end (entry "report_data" (bytes (root_digest ++ replicate 32 0)) empty)

abbrev quote : TdxQuote
quote = record {
  header = object end (
      entry "version" (num 4)
        (entry "tee_type" (num 129) (entry "attestation_key_type" (num 2) empty)));
  descriptor = undefined;
  body = undefined;
  raw_report_for_signature = 1 ∷ 2 ∷ [];
  sig_data =
      object end (entry "signature" quote_sig (entry "attestation_key" attestation_key empty));
  cert_header = object end (entry "type" (num 6) empty);
  qe_cert_data =
      object end (entry "qe_report" qe_report (entry "qe_report_signature" quote_sig empty));
  raw_qe_report_bytes = some (3 ∷ []);
  qe_auth_data = some (4 ∷ []);
  pck_cert_header = undefined;
  pck_cert_chain_raw = some chain;
}

-- The quote is accepted.
quote_accepted : verify_quote readers services quote ≡ ok quote
unfolding verify_quote is_number member value attestation_point set_bytes byte_array replicate take
    drop raw_signature same_bytes assigned hash_input extract_certs_from_pem_chain split_at strip
quote_accepted = refl

quote-IsSized : IsSized readers services quote
unfolding member value byte_array replicate
quote-IsSized = record {
  x_size = refl;
  y_size = refl;
  r_size = refl;
  s_size = refl;
  qe_r_size = refl;
  qe_s_size = refl;
}

verify_quote_iff_example :
    (verify_quote readers services quote ≡ ok quote)
    ↔ ((quote ≡ quote) × IsGenuine readers services quote)
verify_quote_iff_example = verify_quote_iff readers services quote quote quote-IsSized

abbrev target : Option Target
target = some (record { ovmf_hash = replicate 48 7; measurement = none })

verify_tdx_iff_example : (verify_tdx readers services target quote_bytes ≡ ok (replicate 48 7)) ↔ (
    (q : TdxQuote) × (check_quote quote_bytes ≡ ok q)
    × (verify_quote readers services q ≡ ok q)
    × ((stop : ℕ) × (q.raw_report_for_signature ≡ take stop quote_bytes)
        × (mr_td_offset (number (member "version" q.header)) + 48 ≤ stop))
    × (replicate 48 7
        ≡ take 48 (drop (mr_td_offset (number (member "version" q.header))) quote_bytes))
    × ((t : Target) × (target ≡ some t) × (t.ovmf_hash ≡ replicate 48 7)))
verify_tdx_iff_example =
    verify_tdx_iff readers services target quote_bytes (replicate 48 7)
      (all_bytes-IsBytes quote_bytes quote_bytes-IsBytes)
