-- ===== src/Report.antt =====
-- The SEV-SNP attestation report: types.js, `SnpAttestation.unpack` and `CpuId.product`; index.js,
-- the check of a parsed report; tools/measure-browser/static/verify.js, `verifyReport`.
-- Certificates, revocation lists, keys and signatures (pkijs, Web Crypto), the network and the clock
-- are parameters.
pub mod Accepted
pub mod Chain
pub mod Parsing
pub mod Policy
pub mod Products
use sylica.Base.{
  ℕ, zero, suc, ◌-◌, ◌+◌, String, List, [], ◌∷◌, ◌++◌, length, drop, Option, none, some, Bool, true,
  false, ◌&&◌, ◌||◌, not, ◌==◌, ltb, if◌then◌else◌, take, slice, same_bytes, Result, ok, err, ◌>>=◌,
  ◌>>◌, guard, broken_parser, unsupported_version, unsupported_signature_algorithm,
  unsupported_signer, unsupported_product, unverified_ask, unverified_crl, revoked_ask, invalid_crl,
  unverified_vcek, unverified_report, type_error,
}
use mathlib.Core.List.{reverse}
use sylica.Ctype.{
  inherited, Value, Signer, vcek, vlek, signing_key, member, number, byte_array, is_number,
}
use sylica.Ctype.Size.{ctype_size}
use sylica.Ctype.Unpack.{unpack}
use sylica.Ctype.Pack.{pack}
use sylica.Pem.{begin_marker, split_at, Readers, parse_pem}
use sylica.Types.Snp.{snp_attestation, signature}

pub record SnpAttestation : Type 0 where
  pub report : Value
  pub raw_report : List ℕ

-- `SnpAttestation.unpack(data)`
unfoldable pub unpack_attestation : List ℕ → Result SnpAttestation
unpack_attestation data_bytes = do
  report ← unpack inherited snp_attestation data_bytes
  n ← ctype_size snp_attestation
  m ← ctype_size signature
  ok (record { report = report; raw_report = slice data_bytes 0 (n - m) })

-- index.js, `verify`, in SNP mode: the report is parsed, and packed again for a comparison.
unfoldable pub check_attestation : List ℕ → Result SnpAttestation
unfolding unpack_attestation
check_attestation data_bytes = do
  n ← ctype_size snp_attestation
  let raw = slice data_bytes 0 n
  attestation ← unpack_attestation raw
  packed ← pack attestation.report
  guard (same_bytes packed raw) broken_parser
  ok attestation

pub data Product : Type 0 where
  milan genoa turin unknown : Product

-- `CpuId.product()`
unfoldable pub product : Value → Product
product cpuid =
    if is_number (member "family" cpuid) 25
    then (if is_number (member "model" cpuid) 1
        then milan
        else (if is_number (member "model" cpuid) 17 then genoa else unknown))
    else (if is_number (member "family" cpuid) 26
        then (if is_number (member "model" cpuid) 2 then turin else unknown)
        else unknown)

abbrev pub is_known : Product → Bool
is_known unknown = false
is_known _ = true

abbrev pub is_vcek : Value → Bool
is_vcek (signing_key vcek) = true
is_vcek _ = false

-- The addresses below https://kdsintf.amd.com/vcek/v1/: the parts that their texts are made of.
pub data Url : Type 0 where
  cert_chain crl_of : Product → Url
  vcek_of : Product → List ℕ → ℕ → ℕ → ℕ → ℕ → Url

-- pkijs, Web Crypto, the network and the clock.
pub record Services (r : Readers) : Type 1 where
  pub Crl : Type 0
  pub Key : Type 0
  pub fetch : Url → Result (List ℕ)
  pub crl_from_ber : List ℕ → Result Crl
  pub certificate_verify : r.Certificate → r.Certificate → Bool
  pub crl_verify : Crl → r.Certificate → Bool
  pub is_revoked : Crl → r.Certificate → Bool
  pub this_update : Crl → ℕ
  pub next_update : Crl → ℕ
  pub now : ℕ
  pub public_key : r.Certificate → Result Key
  pub verify_signature : Key → List ℕ → List ℕ → Bool

-- `signature.set(r.slice(0, 48).reverse(), 0)` and the same for `s`, at 48.
unfoldable pub report_signature : Value → List ℕ
report_signature sig =
    reverse (take 48 (byte_array (member "r" sig)))
    ++ reverse (take 48 (byte_array (member "s" sig)))

unfoldable pub vcek_url : Product → Value → Url
vcek_url p report =
    let tcb = member "reported_tcb" report in
    vcek_of p (byte_array (member "chip_id" report)) (number (member "bootloader" tcb))
      (number (member "tee" tcb)) (number (member "snp" tcb)) (number (member "microcode" tcb))

-- `text.split("-----BEGIN CERTIFICATE-----")`: each turn uses up a marker.
unfoldable pub split_text : ℕ → List ℕ → List (List ℕ)
split_text zero text = text ∷ []
split_text (suc fuel) text = elim (split_at begin_marker text) [
  | none ↦ text ∷ []
  | some (before, after) ↦ before ∷ split_text fuel after
]

-- The split text of a chain, with as many turns as it has characters.
unfoldable pub chain_pieces : List ℕ → List (List ℕ)
unfolding split_text
chain_pieces text = split_text (length text) text

-- `const [askRaw, arkRaw] = ...`: what is missing is undefined, and no certificate can be read.
unfoldable pub first_two : List (List ℕ) → Result (List ℕ × List ℕ)
first_two [] = err type_error
first_two (ask_raw ∷ []) = err type_error
first_two (ask_raw ∷ (ark_raw ∷ others)) = ok (ask_raw, ark_raw)

module _ (r : Readers) (k : Services r) where
  open r use {Certificate, decode_text, from_ber}
  open k use {
    Crl, fetch, crl_from_ber, certificate_verify, crl_verify, is_revoked, this_update, next_update,
    now, public_key, verify_signature,
  }

  -- `.map(parsePem)`
  unfoldable pub parse_pems : List (List ℕ) → Result (List (List ℕ))
  parse_pems [] = ok []
  parse_pems (pem ∷ rest) = do ber ← parse_pem r pem; bers ← parse_pems rest; ok (ber ∷ bers)

  -- The chain: ASK is signed by ARK.
  unfoldable pub fetch_chain : Product → Result (Certificate × Certificate)
  unfolding chain_pieces parse_pems first_two
  fetch_chain p = do
    chain_raw ← fetch (cert_chain p)
    bers ← parse_pems (drop 1 (chain_pieces (decode_text chain_raw)))
    (ask_raw, ark_raw) ← first_two bers
    ark ← from_ber ark_raw
    ask ← from_ber ask_raw
    guard (certificate_verify ask ark) unverified_ask
    ok (ask, ark)

  -- The revocation list: signed by ARK, without ASK, and of today.
  unfoldable pub check_revocation : Product → Certificate → Certificate → Result (Unit {0})
  check_revocation p ask ark = do
    crl_raw ← fetch (crl_of p)
    crl ← crl_from_ber crl_raw
    guard (crl_verify crl ark) unverified_crl
    guard (not (is_revoked crl ask)) revoked_ask
    guard (not (ltb now (this_update crl) || ltb (next_update crl) now)) invalid_crl

  -- The certificate of the chip, signed by ASK, and the report's signature under its key.
  unfoldable pub check_signature : Product → Certificate → SnpAttestation → Result (Unit {0})
  check_signature p ask attestation = do
    vcek_raw ← fetch (vcek_url p attestation.report)
    chip ← from_ber vcek_raw
    guard (certificate_verify chip ask) unverified_vcek
    key ← public_key chip
    guard
        (verify_signature key (report_signature (member "signature" attestation.report))
          attestation.raw_report)
        unverified_report

  -- `verifyReport(attestation)`
  unfoldable pub verify_report : SnpAttestation → Result SnpAttestation
  unfolding check_revocation check_signature
  verify_report attestation = do
    let report = attestation.report
    guard (is_number (member "version" report) 3) unsupported_version
    guard (is_number (member "signature_algorithm" report) 1) unsupported_signature_algorithm
    guard (is_vcek (member "signing_key" (member "flags" report))) unsupported_signer
    let p = product (member "cpuid" report)
    guard (is_known p) unsupported_product
    (ask, ark) ← fetch_chain p
    check_revocation p ask ark
    check_signature p ask attestation
    ok attestation
