-- ===== src/Examples/Reports.antt =====
-- An attestation report, and services that accept it.
use sylica.Base.{
  ℕ, ◌≡◌, ◌↔◌, drop, Option, refl, List, [], ◌∷◌, ◌++◌, some, true, false, length, take, replicate,
  same_bytes, ltb, arith, ok,
}
use sylica.Examples.{all_bytes, all_bytes-IsBytes}
use sylica.Ctype.{
  Value, num, signing_key, vcek, object, empty, entry, end, value, member, is_number,
}
use sylica.Ctype.Pack.{pack}
use sylica.Pem.{
  Readers, begin_marker, end_marker, strip, split_at, replace_first, is_space, without_spaces,
  parse_pem,
}
use sylica.Report.{
  SnpAttestation, Services, cert_chain, crl_of, vcek_of, vcek_url, product, check_attestation,
  verify_report, fetch_chain,
}
use sylica.Page.{Target, verify_snp}
use sylica.Page.Measured.{verify_snp_iff}
use sylica.Report.Parsing.{check_attestation_total}
use sylica.Report.Accepted.{IsGenuine, verify_report_iff}

abbrev report_bytes : List ℕ
report_bytes = replicate 1200 3

report_bytes-IsBytes : all_bytes report_bytes ≡ true
unfolding all_bytes replicate
report_bytes-IsBytes = refl

report_bytes_long : length report_bytes ≡ 1200
unfolding replicate
report_bytes_long = refl

check_attestation_total_example :
    (a : SnpAttestation) × (check_attestation report_bytes ≡ ok a)
    × (a.raw_report ≡ take 672 report_bytes)
    × (pack a.report ≡ ok (take 1184 report_bytes))
check_attestation_total_example =
    check_attestation_total report_bytes (all_bytes-IsBytes report_bytes report_bytes-IsBytes)
      (rw report_bytes_long (omega arith))

-- Text and bytes are the same here, and a certificate is the number of its bytes: 2 for ARK, 1 for
-- ASK, none for the chip's; each is signed by the next one.
abbrev readers : Readers
readers = record {
  Certificate = ℕ;
  decode_text = λ raw. raw;
  from_base64 = λ text. ok text;
  from_ber = λ ber. ok (length ber);
}

abbrev chain : List ℕ
chain =
    begin_marker
    ++ (b'K' ∷ (end_marker ++ (10 ∷ (begin_marker ++ (b'R' ∷ b'K' ∷ (end_marker ++ (10 ∷ [])))))))

abbrev services : Services readers
services = record {
  Crl = ℕ;
  Key = ℕ;
  fetch = λ url. elim url [
    | cert_chain p ↦ ok chain
    | crl_of p ↦ ok (9 ∷ [])
    | vcek_of p chip bl tee snp ucode ↦ ok []
  ];
  crl_from_ber = λ raw. ok 2;
  certificate_verify = λ subject issuer. ltb subject issuer;
  crl_verify = λ crl issuer. ltb 1 issuer;
  is_revoked = λ crl subject. false;
  this_update = λ crl. 10;
  next_update = λ crl. 30;
  now = 20;
  public_key = λ subject. ok subject;
  verify_signature = λ key signature message. same_bytes message (7 ∷ 7 ∷ []);
}

abbrev report : Value
report = object end (
    entry "version" (num 3) (
      entry "signature_algorithm" (num 1) (
        entry "flags" (object end (entry "signing_key" (signing_key vcek) empty)) (
          entry "cpuid" (object end (entry "family" (num 25) (entry "model" (num 17) empty)))
            empty))))

abbrev attestation : SnpAttestation
attestation = record { report = report; raw_report = 7 ∷ 7 ∷ [] }

attestation_accepted : verify_report readers services attestation ≡ ok attestation
unfolding verify_report fetch_chain product is_number member value same_bytes split_at strip
    parse_pem without_spaces is_space replace_first drop vcek_url
attestation_accepted = refl

verify_report_iff_example :
    (verify_report readers services attestation ≡ ok attestation)
    ↔ ((attestation ≡ attestation) × IsGenuine readers services attestation)
verify_report_iff_example = verify_report_iff readers services attestation attestation

abbrev target : Option Target
target = some (record { ovmf_hash = []; measurement = some (replicate 48 3) })

verify_snp_iff_example : (verify_snp readers services target report_bytes ≡ ok (replicate 48 3)) ↔ (
    (a : SnpAttestation) × (check_attestation report_bytes ≡ ok a)
    × (verify_report readers services a ≡ ok a)
    × (a.raw_report ≡ take 672 report_bytes)
    × (replicate 48 3 ≡ take 48 (drop 144 (take 672 report_bytes)))
    × ((t : Target) × (target ≡ some t) × (t.measurement ≡ some (replicate 48 3))))
verify_snp_iff_example =
    verify_snp_iff readers services target report_bytes (replicate 48 3)
      (all_bytes-IsBytes report_bytes report_bytes-IsBytes)
