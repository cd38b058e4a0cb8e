-- ===== src/Report/Parsing.antt =====
-- Parsing attestation reports.
use sylica.Base.{
  ℕ, ◌≤◌, ◌≡◌, refl, ap, ◌∙◌, List, true, length, take, drop, slice, IsBytes, slice-IsBytes,
  length-slice, drop, take_all, take-take, ok, same_bytes_refl, arith,
}
use native.Mathlib.Numerals.{unary_clauses}
use sylica.Ctype.{inherited, object}
use sylica.Ctype.Size.{ctype_size}
use sylica.Ctype.Layout.{width, plain_class, plain, plain_type, fresh, has_signer}
use sylica.Ctype.Pack.{pack}
use sylica.Ctype.RoundTrip.{unpack_total}
use sylica.Types.Snp.{snp_attestation, signature}
use sylica.Report.{SnpAttestation, unpack_attestation, check_attestation}

pub report_size : ctype_size snp_attestation ≡ ok 1184
unfolding ctype_size
report_size = refl

pub signature_size : ctype_size signature ≡ ok 512
unfolding ctype_size
signature_size = refl

pub report_plain : plain_class inherited snp_attestation ≡ true
unfolding plain_class plain plain_type fresh has_signer width
report_plain = refl

pub slice_prefix : (buf : List ℕ) (n : ℕ) → slice buf 0 n ≡ take n buf
unfolding slice drop
slice_prefix buf n = simp unary_clauses refl

-- A buffer of at least 1184 bytes is parsed as a report, the comparison with the packed report does
-- not fail, the signed part is the first 672 bytes, and the packed report is the first 1184 bytes.
pub check_attestation_total :
    (buf : List ℕ)
    → IsBytes buf
    → 1184 ≤ length buf
    → (a : SnpAttestation) × (check_attestation buf ≡ ok a)
      × (a.raw_report ≡ take 672 buf)
      × (pack a.report ≡ ok (take 1184 buf))
unfolding check_attestation unpack_attestation
check_attestation_total buf b h =
    let raw : List ℕ = slice buf 0 1184 in
    let fits : length raw ≡ 1184 = length-slice buf 0 1184 h in
    let (d, u, p) =
      unpack_total inherited snp_attestation 1184 raw report_plain report_size
        (slice-IsBytes buf 0 1184 b) (omega arith) in
    let whole : take 1184 raw ≡ raw = take_all 1184 raw (omega arith) in
    (
      record { report = object snp_attestation d; raw_report = slice raw 0 672 },
      rw (report_size, signature_size, u, p, whole, same_bytes_refl raw),
      slice_prefix raw 672 ∙ rw (slice_prefix buf 1184) (take-take 672 1184 buf (omega arith)),
      p ∙ ap ok (whole ∙ slice_prefix buf 1184),
    )
