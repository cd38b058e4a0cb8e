-- ===== src/Page/Measured.antt =====
-- Which measurement `verify` reports: bytes of the input that the signature covers.
use sylica.Base.{
  ok-injective, ℕ, ◌≡◌, refl, sym, ap, ◌∙◌, ◌↔◌, subst, List, true, false, Option, none, some, take,
  drop, slice, slice-IsBytes, IsBytes, same_bytes, same_bytes→eq, same_bytes_refl, take-take,
  take-drop-take, Bool, ok, >>=-eq-ok, guard-eq-ok, arith,
}
use sylica.Ctype.{inherited, member, byte_array}
use sylica.Ctype.Layout.{type_width}
use sylica.Ctype.Located.{IsLocated, array_size, unpack-IsLocated}
use sylica.Ctype.Unpack.{unpack}
use sylica.Types.Snp.{snp_attestation}
use sylica.Pem.{Readers}
use sylica.Report.{SnpAttestation, Services, unpack_attestation, check_attestation, verify_report}
use sylica.Report.Parsing.{report_size, report_plain, signature_size, slice_prefix}
use sylica.Report.Accepted.{verify_report_iff}
use sylica.Ctype.Size.{ctype_size}
use sylica.Ctype.Pack.{pack}
use sylica.Page.{Target, matches_measurement, verify_snp}

measurement-IsLocated : IsLocated snp_attestation "measurement" 0 48 144
unfolding IsLocated array_size type_width
measurement-IsLocated = (refl, refl)

unpack_attestation-eq-ok :
    (raw : List ℕ) (a : SnpAttestation)
    → unpack_attestation raw ≡ ok a
    → (unpack inherited snp_attestation raw ≡ ok a.report) × (a.raw_report ≡ slice raw 0 672)
unfolding unpack_attestation
unpack_attestation-eq-ok raw a h =
    let (report, u, h₁) = >>=-eq-ok (unpack inherited snp_attestation raw) _ h in
    let same : record { report = report; raw_report = slice raw 0 672 } ≡ a =
      ok-injective (rw (report_size, signature_size) at h₁) in
    (
      u ∙ ap (λ (x : SnpAttestation). ok x.report) same,
      sym (ap (λ (x : SnpAttestation). x.raw_report) same),
    )

check_attestation-eq-ok :
    (buf : List ℕ) (a : SnpAttestation)
    → check_attestation buf ≡ ok a
    → unpack_attestation (slice buf 0 1184) ≡ ok a
unfolding check_attestation
check_attestation-eq-ok buf a h =
    let (n, s, h₀) = >>=-eq-ok (ctype_size snp_attestation) _ h in
    let (b, u, h₁) = >>=-eq-ok (unpack_attestation (slice buf 0 n)) _ h₀ in
    let (packed, p, h₂) = >>=-eq-ok (pack b.report) _ h₁ in
    let (_, e) = guard-eq-ok _ _ _ h₂ in
    let size : n ≡ 1184 = cc (s, report_size) in rw (← size) (u ∙ e)

-- The signed part of a report that is parsed is the first 672 bytes of the input, and the report's
-- measurement stands in it, from byte 144 on.
measurement_signed :
    (buf : List ℕ) (a : SnpAttestation)
    → IsBytes buf
    → check_attestation buf ≡ ok a
    → (a.raw_report ≡ take 672 buf)
      × (byte_array (member "measurement" a.report) ≡ take 48 (drop 144 a.raw_report))
measurement_signed buf a b h =
    let raw : List ℕ = slice buf 0 1184 in
    let (u, r) = unpack_attestation-eq-ok raw a (check_attestation-eq-ok buf a h) in
    let (m, _) =
      unpack-IsLocated snp_attestation 1184 raw "measurement" 48 144 report_plain report_size
        (slice-IsBytes buf 0 1184 b) measurement-IsLocated u in
    let prefix : a.raw_report ≡ take 672 raw = r ∙ slice_prefix raw 672 in
    (
      prefix ∙ rw (slice_prefix buf 1184) (take-take 672 1184 buf (omega arith)),
      m ∙ sym (ap (λ x. take 48 (drop 144 x)) prefix ∙ take-drop-take 144 48 672 raw (omega arith)),
    )

matches_measurement-eq-true :
    (target : Option Target) (received : List ℕ)
    → matches_measurement target received ≡ true
    → (t : Target) × (target ≡ some t) × (t.measurement ≡ some received)
unfolding matches_measurement
matches_measurement-eq-true none received h = cc
matches_measurement-eq-true (some t) received h = expected t.measurement refl h
  where
    expected :
        (o : Option (List ℕ))
        → t.measurement ≡ o
        → elim o as (λ x. Bool) [ none ↦ false | some e ↦ same_bytes received e ] ≡ true
        → (t' : Target) × (some t ≡ some t') × (t'.measurement ≡ some received)
    expected none q h' = cc
    expected (some e) q h' = (t, refl, q ∙ ap some (sym (same_bytes→eq received e h')))

matches_measurement-measured :
    (t : Target) (received : List ℕ)
    → t.measurement ≡ some received
    → matches_measurement (some t) received ≡ true
unfolding matches_measurement
matches_measurement-measured t received h = rw h (same_bytes_refl received)

-- Of a file of bytes in SNP mode, `verify` reports a measurement exactly when the file is parsed as a
-- report, `verifyReport` accepts the report, whose signed part is the first 672 bytes of the file,
-- and the measurement stands in this part, from byte 144 on, and is the one that the page has
-- computed for its target.
pub verify_snp_iff :
    (r : Readers) (k : Services r) (target : Option Target) (buf m : List ℕ)
    → IsBytes buf
    → (verify_snp r k target buf ≡ ok m) ↔ (
        (a : SnpAttestation) × (check_attestation buf ≡ ok a)
        × (verify_report r k a ≡ ok a)
        × (a.raw_report ≡ take 672 buf)
        × (m ≡ take 48 (drop 144 (take 672 buf)))
        × ((t : Target) × (target ≡ some t) × (t.measurement ≡ some m)))
unfolding verify_snp
verify_snp_iff r k target buf m b = (
  λ h.
      let (a, c, h₁) = >>=-eq-ok (check_attestation buf) _ h in
      let (a', v, h₂) = >>=-eq-ok (verify_report r k a) _ h₁ in
      let (matched, h₃) = guard-eq-ok _ _ _ h₂ in
      let same : byte_array (member "measurement" a.report) ≡ m = ok-injective h₃ in
      let (signed, at) = measurement_signed buf a b c in
      let (unchanged, _) = (verify_report_iff r k a a').0 v in
      (
        a,
        c,
        v ∙ ap ok unchanged,
        signed,
        sym same ∙ at ∙ ap (λ x. take 48 (drop 144 x)) signed,
        matches_measurement-eq-true target m
            (subst (λ x. matches_measurement target x ≡ true) same matched),
      ),
  λ (a, c, v, signed, e, (t, found, measured)).
      let (_, at) = measurement_signed buf a b c in
      let same : byte_array (member "measurement" a.report) ≡ m =
        at ∙ ap (λ x. take 48 (drop 144 x)) signed ∙ sym e in
      rw (c, v, found, same, matches_measurement-measured t m measured) refl,
)
