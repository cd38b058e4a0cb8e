-- ===== src/Page.antt =====
-- tools/measure-browser/static/index.js, `verify`: a report or a quote is parsed, verified, and its
-- measurement compared with the one that the page has computed.
pub mod Measured
pub mod MrTd
pub mod SignedPart
pub mod Quoted
pub mod Form
pub mod Session
use sylica.Base.{
  ℕ, List, Bool, true, false, Option, none, some, same_bytes, Result, ok, ◌>>=◌, ◌>>◌, guard,
  wrong_measurement,
}
use sylica.Ctype.{member, byte_array}
use sylica.Report.{Services, check_attestation, verify_report}
use sylica.Quote.{check_quote}
use sylica.Pem.{Readers}
use sylica.Verify.{QuoteServices, verify_quote}

-- `target`, as `ovmf_measure` returns it and `measure` completes it: digests in hexadecimal, here as
-- bytes. In SNP mode there is no `measurement` at first.
pub record Target : Type 0 where
  pub ovmf_hash : List ℕ
  pub measurement : Option (List ℕ)

-- `received === target?.measurement`
unfoldable pub matches_measurement : Option Target → List ℕ → Bool
matches_measurement none received = false
matches_measurement (some target) received = elim target.measurement [
  | none ↦ false
  | some expected ↦ same_bytes received expected
]

-- `received === target?.ovmf_hash`
unfoldable pub matches_ovmf_hash : Option Target → List ℕ → Bool
matches_ovmf_hash none received = false
matches_ovmf_hash (some target) received = same_bytes received target.ovmf_hash

-- `verify(data)` in SNP mode: the measurement that it shows as verified.
unfoldable pub verify_snp : (r : Readers) → Services r → Option Target → List ℕ → Result (List ℕ)
verify_snp r k target data_bytes = do
  attestation ← check_attestation data_bytes
  verified ← verify_report r k attestation
  let received = byte_array (member "measurement" attestation.report)
  guard (matches_measurement target received) wrong_measurement
  ok received

-- `verify(data)` in TDX mode.
unfoldable pub verify_tdx :
    (r : Readers) → QuoteServices r → Option Target → List ℕ → Result (List ℕ)
verify_tdx r k target data_bytes = do
  quote ← check_quote data_bytes
  verified ← verify_quote r k quote
  let received = byte_array (member "mr_td" quote.body)
  guard (matches_ovmf_hash target received) wrong_measurement
  ok received
