-- ===== src/Ccel/Format.antt =====
-- The layout of an event log, described by its content.
use sylica.Base.{ℕ, ◌^◌, ◌<◌, ◌≡◌, some, List, [], ◌∷◌, ◌++◌, All, length, encode_le, ok}
use sylica.Ctype.Filled.{Chunk, number, raw, laid_out, AllFit}
use sylica.Types.Ccel.{
  tcg_pcr_event_header, tcg_efi_spec_id_event_header, tcg_efi_spec_id_event_algorithm_size,
  tcg_pcr_event2_header,
}
use sylica.Ccel.{Digest, Event, Sizes, digest_size_of, rtmr_of}
use sylica.Ccel.EventType.{event_type}

unfoldable pub digests_bytes : List Digest → List ℕ
digests_bytes [] = []
digests_bytes (d ∷ ds) = encode_le 2 d.algorithm_id ++ (d.digest ++ digests_bytes ds)

abbrev pub header_chunks : ℕ → ℕ → ℕ → List Chunk
header_chunks pcr_index type count = number pcr_index ∷ number type ∷ number count ∷ []

-- An event: its header, its digests, the size of its data and the data.
unfoldable pub event_bytes : Event → List ℕ
event_bytes e =
    laid_out tcg_pcr_event2_header (header_chunks e.pcr_index e.event_type (length e.digests))
    ++ (digests_bytes e.digests ++ (encode_le 4 (length e.event_data) ++ e.event_data))

unfoldable pub events_bytes : List Event → List ℕ
events_bytes [] = []
events_bytes (e ∷ es) = event_bytes e ++ events_bytes es

-- A digest of an algorithm that the log declares, in the size that it declares.
pub record IsDigest (sizes : Sizes) (d : Digest) : Type 0 where
  pub id_fits : d.algorithm_id < 256 ^ 2
  pub declared : digest_size_of sizes d.algorithm_id ≡ some (length d.digest)

-- An event of a known type whose numbers fit, and whose derived members are right. The index
-- 0xffffffff marks the end of a log.
pub record IsEvent (sizes : Sizes) (e : Event) : Type 0 where
  pub index_fits : e.pcr_index < 0xffffffff
  pub type_fits : e.event_type < 256 ^ 4
  pub count_fits : length e.digests < 256 ^ 4
  pub data_fits : length e.event_data < 256 ^ 4
  pub digests_declared : All (IsDigest sizes) e.digests
  pub size_right : e.event_size ≡ length e.event_data
  pub rtmr_right : e.rtmr ≡ rtmr_of e.pcr_index
  pub name_right : event_type e.event_type ≡ ok e.event_name

-- What may stand behind the events: nothing, or a header with the index 0xffffffff and any bytes.
pub data Ending : List ℕ → Type 0 where
  nothing : Ending []
  marker :
      (type count : ℕ) (more : List ℕ)
      → type < 256 ^ 4
      → count < 256 ^ 4
      → Ending (laid_out tcg_pcr_event2_header (header_chunks 0xffffffff type count) ++ more)

-- The content of the first event.
pub record SpecContent : Type 0 where
  pub pcr_index : ℕ
  pub event_type : ℕ
  pub digest : List ℕ
  pub signature : List ℕ
  pub platform_class : ℕ
  pub spec_version_minor : ℕ
  pub spec_version_major : ℕ
  pub spec_version_errata : ℕ
  pub uint8_size : ℕ
  pub algorithms : List (ℕ × ℕ)
  pub vendor_info : List ℕ

abbrev pub algorithm_chunks : ℕ × ℕ → List Chunk
algorithm_chunks a = number a.0 ∷ number a.1 ∷ []

unfoldable pub algorithms_bytes : List (ℕ × ℕ) → List ℕ
algorithms_bytes [] = []
algorithms_bytes (a ∷ rest) =
    laid_out tcg_efi_spec_id_event_algorithm_size (algorithm_chunks a) ++ algorithms_bytes rest

abbrev pub spec_chunks : SpecContent → List Chunk
spec_chunks s =
    raw s.signature
    ∷ number s.platform_class
    ∷ number s.spec_version_minor
    ∷ number s.spec_version_major
    ∷ number s.spec_version_errata
    ∷ number s.uint8_size
    ∷ number (length s.algorithms)
    ∷ []

-- The data of the first event: its header, the algorithms, and the vendor's bytes.
unfoldable pub spec_bytes : SpecContent → List ℕ
spec_bytes s =
    laid_out tcg_efi_spec_id_event_header (spec_chunks s)
    ++ (algorithms_bytes s.algorithms ++ (encode_le 1 (length s.vendor_info) ++ s.vendor_info))

abbrev pub first_chunks : SpecContent → List Chunk
first_chunks s =
    number s.pcr_index ∷ number s.event_type ∷ raw s.digest ∷ number (length (spec_bytes s)) ∷ []

unfoldable pub log_bytes : SpecContent → List Event → List ℕ
log_bytes s es = laid_out tcg_pcr_event_header (first_chunks s) ++ (spec_bytes s ++ events_bytes es)

abbrev pub IsAlgorithm : ℕ × ℕ → Type 0
IsAlgorithm a = (a.0 < 256 ^ 2) × (a.1 < 256 ^ 2)

pub record IsSpec (s : SpecContent) : Type 0 where
  pub first_fits : AllFit tcg_pcr_event_header (first_chunks s)
  pub spec_fits : AllFit tcg_efi_spec_id_event_header (spec_chunks s)
  pub algorithms_fit : All IsAlgorithm s.algorithms
  pub vendor_fits : length s.vendor_info < 256 ^ 1

-- The map of digest sizes: of two entries for an algorithm the later one counts.
unfoldable pub sizes_of : List (ℕ × ℕ) → Sizes → Sizes
sizes_of [] sizes = sizes
sizes_of (a ∷ rest) sizes = sizes_of rest (a ∷ sizes)
