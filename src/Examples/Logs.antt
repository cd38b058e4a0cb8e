-- ===== src/Examples/Logs.antt =====
-- An event log with two algorithms and two events, which an end marker follows.
use sylica.Base.{
  ℕ, ◌≡◌, ◌≢◌, refl, List, [], ◌∷◌, ◌++◌, some, true, replicate, ok, err, out_of_fuel, encode_le,
  arith,
}
use sylica.Examples.{all_bytes, all_bytes-IsBytes}
use sylica.Ctype.{inherited, object, empty}
use sylica.Ctype.Layout.{plain, plain_type, fresh, type_width}
use sylica.Ctype.Unpack.{unpack}
use sylica.Ctype.Filled.{laid_out, filled, fits8, fits32, fits_array, unpack-laid_out}
use sylica.Types.Ccel.{tcg_pcr_event2_header}
use sylica.Ccel.{Event, digest_size_of, unpack_log, check_log}
use sylica.Ccel.EventType.{case_of, event_type}
use sylica.Ccel.Format.{
  SpecContent, IsSpec, IsEvent, IsDigest, Ending, marker, header_chunks, log_bytes, sizes_of,
  spec_bytes, algorithms_bytes,
}
use sylica.Ccel.Opening.{spec_of}
use sylica.Ccel.Writing.{check_log_ok}
use sylica.Ccel.Fuel.{unpack_log_ends}

abbrev pub content : SpecContent
content = record {
  pcr_index = 0;
  event_type = 3;
  digest = replicate 20 0;
  signature =
      b'S' ∷ b'p' ∷ b'e' ∷ b'c' ∷ b' ' ∷ b'I' ∷ b'D' ∷ b' ' ∷ b'E' ∷ b'v' ∷ b'e' ∷ b'n' ∷ b't'
      ∷ b'0' ∷ b'3' ∷ 0 ∷ [];
  platform_class = 0;
  spec_version_minor = 0;
  spec_version_major = 2;
  spec_version_errata = 0;
  uint8_size = 2;
  algorithms = (11, 2) ∷ ((12, 3) ∷ []);
  vendor_info = 5 ∷ [];
}

abbrev pub separator : Event
separator = record {
  pcr_index = 1;
  event_type = 4;
  digests = record { algorithm_id = 12; digest = 1 ∷ 2 ∷ 3 ∷ [] } ∷ [];
  event_size = 4;
  event_data = 0 ∷ 0 ∷ 0 ∷ 0 ∷ [];
  rtmr = some 0;
  event_name = "EV_SEPARATOR";
}

abbrev pub second : Event
second = record separator { pcr_index = 3; rtmr = some 2 }

abbrev pub events : List Event
events = separator ∷ (second ∷ [])

pub content-IsSpec : IsSpec content
unfolding spec_bytes algorithms_bytes replicate encode_le type_width
content-IsSpec = record {
  first_fits = (
    fits32 (omega arith),
    (fits32 (omega arith), (fits_array 20 refl (omega arith), (fits32 (omega arith), tt))),
  );
  spec_fits = (
    fits_array 16 refl (omega arith),
    (
      fits32 (omega arith),
      (
        fits8 (omega arith),
        (
          fits8 (omega arith),
          (fits8 (omega arith), (fits8 (omega arith), (fits32 (omega arith), tt))),
        ),
      ),
    ),
  );
  algorithms_fit = ((omega arith, omega arith), ((omega arith, omega arith), tt));
  vendor_fits = omega arith;
}

digest-IsDigest :
    IsDigest
      (sizes_of content.algorithms [])
      (record { algorithm_id = 12; digest = 1 ∷ 2 ∷ 3 ∷ [] })
unfolding digest_size_of sizes_of
digest-IsDigest = record { id_fits = omega arith; declared = refl }

pub separator-IsEvent : IsEvent (sizes_of content.algorithms []) separator
unfolding event_type case_of
separator-IsEvent = record {
  index_fits = omega arith;
  type_fits = omega arith;
  count_fits = omega arith;
  data_fits = omega arith;
  digests_declared = (digest-IsDigest, tt);
  size_right = refl;
  rtmr_right = refl;
  name_right = refl;
}

pub second-IsEvent : IsEvent (sizes_of content.algorithms []) second
unfolding event_type case_of
second-IsEvent = record {
  index_fits = omega arith;
  type_fits = omega arith;
  count_fits = omega arith;
  data_fits = omega arith;
  digests_declared = (digest-IsDigest, tt);
  size_right = refl;
  rtmr_right = refl;
  name_right = refl;
}

abbrev pub end_marker : List ℕ
end_marker = laid_out tcg_pcr_event2_header (header_chunks 0xffffffff 0 0) ++ (0xff ∷ 0xff ∷ [])

pub end_marker-Ending : Ending end_marker
end_marker-Ending = marker 0 0 (0xff ∷ 0xff ∷ []) (omega arith) (omega arith)

check_log_ok_example :
    check_log (log_bytes content events ++ end_marker)
    ≡ ok (record { spec = some (spec_of content); events = events })
check_log_ok_example =
    check_log_ok content events content-IsSpec (separator-IsEvent, (second-IsEvent, tt))
      end_marker-Ending

event2_plain : plain tcg_pcr_event2_header ≡ true
unfolding plain plain_type fresh
event2_plain = refl

unpack-laid_out_example :
    unpack inherited tcg_pcr_event2_header
      (laid_out tcg_pcr_event2_header (header_chunks 1 4 2) ++ (7 ∷ []))
    ≡ ok (object tcg_pcr_event2_header (filled tcg_pcr_event2_header (header_chunks 1 4 2) empty))
unpack-laid_out_example =
    unpack-laid_out tcg_pcr_event2_header (header_chunks 1 4 2) (7 ∷ []) event2_plain
      (fits32 (omega arith), (fits32 (omega arith), (fits32 (omega arith), tt)))

broken_log : List ℕ
broken_log = replicate 70 3

broken_log-IsBytes : all_bytes broken_log ≡ true
unfolding all_bytes replicate broken_log
broken_log-IsBytes = refl

unpack_log_ends_example : unpack_log broken_log ≢ err out_of_fuel
unpack_log_ends_example =
    unpack_log_ends broken_log (all_bytes-IsBytes broken_log broken_log-IsBytes)
