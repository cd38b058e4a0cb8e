-- ===== src/Ccel.antt =====
-- tools/measure-browser/static/types.js, the class `CcelEventLog`: the event log of a TDX guest is
-- read, a header with the digest sizes first, then event by event, and written again.
pub mod EventType
pub mod Format
pub mod Reading
pub mod Opening
pub mod Writing
pub mod Fuel
use sylica.Base.{
  ℕ, zero, suc, ◌+◌, ◌-◌, ◌%◌, String, Option, none, some, List, [], ◌∷◌, ◌++◌, map, ltb, ◌==◌,
  if◌then◌else◌, length, drop, slice, get_le, encode_le, Result, ok, err, ◌>>=◌, ◌>>◌, guard, join,
  total_size, same_bytes, true, false, type_error, out_of_fuel, unknown_algorithm, broken_parser,
}
use sylica.Ctype.{inherited, Value, num, object, empty, member, number}
use sylica.Ctype.Size.{ctype_size}
use sylica.Ctype.Unpack.{unpack, set}
use sylica.Ctype.Pack.{pack}
use sylica.Types.Ccel.{
  tcg_pcr_event_header, tcg_efi_spec_id_event_header, tcg_efi_spec_id_event_algorithm_size,
  tcg_pcr_event2_header,
}
use sylica.Ccel.EventType.{event_type}

-- `{ algorithm_id, digest }`
pub record Digest : Type 0 where
  pub algorithm_id : ℕ
  pub digest : List ℕ

-- An entry of `log.events`. `rtmr` is `pcr_index - 1`, and `none` stands for -1.
pub record Event : Type 0 where
  pub pcr_index : ℕ
  pub event_type : ℕ
  pub digests : List Digest
  pub event_size : ℕ
  pub event_data : List ℕ
  pub rtmr : Option ℕ
  pub event_name : String

-- `log.spec`
pub record Spec : Type 0 where
  pub header : Value
  pub spec_header : Value
  pub algorithm_sizes : List Value
  pub vendor_info : List ℕ
  pub raw_event_data : List ℕ

-- `spec` is undefined for an empty file.
pub record CcelEventLog : Type 0 where
  pub spec : Option Spec
  pub events : List Event

-- `algSizeMap`: the last assignment stands first.
abbrev pub Sizes : Type 0
Sizes = List (ℕ × ℕ)

unfoldable pub digest_size_of : Sizes → ℕ → Option ℕ
digest_size_of [] id = none
digest_size_of ((k, n) ∷ rest) id = if k == id then some n else digest_size_of rest id

-- The loop over `number_of_algorithms`, `left` of them to go: `algorithmSizes`, the map and the
-- offset behind them.
unfoldable pub read_algorithms : ℕ → List ℕ → ℕ → Sizes → Result (List Value × Sizes × ℕ)
read_algorithms zero spec_data spec_offset sizes = ok ([], sizes, spec_offset)
read_algorithms (suc left) spec_data spec_offset sizes = do
  alg_size ← unpack inherited tcg_efi_spec_id_event_algorithm_size (drop spec_offset spec_data)
  n ← ctype_size tcg_efi_spec_id_event_algorithm_size
  let key = number (member "algorithm_id" alg_size)
  (rest, sizes', spec_offset') ←
      read_algorithms left spec_data (spec_offset + n)
        ((key, number (member "digest_size" alg_size)) ∷ sizes)
  ok (alg_size ∷ rest, sizes', spec_offset')

-- `algSizeMap.get(algorithmId)`, and the exception where it is undefined.
unfoldable pub digest_size_at : Sizes → ℕ → Result ℕ
digest_size_at sizes id = elim (digest_size_of sizes id) [
  | none ↦ err (unknown_algorithm id)
  | some n ↦ ok n
]

-- The loop over `digest_count`, `left` of them to go: the digests and the offset behind them.
unfoldable pub read_digests : ℕ → Sizes → List ℕ → ℕ → Result (List Digest × ℕ)
read_digests zero sizes data_bytes offset = ok ([], offset)
read_digests (suc left) sizes data_bytes offset = do
  algorithm_id ← get_le 2 data_bytes offset
  digest_size ← digest_size_at sizes algorithm_id
  let digest = slice data_bytes (offset + 2) (offset + 2 + digest_size)
  (rest, offset') ← read_digests left sizes data_bytes (offset + 2 + digest_size)
  ok (record { algorithm_id = algorithm_id; digest = digest } ∷ rest, offset')

abbrev pub rtmr_of : ℕ → Option ℕ
rtmr_of zero = none
rtmr_of (suc n) = some n

-- One turn of the loop over the events behind the test for its end, with the event's header: the
-- event and the offset behind it.
unfoldable pub read_event : Value → Sizes → List ℕ → ℕ → Result (Event × ℕ)
unfolding read_digests
read_event event_header sizes data_bytes offset = do
  (digests, offset₁) ←
      read_digests (number (member "digest_count" event_header)) sizes data_bytes offset
  event_size ← get_le 4 data_bytes offset₁
  let offset₂ = offset₁ + 4 + event_size
  name ← event_type (number (member "event_type" event_header))
  ok (
    record {
      pcr_index = number (member "pcr_index" event_header);
      event_type = number (member "event_type" event_header);
      digests = digests;
      event_size = event_size;
      event_data = slice data_bytes (offset₁ + 4) offset₂;
      rtmr = rtmr_of (number (member "pcr_index" event_header));
      event_name = name;
    },
    offset₂,
  )

-- `while (offset < data.byteLength)`
unfoldable pub read_events : ℕ → Sizes → List ℕ → ℕ → Result (List Event)
read_events zero sizes data_bytes offset = err out_of_fuel
read_events (suc fuel) sizes data_bytes offset =
    if ltb offset (length data_bytes)
    then (do
      event_header ← unpack inherited tcg_pcr_event2_header (drop offset data_bytes)
      n ← ctype_size tcg_pcr_event2_header
      (if number (member "pcr_index" event_header) == 0xffffffff then ok [] else (do
        (event, offset') ← read_event event_header sizes data_bytes (offset + n)
        rest ← read_events fuel sizes data_bytes offset'
        ok (event ∷ rest))))
    else ok []

-- `CcelEventLog.unpack(data)` of a file that is not empty. The fuel is one more than the bytes.
unfoldable pub unpack_entries : List ℕ → Result CcelEventLog
unfolding read_events
unpack_entries data_bytes = do
  header ← unpack inherited tcg_pcr_event_header data_bytes
  offset ← ctype_size tcg_pcr_event_header
  let offset' = offset + number (member "event_data_size" header)
  let spec_data = slice data_bytes offset offset'
  spec_header ← unpack inherited tcg_efi_spec_id_event_header spec_data
  spec_offset ← ctype_size tcg_efi_spec_id_event_header
  (algorithm_sizes, sizes, spec_offset') ←
      read_algorithms (number (member "number_of_algorithms" spec_header)) spec_data spec_offset []
  vendor_info_size ← get_le 1 spec_data spec_offset'
  let vendor_info = slice spec_data (spec_offset' + 1) (spec_offset' + 1 + vendor_info_size)
  events ← read_events (suc (length data_bytes)) sizes data_bytes offset'
  ok (record {
    spec = some (record {
      header = header;
      spec_header = spec_header;
      algorithm_sizes = algorithm_sizes;
      vendor_info = vendor_info;
      raw_event_data = spec_data;
    });
    events = events;
  })

-- `CcelEventLog.unpack(data)`
unfoldable pub unpack_log : List ℕ → Result CcelEventLog
unfolding unpack_entries
unpack_log data_bytes =
    if length data_bytes == 0
    then ok (record { spec = none; events = [] })
    else unpack_entries data_bytes

-- `object.set(name, value)` from outside.
unfoldable pub assign : String → Value → Value → Result Value
assign name v (object fields d) = do d' ← set fields name v d; ok (object fields d')
assign name v _ = err type_error

unfoldable pub pack_all : List Value → Result (List (List ℕ))
pack_all [] = ok []
pack_all (v ∷ vs) = do bs ← pack v; rest ← pack_all vs; ok (bs ∷ rest)

unfoldable pub digest_parts : List Digest → List (List ℕ)
digest_parts [] = []
digest_parts (d ∷ ds) = encode_le 2 d.algorithm_id ∷ d.digest ∷ digest_parts ds

-- The parts of one event.
unfoldable pub event_parts : Event → Result (List (List ℕ))
unfolding digest_parts
event_parts event = do
  d₁ ← set tcg_pcr_event2_header "pcr_index" (num event.pcr_index) empty
  d₂ ← set tcg_pcr_event2_header "event_type" (num event.event_type) d₁
  d₃ ← set tcg_pcr_event2_header "digest_count" (num (length event.digests)) d₂
  header ← pack (object tcg_pcr_event2_header d₃)
  ok (
      header
      ∷ (digest_parts event.digests
          ++ (encode_le 4 (length event.event_data) ∷ event.event_data ∷ [])))

unfoldable pub events_parts : List Event → Result (List (List ℕ))
events_parts [] = ok []
events_parts (event ∷ rest) = do ps ← event_parts event; qs ← events_parts rest; ok (ps ++ qs)

-- `specDataParts`
unfoldable pub spec_parts : Spec → Result (List (List ℕ))
unfolding pack_all
spec_parts spec = do
  spec_header ← pack spec.spec_header
  algorithm_sizes ← pack_all spec.algorithm_sizes
  ok (
      spec_header
      ∷ (algorithm_sizes ++ (encode_le 1 (length spec.vendor_info) ∷ spec.vendor_info ∷ [])))

unfoldable pub pack_spec : Spec → List Event → Result (List ℕ)
unfolding spec_parts events_parts
pack_spec spec events = do
  spec_data_parts ← spec_parts spec
  header ← assign "event_data_size" (num (total_size spec_data_parts)) spec.header
  header_bytes ← pack header
  event_bytes ← events_parts events
  join (header_bytes ∷ (spec_data_parts ++ event_bytes))

-- `pack()` of a log.
unfoldable pub pack_log : CcelEventLog → Result (List ℕ)
unfolding pack_spec
pack_log log = elim log.spec [ none ↦ err type_error | some spec ↦ pack_spec spec log.events ]

-- index.js, `dump`: the log is parsed, and packed again for a comparison.
unfoldable pub check_log : List ℕ → Result CcelEventLog
unfolding unpack_log pack_log
check_log data_bytes = do
  log ← unpack_log data_bytes
  packed ← pack_log log
  guard (same_bytes packed (slice data_bytes 0 (length packed))) broken_parser
  ok log
