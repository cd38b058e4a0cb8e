-- ===== src/Ccel/Opening.antt =====
-- Reading the first event of a log, and with it the whole log.
use sylica.Base.{
  ℕ, suc, ◌+◌, ◌≡◌, refl, ap, sym, ◌∙◌, some, List, [], ◌∷◌, ◌++◌, All, true, false, ◌==◌, length,
  drop, encode_le, length-append, length-encode_le, append_assoc, append-nil, ok, arith, At,
  At-append, At-slice, At-get_le, slice, get_le,
}
use sylica.Ctype.{inherited, Value, object, empty, member, value, number}
use sylica.Ctype.Size.{ctype_size}
use sylica.Ctype.Layout.{plain, plain_type, fresh, width}
use sylica.Ctype.Unpack.{unpack}
use sylica.Ctype.Filled.{laid_out, filled, AllFit, fits16, unpack-laid_out, length-laid_out}
use sylica.Types.Ccel.{
  tcg_pcr_event_header, tcg_efi_spec_id_event_header, tcg_efi_spec_id_event_algorithm_size,
}
use sylica.Ccel.{Event, Spec, Sizes, read_algorithms, unpack_log}
use sylica.Ccel.Format.{
  events_bytes, IsEvent, Ending, SpecContent, IsSpec, IsAlgorithm, algorithm_chunks,
  algorithms_bytes, spec_chunks, spec_bytes, first_chunks, log_bytes, sizes_of,
}
use sylica.Ccel.Reading.{read_events_ok}

pub plain_algorithm : plain tcg_efi_spec_id_event_algorithm_size ≡ true
unfolding plain plain_type fresh
plain_algorithm = refl

pub plain_spec : plain tcg_efi_spec_id_event_header ≡ true
unfolding plain plain_type fresh
plain_spec = refl

pub plain_first : plain tcg_pcr_event_header ≡ true
unfolding plain plain_type fresh
plain_first = refl

abbrev pub algorithm_value : ℕ × ℕ → Value
algorithm_value a =
    object tcg_efi_spec_id_event_algorithm_size
      (filled tcg_efi_spec_id_event_algorithm_size (algorithm_chunks a) empty)

abbrev pub algorithm_values : List (ℕ × ℕ) → List Value
algorithm_values [] = []
algorithm_values (a ∷ rest) = algorithm_value a ∷ algorithm_values rest

pub algorithm_fits :
    (a : ℕ × ℕ) → IsAlgorithm a → AllFit tcg_efi_spec_id_event_algorithm_size (algorithm_chunks a)
algorithm_fits a h = (fits16 h.0, (fits16 h.1, tt))

read_algorithms_ok :
    (algs : List (ℕ × ℕ)) (buf : List ℕ) (off : ℕ) (more : List ℕ) (sizes : Sizes)
    → All IsAlgorithm algs
    → At buf off (algorithms_bytes algs ++ more)
    → read_algorithms (length algs) buf off sizes
      ≡ ok (algorithm_values algs, sizes_of algs sizes, off + length (algorithms_bytes algs))
unfolding read_algorithms algorithms_bytes sizes_of ctype_size number member value
read_algorithms_ok [] buf off more sizes h here = ap (λ n. ok ([], sizes, n)) (omega arith)
read_algorithms_ok (a ∷ rest) buf off more sizes (h, hs) here =
    let bs : List ℕ = laid_out tcg_efi_spec_id_event_algorithm_size (algorithm_chunks a) in
    let fits = algorithm_fits a h in
    let size : length bs ≡ 4 =
      unfold width in
      length-laid_out tcg_efi_spec_id_event_algorithm_size (algorithm_chunks a) fits in
    let whole : At buf off (bs ++ (algorithms_bytes rest ++ more)) =
      here ∙ append_assoc bs (algorithms_bytes rest) more in
    let u : unpack inherited tcg_efi_spec_id_event_algorithm_size (drop off buf)
        ≡ ok (algorithm_value a) =
      ap (unpack inherited tcg_efi_spec_id_event_algorithm_size) whole
      ∙ unpack-laid_out tcg_efi_spec_id_event_algorithm_size (algorithm_chunks a)
          (algorithms_bytes rest ++ more) plain_algorithm fits in
    let total : off + 4 + length (algorithms_bytes rest)
        ≡ off + length (bs ++ algorithms_bytes rest) =
      omega (arith, length-append bs (algorithms_bytes rest), size) in
    rw (
      u,
      read_algorithms_ok rest buf (off + 4) more (a ∷ sizes) hs
          (At-append buf off 4 bs (algorithms_bytes rest ++ more) whole size),
      total,
    )

abbrev pub first_value : SpecContent → Value
first_value s = object tcg_pcr_event_header (filled tcg_pcr_event_header (first_chunks s) empty)

abbrev pub spec_value : SpecContent → Value
spec_value s =
    object tcg_efi_spec_id_event_header (filled tcg_efi_spec_id_event_header (spec_chunks s) empty)

-- The log that stands for the content.
abbrev pub spec_of : SpecContent → Spec
spec_of s = record {
  header = first_value s;
  spec_header = spec_value s;
  algorithm_sizes = algorithm_values s.algorithms;
  vendor_info = s.vendor_info;
  raw_event_data = spec_bytes s;
}

-- The algorithms and the vendor's bytes, behind the header.
spec_tail :
    (s : SpecContent)
    → IsSpec s
    → (unpack inherited tcg_efi_spec_id_event_header (spec_bytes s) ≡ ok (spec_value s))
      × (read_algorithms (length s.algorithms) (spec_bytes s) 28 []
          ≡ ok (
            algorithm_values s.algorithms,
            sizes_of s.algorithms [],
            28 + length (algorithms_bytes s.algorithms),
          ))
      × (get_le 1 (spec_bytes s) (28 + length (algorithms_bytes s.algorithms))
          ≡ ok (length s.vendor_info))
      × (slice
            (spec_bytes s)
            (28 + length (algorithms_bytes s.algorithms) + 1)
            (28 + length (algorithms_bytes s.algorithms) + 1 + length s.vendor_info)
          ≡ s.vendor_info)
unfolding spec_bytes
spec_tail s v =
    let front : List ℕ = laid_out tcg_efi_spec_id_event_header (spec_chunks s) in
    let algs : List ℕ = algorithms_bytes s.algorithms in
    let count : List ℕ = encode_le 1 (length s.vendor_info) in
    let buf : List ℕ = front ++ (algs ++ (count ++ s.vendor_info)) in
    let size : length front ≡ 28 =
      unfold width in length-laid_out tcg_efi_spec_id_event_header (spec_chunks s) v.spec_fits in
    let here : At buf 28 (algs ++ (count ++ s.vendor_info)) =
      At-append buf 0 28 front (algs ++ (count ++ s.vendor_info)) (unfold drop in refl) size in
    let there : At buf (28 + length algs) (count ++ s.vendor_info) =
      At-append buf 28 (length algs) algs (count ++ s.vendor_info) here refl in
    let last : At buf (28 + length algs + 1) s.vendor_info =
      At-append buf (28 + length algs) 1 count s.vendor_info there
        (length-encode_le 1 (length s.vendor_info)) in
    (
      unpack-laid_out tcg_efi_spec_id_event_header (spec_chunks s)
          (algs ++ (count ++ s.vendor_info)) plain_spec v.spec_fits,
      read_algorithms_ok s.algorithms buf 28 (count ++ s.vendor_info) [] v.algorithms_fit here,
      At-get_le buf (28 + length algs) 1 (length s.vendor_info) s.vendor_info there (omega arith)
          v.vendor_fits,
      At-slice buf (28 + length algs + 1) (length s.vendor_info) s.vendor_info []
          (last ∙ sym (append-nil s.vendor_info)) refl,
    )

-- A log that is laid out as the format says is read back, whatever end follows.
pub unpack_log_ok :
    (s : SpecContent) (es : List Event) {tail : List ℕ}
    → IsSpec s
    → All (IsEvent (sizes_of s.algorithms [])) es
    → Ending tail
    → unpack_log (log_bytes s es ++ tail) ≡ ok (record { spec = some (spec_of s); events = es })
unfolding unpack_log log_bytes ctype_size number member value
unpack_log_ok s es {tail} v vs t =
    let front : List ℕ = laid_out tcg_pcr_event_header (first_chunks s) in
    let spec : List ℕ = spec_bytes s in
    let events : List ℕ = events_bytes es in
    let buf : List ℕ = (front ++ (spec ++ events)) ++ tail in
    let size : length front ≡ 32 =
      unfold width in length-laid_out tcg_pcr_event_header (first_chunks s) v.first_fits in
    let split : buf ≡ front ++ (spec ++ (events ++ tail)) =
      append_assoc front (spec ++ events) tail ∙ ap (front ++◌) (append_assoc spec events tail) in
    let here : At buf 32 (spec ++ (events ++ tail)) =
      At-append buf 0 32 front (spec ++ (events ++ tail)) (unfold drop in split) size in
    let there : At buf (32 + length spec) (events ++ tail) =
      At-append buf 32 (length spec) spec (events ++ tail) here refl in
    let long : length buf ≡ 32 + length spec + length events + length tail = omega (
      arith,
      length-append (front ++ (spec ++ events)) tail,
      length-append front (spec ++ events),
      length-append spec events,
      size,
    ) in
    let some_bytes : (length buf == 0) ≡ false = ground arith in
    let first : unpack inherited tcg_pcr_event_header buf ≡ ok (first_value s) =
      ap (unpack inherited tcg_pcr_event_header) split
      ∙ unpack-laid_out tcg_pcr_event_header (first_chunks s) (spec ++ (events ++ tail)) plain_first
          v.first_fits in
    let (header, algs, count, vendor) = spec_tail s v in
    rw (
      some_bytes,
      first,
      At-slice buf 32 (length spec) spec (events ++ tail) here refl,
      header,
      algs,
      count,
      vendor,
      read_events_ok (suc (length buf)) (sizes_of s.algorithms []) es buf (32 + length spec) vs t
          there (omega arith),
    )
