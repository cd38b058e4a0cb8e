-- ===== src/Ccel/Writing.antt =====
-- Writing a log, and the check that compares what is written with what was read.
use sylica.Base.{
  ℕ, ◌^◌, ◌<◌, ◌≡◌, refl, ap, ap₂, ◌∙◌, none, some, List, [], ◌∷◌, ◌++◌, All, lt→ltb, length,
  encode_le, length-append, append-nil, ok, ◌>>=◌, >>=-eq-ok, arith, join-flatten, flatten,
  flatten-append, total_size, same_bytes_refl, slice, take-append, drop,
}
use native.Mathlib.Nat.{sub-zero}
use sylica.Ctype.{u32, num, object, entry, empty, value}
use sylica.Ctype.Unpack.{set, safe, to_bigint}
use sylica.Ctype.Pack.{pack, packed, write_fields, write, elements, to_number}
use sylica.Ctype.Size.{ctype_size}
use sylica.Ctype.Filled.{Fits, fits32, number, laid_out, filled, pack-filled}
use sylica.Types.Ccel.{
  tcg_pcr_event_header, tcg_efi_spec_id_event_header, tcg_efi_spec_id_event_algorithm_size,
  tcg_pcr_event2_header,
}
use sylica.Ccel.{
  Digest, Event, Sizes, assign, pack_all, digest_parts, event_parts, events_parts, spec_parts,
  pack_spec, pack_log, check_log,
}
use sylica.Ccel.Format.{
  digests_bytes, header_chunks, event_bytes, events_bytes, IsEvent, Ending, SpecContent, IsSpec,
  IsAlgorithm, algorithm_chunks, algorithms_bytes, spec_chunks, spec_bytes, first_chunks, log_bytes,
  sizes_of,
}
use sylica.Ccel.Reading.{plain_event2, header_fits, header_value}
use sylica.Ccel.Opening.{
  plain_algorithm, plain_spec, plain_first, algorithm_values, algorithm_fits, first_value, spec_of,
  unpack_log_ok,
}

total_size-eq : (ps : List (List ℕ)) → total_size ps ≡ length (flatten ps)
unfolding total_size flatten
total_size-eq [] = refl
total_size-eq (p ∷ ps) = omega (arith, total_size-eq ps, length-append p (flatten ps))

flatten-digest_parts : (ds : List Digest) → flatten (digest_parts ds) ≡ digests_bytes ds
unfolding digest_parts digests_bytes flatten
flatten-digest_parts [] = refl
flatten-digest_parts (d ∷ ds) = rw (flatten-digest_parts ds)

event_parts_ok :
    (sizes : Sizes) (e : Event)
    → IsEvent sizes e
    → (ps : List (List ℕ)) × (event_parts e ≡ ok ps) × (flatten ps ≡ event_bytes e)
unfolding event_parts set safe to_bigint event_bytes
event_parts_ok sizes e v =
    let index : e.pcr_index < 256 ^ 4 = omega (arith, v.index_fits) in
    let p : pack (header_value e.pcr_index e.event_type (length e.digests))
        ≡ ok (
            laid_out tcg_pcr_event2_header
              (header_chunks e.pcr_index e.event_type (length e.digests))) =
      pack-filled tcg_pcr_event2_header (header_chunks e.pcr_index e.event_type (length e.digests))
        plain_event2
        (header_fits e.pcr_index e.event_type (length e.digests) index v.type_fits v.count_fits) in
    (
      laid_out tcg_pcr_event2_header (header_chunks e.pcr_index e.event_type (length e.digests))
          ∷ (digest_parts e.digests ++ (encode_le 4 (length e.event_data) ∷ e.event_data ∷ [])),
      rw (
        lt→ltb e.pcr_index (2 ^ 32) index,
        lt→ltb e.event_type (2 ^ 32) v.type_fits,
        lt→ltb (length e.digests) (2 ^ 32) v.count_fits,
        p,
      ),
      unfold flatten in rw (flatten-append, flatten-digest_parts, append-nil e.event_data),
    )

events_parts_ok :
    (sizes : Sizes) (es : List Event)
    → All (IsEvent sizes) es
    → (ps : List (List ℕ)) × (events_parts es ≡ ok ps) × (flatten ps ≡ events_bytes es)
unfolding events_parts events_bytes
events_parts_ok sizes [] v = ([], refl, unfold flatten in refl)
events_parts_ok sizes (e ∷ es) (v, vs) =
    let (ps, p, f) = event_parts_ok sizes e v in
    let (qs, q, g) = events_parts_ok sizes es vs in
    (ps ++ qs, rw (p, q), flatten-append ps qs ∙ ap₂ (λ a b. a ++ b) f g)

pack_all_ok :
    (algs : List (ℕ × ℕ))
    → All IsAlgorithm algs
    → (ps : List (List ℕ)) × (pack_all (algorithm_values algs) ≡ ok ps)
      × (flatten ps ≡ algorithms_bytes algs)
unfolding pack_all algorithms_bytes flatten
pack_all_ok [] v = ([], refl, refl)
pack_all_ok (a ∷ rest) (v, vs) =
    let (ps, p, f) = pack_all_ok rest vs in
    let bs : List ℕ = laid_out tcg_efi_spec_id_event_algorithm_size (algorithm_chunks a) in
    (
      bs ∷ ps,
      rw (
        pack-filled tcg_efi_spec_id_event_algorithm_size (algorithm_chunks a) plain_algorithm
            (algorithm_fits a v),
        p,
      ),
      ap (bs ++◌) f,
    )

spec_parts_ok :
    (s : SpecContent)
    → IsSpec s
    → (ps : List (List ℕ)) × (spec_parts (spec_of s) ≡ ok ps) × (flatten ps ≡ spec_bytes s)
unfolding spec_parts spec_bytes
spec_parts_ok s v =
    let (ps, p, f) = pack_all_ok s.algorithms v.algorithms_fit in
    let front : List ℕ = laid_out tcg_efi_spec_id_event_header (spec_chunks s) in
    (
      front ∷ (ps ++ (encode_le 1 (length s.vendor_info) ∷ s.vendor_info ∷ [])),
      rw (pack-filled tcg_efi_spec_id_event_header (spec_chunks s) plain_spec v.spec_fits, p),
      unfold flatten in rw (flatten-append, f, append-nil s.vendor_info),
    )

fits32-lt : {n : ℕ} → Fits u32 none (number n) → n < 256 ^ 4
fits32-lt (fits32 h) = h

-- The size is assigned again before the header is packed: to the number that it held.
repack :
    (s : SpecContent)
    → pack (
        object tcg_pcr_event_header (
          entry "event_data_size"
            (num (length (spec_bytes s)))
            (filled tcg_pcr_event_header (first_chunks s) empty)))
      ≡ pack (first_value s)
unfolding pack packed write_fields write elements to_number value ctype_size
repack s = refl

pack-assigned :
    (s : SpecContent)
    → IsSpec s
    → (assign "event_data_size" (num (length (spec_bytes s))) (first_value s) >>= pack)
      ≡ ok (laid_out tcg_pcr_event_header (first_chunks s))
unfolding assign set safe to_bigint
pack-assigned s v =
    let (_, (_, (_, (f, _)))) = v.first_fits in
    rw (lt→ltb (length (spec_bytes s)) (2 ^ 32) (fits32-lt f))
      (repack s ∙ pack-filled tcg_pcr_event_header (first_chunks s) plain_first v.first_fits)

-- The parts of the whole log.
pub pack_log_ok :
    (s : SpecContent) (es : List Event)
    → IsSpec s
    → All (IsEvent (sizes_of s.algorithms [])) es
    → pack_log (record { spec = some (spec_of s); events = es }) ≡ ok (log_bytes s es)
unfolding pack_log pack_spec log_bytes
pack_log_ok s es v vs =
    let (ps, p, f) = spec_parts_ok s v in
    let (qs, q, g) = events_parts_ok (sizes_of s.algorithms []) es vs in
    let front : List ℕ = laid_out tcg_pcr_event_header (first_chunks s) in
    let size : total_size ps ≡ length (spec_bytes s) = total_size-eq ps ∙ ap length f in
    let (d, assigned, packed_bytes) =
      >>=-eq-ok (assign "event_data_size" (num (length (spec_bytes s))) (first_value s)) pack
        (pack-assigned s v) in
    let whole : flatten (front ∷ (ps ++ qs)) ≡ front ++ (spec_bytes s ++ events_bytes es) =
      unfold flatten in ap (front ++◌) (flatten-append ps qs ∙ ap₂ (λ a b. a ++ b) f g) in
    rw (p, size, assigned, packed_bytes, q) (join-flatten (front ∷ (ps ++ qs)) ∙ ap ok whole)

slice_whole : (xs ys : List ℕ) → slice (xs ++ ys) 0 (length xs) ≡ xs
unfolding slice drop
slice_whole xs ys = rw sub-zero (take-append xs ys)

-- For every content whose numbers fit, whose types are known and whose digests have the sizes that
-- it declares, `dump` accepts the log that is laid out as the format says, with nothing or an end
-- mark and any bytes behind it: `unpack` returns the content, `pack` writes the same bytes, and the
-- comparison does not fail.
pub check_log_ok :
    (s : SpecContent) (es : List Event) {tail : List ℕ}
    → IsSpec s
    → All (IsEvent (sizes_of s.algorithms [])) es
    → Ending tail
    → check_log (log_bytes s es ++ tail) ≡ ok (record { spec = some (spec_of s); events = es })
unfolding check_log
check_log_ok s es {tail} v vs t = rw (
  unpack_log_ok s es v vs t,
  pack_log_ok s es v vs,
  slice_whole (log_bytes s es) tail,
  same_bytes_refl (log_bytes s es),
)
