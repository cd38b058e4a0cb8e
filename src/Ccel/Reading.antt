-- ===== src/Ccel/Reading.antt =====
-- Reading a log that is laid out as the format says.
use sylica.Base.{
  ℕ, zero, suc, ◌+◌, ◌^◌, ◌<◌, ◌≡◌, refl, ap, ◌∙◌, List, [], ◌∷◌, ◌++◌, All, true, false, ltb, ◌==◌,
  length, drop, encode_le, length-append, length-encode_le, append_assoc, ok, ◌>>=◌, arith, At,
  At-append, At-slice, At-get_le, At-inside, At-end,
}
use sylica.Ctype.{inherited, Value, object, empty, member, value, number}
use sylica.Ctype.Size.{ctype_size}
use sylica.Ctype.Layout.{plain, plain_type, fresh, width}
use sylica.Ctype.Unpack.{unpack}
use sylica.Ctype.Filled.{Chunk, laid_out, filled, AllFit, fits32, unpack-laid_out, length-laid_out}
use sylica.Types.Ccel.{tcg_pcr_event2_header}
use sylica.Ccel.{Digest, Event, Sizes, digest_size_at, read_digests, read_event, read_events}
use sylica.Ccel.Format.{
  digests_bytes, header_chunks, event_bytes, events_bytes, IsDigest, IsEvent, Ending, nothing,
  marker,
}

digest_size_at_ok :
    (sizes : Sizes) (d : Digest)
    → IsDigest sizes d
    → digest_size_at sizes d.algorithm_id ≡ ok (length d.digest)
unfolding digest_size_at
digest_size_at_ok sizes d h = rw (h.declared, digest_size_at)

read_digests_ok :
    (sizes : Sizes) (ds : List Digest) (buf : List ℕ) (off : ℕ) (more : List ℕ)
    → All (IsDigest sizes) ds
    → At buf off (digests_bytes ds ++ more)
    → read_digests (length ds) sizes buf off ≡ ok (ds, off + length (digests_bytes ds))
unfolding read_digests digests_bytes
read_digests_ok sizes [] buf off more h at_off = ap (λ n. ok ([], n)) (omega arith)
read_digests_ok sizes (d ∷ ds) buf off more (h, hs) at_off =
    let id : List ℕ = encode_le 2 d.algorithm_id in
    let rest : List ℕ = digests_bytes ds ++ more in
    let here : At buf off (id ++ (d.digest ++ rest)) =
      at_off
      ∙ (append_assoc id (d.digest ++ digests_bytes ds) more
          ∙ ap (id ++◌) (append_assoc d.digest (digests_bytes ds) more)) in
    let there : At buf (off + 2) (d.digest ++ rest) =
      At-append buf off 2 id (d.digest ++ rest) here (length-encode_le 2 d.algorithm_id) in
    let next : At buf (off + 2 + length d.digest) rest =
      At-append buf (off + 2) (length d.digest) d.digest rest there refl in
    let size : off + 2 + length d.digest + length (digests_bytes ds)
        ≡ off + length (id ++ (d.digest ++ digests_bytes ds)) =
      omega (
        arith,
        length-append id (d.digest ++ digests_bytes ds),
        length-append d.digest (digests_bytes ds),
        length-encode_le 2 d.algorithm_id,
      ) in
    rw (
      At-get_le buf off 2 d.algorithm_id (d.digest ++ rest) here (omega arith) h.id_fits,
      digest_size_at_ok sizes d h,
      At-slice buf (off + 2) (length d.digest) d.digest rest there refl,
      read_digests_ok sizes ds buf (off + 2 + length d.digest) more hs next,
      size,
    )

pub plain_event2 : plain tcg_pcr_event2_header ≡ true
unfolding plain plain_type fresh
plain_event2 = refl

pub header_fits :
    (p t c : ℕ)
    → p < 256 ^ 4
    → t < 256 ^ 4
    → c < 256 ^ 4
    → AllFit tcg_pcr_event2_header (header_chunks p t c)
header_fits p t c hp ht hc = (fits32 hp, (fits32 ht, (fits32 hc, tt)))

abbrev pub header_value : ℕ → ℕ → ℕ → Value
header_value p t c =
    object tcg_pcr_event2_header (filled tcg_pcr_event2_header (header_chunks p t c) empty)

header-At :
    (p t c : ℕ) (buf : List ℕ) (off : ℕ) (more : List ℕ)
    → p < 256 ^ 4
    → t < 256 ^ 4
    → c < 256 ^ 4
    → At buf off (laid_out tcg_pcr_event2_header (header_chunks p t c) ++ more)
    → (unpack inherited tcg_pcr_event2_header (drop off buf) ≡ ok (header_value p t c))
      × At buf (off + 12) more
unfolding width
header-At p t c buf off more hp ht hc h =
    let fits = header_fits p t c hp ht hc in
    let bs : List ℕ = laid_out tcg_pcr_event2_header (header_chunks p t c) in
    (
      ap (unpack inherited tcg_pcr_event2_header) h
          ∙ unpack-laid_out tcg_pcr_event2_header (header_chunks p t c) more plain_event2 fits,
      At-append buf off 12 bs more h
          (length-laid_out tcg_pcr_event2_header (header_chunks p t c) fits),
    )

-- Behind the header of an event.
abbrev event_rest : Event → List ℕ
event_rest e = digests_bytes e.digests ++ (encode_le 4 (length e.event_data) ++ e.event_data)

read_event_ok :
    (sizes : Sizes) (e : Event) (buf : List ℕ) (off : ℕ) (more : List ℕ)
    → IsEvent sizes e
    → At buf off (event_rest e ++ more)
    → (read_event (header_value e.pcr_index e.event_type (length e.digests)) sizes buf off
        ≡ ok (e, off + length (event_rest e)))
      × At buf (off + length (event_rest e)) more
unfolding read_event number member value
read_event_ok sizes e buf off more v h =
    let ds : List ℕ = digests_bytes e.digests in
    let size : List ℕ = encode_le 4 (length e.event_data) in
    let here : At buf off (ds ++ (size ++ (e.event_data ++ more))) =
      h
      ∙ (append_assoc ds (size ++ e.event_data) more
          ∙ ap (ds ++◌) (append_assoc size e.event_data more)) in
    let off₁ : ℕ = off + length ds in
    let there : At buf off₁ (size ++ (e.event_data ++ more)) =
      At-append buf off (length ds) ds (size ++ (e.event_data ++ more)) here refl in
    let last : At buf (off₁ + 4) (e.event_data ++ more) =
      At-append buf off₁ 4 size (e.event_data ++ more) there
        (length-encode_le 4 (length e.event_data)) in
    let total : off₁ + 4 + length e.event_data ≡ off + length (event_rest e) = omega (
      arith,
      length-append ds (size ++ e.event_data),
      length-append size e.event_data,
      length-encode_le 4 (length e.event_data),
    ) in
    (
      rw (
        read_digests_ok sizes e.digests buf off (size ++ (e.event_data ++ more)) v.digests_declared
            here,
        At-get_le buf off₁ 4 (length e.event_data) (e.event_data ++ more) there (omega arith)
            v.data_fits,
        v.name_right,
        At-slice buf (off₁ + 4) (length e.event_data) e.event_data more last refl,
        total,
        ← v.size_right,
        ← v.rtmr_right,
      ),
      At-append buf off (length (event_rest e)) (event_rest e) more h refl,
    )

-- One turn of the loop.
read_events_turn :
    (fuel : ℕ) (sizes : Sizes) (e : Event) (buf : List ℕ) (off : ℕ) (more : List ℕ)
    → IsEvent sizes e
    → At buf off (event_bytes e ++ more)
    → (off' : ℕ) × At buf off' more
      × (read_events (suc fuel) sizes buf off
          ≡ (read_events fuel sizes buf off' >>= λ rest. ok (e ∷ rest)))
unfolding read_events event_bytes number member value ctype_size
read_events_turn fuel sizes e buf off more v h =
    let header : List ℕ =
      laid_out tcg_pcr_event2_header (header_chunks e.pcr_index e.event_type (length e.digests)) in
    let index : e.pcr_index < 256 ^ 4 = omega (arith, v.index_fits) in
    let fits =
      header_fits e.pcr_index e.event_type (length e.digests) index v.type_fits v.count_fits in
    let whole : At buf off (header ++ (event_rest e ++ more)) =
      h ∙ append_assoc header (event_rest e) more in
    let (u, next) =
      header-At e.pcr_index e.event_type (length e.digests) buf off (event_rest e ++ more) index
        v.type_fits v.count_fits whole in
    let (r, behind) = read_event_ok sizes e buf (off + 12) more v next in
    let inside : ltb off (length buf) ≡ true =
      At-inside buf off (header ++ (event_rest e ++ more)) whole (
        omega (
          arith,
          length-append header (event_rest e ++ more),
          (let w : length header ≡ 12 =
                unfold width in
                length-laid_out tcg_pcr_event2_header
                  (header_chunks e.pcr_index e.event_type (length e.digests)) fits in
              w),
        )) in
    let no_end : (e.pcr_index == 0xffffffff) ≡ false = ground (arith, v.index_fits) in
    (off + 12 + length (event_rest e), behind, rw (inside, u, no_end, r))

read_events_end :
    (fuel : ℕ) (sizes : Sizes) (buf : List ℕ) (off : ℕ) {tail : List ℕ}
    → Ending tail
    → At buf off tail
    → read_events (suc fuel) sizes buf off ≡ ok []
unfolding read_events number member value ctype_size
read_events_end fuel sizes buf off nothing h = rw (At-end buf off h)
read_events_end fuel sizes buf off (marker type count more t c) h =
    let chunks : List Chunk = header_chunks 0xffffffff type count in
    let fits = header_fits 0xffffffff type count (omega arith) t c in
    let size : length (laid_out tcg_pcr_event2_header chunks) ≡ 12 =
      unfold width in length-laid_out tcg_pcr_event2_header chunks fits in
    let inside : ltb off (length buf) ≡ true =
      At-inside buf off (laid_out tcg_pcr_event2_header chunks ++ more) h
        (omega (arith, length-append (laid_out tcg_pcr_event2_header chunks) more, size)) in
    rw (inside, (header-At 0xffffffff type count buf off more (omega arith) t c h).0)

length-event_bytes : (e : Event) → 0 < length (event_bytes e)
unfolding event_bytes
length-event_bytes e = omega (
  arith,
  length-append
      (laid_out tcg_pcr_event2_header (header_chunks e.pcr_index e.event_type (length e.digests)))
      (event_rest e),
  length-append (digests_bytes e.digests) (encode_le 4 (length e.event_data) ++ e.event_data),
  length-append (encode_le 4 (length e.event_data)) e.event_data,
  length-encode_le 4 (length e.event_data),
)

-- All events, and the end.
pub read_events_ok :
    (fuel : ℕ) (sizes : Sizes) (es : List Event) (buf : List ℕ) (off : ℕ) {tail : List ℕ}
    → All (IsEvent sizes) es
    → Ending tail
    → At buf off (events_bytes es ++ tail)
    → length (events_bytes es) < fuel
    → read_events fuel sizes buf off ≡ ok es
unfolding events_bytes
read_events_ok zero sizes es buf off v t h f = absurd (omega arith)
read_events_ok (suc fuel) sizes [] buf off v t h f = read_events_end fuel sizes buf off t h
read_events_ok (suc fuel) sizes (e ∷ es) buf off {tail} (v, vs) t h f =
    let (off', next, turn) =
      read_events_turn fuel sizes e buf off (events_bytes es ++ tail) v
        (h ∙ append_assoc (event_bytes e) (events_bytes es) tail) in
    rw (
      turn,
      read_events_ok fuel sizes es buf off' vs t next
          (omega (arith, length-append (event_bytes e) (events_bytes es), length-event_bytes e)),
    )
