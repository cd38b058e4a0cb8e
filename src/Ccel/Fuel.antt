-- ===== src/Ccel/Fuel.antt =====
-- The fuel of the loop over the events, on any file.
use sylica.Base.{
  ℕ, zero, suc, ◌+◌, ◌≤◌, ◌<◌, ◌≡◌, ◌≢◌, refl, none, some, List, [], ◌∷◌, true, ltb, ltb→lt, ◌==◌,
  Bool-cases, inl, inr, length, drop, slice, slice-IsBytes, All-drop, IsByte, IsBytes, Result, ok,
  err, >>=-eq-ok, >>=-ne-err, arith, out_of_fuel, unknown_algorithm, get_le, String,
}
use native.Mathlib.Decide.{dec_le}
use sylica.Ctype.{inherited, Fields, Value, member, number}
use sylica.Ctype.Size.{ctype_size}
use sylica.Ctype.Layout.{plain_class}
use sylica.Ctype.Unpack.{unpack}
use sylica.Ctype.RoundTrip.{unpack_total, unpack_truncated}
use sylica.Types.Ccel.{
  tcg_pcr_event_header, tcg_efi_spec_id_event_header, tcg_efi_spec_id_event_algorithm_size,
  tcg_pcr_event2_header,
}
use sylica.Ccel.{
  Sizes, digest_size_of, digest_size_at, read_algorithms, read_digests, read_event, read_events,
  unpack_entries, unpack_log,
}
use sylica.Ccel.EventType.{case_of, event_type, event_types}
use sylica.Ccel.Reading.{plain_event2}
use sylica.Ccel.Opening.{plain_algorithm, plain_spec, plain_first}

unpack_ends :
    (fields : Fields) (n : ℕ) (buf : List ℕ)
    → plain_class inherited fields ≡ true
    → ctype_size fields ≡ ok n
    → IsBytes buf
    → unpack inherited fields buf ≢ err out_of_fuel
unpack_ends fields n buf p s b = elim (dec_le n (length buf)) [
  | yes fits ↦ let (d, u, _) = unpack_total inherited fields n buf p s b fits in λ e. cc (u, e)
  | no short ↦ λ e. cc (unpack_truncated inherited fields n buf p s b (omega arith), e)
]

get_le_ends : (w : ℕ) (buf : List ℕ) (off : ℕ) → get_le w buf off ≢ err out_of_fuel
unfolding get_le
get_le_ends w buf off = λ e. ground arith

digest_size_at_ends : (sizes : Sizes) (id : ℕ) → digest_size_at sizes id ≢ err out_of_fuel
unfolding digest_size_at
digest_size_at_ends sizes id =
    elim (digest_size_of sizes id)
      as (λ x.
        elim x as (λ _. Result ℕ) [ none ↦ err (unknown_algorithm id) | some n ↦ ok n ]
        ≢ err out_of_fuel) [ none ↦ λ e. cc e | some n ↦ λ e. cc e ]

case_of_ends : (cs : List (ℕ × String)) (n : ℕ) → case_of cs n ≢ err out_of_fuel
unfolding case_of
case_of_ends [] n = λ e. cc e
case_of_ends ((k, name) ∷ rest) n = elim (Bool-cases (n == k)) [
  | inl same ↦ rw same (λ e. cc e)
  | inr other ↦ rw other (case_of_ends rest n)
]

event_type_ends : (n : ℕ) → event_type n ≢ err out_of_fuel
unfolding event_type
event_type_ends n = case_of_ends event_types n

-- A step of the reader: it does not run out of fuel, and it does not go back.
abbrev Advances : {A : Type 0} → Result (A × ℕ) → ℕ → Type 0
Advances {A} m off = (m ≢ err out_of_fuel) × ((v : A) (off' : ℕ) → m ≡ ok (v, off') → off ≤ off')

read_digests-Advances :
    (left : ℕ) (sizes : Sizes) (buf : List ℕ) (off : ℕ)
    → Advances (read_digests left sizes buf off) off
unfolding read_digests
read_digests-Advances zero sizes buf off =
    (λ e. cc e, λ v off' h. let e : off ≡ off' = cc h in omega arith)
read_digests-Advances (suc left) sizes buf off = (
  >>=-ne-err (get_le 2 buf off) _ out_of_fuel (get_le_ends 2 buf off) (λ id _.
      >>=-ne-err (digest_size_at sizes id) _ out_of_fuel (digest_size_at_ends sizes id) (λ n _.
        >>=-ne-err (read_digests left sizes buf (off + 2 + n)) _ out_of_fuel
          (read_digests-Advances left sizes buf (off + 2 + n)).0 (λ r _ e. cc e))),
  λ v off' h.
      let (id, _, h₁) = >>=-eq-ok (get_le 2 buf off) _ h in
      let (n, _, h₂) = >>=-eq-ok (digest_size_at sizes id) _ h₁ in
      let ((ds, off₁), r, h₃) = >>=-eq-ok (read_digests left sizes buf (off + 2 + n)) _ h₂ in
      let same : off₁ ≡ off' = cc h₃ in
      omega (arith, (read_digests-Advances left sizes buf (off + 2 + n)).1 ds off₁ r),
)

read_event-Advances :
    (header : Value) (sizes : Sizes) (buf : List ℕ) (off : ℕ)
    → Advances (read_event header sizes buf off) (off + 4)
unfolding read_event
read_event-Advances header sizes buf off =
    let count : ℕ = number (member "digest_count" header) in
    let (ends, ahead) = read_digests-Advances count sizes buf off in
    (
      >>=-ne-err (read_digests count sizes buf off) _ out_of_fuel ends (λ r _.
          >>=-ne-err (get_le 4 buf r.1) _ out_of_fuel (get_le_ends 4 buf r.1) (λ size _.
            >>=-ne-err (event_type (number (member "event_type" header))) _ out_of_fuel
              (event_type_ends (number (member "event_type" header))) (λ name _ e. cc e))),
      λ v off' h.
          let ((ds, off₁), r, h₁) = >>=-eq-ok (read_digests count sizes buf off) _ h in
          let (size, _, h₂) = >>=-eq-ok (get_le 4 buf off₁) _ h₁ in
          let (name, _, h₃) = >>=-eq-ok (event_type (number (member "event_type" header))) _ h₂ in
          let same : off₁ + 4 + size ≡ off' = cc h₃ in omega (arith, ahead ds off₁ r),
    )

event2_class : plain_class inherited tcg_pcr_event2_header ≡ true
unfolding plain_class
event2_class = plain_event2

event2_size : ctype_size tcg_pcr_event2_header ≡ ok 12
unfolding ctype_size
event2_size = refl

read_events_ends :
    (fuel : ℕ) (sizes : Sizes) (buf : List ℕ) (off : ℕ)
    → IsBytes buf
    → length buf < fuel + off
    → 0 < fuel
    → read_events fuel sizes buf off ≢ err out_of_fuel
unfolding read_events
read_events_ends zero sizes buf off b h p = absurd (omega arith)
read_events_ends (suc fuel) sizes buf off b h p = elim (Bool-cases (ltb off (length buf))) [
  | inr done ↦ rw done (λ e. cc e)
  | inl more ↦
      rw (more, event2_size)
        (>>=-ne-err (unpack inherited tcg_pcr_event2_header (drop off buf)) _ out_of_fuel
          (unpack_ends tcg_pcr_event2_header 12 (drop off buf) event2_class event2_size
            (All-drop IsByte off buf b))
          (λ header _. elim (Bool-cases (number (member "pcr_index" header) == 0xffffffff)) [
            | inl last ↦ rw last (λ e. cc e)
            | inr other ↦ rw other (
                >>=-ne-err (read_event header sizes buf (off + 12)) _ out_of_fuel
                  (read_event-Advances header sizes buf (off + 12)).0
                  (λ r got.
                    >>=-ne-err (read_events fuel sizes buf r.1) _ out_of_fuel
                      (read_events_ends fuel sizes buf r.1 b
                        (omega
                          (arith, (read_event-Advances header sizes buf (off + 12)).1 r.0 r.1 got))
                        (omega (arith, ltb→lt off (length buf) more)))
                      (λ rest _ e. cc e)))
          ]))
]

read_algorithms_ends :
    (left : ℕ) (buf : List ℕ) (off : ℕ) (sizes : Sizes)
    → IsBytes buf
    → read_algorithms left buf off sizes ≢ err out_of_fuel
unfolding read_algorithms ctype_size
read_algorithms_ends zero buf off sizes b = λ e. cc e
read_algorithms_ends (suc left) buf off sizes b =
    >>=-ne-err (unpack inherited tcg_efi_spec_id_event_algorithm_size (drop off buf)) _ out_of_fuel
      (unpack_ends tcg_efi_spec_id_event_algorithm_size 4 (drop off buf)
        (unfold plain_class in plain_algorithm) refl (All-drop IsByte off buf b))
      (λ a _.
        let more : Sizes =
          (number (member "algorithm_id" a), number (member "digest_size" a)) ∷ sizes in
        >>=-ne-err (read_algorithms left buf (off + 4) more) _ out_of_fuel
          (read_algorithms_ends left buf (off + 4) more b) (λ r _ e. cc e))

unpack_entries_ends : (buf : List ℕ) → IsBytes buf → unpack_entries buf ≢ err out_of_fuel
unfolding unpack_entries ctype_size
unpack_entries_ends buf b =
    >>=-ne-err (unpack inherited tcg_pcr_event_header buf) _ out_of_fuel
      (unpack_ends tcg_pcr_event_header 32 buf (unfold plain_class in plain_first) refl b)
      (λ header _.
        let next : ℕ = 32 + number (member "event_data_size" header) in
        let spec : List ℕ = slice buf 32 next in
        let sb : IsBytes spec = slice-IsBytes buf 32 next b in
        >>=-ne-err (unpack inherited tcg_efi_spec_id_event_header spec) _ out_of_fuel
          (unpack_ends tcg_efi_spec_id_event_header 28 spec (unfold plain_class in plain_spec) refl
            sb)
          (λ h _.
            let count : ℕ = number (member "number_of_algorithms" h) in
            >>=-ne-err (read_algorithms count spec 28 []) _ out_of_fuel
              (read_algorithms_ends count spec 28 [] sb)
              (λ r _. >>=-ne-err (get_le 1 spec r.2) _ out_of_fuel (get_le_ends 1 spec r.2) (λ n _.
                >>=-ne-err (read_events (suc (length buf)) r.1 buf next) _ out_of_fuel
                  (read_events_ends (suc (length buf)) r.1 buf next b (omega arith) (omega arith))
                  (λ es _ e. cc e)))))

-- Whatever bytes a log holds, reading it ends: the fuel, one more than its bytes, is never used up.
pub unpack_log_ends :
    (data_bytes : List ℕ) → IsBytes data_bytes → unpack_log data_bytes ≢ err out_of_fuel
unfolding unpack_log
unpack_log_ends data_bytes b = elim (Bool-cases (length data_bytes == 0)) [
  | inl none_left ↦ rw none_left (λ e. cc e)
  | inr some_left ↦ rw some_left (unpack_entries_ends data_bytes b)
]
