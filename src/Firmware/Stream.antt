-- ===== src/Firmware/Stream.antt =====
-- The stream that MRTD is the hash of, as the operations of the TDX module that build a guest.
use sylica.Base.{
  ℕ, zero, suc, ◌+◌, ◌*◌, ◌≡◌, refl, sym, ap, ◌∙◌, List, [], ◌∷◌, ◌++◌, append_assoc, if◌then◌else◌,
  not, leb, ◌==◌, ◌/◌, ◌%◌, Bool-cases, inl, inr, length, slice, replicate, encode_le, set_bytes_at,
  replicate-add, length-replicate, length-encode_le, length-append, join, join-flatten, flatten,
  flatten-append, Result, ok, ◌>>=◌, arith,
}
use sylica.Memory.{TdvfSection}
use sylica.Firmware.Tdvf.{
  mem_page_add, mr_extend, tdx_record, is_skipped, is_extended, extend_chunks, page_chunks,
  section_chunks, page_count, all_chunks,
}

-- TDH.MEM.PAGE.ADD of a page at an address, TDH.MR.EXTEND of 256 bytes at an address.
pub data TdxOperation : Type 0 where
  page_add : ℕ → TdxOperation
  extend : ℕ → List ℕ → TdxOperation

-- A buffer of 128 bytes with the name of the operation and the address at byte 16, and what is
-- measured.
abbrev pub operation_bytes : TdxOperation → List ℕ
operation_bytes (page_add gpa) =
    mem_page_add ++ (replicate 4 0 ++ (encode_le 8 gpa ++ replicate 104 0))
operation_bytes (extend gpa content) =
    (mr_extend ++ (replicate 7 0 ++ (encode_le 8 gpa ++ replicate 104 0))) ++ content

abbrev pub stream : List TdxOperation → List ℕ
stream [] = []
stream (o ∷ os) = operation_bytes o ++ stream os

-- The chunks of a page, then the pages of a section, then the sections.
abbrev pub chunk_operations : ℕ → List ℕ → (gpa off chunk : ℕ) → List TdxOperation
chunk_operations zero fw gpa off chunk = []
chunk_operations (suc left) fw gpa off chunk =
    extend (gpa + chunk * 256) (slice fw (off + chunk * 256) (off + chunk * 256 + 256))
    ∷ chunk_operations left fw gpa off (suc chunk)

-- Bit 1 of the attributes forbids to add the page, bit 0 asks to measure it.
abbrev pub page_operations : List ℕ → TdvfSection → ℕ → List TdxOperation
page_operations fw s page =
    (if leb 2 (s.attributes % 4) then [] else page_add (s.memory_address + page * 4096) ∷ [])
    ++ (if not (s.attributes == s.attributes / 2 * 2)
        then chunk_operations 16 fw (s.memory_address + page * 4096) (s.data_offset + page * 4096) 0
        else [])

abbrev pub section_operations : ℕ → List ℕ → TdvfSection → ℕ → List TdxOperation
section_operations zero fw s page = []
section_operations (suc left) fw s page =
    page_operations fw s page ++ section_operations left fw s (suc page)

-- Whole pages, and one more for what is left.
abbrev pub pages_covering : ℕ → ℕ
pages_covering size = size / 4096 + (if size % 4096 == 0 then 0 else 1)

abbrev pub build_operations : List ℕ → List TdvfSection → List TdxOperation
build_operations fw [] = []
build_operations fw (s ∷ rest) =
    section_operations (pages_covering s.memory_data_size) fw s 0 ++ build_operations fw rest

stream-append : (os ps : List TdxOperation) → stream (os ++ ps) ≡ stream os ++ stream ps
stream-append [] ps = refl
stream-append (o ∷ os) ps =
    ap (λ x. operation_bytes o ++ x) (stream-append os ps)
    ∙ sym (append_assoc (operation_bytes o) (stream os) (stream ps))

tdx_record_layout :
    (name : List ℕ) (address gap : ℕ)
    → length name + gap ≡ 16
    → tdx_record name address
      ≡ ok (name ++ (replicate gap 0 ++ (encode_le 8 address ++ replicate 104 0)))
unfolding tdx_record
tdx_record_layout name address gap h =
    let front : List ℕ = name ++ replicate gap 0 in
    let size : length front ≡ 16 =
      omega (arith, length-append name (replicate gap 0), length-replicate {A = ℕ} gap 0) in
    let padded : name ++ replicate (gap + 112) 0 ≡ front ++ replicate 112 0 =
      ap (λ x. name ++ x) (replicate-add {A = ℕ} gap 112 0)
      ∙ sym (append_assoc name (replicate gap 0) (replicate 112 0)) in
    rw
      (
        set_bytes_at [] name 0 128 (gap + 112) refl (omega arith),
        padded,
        set_bytes_at front (encode_le 8 address) 16 112 104 size
            (omega (arith, length-encode_le 8 address)),
      )
      (ap ok (simp append_assoc refl))

-- Chunks, and the operations whose bytes they are.
abbrev Streams : Result (List (List ℕ)) → List TdxOperation → Type 0
Streams r os = (cs : List (List ℕ)) × (r ≡ ok cs) × (flatten cs ≡ stream os)

Streams-append :
    (r t : Result (List (List ℕ))) (os ps : List TdxOperation)
    → Streams r os
    → Streams t ps
    → Streams (r >>= λ a. t >>= λ b. ok (a ++ b)) (os ++ ps)
Streams-append r t os ps (a, e, s) (b, f, u) =
    (a ++ b, rw (e, f) refl, flatten-append a b ∙ rw (s, u) (sym (stream-append os ps)))

extend_chunks-Streams :
    (left : ℕ) (fw : List ℕ) (gpa off chunk : ℕ)
    → Streams (extend_chunks left fw gpa off chunk) (chunk_operations left fw gpa off chunk)
unfolding extend_chunks flatten
extend_chunks-Streams zero fw gpa off chunk = ([], refl, refl)
extend_chunks-Streams (suc left) fw gpa off chunk =
    let (cs, e, s) = extend_chunks-Streams left fw gpa off (suc chunk) in
    let a : List ℕ =
      mr_extend ++ (replicate 7 0 ++ (encode_le 8 (gpa + chunk * 256) ++ replicate 104 0)) in
    let c : List ℕ = slice fw (off + chunk * 256) (off + chunk * 256 + 256) in
    (
      a ∷ (c ∷ cs),
      rw (tdx_record_layout mr_extend (gpa + chunk * 256) 7 refl, e) refl,
      ap (λ x. a ++ (c ++ x)) s
          ∙ sym (append_assoc a c (stream (chunk_operations left fw gpa off (suc chunk)))),
    )

is_skipped-bit : (s : TdvfSection) → is_skipped s ≡ leb 2 (s.attributes % 4)
unfolding is_skipped
is_skipped-bit s = ground arith

is_extended-bit : (s : TdvfSection) → is_extended s ≡ not (s.attributes == s.attributes / 2 * 2)
unfolding is_extended
is_extended-bit s = ground arith

page_count-covering : (s : TdvfSection) → page_count s ≡ pages_covering s.memory_data_size
unfolding page_count
page_count-covering s = ground arith

page_chunks-Streams :
    (fw : List ℕ) (s : TdvfSection) (page : ℕ)
    → Streams (page_chunks fw s page) (page_operations fw s page)
unfolding page_chunks flatten
page_chunks-Streams fw s page =
    let gpa : ℕ = s.memory_address + page * 4096 in
    let off : ℕ = s.data_offset + page * 4096 in
    let added : Streams
        (if is_skipped s then ok [] else (do rec ← tdx_record mem_page_add gpa; ok (rec ∷ [])))
        (if leb 2 (s.attributes % 4) then [] else page_add gpa ∷ []) =
      rw (← is_skipped-bit s) (elim (Bool-cases (is_skipped s)) [
        | inl e ↦ rw e ([], refl, refl)
        | inr e ↦
            rw (e, tdx_record_layout mem_page_add gpa 4 refl)
              (operation_bytes (page_add gpa) ∷ [], refl, refl)
      ]) in
    let extended : Streams (if is_extended s then extend_chunks 16 fw gpa off 0 else ok []) (
        if not (s.attributes == s.attributes / 2 * 2)
        then chunk_operations 16 fw gpa off 0
        else []) =
      rw (← is_extended-bit s) (elim (Bool-cases (is_extended s)) [
        | inl e ↦ rw e (extend_chunks-Streams 16 fw gpa off 0)
        | inr e ↦ rw e ([], refl, refl)
      ]) in
    Streams-append _ _ _ _ added extended

section_chunks-Streams :
    (left : ℕ) (fw : List ℕ) (s : TdvfSection) (page : ℕ)
    → Streams (section_chunks left fw s page) (section_operations left fw s page)
unfolding section_chunks flatten
section_chunks-Streams zero fw s page = ([], refl, refl)
section_chunks-Streams (suc left) fw s page =
    Streams-append (page_chunks fw s page) (section_chunks left fw s (suc page))
      (page_operations fw s page) (section_operations left fw s (suc page))
      (page_chunks-Streams fw s page) (section_chunks-Streams left fw s (suc page))

all_chunks-Streams :
    (fw : List ℕ) (ss : List TdvfSection) → Streams (all_chunks fw ss) (build_operations fw ss)
unfolding all_chunks flatten
all_chunks-Streams fw [] = ([], refl, refl)
all_chunks-Streams fw (s ∷ rest) =
    let n : ℕ = pages_covering s.memory_data_size in
    let here : Streams (section_chunks (page_count s) fw s 0) (section_operations n fw s 0) =
      rw (page_count-covering s) (section_chunks-Streams n fw s 0) in
    Streams-append _ _ _ _ here (all_chunks-Streams fw rest)

-- The chunks of any sections join to the bytes of the operations that build the guest.
pub all_chunks-stream :
    (fw : List ℕ) (ss : List TdvfSection)
    → (cs : List (List ℕ)) × (all_chunks fw ss ≡ ok cs)
      × (join cs ≡ ok (stream (build_operations fw ss)))
all_chunks-stream fw ss =
    let (cs, e, s) = all_chunks-Streams fw ss in (cs, e, join-flatten cs ∙ ap ok s)
