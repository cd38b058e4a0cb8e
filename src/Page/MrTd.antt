-- ===== src/Page/MrTd.antt =====
-- Where the measurement of a TDX guest (MRTD) stands in the body of a quote.
use sylica.Base.{
  ok-injective, ℕ, ◌+◌, ◌≤◌, ◌≡◌, refl, sym, ap, ◌∙◌, inl, inr, List, true, ◌&&◌, &&_split, ◌==◌,
  ==_iff, if◌then◌else◌, Bool-cases, take, drop, slice, slice_lem, slice-IsBytes, drop-drop,
  take-drop-take, IsBytes, ok, ◌>>=◌, >>=-eq-ok, arith,
}
use sylica.Ctype.{inherited, Fields, Value, member, number, byte_array, undefined}
use sylica.Ctype.Size.{ctype_size}
use sylica.Ctype.Unpack.{unpack}
use sylica.Ctype.Layout.{plain_class, type_width}
use sylica.Ctype.Located.{IsLocated, array_size, unpack-IsLocated}
use sylica.Types.Tdx.{td_quote_body_descriptor, td_quote_body_v4, td_quote_body_v5}
use sylica.Quote.{unpack_at, unpack_body_v5, unpack_body}
use sylica.Quote.Parts.{size_v4, size_v5, plain_v4, plain_v5, size_descriptor}

v4-IsLocated : IsLocated td_quote_body_v4 "mr_td" 0 48 136
unfolding IsLocated array_size type_width
v4-IsLocated = (refl, refl)

v5-IsLocated : IsLocated td_quote_body_v5 "mr_td" 0 48 136
unfolding IsLocated array_size type_width
v5-IsLocated = (refl, refl)

-- MRTD of a body stands at an offset, inside what ends at another one.
abbrev pub HasMrTd : List ℕ → Value → ℕ → ℕ → Type 0
HasMrTd buf body offset end =
    (byte_array (member "mr_td" body) ≡ take 48 (drop offset buf)) × (offset + 48 ≤ end)

body-HasMrTd :
    (fields : Fields) (n : ℕ) (buf : List ℕ) (offset : ℕ) {body : Value}
    → plain_class inherited fields ≡ true
    → ctype_size fields ≡ ok n
    → IsLocated fields "mr_td" 0 48 136
    → 184 ≤ n
    → IsBytes buf
    → unpack inherited fields (slice buf offset (offset + n)) ≡ ok body
    → HasMrTd buf body (offset + 136) (offset + n)
body-HasMrTd fields n buf offset {body} p s l h b u =
    let part : List ℕ = slice buf offset (offset + n) in
    let (m, _) =
      unpack-IsLocated fields n part "mr_td" 48 136 p s (slice-IsBytes buf offset (offset + n) b) l
        u in
    (
      m
          ∙ ap (λ x. take 48 (drop 136 x)) (slice_lem buf offset n)
          ∙ take-drop-take 136 48 n (drop offset buf) (omega arith)
          ∙ ap (take 48) (drop-drop offset 136 buf),
      omega arith,
    )

body_v5-HasMrTd :
    (type size : ℕ) (buf : List ℕ) (offset : ℕ) {body : Value}
    → IsBytes buf
    → unpack_body_v5 type size buf offset ≡ ok body
    → HasMrTd buf body (offset + 136) (offset + size)
unfolding unpack_body_v5
body_v5-HasMrTd type size buf offset {body} b e = elim (Bool-cases (type == 2 && size == 584)) [
  | inl v4 ↦
      let n : size ≡ 584 = (==_iff size 584).0 (&&_split (type == 2) (size == 584) v4).1 in
      let u = rw n at (rw (size_v4, size_v5, v4) at e) in
      rw n (
        body-HasMrTd td_quote_body_v4 584 buf offset plain_v4 size_v4 v4-IsLocated (omega arith) b
          u)
  | inr not_v4 ↦ elim (Bool-cases (type == 3 && size == 648)) [
    | inl v5 ↦
        let n : size ≡ 648 = (==_iff size 648).0 (&&_split (type == 3) (size == 648) v5).1 in
        let u = rw n at (rw (size_v4, size_v5, not_v4, v5) at e) in
        rw n (
          body-HasMrTd td_quote_body_v5 648 buf offset plain_v5 size_v5 v5-IsLocated (omega arith) b
            u)
    | inr neither ↦ cc (rw (size_v4, size_v5, not_v4, neither) at e)
  ]
]

-- Where MRTD stands in a quote.
abbrev pub mr_td_offset : ℕ → ℕ
mr_td_offset version = if version == 4 then 184 else 190

-- `unpack_at` inverted.
unpack_at-eq-ok :
    (fields : Fields) (n : ℕ) (buf : List ℕ) (offset : ℕ) {v : Value} {end : ℕ}
    → ctype_size fields ≡ ok n
    → unpack_at fields buf offset ≡ ok (v, end)
    → (unpack inherited fields (slice buf offset (offset + n)) ≡ ok v) × (offset + n ≡ end)
unfolding unpack_at
unpack_at-eq-ok fields n buf offset {v} {end} s e =
    let (w, u, r) =
      >>=-eq-ok (unpack inherited fields (slice buf offset (offset + n))) (λ w. ok (w, offset + n))
        (rw s at e) in
    let same = ok-injective r in
    (u ∙ ap (λ (x : Value × ℕ). ok x.0) same, ap (λ (x : Value × ℕ). x.1) same)

HasMrTd-end :
    (buf : List ℕ) (v body : Value) (offset end stop : ℕ)
    → HasMrTd buf v offset end
    → v ≡ body
    → end ≡ stop
    → HasMrTd buf body offset stop
HasMrTd-end buf v body offset end stop (m, h) same e =
    (sym (ap (λ x. byte_array (member "mr_td" x)) same) ∙ m, omega arith)

pub unpack_body-HasMrTd :
    (version : ℕ) (buf : List ℕ) {descriptor body : Value} {end : ℕ}
    → IsBytes buf
    → unpack_body version buf 48 ≡ ok (descriptor, body, end)
    → HasMrTd buf body (mr_td_offset version) end
unfolding unpack_body
unpack_body-HasMrTd version buf {descriptor} {body} {end} b e = elim (Bool-cases (version == 4)) [
  | inl four ↦
      let ((v, o), u, r) =
        >>=-eq-ok (unpack_at td_quote_body_v4 buf 48) (λ p. ok (undefined, p.0, p.1))
          (rw four at e) in
      let (w, stop) = unpack_at-eq-ok td_quote_body_v4 584 buf 48 size_v4 u in
      let h =
        body-HasMrTd td_quote_body_v4 584 buf 48 plain_v4 size_v4 v4-IsLocated (omega arith) b w in
      let same = ok-injective r in
      rw four (
        HasMrTd-end buf v body 184 632 end h (ap (λ (x : Value × Value × ℕ). x.1) same)
          (stop ∙ ap (λ (x : Value × Value × ℕ). x.2) same))
  | inr not_four ↦ elim (Bool-cases (version == 5)) [
    | inr neither ↦ cc (rw (not_four, neither) at e)
    | inl five ↦
        let ((d, o), u, r) =
          >>=-eq-ok (unpack_at td_quote_body_descriptor buf 48)
            (λ p.
              unpack_body_v5 (number (member "type" p.0)) (number (member "size" p.0)) buf p.1
              >>= λ v. ok (p.0, v, p.1 + number (member "size" p.0)))
            (rw (not_four, five) at e) in
        let (_, stop) = unpack_at-eq-ok td_quote_body_descriptor 6 buf 48 size_descriptor u in
        let size : ℕ = number (member "size" d) in
        let (v, w, t) =
          >>=-eq-ok (unpack_body_v5 (number (member "type" d)) size buf o)
            (λ x. ok (d, x, o + size)) r in
        let (m, h) = body_v5-HasMrTd (number (member "type" d)) size buf o b w in
        let same = ok-injective t in
        let at : o ≡ 54 = sym stop in
        let ends : o + size ≡ end = ap (λ (x : Value × Value × ℕ). x.2) same in
        rw not_four (
          HasMrTd-end buf v body 190 (o + size) end
            (
              m ∙ ap (λ k. take 48 (drop k buf)) (let x : o + 136 ≡ 190 = omega arith in x),
              omega arith,
            )
            (ap (λ (x : Value × Value × ℕ). x.1) same) ends)
  ]
]
