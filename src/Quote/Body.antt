-- ===== src/Quote/Body.antt =====
-- The descriptor and the body of a quote, version 4 and 5.
use sylica.Base.{
  ℕ, ◌+◌, ◌≡◌, refl, sym, subst, List, [], ◌++◌, inl, inr, ◌==◌, ==_iff, Bool-cases, if◌then◌else◌,
  IsBytes, ok, ◌>>=◌, >>=-eq-ok, Spans, Spans-append, ◌&&◌, &&_split,
}
use sylica.Ctype.{Value, undefined, member, number}
use sylica.Types.Tdx.{td_quote_body_descriptor, td_quote_body_v4, td_quote_body_v5}
use sylica.Quote.{unpack_at, unpack_body_v5, unpack_body, part}
use sylica.Quote.Parts.{
  IsPart, unpack-IsPart, unpack_at-IsPart, size_v4, size_v5, plain_v5, plain_v4, size_descriptor,
  plain_descriptor,
}

pub body_v5-IsPart :
    (type size : ℕ) (buf : List ℕ) (offset : ℕ) {body : Value}
    → IsBytes buf
    → unpack_body_v5 type size buf offset ≡ ok body
    → IsPart buf offset (offset + size) body
unfolding unpack_body_v5
body_v5-IsPart type size buf offset b e = elim (Bool-cases (type == 2 && size == 584)) [
  | inl v4 ↦
      let n : size ≡ 584 = (==_iff size 584).0 (&&_split (type == 2) (size == 584) v4).1 in
      rw n (
        unpack-IsPart td_quote_body_v4 584 buf offset plain_v4 size_v4 b
          (rw n at (rw (size_v4, size_v5, v4) at e)))
  | inr not_v4 ↦ elim (Bool-cases (type == 3 && size == 648)) [
    | inl v5 ↦
        let n : size ≡ 648 = (==_iff size 648).0 (&&_split (type == 3) (size == 648) v5).1 in
        rw n (
          unpack-IsPart td_quote_body_v5 648 buf offset plain_v5 size_v5 b
            (rw n at (rw (size_v4, size_v5, not_v4, v5) at e)))
    | inr neither ↦ cc (rw (size_v4, size_v5, not_v4, neither) at e)
  ]
]

-- The descriptor, if there is one, and the body.
abbrev pub IsBody : List ℕ → ℕ → ℕ → ℕ → Value → Value → Type 0
IsBody buf start end version descriptor body =
    (ds bs : List (List ℕ)) × ((if version == 5 then part descriptor else ok []) ≡ ok ds)
    × (part body ≡ ok bs)
    × Spans buf start end (ds ++ bs)

pub v4-IsBody :
    (buf : List ℕ) (offset : ℕ) {descriptor body : Value} {offset' : ℕ}
    → IsBytes buf
    → unpack_body 4 buf offset ≡ ok (descriptor, body, offset')
    → IsBody buf offset offset' 4 descriptor body
unfolding unpack_body
v4-IsBody buf offset {descriptor} {body} {offset'} b e =
    let ((v, o), u, r) =
      >>=-eq-ok (unpack_at td_quote_body_v4 buf offset) (λ p. ok (undefined, p.0, p.1)) e in
    let (ps, q, sp) = unpack_at-IsPart td_quote_body_v4 584 buf offset plain_v4 size_v4 b u in
    let same : v ≡ body = cc in
    let stop : o ≡ offset' = cc in
    ([], ps, refl, subst (λ x. part x ≡ ok ps) same q, subst (λ x. Spans buf offset x ps) stop sp)

pub v5-IsBody :
    (buf : List ℕ) (offset : ℕ) {descriptor body : Value} {offset' : ℕ}
    → IsBytes buf
    → unpack_body 5 buf offset ≡ ok (descriptor, body, offset')
    → IsBody buf offset offset' 5 descriptor body
unfolding unpack_body
v5-IsBody buf offset {descriptor} {body} {offset'} b e =
    let ((d, o), u, r) =
      >>=-eq-ok (unpack_at td_quote_body_descriptor buf offset)
        (λ p.
          unpack_body_v5 (number (member "type" p.0)) (number (member "size" p.0)) buf p.1 >>= λ v.
          ok (p.0, v, p.1 + number (member "size" p.0)))
        e in
    let size : ℕ = number (member "size" d) in
    let (v, w, t) =
      >>=-eq-ok (unpack_body_v5 (number (member "type" d)) size buf o) (λ v. ok (d, v, o + size))
        r in
    let (ds, qd, sd) =
      unpack_at-IsPart td_quote_body_descriptor 6 buf offset plain_descriptor size_descriptor b u in
    let (bs, qb, sb) = body_v5-IsPart (number (member "type" d)) size buf o b w in
    let same : d ≡ descriptor = cc in
    let same' : v ≡ body = cc in
    let stop : o + size ≡ offset' = cc in
    (
      ds,
      bs,
      subst (λ x. part x ≡ ok ds) same qd,
      subst (λ x. part x ≡ ok bs) same' qb,
      Spans-append buf offset o offset' ds bs sd (subst (λ x. Spans buf o x bs) stop sb),
    )

pub unpack_body-IsBody :
    (version : ℕ) (buf : List ℕ) (offset : ℕ) {descriptor body : Value} {offset' : ℕ}
    → IsBytes buf
    → unpack_body version buf offset ≡ ok (descriptor, body, offset')
    → IsBody buf offset offset' version descriptor body
unfolding unpack_body
unpack_body-IsBody version buf offset {descriptor} {body} {offset'} b e =
    elim (Bool-cases (version == 4)) [
      | inl four ↦
          let v : version ≡ 4 = (==_iff version 4).0 four in
          subst (λ x. IsBody buf offset offset' x descriptor body) (sym v)
            (v4-IsBody buf offset b (rw v at e))
      | inr not_four ↦ elim (Bool-cases (version == 5)) [
        | inl five ↦
            let v : version ≡ 5 = (==_iff version 5).0 five in
            subst (λ x. IsBody buf offset offset' x descriptor body) (sym v)
              (v5-IsBody buf offset b (rw v at e))
        | inr neither ↦ cc (rw (not_four, neither) at e)
      ]
    ]
