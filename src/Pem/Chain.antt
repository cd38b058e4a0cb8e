-- ===== src/Pem/Chain.antt =====
-- A chain of PEM blocks, and what is read from it.
use sylica.Base.{
  ℕ, zero, suc, ◌≤◌, ◌<◌, ◌≡◌, refl, ap, ◌∙◌, List, [], ◌∷◌, ◌++◌, append-nil, false, ◌==◌, ==_iff,
  length, length-append, All, Option, none, some, map, Result, ok, ◌>>=◌, arith,
}
use sylica.Pem.{
  begin_rest, end_rest, begin_marker, end_marker, strip, split_at, replace_first, without_spaces,
  find_blocks, pem_blocks, Readers, parse_pem, read_certificates, extract_certs_from_pem_chain,
}

-- No hyphen.
abbrev pub IsPlain : ℕ → Type 0
IsPlain c = (b'-' == c) ≡ false

-- A body, and the text in front of its block.
abbrev pub Block : Type 0
Block = List ℕ × List ℕ

abbrev pub IsBlock : Block → Type 0
IsBlock (gap, body) = All IsPlain gap × All IsPlain body

-- The text of a chain.
unfoldable pub chain_text : List Block → List ℕ → List ℕ
chain_text [] tail = tail
chain_text ((gap, body) ∷ rest) tail =
    gap ++ (begin_marker ++ (body ++ (end_marker ++ chain_text rest tail)))

strip-append : (marker text : List ℕ) → strip marker (marker ++ text) ≡ some text
unfolding strip
strip-append [] text = refl
strip-append (c ∷ marker) text = rw ((==_iff c c).1 refl) (strip-append marker text)

prepend : ℕ → Option (List ℕ × List ℕ) → Option (List ℕ × List ℕ)
prepend c found = elim found [ some (before, after) ↦ some (c ∷ before, after) | none ↦ none ]

strip_plain :
    (rest : List ℕ) (c : ℕ) (text : List ℕ) → IsPlain c → strip (b'-' ∷ rest) (c ∷ text) ≡ none
unfolding strip
strip_plain rest c text h = rw h refl

split_at_skip :
    (rest : List ℕ) (c : ℕ) (text : List ℕ)
    → IsPlain c
    → split_at (b'-' ∷ rest) (c ∷ text) ≡ prepend c (split_at (b'-' ∷ rest) text)
unfolding split_at prepend
split_at_skip rest c text h = rw (split_at, strip_plain rest c text h) refl

-- A marker that starts with a hyphen stands behind a text without one.
split_at_plain :
    (rest before text : List ℕ)
    → All IsPlain before
    → split_at (b'-' ∷ rest) (before ++ ((b'-' ∷ rest) ++ text)) ≡ some (before, text)
unfolding split_at strip prepend
split_at_plain rest [] text h = rw (strip-append rest text) refl
split_at_plain rest (c ∷ before) text (h, hs) =
    rw
      (
        split_at_skip rest c (before ++ ((b'-' ∷ rest) ++ text)) h,
        split_at_plain rest before text hs,
      )
      refl

split_at-none : (rest text : List ℕ) → All IsPlain text → split_at (b'-' ∷ rest) text ≡ none
unfolding split_at strip prepend
split_at-none rest [] h = refl
split_at-none rest (c ∷ text) (h, hs) =
    rw (split_at_skip rest c text h, split_at-none rest text hs) refl

replace_begin : (text : List ℕ) → replace_first begin_marker (begin_marker ++ text) ≡ text
unfolding replace_first
replace_begin text = rw (replace_first, split_at_plain begin_rest [] text tt) refl

replace_end :
    (body : List ℕ) → All IsPlain body → replace_first end_marker (body ++ end_marker) ≡ body
unfolding replace_first
replace_end body h =
    let found : split_at end_marker (body ++ end_marker) ≡ some (body, []) =
      split_at_plain end_rest body [] h in
    rw (replace_first, found) (append-nil body)

find_blocks-chain_text :
    (fuel : ℕ) (blocks : List Block) (tail : List ℕ)
    → All IsBlock blocks
    → All IsPlain tail
    → length blocks < fuel
    → find_blocks fuel (chain_text blocks tail)
      ≡ map (λ b. begin_marker ++ (b.1 ++ end_marker)) blocks
unfolding find_blocks chain_text
find_blocks-chain_text zero blocks tail h p f = absurd (omega arith)
find_blocks-chain_text (suc fuel) [] tail h p f =
    rw (find_blocks, split_at-none begin_rest tail p) refl
find_blocks-chain_text (suc fuel) ((gap, body) ∷ rest) tail ((hg, hb), h) p f =
    rw
      (
        find_blocks,
        split_at_plain begin_rest gap (body ++ (end_marker ++ chain_text rest tail)) hg,
        split_at_plain end_rest body (chain_text rest tail) hb,
        find_blocks-chain_text fuel rest tail h p (omega arith),
      )
      refl

length-chain_text :
    (blocks : List Block) (tail : List ℕ) → length blocks ≤ length (chain_text blocks tail)
unfolding chain_text
length-chain_text [] tail = omega arith
length-chain_text ((gap, body) ∷ rest) tail = omega (
  arith,
  length-chain_text rest tail,
  length-append gap (begin_marker ++ (body ++ (end_marker ++ chain_text rest tail))),
  length-append body (end_marker ++ chain_text rest tail),
)

module _ (k : Readers) where
  open k use {Certificate, decode_text, from_base64, from_ber}

  -- The certificates of the bodies, each freed from white space, or the first exception.
  abbrev pub certificates_of : List Block → Result (List Certificate)
  certificates_of [] = ok []
  certificates_of ((gap, body) ∷ rest) = do
    ber ← from_base64 (without_spaces body)
    certificate ← from_ber ber
    certificates ← certificates_of rest
    ok (certificate ∷ certificates)

  parse_pem_block :
      (body : List ℕ)
      → All IsPlain body
      → parse_pem k (begin_marker ++ (body ++ end_marker)) ≡ from_base64 (without_spaces body)
  unfolding parse_pem
  parse_pem_block body h =
      ap (λ x. from_base64 (without_spaces (replace_first end_marker x)))
        (replace_begin (body ++ end_marker))
      ∙ ap (λ x. from_base64 (without_spaces x)) (replace_end body h)

  read_certificates_chain :
      (blocks : List Block)
      → All IsBlock blocks
      → read_certificates k (map (λ b. begin_marker ++ (b.1 ++ end_marker)) blocks)
        ≡ certificates_of blocks
  unfolding read_certificates
  read_certificates_chain [] h = refl
  read_certificates_chain ((gap, body) ∷ rest) ((_, hb), h) =
      rw (parse_pem_block body hb, read_certificates_chain rest h) refl

  -- Of a text that holds one PEM block or more, with no hyphen in a body or between the blocks, the
  -- certificates of the blocks are read, each of them and in their order, or the first exception of
  -- base64 or of the certificates' reader is thrown.
  pub extract_certs_from_pem_chain-chain_text :
      (raw : List ℕ) (b : Block) (blocks : List Block) (tail : List ℕ)
      → All IsBlock (b ∷ blocks)
      → All IsPlain tail
      → decode_text raw ≡ chain_text (b ∷ blocks) tail
      → extract_certs_from_pem_chain k raw ≡ certificates_of (b ∷ blocks)
  unfolding extract_certs_from_pem_chain pem_blocks
  extract_certs_from_pem_chain-chain_text raw b blocks tail h p e =
      rw
        (
          e,
          find_blocks-chain_text (suc (length (chain_text (b ∷ blocks) tail))) (b ∷ blocks) tail h p
              (omega (arith, length-chain_text (b ∷ blocks) tail)),
        )
        (read_certificates_chain (b ∷ blocks) h)
