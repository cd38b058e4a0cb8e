-- ===== src/Pem.antt =====
-- tools/measure-browser/static/verify.js, `parsePem` and `extractCertsFromPemChain`: the
-- certificates of a chain in PEM. A text is the list of its UTF-16 code units; the text decoder,
-- base64 and the reader of certificates are parameters.
pub mod Chain
pub mod Fuel
use sylica.Base.{
  ℕ, zero, suc, List, [], ◌∷◌, ◌++◌, Bool, true, false, ◌||◌, ◌&&◌, not, ◌==◌, leb, if◌then◌else◌,
  length, Option, none, some, Result, ok, err, ◌>>=◌, ◌>>◌, guard, no_certificates,
}

-- "-----BEGIN CERTIFICATE-----" and "-----END CERTIFICATE-----", each behind its first character.
abbrev pub begin_rest : List ℕ
begin_rest =
    b'-' ∷ b'-' ∷ b'-' ∷ b'-' ∷ b'B' ∷ b'E' ∷ b'G' ∷ b'I' ∷ b'N' ∷ b' ' ∷ b'C' ∷ b'E' ∷ b'R' ∷ b'T'
    ∷ b'I' ∷ b'F' ∷ b'I' ∷ b'C' ∷ b'A' ∷ b'T' ∷ b'E' ∷ b'-' ∷ b'-' ∷ b'-' ∷ b'-' ∷ b'-' ∷ []

abbrev pub end_rest : List ℕ
end_rest =
    b'-' ∷ b'-' ∷ b'-' ∷ b'-' ∷ b'E' ∷ b'N' ∷ b'D' ∷ b' ' ∷ b'C' ∷ b'E' ∷ b'R' ∷ b'T' ∷ b'I' ∷ b'F'
    ∷ b'I' ∷ b'C' ∷ b'A' ∷ b'T' ∷ b'E' ∷ b'-' ∷ b'-' ∷ b'-' ∷ b'-' ∷ b'-' ∷ []

abbrev pub begin_marker : List ℕ
begin_marker = b'-' ∷ begin_rest

abbrev pub end_marker : List ℕ
end_marker = b'-' ∷ end_rest

-- What stands behind `marker` at the front of a text.
unfoldable pub strip : List ℕ → List ℕ → Option (List ℕ)
strip [] text = some text
strip (c ∷ marker) [] = none
strip (c ∷ marker) (d ∷ text) = let rest = strip marker text in if c == d then rest else none

-- The first occurrence of `marker`: the text in front of it and behind it.
unfoldable pub split_at : List ℕ → List ℕ → Option (List ℕ × List ℕ)
split_at marker [] = elim (strip marker []) [ some after ↦ some ([], after) | none ↦ none ]
split_at marker (c ∷ text) = elim (strip marker (c ∷ text)) [
  | some after ↦ some ([], after)
  | none ↦ elim (split_at marker text) [
    | some (before, after) ↦ some (c ∷ before, after)
    | none ↦ none
  ]
]

-- `text.replace(/marker/, "")`
unfoldable pub replace_first : List ℕ → List ℕ → List ℕ
replace_first marker text = elim (split_at marker text) [
  | some (before, after) ↦ before ++ after
  | none ↦ text
]

-- The class `\s`.
unfoldable pub is_space : ℕ → Bool
is_space c =
    (leb 9 c && leb c 13)
    || (c == 32
        || (c == 160
            || (c == 5760
                || ((leb 8192 c && leb c 8202)
                    || (c == 8232
                        || (c == 8233
                            || (c == 8239 || (c == 8287 || (c == 12288 || c == 65279)))))))))

-- `text.replace(/\s/g, "")`
unfoldable pub without_spaces : List ℕ → List ℕ
without_spaces [] = []
without_spaces (c ∷ text) = let rest = without_spaces text in if is_space c then rest else c ∷ rest

-- `text.match(/BEGIN[\s\S]*?END/g)`: each match ends at the first end marker behind its beginning,
-- and the next one is looked for behind it.
unfoldable pub find_blocks : ℕ → List ℕ → List (List ℕ)
find_blocks zero text = []
find_blocks (suc fuel) text = elim (split_at begin_marker text) [
  | none ↦ []
  | some (skipped, inside) ↦ elim (split_at end_marker inside) [
    | none ↦ []
    | some (body, rest) ↦ (begin_marker ++ (body ++ end_marker)) ∷ find_blocks fuel rest
  ]
]

-- Blocks are longer than nothing: the text's length, and one, is enough.
unfoldable pub pem_blocks : List ℕ → List (List ℕ)
unfolding find_blocks
pem_blocks text = find_blocks (suc (length text)) text

-- What base64 and pkijs make of a certificate, and the text decoder.
pub record Readers : Type 1 where
  pub Certificate : Type 0
  pub decode_text : List ℕ → List ℕ
  pub from_base64 : List ℕ → Result (List ℕ)
  pub from_ber : List ℕ → Result Certificate

module _ (k : Readers) where
  open k use {Certificate, decode_text, from_base64, from_ber}

  -- `parsePem(pem)`
  unfoldable pub parse_pem : List ℕ → Result (List ℕ)
  parse_pem pem =
      from_base64 (without_spaces (replace_first end_marker (replace_first begin_marker pem)))

  unfoldable pub read_certificates : List (List ℕ) → Result (List Certificate)
  unfolding parse_pem
  read_certificates [] = ok []
  read_certificates (pem ∷ rest) = do
    ber ← parse_pem pem
    certificate ← from_ber ber
    certificates ← read_certificates rest
    ok (certificate ∷ certificates)

  abbrev is_empty : List (List ℕ) → Bool
  is_empty [] = true
  is_empty (b ∷ bs) = false

  -- `extractCertsFromPemChain(certChainRaw)`, of bytes.
  unfoldable pub extract_certs_from_pem_chain : List ℕ → Result (List Certificate)
  unfolding pem_blocks read_certificates
  extract_certs_from_pem_chain cert_chain_raw = do
    let blocks = pem_blocks (decode_text cert_chain_raw)
    guard (not (is_empty blocks)) no_certificates
    read_certificates blocks
