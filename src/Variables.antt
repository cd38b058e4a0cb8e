-- ===== src/Variables.antt =====
-- tools/measure-browser/static/binutil.js, `encodeUtf16LE` and `efiVariable`: the record of an EFI
-- variable that the firmware measures. A text is the list of its UTF-16 code units.
pub mod Distinct
use sylica.Base.{
  ℕ, ◌+◌, ◌*◌, ◌/◌, ◌%◌, ◌≡◌, refl, ap, ◌∙◌, List, [], ◌∷◌, ◌++◌, length, replicate, encode_le,
  set_bytes, Result, ok, ◌>>=◌, length-append, length-encode_le, set_bytes_at, append_assoc,
  append-nil, replicate-zero, arith,
}

unfoldable pub encode_utf16_le : List ℕ → List ℕ
encode_utf16_le [] = []
encode_utf16_le (code ∷ rest) = code % 256 ∷ code / 256 % 256 ∷ encode_utf16_le rest

unfoldable pub efi_variable : List ℕ → List ℕ → List ℕ → Result (List ℕ)
efi_variable uuid name data_bytes = do
  let name_bytes = encode_utf16_le name
  r₁ ← set_bytes (replicate (32 + length name_bytes + length data_bytes) 0) 0 uuid
  r₂ ← set_bytes r₁ 16 (encode_le 8 (length name))
  r₃ ← set_bytes r₂ 24 (encode_le 8 (length data_bytes))
  r₄ ← set_bytes r₃ 32 name_bytes
  set_bytes r₄ (32 + length name_bytes) data_bytes

-- With a GUID of 16 bytes the record is made, and it is the GUID, the length of the name in code
-- units, the length of the data in bytes, the name in UTF-16 and the data, in this order.
pub efi_variable_layout :
    (uuid name data_bytes : List ℕ)
    → length uuid ≡ 16
    → efi_variable uuid name data_bytes
      ≡ ok (
          uuid
          ++ (encode_le 8 (length name)
              ++ (encode_le 8 (length data_bytes) ++ (encode_utf16_le name ++ data_bytes))))
unfolding efi_variable
efi_variable_layout uuid name data_bytes h =
    let text : List ℕ = encode_utf16_le name in
    let n : ℕ = length text in
    let m : ℕ = length data_bytes in
    let a : List ℕ = uuid ++ encode_le 8 (length name) in
    let b : List ℕ = a ++ encode_le 8 m in
    let c : List ℕ = b ++ text in
    let la : length a ≡ 24 =
      omega
        (arith, length-append uuid (encode_le 8 (length name)), length-encode_le 8 (length name)) in
    let lb : length b ≡ 32 = omega (arith, length-append a (encode_le 8 m), length-encode_le 8 m) in
    let lc : length c ≡ 32 + n = omega (arith, length-append b text) in
    rw
      (
        set_bytes_at [] uuid 0 (32 + n + m) (16 + n + m) refl (omega arith),
        set_bytes_at uuid (encode_le 8 (length name)) 16 (16 + n + m) (8 + n + m) h
            (omega (arith, length-encode_le 8 (length name))),
        set_bytes_at a (encode_le 8 m) 24 (8 + n + m) (n + m) la
            (omega (arith, length-encode_le 8 m)),
        set_bytes_at b text 32 (n + m) m lb (omega arith),
        set_bytes_at c data_bytes (32 + n) m 0 lc (omega arith),
      )
      (ap ok (simp (replicate-zero, append-nil, append_assoc)))
