-- ===== src/Variables/Distinct.antt =====
-- Comparing the records of two variables.
use sylica.Base.{
  ℕ, ◌/◌, ◌%◌, ◌^◌, ◌<◌, ◌≡◌, refl, ap, ap₂, sym, ◌∙◌, List, [], ◌∷◌, ◌++◌, All, length, take, drop,
  encode_le, decode_le, ok, length-encode_le, decode_le-encode_le, take-append, drop-append, arith,
}
use sylica.Variables.{encode_utf16_le, efi_variable, efi_variable_layout}

prefix-equal :
    (xs ys us vs : List ℕ) → length xs ≡ length us → xs ++ ys ≡ us ++ vs → (xs ≡ us) × (ys ≡ vs)
prefix-equal xs ys us vs l e = (
  sym (take-append xs ys) ∙ (ap₂ take l e ∙ take-append us vs),
  sym (drop-append xs ys) ∙ (ap₂ drop l e ∙ drop-append us vs),
)

encode_le-injective :
    (w m n : ℕ) → m < 256 ^ w → n < 256 ^ w → encode_le w m ≡ encode_le w n → m ≡ n
encode_le-injective w m n h k e =
    sym (decode_le-encode_le w m h) ∙ (ap decode_le e ∙ decode_le-encode_le w n k)

abbrev IsCodeUnit : ℕ → Type 0
IsCodeUnit code = code < 65536

-- Texts of the same length in code units.
encode_utf16_le-injective :
    (xs ys us vs : List ℕ)
    → length xs ≡ length us
    → All IsCodeUnit xs
    → All IsCodeUnit us
    → encode_utf16_le xs ++ ys ≡ encode_utf16_le us ++ vs
    → (xs ≡ us) × (ys ≡ vs)
unfolding encode_utf16_le
encode_utf16_le-injective [] ys [] vs l h k e = (refl, e)
encode_utf16_le-injective [] ys (u ∷ us) vs l h k e = absurd (omega arith)
encode_utf16_le-injective (x ∷ xs) ys [] vs l h k e = absurd (omega arith)
encode_utf16_le-injective (x ∷ xs) ys (u ∷ us) vs l (hx, h) (ku, k) e =
    let low : x % 256 ≡ u % 256 = cc e in
    let high : x / 256 % 256 ≡ u / 256 % 256 = cc e in
    let rest : encode_utf16_le xs ++ ys ≡ encode_utf16_le us ++ vs = cc e in
    let (p, q) = encode_utf16_le-injective xs ys us vs (omega arith) h k rest in
    let same : x ≡ u = omega arith in (ap₂ (λ c cs. c ∷ cs) same p, q)

ok-injective {ℓ} : {A : Type ℓ} {a b : A} → ok a ≡ ok b → a ≡ b
ok-injective e = cc

-- Two variables with GUIDs of 16 bytes, names of code units below 65536 and names shorter
-- than 2 ^ 64 have the same record only if GUID, name and data are the same.
pub efi_variable_injective :
    (uuid uuid' name name' data_bytes data_bytes' : List ℕ)
    → length uuid ≡ 16
    → length uuid' ≡ 16
    → All IsCodeUnit name
    → All IsCodeUnit name'
    → length name < 256 ^ 8
    → length name' < 256 ^ 8
    → efi_variable uuid name data_bytes ≡ efi_variable uuid' name' data_bytes'
    → (uuid ≡ uuid') × (name ≡ name') × (data_bytes ≡ data_bytes')
efi_variable_injective uuid uuid' name name' data_bytes data_bytes' g g' u u' l l' e =
    let layouts = ok-injective (
      sym (efi_variable_layout uuid name data_bytes g)
      ∙ (e ∙ efi_variable_layout uuid' name' data_bytes' g')) in
    let (guids, e₁) = prefix-equal uuid _ uuid' _ (g ∙ sym g') layouts in
    let (sizes, e₂) =
      prefix-equal (encode_le 8 (length name)) _ (encode_le 8 (length name')) _
        (length-encode_le 8 (length name) ∙ sym (length-encode_le 8 (length name'))) e₁ in
    let (_, e₃) =
      prefix-equal (encode_le 8 (length data_bytes)) _ (encode_le 8 (length data_bytes')) _
        (length-encode_le 8 (length data_bytes) ∙ sym (length-encode_le 8 (length data_bytes')))
        e₂ in
    let (names, datas) =
      encode_utf16_le-injective name data_bytes name' data_bytes'
        (encode_le-injective 8 (length name) (length name') l l' sizes) u u' e₃ in
    (guids, names, datas)
