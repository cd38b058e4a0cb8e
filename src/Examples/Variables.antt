-- ===== src/Examples/Variables.antt =====
-- The record of the variable PK, and a guest policy with two high flags set.
use sylica.Base.{
  ℕ, ◌≡◌, List, refl, [], ◌∷◌, ◌++◌, false, replicate, length-replicate, encode_le, ok, arith,
}
use sylica.Ctype.{inherited, Value, flag, member}
use sylica.Ctype.Unpack.{unpack, test_bit}
use sylica.Types.Snp.{guest_policy}
use sylica.Report.Policy.{guest_policy_flags}
use sylica.Variables.Distinct.{efi_variable_injective}
use sylica.Variables.{encode_utf16_le, efi_variable, efi_variable_layout}

abbrev guid : List ℕ
guid = replicate 16 0x61

abbrev pk : List ℕ
pk = 80 ∷ 75 ∷ []

abbrev one : List ℕ
one = 1 ∷ []

efi_variable_layout_example :
    efi_variable guid pk one
    ≡ ok (guid ++ (encode_le 8 2 ++ (encode_le 8 1 ++ (encode_utf16_le pk ++ one))))
efi_variable_layout_example = efi_variable_layout guid pk one (length-replicate 16 0x61)

efi_variable_injective_example : (guid ≡ guid) × (pk ≡ pk) × (one ≡ one)
efi_variable_injective_example =
    efi_variable_injective guid guid pk pk one one (length-replicate 16 0x61)
      (length-replicate 16 0x61) (omega arith, (omega arith, tt)) (omega arith, (omega arith, tt))
      (omega arith) (omega arith) refl

-- The bits of the two high flags are set in the fourth byte.
guest_policy_flags_example :
    (v : Value) × (unpack inherited guest_policy (31 ∷ 0 ∷ 8 ∷ 3 ∷ 0 ∷ 0 ∷ 0 ∷ 0 ∷ []) ≡ ok v)
    × (member "debug" v ≡ flag (test_bit 8 3))
    × (member "ciphertext_hiding_dram" v ≡ flag false)
    × (member "page_swap_disable" v ≡ flag false)
guest_policy_flags_example =
    guest_policy_flags 31 0 8 3 0 0 0 0 (omega arith) (omega arith) (omega arith)
