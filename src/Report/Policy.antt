-- ===== src/Report/Policy.antt =====
-- types.js, `GuestPolicy`: the flags that `unpack` reads.
use sylica.Base.{
  ℕ, ◌+◌, ◌*◌, ◌/◌, ◌^◌, ◌<◌, ◌≡◌, refl, [], ◌∷◌, true, false, ltb, lt→ltb, take, drop, get_le,
  decode_le, ok, arith,
}
use sylica.Ctype.{inherited, Value, num, bytes, object, Data, entry, empty, flag, member, value}
use sylica.Ctype.Unpack.{
  finish, read, read_bytes, unpack_from, unpack, set, safe, to_bigint, test_bit,
}
use sylica.Types.Snp.{guest_policy}

no_ninth_bit : (b : ℕ) → b < 256 → test_bit (b + 256 * 0) 8 ≡ false
unfolding test_bit
no_ninth_bit b h = let none : (b + 256 * 0) / 2 ^ 8 ≡ 0 = omega arith in rw none refl

no_tenth_bit : (b : ℕ) → b < 256 → test_bit (b + 256 * 0) 9 ≡ false
unfolding test_bit
no_tenth_bit b h = let none : (b + 256 * 0) / 2 ^ 9 ≡ 0 = omega arith in rw none refl

-- `unpack` of eight bytes (the first three below 256) returns a policy whose flag `debug` is bit 3
-- of the third byte and whose flags `ciphertext_hiding_dram` and `page_swap_disable` are false,
-- whatever the fourth byte holds.
pub guest_policy_flags :
    (b₀ b₁ b₂ b₃ b₄ b₅ b₆ b₇ : ℕ)
    → b₀ < 256
    → b₁ < 256
    → b₂ < 256
    → (v : Value) × (unpack inherited guest_policy (b₀ ∷ b₁ ∷ b₂ ∷ b₃ ∷ b₄ ∷ b₅ ∷ b₆ ∷ b₇ ∷ [])
        ≡ ok v)
      × (member "debug" v ≡ flag (test_bit b₂ 3))
      × (member "ciphertext_hiding_dram" v ≡ flag false)
      × (member "page_swap_disable" v ≡ flag false)
unfolding unpack set safe to_bigint get_le unpack_from read finish read_bytes decode_le take drop
    member value
guest_policy_flags b₀ b₁ b₂ b₃ b₄ b₅ b₆ b₇ h₀ h₁ h₂ =
    let low : ltb (b₀ + 256 * 0) (2 ^ 8) ≡ true = lt→ltb _ _ (omega arith) in
    let high : ltb (b₁ + 256 * 0) (2 ^ 8) ≡ true = lt→ltb _ _ (omega arith) in
    let same : b₂ + 256 * 0 ≡ b₂ = omega arith in
    let n : ℕ → ℕ = λ b. b + 256 * 0 in
    let f : ℕ → Value = λ i. flag (test_bit (n b₂) i) in
    let d : Data = entry "reserved" (bytes (n b₂ ∷ n b₃ ∷ n b₄ ∷ n b₅ ∷ n b₆ ∷ n b₇ ∷ [])) (
      entry "page_swap_disable" (f 9) (
        entry "ciphertext_hiding_dram" (f 8) (
          entry "rapl_dis" (f 7) (
            entry "mem_aes_256_xts" (f 6) (
              entry "cxl_allow" (f 5) (
                entry "single_socket" (f 4) (
                  entry "debug" (f 3) (
                    entry "migrate_ma" (f 2) (
                      entry "mbo" (f 1) (
                        entry "smt" (f 0) (
                          entry "abi_major" (num (n b₁))
                            (entry "abi_minor" (num (n b₀)) empty)))))))))))) in
    (
      object guest_policy d,
      rw (low, high) refl,
      rw same refl,
      rw (no_ninth_bit b₂ h₂) refl,
      rw (no_tenth_bit b₂ h₂) refl,
    )
