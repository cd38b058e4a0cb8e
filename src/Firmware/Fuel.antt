-- ===== src/Firmware/Fuel.antt =====
-- The fuel of the walk, on any image.
use sylica.Base.{
  ℕ, zero, suc, ◌+◌, ◌-◌, ◌<◌, ◌≤◌, ◌≡◌, ◌≢◌, refl, Error, List, [], not, true, false, ltb, leb,
  length, take, drop, slice, same_bytes, Bool, Bool-cases, inl, inr, Result, err, ◌>>◌, guard,
  out_of_fuel, invalid_entry_size, invalid_footer_guid, invalid_footer_table_size, arith, get_le,
  >>=-ne-err, length-take, decode_le, leb→le,
}
use sylica.Ctype.{inherited, member, number}
use sylica.Ctype.Size.{ctype_size}
use sylica.Ctype.Unpack.{finish, read, unpack_from, unpack, set, safe, to_bigint}
use sylica.Types.Ovmf.{ovmf_footer_table_entry}
use sylica.Firmware.{
  Table, buffer_bytes, last_bytes, without_last, index_of, walk, footer_table, footer_guid,
}
use sylica.Launch.Hashes.{guid_bytes}

unpack_entry : (bs : List ℕ) → unpack inherited ovmf_footer_table_entry bs ≢ err out_of_fuel
unfolding unpack set safe to_bigint get_le unpack_from read finish
unpack_entry bs = elim (Bool-cases (leb 2 (length bs))) [
  | inl there ↦ elim (Bool-cases (ltb (decode_le (take 2 (drop 0 bs))) 65536)) [
    | inl small ↦ rw (there, small) (λ h. cc)
    | inr large ↦ rw (there, large) (λ h. cc)
  ]
  | inr short ↦ rw short (λ h. cc)
]

not-ltb : (m n : ℕ) → not (ltb m n) ≡ true → n ≤ m
not-ltb m n h = ground arith

length-without_last :
    (n : ℕ) (bs : List ℕ) → 18 ≤ n → 18 ≤ length bs → length (without_last n bs) < length bs
unfolding without_last
length-without_last n bs h k = omega (arith, length-take (length bs - n) bs)

guard_ends :
    (t : Bool) (x : Error) (rest : Result Table)
    → x ≢ out_of_fuel
    → (t ≡ true → rest ≢ err out_of_fuel)
    → (guard t x >> rest) ≢ err out_of_fuel
guard_ends true x rest h k = k refl
guard_ends false x rest h k = λ e. h (cc e)

walk_ends :
    (fuel : ℕ) (bs : List ℕ) (t : Table) → length bs < fuel → walk 18 fuel bs t ≢ err out_of_fuel
unfolding walk
walk_ends zero bs t h = absurd (omega arith)
walk_ends (suc fuel) bs t h = elim (Bool-cases (leb 18 (length bs))) [
  | inl there ↦ rw there (
      >>=-ne-err (unpack inherited ovmf_footer_table_entry (last_bytes 18 bs)) _ out_of_fuel
        (unpack_entry (last_bytes 18 bs))
        (λ v u.
          guard_ends (not (ltb (number (member "size" v)) 18)) invalid_entry_size _ (λ e. cc e)
            (λ large. walk_ends fuel (without_last (number (member "size" v)) bs) _ (
              omega (
                arith,
                length-without_last (number (member "size" v)) bs (not-ltb _ _ large)
                    (leb→le _ _ there),
              )))))
  | inr short ↦ rw short (λ e. cc)
]

walk_whole : (bs : List ℕ) → walk 18 (suc (length bs)) bs [] ≢ err out_of_fuel
walk_whole bs = walk_ends (suc (length bs)) bs [] (omega arith)

-- Whatever the image holds, reading its table ends: the fuel, one more than the bytes of the table,
-- is never used up.
pub footer_table_ends : (data_bytes : List ℕ) → footer_table data_bytes ≢ err out_of_fuel
unfolding footer_table ctype_size
footer_table_ends data_bytes =
    let n : ℕ = length data_bytes in
    let start : ℕ = index_of n n 50 in
    >>=-ne-err (unpack inherited ovmf_footer_table_entry (drop start data_bytes)) _ out_of_fuel
      (unpack_entry (drop start data_bytes))
      (λ footer u.
        let size : ℕ = number (member "size" footer) in
        let bs : List ℕ = slice data_bytes (index_of n n (32 + size)) start in
        let whole : walk 18 (suc (length bs)) bs [] ≢ err out_of_fuel = walk_whole bs in
        guard_ends (same_bytes (buffer_bytes (member "guid" footer)) (guid_bytes footer_guid))
          invalid_footer_guid
          (guard (not (ltb size 18)) invalid_footer_table_size >> walk 18 (suc (length bs)) bs [])
          (λ e. cc e)
          (λ same.
            guard_ends (not (ltb size 18)) invalid_footer_table_size
              (walk 18 (suc (length bs)) bs []) (λ e. cc e) (λ large. whole)))
