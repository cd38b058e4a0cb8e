-- ===== src/Launch/Areas.antt =====
-- Building the save areas of the virtual processors.
use sylica.Base.{
  ℕ, ◌++◌, refl, ◌*◌, ◌/◌, ◌%◌, ◌^◌, ◌<◌, ◌≡◌, List, true, length, ltb, lt→ltb, ok, ◌>>=◌,
  >>=-eq-ok, encode_le, set_bytes, take, drop, replicate, arith,
}
use sylica.Ctype.{value, num}
use sylica.Ctype.Size.{ctype_size}
use sylica.Ctype.Unpack.{set, safe, to_bigint}
use sylica.Ctype.Pack.{pack, packed, write_fields, write, elements, to_number, to_bigint_or_zero}
use sylica.Launch.Vmsa.{build_save_area, qemu}

save_area_size :
    (eip features sig : ℕ)
    → eip < 2 ^ 32
    → features < 2 ^ 64
    → sig < 2 ^ 64
    → (build_save_area eip (num features) (num sig) qemu >>= λ bs. ok (length bs)) ≡ ok 4096
unfolding build_save_area set safe to_bigint pack packed value ctype_size write_fields write
    elements to_number to_bigint_or_zero encode_le set_bytes take drop replicate
save_area_size eip features sig e f s =
    let low : ltb (eip % 2 ^ 16) (2 ^ 64) ≡ true = lt→ltb _ _ (omega arith) in
    let high : ltb (eip / 2 ^ 16 * 2 ^ 16) (2 ^ 64) ≡ true = lt→ltb _ _ (omega arith) in
    rw (low, high, lt→ltb _ _ f, lt→ltb _ _ s)

-- For QEMU, a 32-bit start address, 64-bit features and a 64-bit signature the save area is built,
-- and it fills a page of 4096 bytes.
pub build_save_area_total :
    (eip features sig : ℕ)
    → eip < 2 ^ 32
    → features < 2 ^ 64
    → sig < 2 ^ 64
    → (bs : List ℕ) × (build_save_area eip (num features) (num sig) qemu ≡ ok bs)
      × (length bs ≡ 4096)
build_save_area_total eip features sig e f s =
    let (bs, b, l) =
      >>=-eq-ok (build_save_area eip (num features) (num sig) qemu) (λ bs. ok (length bs))
        (save_area_size eip features sig e f s) in
    (bs, b, cc)

-- A segment: selector, attributes, limit and base.
abbrev pub segment_bytes : ℕ → ℕ → ℕ → List ℕ
segment_bytes selector attributes base =
    encode_le 2 selector ++ (encode_le 2 attributes ++ (encode_le 4 0xffff ++ encode_le 8 base))

-- EFER, CR4, CR0, DR7, DR6, RFLAGS, RIP, G_PAT, RDX, SEV_FEATURES, XCR0, MXCSR and FCW.
abbrev pub registers_layout : ℕ → ℕ → ℕ → List ℕ
registers_layout eip features sig =
    encode_le 8 0x1000
    ++ (replicate 0x70 0
        ++ (encode_le 8 0x40
            ++ (replicate 8 0
                ++ (encode_le 8 0x10
                    ++ (encode_le 8 0x400
                        ++ (encode_le 8 0xffff0ff0
                            ++ (encode_le 8 0x2
                                ++ (encode_le 8 (eip % 2 ^ 16)
                                    ++ (replicate 0xe8 0
                                        ++ (encode_le 8 0x7040600070406
                                            ++ (replicate 0xa0 0
                                                ++ (encode_le 8 sig
                                                    ++ (replicate 0x98 0
                                                        ++ (encode_le 8 features
                                                            ++ (replicate 0x30 0
                                                            ++ (encode_le 8 0x1
                                                            ++ (replicate 0x18 0
                                                            ++ (encode_le 4 0x1f80
                                                            ++ (replicate 4 0
                                                            ++ (encode_le 2 0x37f
                                                            ++ (replicate 0xbee
                                                            0)))))))))))))))))))))

-- The save area, from byte 0 on; the registers start at the bytes 0xd0, 0x148, 0x158, 0x268, 0x310,
-- 0x3b0, 0x3e8, 0x408 and 0x410.
abbrev pub save_area_layout : ℕ → ℕ → ℕ → List ℕ
save_area_layout eip features sig =
    segment_bytes 0 0x93 0
    ++ (segment_bytes 0xf000 0x9b (eip / 2 ^ 16 * 2 ^ 16)
        ++ (segment_bytes 0 0x93 0
            ++ (segment_bytes 0 0x93 0
                ++ (segment_bytes 0 0x93 0
                    ++ (segment_bytes 0 0x93 0
                        ++ (segment_bytes 0 0 0
                            ++ (segment_bytes 0 0x82 0
                                ++ (segment_bytes 0 0 0
                                    ++ (segment_bytes 0 0x8b 0
                                        ++ (replicate 0x30 0
                                            ++ registers_layout eip features sig))))))))))

-- For QEMU, a 32-bit start address, 64-bit features and a 64-bit signature the save area is built,
-- and its bytes are the segments and the registers of a virtual processor at its reset, each at its
-- place, with the upper half of the start address as the base of CS and its lower half as RIP.
pub build_save_area-layout :
    (eip features sig : ℕ)
    → eip < 2 ^ 32
    → features < 2 ^ 64
    → sig < 2 ^ 64
    → build_save_area eip (num features) (num sig) qemu ≡ ok (save_area_layout eip features sig)
unfolding build_save_area set safe to_bigint pack packed value ctype_size write_fields write
    elements to_number to_bigint_or_zero encode_le set_bytes take drop replicate
build_save_area-layout eip features sig e f s =
    let low : ltb (eip % 2 ^ 16) (2 ^ 64) ≡ true = lt→ltb _ _ (omega arith) in
    let high : ltb (eip / 2 ^ 16 * 2 ^ 16) (2 ^ 64) ≡ true = lt→ltb _ _ (omega arith) in
    rw (low, high, lt→ltb _ _ f, lt→ltb _ _ s) refl
