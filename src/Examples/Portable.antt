-- ===== src/Examples/Portable.antt =====
-- A PE image with one section of four bytes, a checksum and a table of certificates.
use sylica.Base.{ℕ, ◌≡◌, refl, List, [], ◌∷◌, ◌++◌, replicate, encode_le, length}
use sylica.Authenticode.{PeHeader}

-- The headers end at byte 264, the section at 268; five bytes of certificates follow.
abbrev image : List ℕ
image =
    (0x4D ∷ 0x5A ∷ [])
    ++ (replicate 58 0
        ++ (encode_le 4 64
            ++ ((0x50 ∷ 0x45 ∷ 0 ∷ 0 ∷ 0x64 ∷ 0x86 ∷ 1 ∷ 0 ∷ [])
                ++ (replicate 12 0
                    ++ (encode_le 2 136
                        ++ ((0 ∷ 0 ∷ 0x0B ∷ 0x01 ∷ [])
                            ++ (replicate 58 0
                                ++ (encode_le 4 264
                                    ++ (encode_le 4 0xABCD
                                        ++ (replicate 60 0
                                            ++ (encode_le 4 268
                                                ++ (encode_le 4 5
                                                    ++ (replicate 16 0
                                                        ++ (encode_le 4 4
                                                            ++ (encode_le 4 264
                                                            ++ (replicate 16 0
                                                            ++ ((1 ∷ 2 ∷ 3 ∷ 4 ∷ 9 ∷ 9 ∷ 9 ∷ 9 ∷ 9
                                                            ∷ []))))))))))))))))))

abbrev header : PeHeader
header = record {
  size_of_headers = 264;
  checksum_offset = 152;
  security_dir_offset = 216;
  cert_address = 268;
  sections = record { pointer = 264; size = 4 } ∷ [];
}

image_size : length image ≡ 273
unfolding replicate encode_le
image_size = refl
