-- ===== src/Examples/Images.antt =====
-- A small firmware image with two entries in its table.
use sylica.Base.{
  ◌+◌, ◌<◌, ◌≡◌, ◌≢◌, List, [], ◌∷◌, length, replicate, length-replicate, ok, err, out_of_fuel,
  arith, encode_le,
}
use sylica.Firmware.{footer_table}
use sylica.Firmware.Walk.{Entry, entry_bytes, table_bytes, found, image, footer_table-image}
use sylica.Firmware.Fuel.{footer_table_ends}

-- The address of the table of hashes, and the reset address.
abbrev two_entries : List Entry
two_entries =
    record { guid = replicate 16 0x72; content = 0 ∷ 0xc ∷ 0x81 ∷ 0 ∷ [] }
    ∷ record { guid = replicate 16 0xf7; content = 4 ∷ 0xb0 ∷ 0x80 ∷ 0 ∷ [] }
    ∷ []

two_entries_fit : length (table_bytes two_entries) + 18 < 65536
unfolding table_bytes entry_bytes encode_le replicate
two_entries_fit = omega arith

footer_table-image_example :
    footer_table (image (replicate 100 0xff) two_entries (replicate 32 0x90))
    ≡ ok (found two_entries [])
footer_table-image_example =
    footer_table-image (replicate 100 0xff) two_entries (replicate 32 0x90)
      ((length-replicate 16 0x72, omega arith), ((length-replicate 16 0xf7, omega arith), tt))
      two_entries_fit (length-replicate 32 0x90)

footer_table_ends_example : footer_table (replicate 60 0x12) ≢ err out_of_fuel
footer_table_ends_example = footer_table_ends (replicate 60 0x12)
