-- ===== src/Examples/Metadata.antt =====
-- Firmware images with metadata.
use sylica.Base.{
  ℕ, ◌-◌, ◌*◌, ◌≡◌, refl, List, [], ◌∷◌, ◌++◌, some, length, replicate, length-append,
  length-replicate, same_bytes, ok, ◌>>=◌, arith, encode_le,
}
use sylica.Examples.Digests.{toy_hash, toy_hash_length, form, three_hashes-HasHashes, milan_known}
use sylica.Memory.{TdvfSection}
use sylica.Ctype.{num}
use sylica.Launch.{zeros}
use sylica.Launch.Vmsa.{Vmsa, qemu, new_vmsa, pages}
use sylica.Launch.Digest.{SectionPages, next, done, vmsa_page_list}
use sylica.Firmware.Guest.{IsSevImage, snp_measure-ovmf_measure_snp}
use sylica.Launch.Pages.{page, extend_all, normal_page_list}
use sylica.Launch.Snp.{Section, snp_measure}
use sylica.Firmware.{Table}
use sylica.Firmware.Sev.{
  sev_hashes_guid, reset_eip_guid, sev_metadata_guid, same_guid, lookup, ovmf_measure_snp,
}
use sylica.Firmware.SevMetadata.{
  FitsSev, items_bytes, sev_bytes, number_entry, ovmf_measure_snp-sev_bytes,
}
use sylica.Firmware.Tdvf.{
  double_of, round_double, nearest_multiple, tdx_metadata_guid, ovmf_measure_tdx,
}
use sylica.Firmware.Stream.{stream, build_operations}
use sylica.Firmware.TdvfMetadata.{
  FitsTdvf, sections_bytes, tdvf_bytes, tdvf_entry, ovmf_measure_tdx-tdvf_bytes,
}
use sylica.Ctype.Layout.{type_width}

-- A page that is added and measured.
abbrev boot_block : TdvfSection
boot_block = record {
  data_offset = 0;
  raw_data_size = 4096;
  memory_address = 0xfffff000;
  memory_data_size = 4096;
  sec_type = 0;
  attributes = 1;
}

boot_block-FitsTdvf : FitsTdvf boot_block
boot_block-FitsTdvf = record {
  data_offset_fits = omega arith;
  raw_data_size_fits = omega arith;
  memory_is_exact = omega arith;
  sec_type_fits = omega arith;
  attributes_fits = omega arith;
}

abbrev tdvf : List ℕ
tdvf = tdvf_bytes 48 (boot_block ∷ []) (9 ∷ [])

tdvf_short : length tdvf ≡ 49
unfolding tdvf_bytes sections_bytes encode_le
tdvf_short = refl

abbrev tdx_table : Table
tdx_table = (tdx_metadata_guid, tdvf_entry [] (length tdvf)) ∷ []

tdx_entry : lookup tdx_metadata_guid tdx_table ≡ some (tdvf_entry [] (length tdvf))
unfolding lookup same_guid same_bytes
tdx_entry = refl

ovmf_measure_tdx-tdvf_bytes_example :
    ovmf_measure_tdx toy_hash tdx_table (replicate 300 1 ++ tdvf)
    ≡ ok (record {
      ovmf_hash = toy_hash (stream (build_operations (replicate 300 1 ++ tdvf) (boot_block ∷ [])));
      sections = boot_block ∷ [];
      image = replicate 300 1 ++ tdvf;
    })
ovmf_measure_tdx-tdvf_bytes_example =
    ovmf_measure_tdx-tdvf_bytes toy_hash tdx_table [] (replicate 300 1) 48 (boot_block ∷ [])
      (9 ∷ []) tdx_entry (omega arith) (omega arith) (boot_block-FitsTdvf, tt)
      (omega (arith, tdvf_short))

abbrev secrets : Section
secrets = record { gpa = 0x80000; size = 4096; type = 2 }

secrets-FitsSev : FitsSev secrets
secrets-FitsSev = record {
  gpa_fits = omega arith;
  size_fits = omega arith;
  type_fits = omega arith;
}

abbrev sev : List ℕ
sev = sev_bytes (secrets ∷ []) (9 ∷ [])

sev_short : length sev ≡ 29
unfolding sev_bytes items_bytes encode_le type_width
sev_short = refl

abbrev sev_table : Table
sev_table =
    (sev_hashes_guid, number_entry 0x810c00 (1 ∷ []))
    ∷ ((reset_eip_guid, number_entry 0x80b004 [])
        ∷ ((sev_metadata_guid, number_entry (length sev) []) ∷ []))

hashes_entry : lookup sev_hashes_guid sev_table ≡ some (number_entry 0x810c00 (1 ∷ []))
unfolding lookup same_guid same_bytes
hashes_entry = refl

reset_entry : lookup reset_eip_guid sev_table ≡ some (number_entry 0x80b004 [])
unfolding lookup same_guid same_bytes
reset_entry = refl

metadata_entry : lookup sev_metadata_guid sev_table ≡ some (number_entry (length sev) [])
unfolding lookup same_guid same_bytes
metadata_entry = refl

one_page : length (replicate 4067 1 ++ sev) ≡ 1 * 4096
one_page =
    omega (arith, length-append (replicate 4067 1) sev, length-replicate {A = ℕ} 4067 1, sev_short)

ovmf_measure_snp-sev_bytes_example :
    ovmf_measure_snp toy_hash sev_table (replicate 4067 1 ++ sev)
    ≡ ok (record {
      ovmf_hash =
          extend_all toy_hash
            (replicate 48 0)
            (normal_page_list toy_hash 1 0 (0x100000000 - 1 * 4096) (replicate 4067 1 ++ sev));
      sections = secrets ∷ [];
      sev_hashes = 0x810c00;
      reset_eip = 0x80b004;
    })
ovmf_measure_snp-sev_bytes_example =
    ovmf_measure_snp-sev_bytes toy_hash sev_table (replicate 4067 1) (secrets ∷ []) (9 ∷ [])
      (1 ∷ []) [] [] 0x810c00 0x80b004 1 toy_hash_length hashes_entry reset_entry metadata_entry
      (omega arith) (omega arith) (secrets-FitsSev, tt) (omega arith) (omega (arith, sev_short))
      one_page

image-IsSevImage :
    IsSevImage sev_table (replicate 4067 1) (secrets ∷ []) (9 ∷ []) 0x810c00 0x80b004 1
image-IsSevImage = record {
  more₁ = 1 ∷ [];
  more₂ = [];
  more₃ = [];
  hashes_found = hashes_entry;
  eip_found = reset_entry;
  metadata_found = metadata_entry;
  hashes_fit = omega arith;
  eip_fits = omega arith;
  sections_fit = (secrets-FitsSev, tt);
  count_fits = omega arith;
  metadata_fits = omega (arith, sev_short);
  whole = one_page;
}

snp_measure-ovmf_measure_snp_example :
    (vmsa : Vmsa) × (new_vmsa 0x80b004 (num 0xA00F11) (num 1) qemu ≡ ok vmsa)
    × ((ovmf_measure_snp toy_hash sev_table (replicate 4067 1 ++ sev) >>= λ config.
          snp_measure toy_hash form config)
        ≡ ok (
            extend_all toy_hash (replicate 48 0) (
              normal_page_list toy_hash 1 0 (0x100000000 - 1 * 4096) (replicate 4067 1 ++ sev)
              ++ ((page 5 0x80000 zeros ∷ [])
                  ++ vmsa_page_list toy_hash toy_hash_length (pages vmsa form.vcpus)))))
snp_measure-ovmf_measure_snp_example =
    snp_measure-ovmf_measure_snp toy_hash toy_hash_length form sev_table (replicate 4067 1)
      (secrets ∷ []) (9 ∷ []) 0x810c00 0x80b004 1 0xA00F11 (page 5 0x80000 zeros ∷ [])
      image-IsSevImage three_hashes-HasHashes (omega arith) milan_known (omega arith)
      (next (SectionPages.secrets 0x80000 4096) done)

-- Behind 2 ^ 53 a number is rounded, of two neighbours to the even one.
exact_double : double_of 9007199254740991 ≡ 9007199254740991
unfolding double_of
exact_double = refl

rounded_down : double_of 9007199254740993 ≡ 9007199254740992
unfolding double_of round_double nearest_multiple
rounded_down = refl

rounded_up : double_of 18446744073709551615 ≡ 18446744073709551616
unfolding double_of round_double nearest_multiple
rounded_up = refl
