-- ===== src/Examples/Digests.antt =====
-- A launch with every kind of section, two processors and a hash function that stands in for
-- SHA-384.
use sylica.Base.{
  ℕ, ◌%◌, ◌≡◌, refl, List, [], ◌∷◌, ◌++◌, length, replicate, encode_le, decode_le, length-encode_le,
  length-replicate, arith, ok, err, invalid_table_length,
}
use sylica.Ctype.{num}
use sylica.Launch.{zeros}
use sylica.Launch.Pages.{Page, page, zero_page_list, extend_all}
use sylica.Launch.Hashes.{SevHashes, hashes_page}
use sylica.Launch.Vmsa.{Vmsa, build_save_area, new_vmsa, qemu, cpu_sigs, pages}
use sylica.Launch.Snp.{Config, Form, snp_measure}
use sylica.Launch.Table.{HasHashes, page_layout, hashes_page-layout, hashes_page_too_high}
use sylica.Launch.Areas.{save_area_layout, build_save_area-layout}
use sylica.Launch.Digest.{
  AllPages, memory, secrets, cpuid_page, caa, hashes, next, done, vmsa_page_list,
  snp_measure-extend_all,
}

pub toy_hash : List ℕ → List ℕ
toy_hash xs = encode_le 48 (decode_le xs)

pub toy_hash_length : (xs : List ℕ) → length (toy_hash xs) ≡ 48
unfolding toy_hash
toy_hash_length xs = length-encode_le 48 (decode_le xs)

abbrev pub three_hashes : SevHashes
three_hashes = record { kernel = replicate 32 1; initrd = replicate 32 2; cmdline = replicate 32 3 }

pub three_hashes-HasHashes : HasHashes three_hashes
three_hashes-HasHashes = record {
  kernel_size = length-replicate 32 1;
  initrd_size = length-replicate 32 2;
  cmdline_size = length-replicate 32 3;
}

abbrev config : Config
config = record {
  ovmf_hash = replicate 48 5;
  sections =
      record { gpa = 0x800000; size = 0x2000; type = 1 }
      ∷ record { gpa = 0x80d000; size = 0x1000; type = 2 }
      ∷ record { gpa = 0x80e000; size = 0x1000; type = 3 }
      ∷ record { gpa = 0x80f000; size = 0x1000; type = 4 }
      ∷ record { gpa = 0x810000; size = 0x1000; type = 0x10 }
      ∷ [];
  sev_hashes = 0x810c00;
  reset_eip = 0x80b004;
}

abbrev pub form : Form
form = record { vcpus = 2; vcpu_sig = "EPYC-Milan"; hashes = three_hashes }

pub milan_known : cpu_sigs "EPYC-Milan" ≡ num 0xA00F11
unfolding cpu_sigs
milan_known = refl

abbrev config_pages : List Page
config_pages =
    zero_page_list 2 0 0x800000
    ++ ((page 5 0x80d000 zeros ∷ [])
        ++ ((page 6 0x80e000 zeros ∷ [])
            ++ (zero_page_list 1 0 0x80f000
                ++ ((page 1 0x810000 (toy_hash (page_layout three_hashes (0x810c00 % 4096))) ∷ [])
                    ++ []))))

config_pages-AllPages :
    AllPages toy_hash (page_layout three_hashes (0x810c00 % 4096)) config.sections config_pages
config_pages-AllPages = next (memory 0x800000 2) (
    next (secrets 0x80d000 0x1000) (
      next (cpuid_page 0x80e000 0x1000)
        (next (caa 0x80f000 1) (next (hashes 0x810000 0x1000) done))))

snp_measure-extend_all_example :
    (vmsa : Vmsa) × (new_vmsa 0x80b004 (num 0xA00F11) (num 1) qemu ≡ ok vmsa)
    × (snp_measure toy_hash form config
        ≡ ok (
            extend_all toy_hash config.ovmf_hash
              (config_pages ++ vmsa_page_list toy_hash toy_hash_length (pages vmsa 2))))
snp_measure-extend_all_example =
    snp_measure-extend_all toy_hash toy_hash_length form config 0xA00F11 config_pages
      (length-replicate 48 5) three_hashes-HasHashes (omega arith) milan_known (omega arith)
      (omega arith) config_pages-AllPages

hashes_page-layout_example : hashes_page three_hashes 0x810c00 ≡ ok (page_layout three_hashes 0xc00)
hashes_page-layout_example =
    hashes_page-layout three_hashes 0x810c00 three_hashes-HasHashes (omega arith)

hashes_page_too_high_example : hashes_page three_hashes 0x810f80 ≡ err invalid_table_length
hashes_page_too_high_example =
    hashes_page_too_high three_hashes 0x810f80 three_hashes-HasHashes (omega arith)

build_save_area-layout_example :
    build_save_area 0x80b004 (num 1) (num 0xA00F11) qemu ≡ ok (save_area_layout 0x80b004 1 0xA00F11)
build_save_area-layout_example =
    build_save_area-layout 0x80b004 1 0xA00F11 (omega arith) (omega arith) (omega arith)
