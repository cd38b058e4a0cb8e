-- ===== src/Firmware/Guest.antt =====
-- From a firmware image to the launch digest of a guest: `ovmf_measure_snp`, then `snp_measure`.
use sylica.Base.{
  ℕ, ◌+◌, ◌-◌, ◌*◌, ◌%◌, ◌^◌, ◌<◌, ◌≤◌, ◌≡◌, sym, ap, ◌∙◌, List, ◌++◌, some, length, replicate,
  length-replicate, All, ok, ◌>>=◌,
}
use sylica.Ctype.{num}
use sylica.Launch.Pages.{Page, extend_all, extend_all-append, length-extend_all, normal_page_list}
use sylica.Launch.Snp.{Section, Config, Form, snp_measure}
use sylica.Launch.Table.{HasHashes, page_layout}
use sylica.Launch.Vmsa.{Vmsa, qemu, new_vmsa, pages, cpu_sigs}
use sylica.Launch.Digest.{AllPages, vmsa_page_list, snp_measure-extend_all}
use sylica.Firmware.{Table}
use sylica.Firmware.Sev.{
  sev_hashes_guid, reset_eip_guid, sev_metadata_guid, lookup, ovmf_measure_snp,
}
use sylica.Firmware.SevMetadata.{FitsSev, sev_bytes, number_entry, ovmf_measure_snp-sev_bytes}

-- An image of `n` pages with SEV metadata and a table that names it.
pub record IsSevImage (table : Table) (front : List ℕ) (ss : List Section) (back : List ℕ)
    (hashes eip n : ℕ) : Type 0 where
  pub more₁ : List ℕ
  pub more₂ : List ℕ
  pub more₃ : List ℕ
  pub hashes_found : lookup sev_hashes_guid table ≡ some (number_entry hashes more₁)
  pub eip_found : lookup reset_eip_guid table ≡ some (number_entry eip more₂)
  pub metadata_found :
      lookup sev_metadata_guid table ≡ some (number_entry (length (sev_bytes ss back)) more₃)
  pub hashes_fit : hashes < 256 ^ 4
  pub eip_fits : eip < 256 ^ 4
  pub sections_fit : All FitsSev ss
  pub count_fits : length ss < 256 ^ 4
  pub metadata_fits : length (sev_bytes ss back) < 2 ^ 31
  pub whole : length (front ++ sev_bytes ss back) ≡ n * 4096

module _ (sha384 : List ℕ → List ℕ) (hash_length : (xs : List ℕ) → length (sha384 xs) ≡ 48) where
  -- For an image of `n` pages with SEV metadata whose sections stand for the pages `ps`, a known
  -- processor and three hashes that fit their page: the two functions, one behind the other, return,
  -- and the launch digest is 48 zero bytes extended in turn by the pages of the image, by `ps` and by
  -- the save area of each processor.
  pub snp_measure-ovmf_measure_snp :
      (form : Form) (table : Table) (front : List ℕ) (ss : List Section) (back : List ℕ)
      (hashes eip n sig : ℕ) (ps : List Page)
      → IsSevImage table front ss back hashes eip n
      → HasHashes form.hashes
      → hashes % 4096 + 176 ≤ 4096
      → cpu_sigs form.vcpu_sig ≡ num sig
      → sig < 2 ^ 64
      → AllPages sha384 (page_layout form.hashes (hashes % 4096)) ss ps
      → (vmsa : Vmsa) × (new_vmsa eip (num sig) (num 1) qemu ≡ ok vmsa)
        × ((ovmf_measure_snp sha384 table (front ++ sev_bytes ss back) >>= λ config.
              snp_measure sha384 form config)
            ≡ ok (
                extend_all sha384 (replicate 48 0) (
                  normal_page_list sha384 n 0 (0x100000000 - n * 4096) (front ++ sev_bytes ss back)
                  ++ (ps ++ vmsa_page_list sha384 hash_length (pages vmsa form.vcpus)))))
  snp_measure-ovmf_measure_snp form table front ss back hashes eip n sig ps i w room known s all =
      let image : List ℕ = front ++ sev_bytes ss back in
      let qs : List Page = normal_page_list sha384 n 0 (0x100000000 - n * 4096) image in
      let config : Config = record {
        ovmf_hash = extend_all sha384 (replicate 48 0) qs;
        sections = ss;
        sev_hashes = hashes;
        reset_eip = eip;
      } in
      let size : length (extend_all sha384 (replicate 48 0) qs) ≡ 48 =
        length-extend_all sha384 hash_length qs (replicate 48 0) (length-replicate 48 0) in
      let (vmsa, v, e) =
        snp_measure-extend_all sha384 hash_length form config sig ps size w room known s i.eip_fits
          all in
      (
        vmsa,
        v,
        rw
            (ovmf_measure_snp-sev_bytes sha384 table front ss back i.more₁ i.more₂ i.more₃ hashes
              eip n hash_length i.hashes_found i.eip_found i.metadata_found i.hashes_fit i.eip_fits
              i.sections_fit i.count_fits i.metadata_fits i.whole)
            (e
              ∙ ap ok (
                  sym (
                    extend_all-append sha384 (replicate 48 0) qs
                      (ps ++ vmsa_page_list sha384 hash_length (pages vmsa form.vcpus))))),
      )
