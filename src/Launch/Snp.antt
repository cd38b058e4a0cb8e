-- ===== src/Launch/Snp.antt =====
-- measure.js, `snp_measure`: the launch digest that an SEV-SNP guest must show.
use sylica.Base.{
  ℕ, List, [], ◌∷◌, String, ◌==◌, if◌then◌else◌, Result, ok, err, ◌>>=◌, unknown_section,
}
use sylica.Ctype.{num}
use sylica.Launch.{
  update_normal_pages, update_vmsa_page, update_zero_pages, update_secrets_page, update_cpuid_page,
}
use sylica.Launch.SectionType
use sylica.Launch.Hashes.{SevHashes, hashes_page}
use sylica.Launch.Vmsa.{qemu, new_vmsa, pages, cpu_sigs}

-- A section of the firmware's metadata.
pub record Section : Type 0 where
  pub gpa : ℕ
  pub size : ℕ
  pub type : ℕ

-- What `ovmf_measure` returns for SEV-SNP. The digest stands as bytes; `sev_hashes` and `reset_eip`
-- are 32-bit patterns.
pub record Config : Type 0 where
  pub ovmf_hash : List ℕ
  pub sections : List Section
  pub sev_hashes : ℕ
  pub reset_eip : ℕ

-- The form's values.
pub record Form : Type 0 where
  pub vcpus : ℕ
  pub vcpu_sig : String
  pub hashes : SevHashes

module _ (sha384 : List ℕ → List ℕ) where
  -- `SNP_KERNEL_HASHES`
  unfoldable pub measure_hashes : SevHashes → ℕ → List ℕ → ℕ → Result (List ℕ)
  measure_hashes hashes sev_hashes ld gpa = do
    contents ← hashes_page hashes sev_hashes
    update_normal_pages sha384 ld gpa contents

  -- One turn of the loop over the sections.
  unfoldable pub measure_section : SevHashes → ℕ → List ℕ → Section → Result (List ℕ)
  measure_section hashes sev_hashes ld desc =
      if desc.type == SectionType.snp_sec_mem
      then update_zero_pages sha384 ld desc.gpa desc.size
      else (if desc.type == SectionType.snp_secrets
          then update_secrets_page sha384 ld desc.gpa
          else (if desc.type == SectionType.cpuid
              then update_cpuid_page sha384 ld desc.gpa
              else (if desc.type == SectionType.snp_kernel_hashes
                  then measure_hashes hashes sev_hashes ld desc.gpa
                  else (if desc.type == SectionType.svsm_caa
                      then update_zero_pages sha384 ld desc.gpa desc.size
                      else err (unknown_section desc.type)))))

  unfoldable pub measure_sections : SevHashes → ℕ → List Section → List ℕ → Result (List ℕ)
  measure_sections hashes sev_hashes [] ld = ok ld
  measure_sections hashes sev_hashes (desc ∷ rest) ld = do
    ld' ← measure_section hashes sev_hashes ld desc
    measure_sections hashes sev_hashes rest ld'

  unfoldable pub measure_vmsas : List (List ℕ) → List ℕ → Result (List ℕ)
  measure_vmsas [] ld = ok ld
  measure_vmsas (vmsa_page ∷ rest) ld = do
    ld' ← update_vmsa_page sha384 ld vmsa_page
    measure_vmsas rest ld'

  -- `snp_measure(data, config)`
  unfoldable pub snp_measure : Form → Config → Result (List ℕ)
  unfolding measure_sections measure_section measure_hashes measure_vmsas
  snp_measure form config = do
    ld ← measure_sections form.hashes config.sev_hashes config.sections config.ovmf_hash
    vmsa ← new_vmsa config.reset_eip (cpu_sigs form.vcpu_sig) (num 0x1) qemu
    measure_vmsas (pages vmsa form.vcpus) ld
