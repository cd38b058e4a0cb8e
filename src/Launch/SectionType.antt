-- ===== src/Launch/SectionType.antt =====
-- types.js: the class `SectionType`.
use sylica.Base.{ℕ}

abbrev pub snp_sec_mem : ℕ
snp_sec_mem = 1

abbrev pub snp_secrets : ℕ
snp_secrets = 2

abbrev pub cpuid : ℕ
cpuid = 3

abbrev pub svsm_caa : ℕ
svsm_caa = 4

abbrev pub snp_kernel_hashes : ℕ
snp_kernel_hashes = 0x10
