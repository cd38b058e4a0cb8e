-- ===== src/Types/Snp.antt =====
-- tools/measure-browser/static/types.js: the SEV-SNP attestation report.
use sylica.Ctype.{
  Fields, end, ◌▸◌, bit, custom_sized, inherited, overridden, sized, struct, typed, u32, u64, u8,
}
use sylica.Base.{◌-◌}

-- `TcbVersion`
abbrev pub tcb_version : Fields
tcb_version =
    typed "bootloader" u8
    ▸ typed "tee" u8
    ▸ sized "reserved" 4
    ▸ typed "snp" u8
    ▸ typed "microcode" u8
    ▸ end

-- `FwVersion`
abbrev pub fw_version : Fields
fw_version = typed "build" u8 ▸ typed "minor" u8 ▸ typed "major" u8 ▸ typed "reserved" u8 ▸ end

-- `Signature`
abbrev pub signature : Fields
signature = sized "r" 72 ▸ sized "s" 72 ▸ sized "reserved" (512 - 144) ▸ end

-- `CpuId`
abbrev pub cpu_id : Fields
cpu_id = typed "family" u8 ▸ typed "model" u8 ▸ typed "stepping" u8 ▸ end

-- `GuestPolicy`
abbrev pub guest_policy : Fields
guest_policy =
    typed "abi_minor" u8
    ▸ typed "abi_major" u8
    ▸ bit "smt" 0
    ▸ bit "mbo" 1
    ▸ bit "migrate_ma" 2
    ▸ bit "debug" 3
    ▸ bit "single_socket" 4
    ▸ bit "cxl_allow" 5
    ▸ bit "mem_aes_256_xts" 6
    ▸ bit "rapl_dis" 7
    ▸ bit "ciphertext_hiding_dram" 8
    ▸ bit "page_swap_disable" 9
    ▸ sized "reserved" 6
    ▸ end

-- `PlatformInfo`
abbrev pub platform_info : Fields
platform_info =
    bit "smt_en" 0
    ▸ bit "tsme_en" 1
    ▸ bit "ecc_en" 2
    ▸ bit "rapl_dis" 3
    ▸ bit "ciphertext_hiding_dram_en" 4
    ▸ bit "alias_check_complete" 5
    ▸ bit "unknown" 6
    ▸ bit "tio_en" 7
    ▸ sized "reserved" 8
    ▸ end

-- `ReportFlags`
abbrev pub report_flags : Fields
report_flags =
    bit "author_key_en" 0
    ▸ bit "mask_chip_key" 1
    ▸ custom_sized "signing_key" 0
    ▸ sized "reserved" 4
    ▸ end

-- `SnpAttestation`
abbrev pub snp_attestation : Fields
snp_attestation =
    typed "version" u32
    ▸ typed "guest_svn" u32
    ▸ typed "policy" (struct inherited guest_policy)
    ▸ sized "family_id" 16
    ▸ sized "image_id" 16
    ▸ typed "vmpl" u32
    ▸ typed "signature_algorithm" u32
    ▸ typed "current_tcb" (struct inherited tcb_version)
    ▸ typed "platform_info" (struct inherited platform_info)
    ▸ typed "flags" (struct overridden report_flags)
    ▸ typed "reserved_zero" u32
    ▸ sized "report_data" 64
    ▸ sized "measurement" 48
    ▸ sized "host_data" 32
    ▸ sized "id_key_digest" 48
    ▸ sized "author_key_digest" 48
    ▸ sized "report_id" 32
    ▸ sized "report_id_ma" 32
    ▸ typed "reported_tcb" (struct inherited tcb_version)
    ▸ typed "cpuid" (struct inherited cpu_id)
    ▸ sized "reserved_one" 21
    ▸ sized "chip_id" 64
    ▸ typed "committed_tcb" (struct inherited tcb_version)
    ▸ typed "current_fw" (struct inherited fw_version)
    ▸ typed "comitted_fw" (struct inherited fw_version)
    ▸ typed "launch_tcb" (struct inherited tcb_version)
    ▸ typed "launch_mit" u64
    ▸ typed "current_mit" u64
    ▸ sized "reserved_two" 152
    ▸ typed "signature" (struct inherited signature)
    ▸ end
