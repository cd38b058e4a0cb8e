-- ===== src/Types/SaveArea.antt =====
-- tools/measure-browser/static/types.js: the save area of a virtual CPU.
use sylica.Ctype.{Fields, end, ◌▸◌, no_default_constructor, sized, struct, typed, u16, u32, u64, u8}

-- `VmcbSeg`
abbrev pub vmcb_seg : Fields
vmcb_seg = typed "selector" u16 ▸ typed "limit" u16 ▸ typed "attrib" u32 ▸ typed "base" u64 ▸ end

-- `SevEsSaveArea`
abbrev pub sev_es_save_area : Fields
sev_es_save_area =
    typed "es" (struct no_default_constructor vmcb_seg)
    ▸ typed "cs" (struct no_default_constructor vmcb_seg)
    ▸ typed "ss" (struct no_default_constructor vmcb_seg)
    ▸ typed "ds" (struct no_default_constructor vmcb_seg)
    ▸ typed "fs" (struct no_default_constructor vmcb_seg)
    ▸ typed "gs" (struct no_default_constructor vmcb_seg)
    ▸ typed "gdtr" (struct no_default_constructor vmcb_seg)
    ▸ typed "ldtr" (struct no_default_constructor vmcb_seg)
    ▸ typed "idtr" (struct no_default_constructor vmcb_seg)
    ▸ typed "tr" (struct no_default_constructor vmcb_seg)
    ▸ typed "vmpl0_ssp" u64
    ▸ typed "vmpl1_ssp" u64
    ▸ typed "vmpl2_ssp" u64
    ▸ typed "vmpl3_ssp" u64
    ▸ typed "u_cet" u64
    ▸ sized "reserved_0xc8" 2
    ▸ typed "vmpl" u8
    ▸ typed "cpl" u8
    ▸ sized "reserved_0xcc" 4
    ▸ typed "efer" u64
    ▸ sized "reserved_0xd8" 104
    ▸ typed "xss" u64
    ▸ typed "cr4" u64
    ▸ typed "cr3" u64
    ▸ typed "cr0" u64
    ▸ typed "dr7" u64
    ▸ typed "dr6" u64
    ▸ typed "rflags" u64
    ▸ typed "rip" u64
    ▸ typed "dr0" u64
    ▸ typed "dr1" u64
    ▸ typed "dr2" u64
    ▸ typed "dr3" u64
    ▸ typed "dr0_addr_mask" u64
    ▸ typed "dr1_addr_mask" u64
    ▸ typed "dr2_addr_mask" u64
    ▸ typed "dr3_addr_mask" u64
    ▸ sized "reserved_0x1c0" 24
    ▸ typed "rsp" u64
    ▸ typed "s_cet" u64
    ▸ typed "ssp" u64
    ▸ typed "isst_addr" u64
    ▸ typed "rax" u64
    ▸ typed "star" u64
    ▸ typed "lstar" u64
    ▸ typed "cstar" u64
    ▸ typed "sfmask" u64
    ▸ typed "kernel_gs_base" u64
    ▸ typed "sysenter_cs" u64
    ▸ typed "sysenter_esp" u64
    ▸ typed "sysenter_eip" u64
    ▸ typed "cr2" u64
    ▸ sized "reserved_0x248" 32
    ▸ typed "g_pat" u64
    ▸ typed "dbgctrl" u64
    ▸ typed "br_from" u64
    ▸ typed "br_to" u64
    ▸ typed "last_excp_from" u64
    ▸ typed "last_excp_to" u64
    ▸ sized "reserved_0x298" 80
    ▸ typed "pkru" u32
    ▸ typed "tsc_aux" u32
    ▸ sized "reserved_0x2f0" 24
    ▸ typed "rcx" u64
    ▸ typed "rdx" u64
    ▸ typed "rbx" u64
    ▸ typed "reserved_0x320" u64
    ▸ typed "rbp" u64
    ▸ typed "rsi" u64
    ▸ typed "rdi" u64
    ▸ typed "r8" u64
    ▸ typed "r9" u64
    ▸ typed "r10" u64
    ▸ typed "r11" u64
    ▸ typed "r12" u64
    ▸ typed "r13" u64
    ▸ typed "r14" u64
    ▸ typed "r15" u64
    ▸ sized "reserved_0x380" 16
    ▸ typed "guest_exit_info_1" u64
    ▸ typed "guest_exit_info_2" u64
    ▸ typed "guest_exit_int_info" u64
    ▸ typed "guest_nrip" u64
    ▸ typed "sev_features" u64
    ▸ typed "vintr_ctrl" u64
    ▸ typed "guest_exit_code" u64
    ▸ typed "virtual_tom" u64
    ▸ typed "tlb_id" u64
    ▸ typed "pcpu_id" u64
    ▸ typed "event_inj" u64
    ▸ typed "xcr0" u64
    ▸ sized "reserved_0x3f0" 16
    ▸ typed "x87_dp" u64
    ▸ typed "mxcsr" u32
    ▸ typed "x87_ftw" u16
    ▸ typed "x87_fsw" u16
    ▸ typed "x87_fcw" u16
    ▸ typed "x87_fop" u16
    ▸ typed "x87_ds" u16
    ▸ typed "x87_cs" u16
    ▸ typed "x87_rip" u64
    ▸ sized "fpreg_x87" 80
    ▸ sized "fpreg_xmm" 256
    ▸ sized "fpreg_ymm" 256
    ▸ sized "manual_padding" 2448
    ▸ end
