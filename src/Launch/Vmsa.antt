-- ===== src/Launch/Vmsa.antt =====
-- measure.js: `cpu_sig`, `CPU_SIGS` and the class `VMSA`; types.js: the constructor of `VmcbSeg`.
use Prim.Native.Nat.{bit_and, bit_or}
use sylica.Base.{
  ℕ, zero, suc, ◌-◌, ◌*◌, ◌/◌, ◌%◌, ◌^◌, List, [], ◌∷◌, String, Bool, true, false, ◌≡◌, refl, ltb,
  str_eq, if◌then◌else◌, Result, ok, ◌>>=◌,
}
use sylica.Ctype.{Value, num, undefined, object, Data, empty}
use sylica.Ctype.Unpack.{set}
use sylica.Ctype.Pack.{pack}
use sylica.Types.SaveArea.{vmcb_seg, sev_es_save_area}

-- The operands are below 2 ^ 31, so `<<` is multiplication and `>>> 0` changes nothing.
unfoldable pub cpu_sig : ℕ → ℕ → ℕ → ℕ
cpu_sig family model stepping =
    let f_low = if ltb 0xF family then 0xF else family in
    let f_high = if ltb 0xF family then bit_and (family - 0xF) 0xFF else 0 in
    bit_or
      (bit_or
        (bit_or (bit_or (f_high * 2 ^ 20) (bit_and (model / 2 ^ 4) 0xF * 2 ^ 16)) (f_low * 2 ^ 8))
        (bit_and model 0xF * 2 ^ 4))
      (bit_and stepping 0xF)

-- `CPU_SIGS[name]`
unfoldable pub cpu_sigs : String → Value
unfolding cpu_sig
cpu_sigs name =
    if str_eq name "EPYC-v4"
    then num (cpu_sig 23 1 2)
    else (if str_eq name "EPYC-Rome"
        then num (cpu_sig 23 49 0)
        else (if str_eq name "EPYC-Milan"
            then num (cpu_sig 25 1 1)
            else (if str_eq name "EPYC-Genoa"
                then num (cpu_sig 25 17 0)
                else (if str_eq name "EPYC-Turin" then num (cpu_sig 26 0 0) else undefined))))

pub data VmmType : Type 0 where
  qemu ec2 gce : VmmType

abbrev is_qemu : VmmType → Bool
is_qemu qemu = true
is_qemu _ = false

abbrev is_ec2 : VmmType → Bool
is_ec2 ec2 = true
is_ec2 _ = false

abbrev is_gce : VmmType → Bool
is_gce gce = true
is_gce _ = false

-- `new VmcbSeg(selector, limit, attrib, base)`
unfoldable pub new_vmcb_seg : ℕ → ℕ → ℕ → ℕ → Result Value
new_vmcb_seg selector limit attrib base = do
  d₁ ← set vmcb_seg "selector" (num selector) empty
  d₂ ← set vmcb_seg "limit" (num limit) d₁
  d₃ ← set vmcb_seg "attrib" (num attrib) d₂
  d₄ ← set vmcb_seg "base" (num base) d₃
  ok (object vmcb_seg d₄)

-- `area.set(name, new VmcbSeg(…))`
set_segment : String → ℕ → ℕ → ℕ → ℕ → Data → Result Data
unfolding new_vmcb_seg
set_segment name selector limit attrib base d = do
  seg ← new_vmcb_seg selector limit attrib base
  set sev_es_save_area name seg d

-- The segments of `build_save_area`; `eip` is a 32-bit pattern.
set_segments : ℕ → VmmType → Data → Result Data
unfolding set_segment
set_segments eip vmm_type d = do
  d₁ ← set_segment "es" 0 0x93 0xffff 0 d
  d₂ ← set_segment "cs" 0xf000 0x9b 0xffff (eip / 2 ^ 16 * 2 ^ 16) d₁
  d₃ ← set_segment "ss" 0 (if is_ec2 vmm_type then 0x92 else 0x93) 0xffff 0 d₂
  d₄ ← set_segment "ds" 0 0x93 0xffff 0 d₃
  d₅ ← set_segment "fs" 0 0x93 0xffff 0 d₄
  d₆ ← set_segment "gs" 0 0x93 0xffff 0 d₅
  d₇ ← set_segment "gdtr" 0 0 0xffff 0 d₆
  d₈ ← set_segment "idtr" 0 0 0xffff 0 d₇
  d₉ ← set_segment "ldtr" 0 0x82 0xffff 0 d₈
  set_segment "tr" 0 (if is_ec2 vmm_type then 0x83 else 0x8b) 0xffff 0 d₉

-- A sequence of `area.set(name, value)`.
set_members : List (String × Value) → Data → Result Data
set_members [] d = ok d
set_members ((name, v) ∷ rest) d = do d' ← set sev_es_save_area name v d; set_members rest d'

-- The registers of `build_save_area`.
registers : ℕ → Value → Value → VmmType → List (String × Value)
registers eip sev_features vcpu_sig vmm_type =
    ("efer", num 0x1000)
    ∷ ("cr4", num 0x40)
    ∷ ("cr0", num 0x10)
    ∷ ("dr7", num 0x400)
    ∷ ("dr6", num 0xffff0ff0)
    ∷ ("rflags", num 0x2)
    ∷ ("rip", num (eip % 2 ^ 16))
    ∷ ("g_pat", num (if is_gce vmm_type then 0x00070106 else 0x7040600070406))
    ∷ ("rdx", if is_qemu vmm_type then vcpu_sig else num 0x600)
    ∷ ("sev_features", sev_features)
    ∷ ("xcr0", num 0x1)
    ∷ ("mxcsr", num (if is_qemu vmm_type then 0x1f80 else 0))
    ∷ ("x87_fcw", num (if is_qemu vmm_type then 0x37f else 0))
    ∷ []

unfoldable pub build_save_area : ℕ → Value → Value → VmmType → Result (List ℕ)
unfolding set_segments set_members registers
build_save_area eip sev_features vcpu_sig vmm_type = do
  d ← set_segments eip vmm_type empty
  d' ← set_members (registers eip sev_features vcpu_sig vmm_type) d
  pack (object sev_es_save_area d')

pub record Vmsa : Type 0 where
  pub bsp_save_area : List ℕ
  pub ap_save_area : List ℕ

-- `new VMSA(ap_eip, vcpu_sig, guest_features, vmm_type)`
unfoldable pub new_vmsa : ℕ → Value → Value → VmmType → Result Vmsa
unfolding build_save_area
new_vmsa ap_eip vcpu_sig guest_features vmm_type = do
  bsp ← build_save_area 0xfffffff0 guest_features vcpu_sig vmm_type
  ap ← build_save_area ap_eip guest_features vcpu_sig vmm_type
  ok (record { bsp_save_area = bsp; ap_save_area = ap })

-- The loop of `pages` with `left` processors to go, at index `i`.
unfoldable pub pages_from : Vmsa → ℕ → ℕ → List (List ℕ)
pages_from vmsa zero i = []
pages_from vmsa (suc left) i =
    (elim i [ zero ↦ vmsa.bsp_save_area | suc _ ↦ vmsa.ap_save_area ])
    ∷ pages_from vmsa left (suc i)

-- `pages(vcpus)`
unfoldable pub pages : Vmsa → ℕ → List (List ℕ)
unfolding pages_from
pages vmsa vcpus = pages_from vmsa vcpus 0

milan : cpu_sig 25 1 1 ≡ 0xA00F11
unfolding cpu_sig
milan = refl
