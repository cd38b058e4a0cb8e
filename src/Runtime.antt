-- ===== src/Runtime.antt =====
-- tools/measure-browser/static/measure.js, `measureVariables` and the second half of `tdx_measure`:
-- the runtime measurement registers (RTMR) that a TDX guest must show; index.js, `dump`: the
-- registers that an event log leads to.
-- SHA-384 and the text encoder are the browser's, parameters here. A kernel command line is the list
-- of its UTF-16 code units.
pub mod Replay
pub mod Predicted
use sylica.Base.{
  ℕ, zero, suc, ◌+◌, String, Option, none, some, List, [], ◌∷◌, ◌++◌, ◌==◌, if◌then◌else◌, str_eq,
  slice, replicate, get_le, Result, ok, err, ◌>>=◌, ◌>>◌, type_error, missing_cfv_section,
}
use sylica.Launch.Hashes.{GuidText, guid_bytes}
use sylica.Variables.{encode_utf16_le, efi_variable}
use sylica.Memory.{TdvfSection, build_hob}
use sylica.Firmware.Tdvf.{TdxConfig}
use sylica.Ccel.{Digest, Event, CcelEventLog, check_log}

abbrev efi_global_variable : GuidText
efi_global_variable = record {
  g₀ = 0x8b ∷ 0xe4 ∷ 0xdf ∷ 0x61 ∷ [];
  g₁ = 0x93 ∷ 0xca ∷ [];
  g₂ = 0x11 ∷ 0xd2 ∷ [];
  g₃ = 0xaa ∷ 0x0d ∷ [];
  g₄ = 0x00 ∷ 0xe0 ∷ 0x98 ∷ 0x03 ∷ 0x2b ∷ 0x8c ∷ [];
}

abbrev efi_image_security : GuidText
efi_image_security = record {
  g₀ = 0xd7 ∷ 0x19 ∷ 0xb2 ∷ 0xcb ∷ [];
  g₁ = 0x3d ∷ 0x3a ∷ [];
  g₂ = 0x45 ∷ 0x96 ∷ [];
  g₃ = 0xa3 ∷ 0xbc ∷ [];
  g₄ = 0xda ∷ 0xd0 ∷ 0x0e ∷ 0x67 ∷ 0x65 ∷ 0x6f ∷ [];
}

pub record MeasuredVariables : Type 0 where
  pub secure_boot : List ℕ
  pub pk : List ℕ
  pub kek : List ℕ
  pub db : List ℕ
  pub dbx : List ℕ

-- `measureVariables()`, with the names' code units in ASCII.
unfoldable pub measure_variables : Result MeasuredVariables
measure_variables = do
  secure_boot ←
      efi_variable (guid_bytes efi_global_variable)
        (b'S' ∷ b'e' ∷ b'c' ∷ b'u' ∷ b'r' ∷ b'e' ∷ b'B' ∷ b'o' ∷ b'o' ∷ b't' ∷ []) (0 ∷ [])
  pk ← efi_variable (guid_bytes efi_global_variable) (b'P' ∷ b'K' ∷ []) []
  kek ← efi_variable (guid_bytes efi_global_variable) (b'K' ∷ b'E' ∷ b'K' ∷ []) []
  db ← efi_variable (guid_bytes efi_image_security) (b'd' ∷ b'b' ∷ []) []
  dbx ← efi_variable (guid_bytes efi_image_security) (b'd' ∷ b'b' ∷ b'x' ∷ []) []
  ok (record { secure_boot = secure_boot; pk = pk; kek = kek; db = db; dbx = dbx })

-- The form's values: `memory` as `parseMemorySize` returns it, the hashes as bytes.
pub record Form : Type 0 where
  pub memory : ℕ
  pub append : List ℕ
  pub kernel_tdx : List ℕ
  pub initrd_tdx : List ℕ

pub record Measurement : Type 0 where
  pub rtmr0 : List ℕ
  pub rtmr1 : List ℕ
  pub rtmr2 : List ℕ
  pub hob : List ℕ
  pub cfv : List ℕ
  pub sep : List ℕ
  pub cmd : List ℕ
  pub kernel : List ℕ
  pub initrd : List ℕ

-- `config.sections.find(s => s.secType === 1)`
unfoldable pub find_cfv : List TdvfSection → Option TdvfSection
find_cfv [] = none
find_cfv (s ∷ rest) = if s.sec_type == 1 then some s else find_cfv rest

-- `state` of `dump`.
pub record Registers : Type 0 where
  pub rtmr0 : List ℕ
  pub rtmr1 : List ℕ
  pub rtmr2 : List ℕ
  pub rtmr3 : List ℕ

abbrev pub zero_register : List ℕ
zero_register = replicate 48 0

abbrev pub start_registers : Registers
start_registers = record {
  rtmr0 = zero_register;
  rtmr1 = zero_register;
  rtmr2 = zero_register;
  rtmr3 = zero_register;
}

-- `event.digests.find(x => x.algorithm_id === 12).digest`
unfoldable pub find_digest : List Digest → Result (List ℕ)
find_digest [] = err type_error
find_digest (d ∷ rest) = if d.algorithm_id == 12 then ok d.digest else find_digest rest

-- `efiVariableName(data)`, before the bytes are decoded.
unfoldable pub efi_variable_name : List ℕ → Result (List ℕ)
efi_variable_name data_bytes = do
  char_count ← get_le 8 data_bytes 16
  ok (slice data_bytes 32 (32 + (char_count + char_count)))

-- The switch on the event's type may throw where it reads the name of a variable; for the rest it
-- only chooses how the event is shown.
unfoldable pub show_event : Event → Result (Unit {0})
show_event event =
    if str_eq event.event_name "EV_EFI_VARIABLE_DRIVER_CONFIG"
    then (do name ← efi_variable_name event.event_data; ok tt)
    else ok tt

module _ (sha384 : List ℕ → List ℕ) where
  -- `extend(pcr, val)`: the two arrays are copied one behind the other.
  unfoldable pub extend : List ℕ → List ℕ → List ℕ
  extend pcr val = sha384 (pcr ++ val)

  -- The function of the same name in `dump`.
  unfoldable pub extend_state : List ℕ → List ℕ → List ℕ
  extend_state pcr val = sha384 (pcr ++ val)

  -- `state["rtmr" + rtmr] = await extend(state["rtmr" + rtmr], digest)`: of a register that is not
  -- there, the access to `length` throws.
  unfoldable pub extend_register : Registers → Option ℕ → List ℕ → Result Registers
  extend_register state none digest = err type_error
  extend_register state (some zero) digest =
      ok (record state { rtmr0 = extend_state state.rtmr0 digest })
  extend_register state (some (suc zero)) digest =
      ok (record state { rtmr1 = extend_state state.rtmr1 digest })
  extend_register state (some (suc (suc zero))) digest =
      ok (record state { rtmr2 = extend_state state.rtmr2 digest })
  extend_register state (some (suc (suc (suc zero)))) digest =
      ok (record state { rtmr3 = extend_state state.rtmr3 digest })
  extend_register state (some (suc (suc (suc (suc n))))) digest = err type_error

  -- One turn of the loop over the events.
  unfoldable pub replay_event : Registers → Event → Result Registers
  unfolding extend_register
  replay_event state event = do
    digest ← find_digest event.digests
    state' ← extend_register state event.rtmr digest
    show_event event
    ok state'

  unfoldable pub replay : List Event → Registers → Result Registers
  replay [] state = ok state
  replay (event ∷ rest) state = do state' ← replay_event state event; replay rest state'

  -- `dump(data)` in TDX mode: the registers that it prints at its end.
  unfoldable pub dump : List ℕ → Result Registers
  unfolding replay
  dump data_bytes = do
    log ← check_log data_bytes
    variables ← measure_variables
    replay log.events start_registers

  module _ (encode_text : String → List ℕ) where
    -- `tdx_measure(data, config)`
    unfoldable pub tdx_measure : Form → TdxConfig → Result Measurement
    tdx_measure form config = do
      blocks ← build_hob form.memory config.sections
      cfv ← (elim (find_cfv config.sections) [ none ↦ err missing_cfv_section | some s ↦ ok s ])
      let hob_hash = sha384 blocks
      let cfv_hash =
          sha384 (slice config.image cfv.data_offset (cfv.data_offset + cfv.raw_data_size))
      let sep_hash = sha384 (replicate 4 0)
      let cmd_hash = sha384 (encode_utf16_le (form.append ++ (0 ∷ [])))
      variables ← measure_variables
      let rtmr0₁ = extend zero_register hob_hash
      let rtmr0₂ = extend rtmr0₁ cfv_hash
      let rtmr0₃ = extend rtmr0₂ (sha384 (encode_text "QEMU"))
      let rtmr0₄ = extend rtmr0₃ (sha384 (3 ∷ 0 ∷ 0 ∷ 0 ∷ []))
      let rtmr0₅ = extend rtmr0₄ (sha384 variables.secure_boot)
      let rtmr0₆ = extend rtmr0₅ (sha384 variables.pk)
      let rtmr0₇ = extend rtmr0₆ (sha384 variables.kek)
      let rtmr0₈ = extend rtmr0₇ (sha384 variables.db)
      let rtmr0₉ = extend rtmr0₈ (sha384 variables.dbx)
      let rtmr0 = extend rtmr0₉ sep_hash
      let rtmr1₁ = extend zero_register form.kernel_tdx
      let rtmr1₂ = extend rtmr1₁ (sha384 (encode_text "Calling EFI Application from Boot Option"))
      let rtmr1₃ = extend rtmr1₂ sep_hash
      let rtmr1₄ = extend rtmr1₃ (sha384 (encode_text "Exit Boot Services Invocation"))
      let rtmr1 = extend rtmr1₄ (sha384 (encode_text "Exit Boot Services Returned with Success"))
      let rtmr2₁ = extend zero_register cmd_hash
      let rtmr2 = extend rtmr2₁ form.initrd_tdx
      ok (record {
        rtmr0 = rtmr0;
        rtmr1 = rtmr1;
        rtmr2 = rtmr2;
        hob = hob_hash;
        cfv = cfv_hash;
        sep = sep_hash;
        cmd = cmd_hash;
        kernel = form.kernel_tdx;
        initrd = form.initrd_tdx;
      })
