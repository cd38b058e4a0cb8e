-- ===== src/Runtime/Predicted.antt =====
-- measure.js, `tdx_measure`, against the event log of a boot: the digests that a TDX guest is
-- expected to measure, register by register.
use sylica.Base.{
  ℕ, ◌+◌, ◌≡◌, refl, ◌∙◌, List, [], ◌∷◌, ◌++◌, length, slice, replicate, encode_le, none, some,
  String, ok, err, All, missing_cfv_section,
}
use sylica.Launch.Hashes.{GuidText, guid_bytes}
use sylica.Variables.{encode_utf16_le, efi_variable_layout}
use sylica.Memory.{TdvfSection, build_hob}
use sylica.Memory.Blocks.{build_hob_total}
use sylica.Firmware.Tdvf.{TdxConfig}
use sylica.Ccel.{Event}
use sylica.Ccel.Format.{IsSpec, IsEvent, SpecContent, Ending, log_bytes, sizes_of}
use sylica.Ccel.Writing.{check_log_ok}
use sylica.Runtime.{
  Form, Measurement, MeasuredVariables, Registers, efi_global_variable, efi_image_security,
  measure_variables, find_cfv, zero_register, start_registers, replay, dump, tdx_measure,
}
use sylica.Runtime.Replay.{IsReplayable, register, digests_for, extend_all, replay_registers}

-- The record of a variable, as `efi_variable_layout` gives it.
abbrev pub variable_record : GuidText → List ℕ → List ℕ → List ℕ
variable_record guid name value =
    guid_bytes guid
    ++ (encode_le 8 (length name)
        ++ (encode_le 8 (length value) ++ (encode_utf16_le name ++ value)))

abbrev pub variable_records : MeasuredVariables
variable_records = record {
  secure_boot =
      variable_record efi_global_variable
        (b'S' ∷ b'e' ∷ b'c' ∷ b'u' ∷ b'r' ∷ b'e' ∷ b'B' ∷ b'o' ∷ b'o' ∷ b't' ∷ []) (0 ∷ []);
  pk = variable_record efi_global_variable (b'P' ∷ b'K' ∷ []) [];
  kek = variable_record efi_global_variable (b'K' ∷ b'E' ∷ b'K' ∷ []) [];
  db = variable_record efi_image_security (b'd' ∷ b'b' ∷ []) [];
  dbx = variable_record efi_image_security (b'd' ∷ b'b' ∷ b'x' ∷ []) [];
}

measure_variables_ok : measure_variables ≡ ok variable_records
unfolding measure_variables guid_bytes
measure_variables_ok =
    rw
      (
        efi_variable_layout (guid_bytes efi_global_variable)
            (b'S' ∷ b'e' ∷ b'c' ∷ b'u' ∷ b'r' ∷ b'e' ∷ b'B' ∷ b'o' ∷ b'o' ∷ b't' ∷ []) (0 ∷ [])
            refl,
        efi_variable_layout (guid_bytes efi_global_variable) (b'P' ∷ b'K' ∷ []) [] refl,
        efi_variable_layout (guid_bytes efi_global_variable) (b'K' ∷ b'E' ∷ b'K' ∷ []) [] refl,
        efi_variable_layout (guid_bytes efi_image_security) (b'd' ∷ b'b' ∷ []) [] refl,
        efi_variable_layout (guid_bytes efi_image_security) (b'd' ∷ b'b' ∷ b'x' ∷ []) [] refl,
      )
      refl

module _ (sha384 : List ℕ → List ℕ) where
  -- For a log that is laid out well and whose events can be replayed, `dump` returns, and each
  -- register is what the digests of its own events, in their order, make of 48 zero bytes.
  pub dump_registers :
      (s : SpecContent) (events : List Event) {tail : List ℕ}
      → IsSpec s
      → All (IsEvent (sizes_of s.algorithms [])) events
      → Ending tail
      → All IsReplayable events
      → (r : Registers) × (dump sha384 (log_bytes s events ++ tail) ≡ ok r)
        × ((n : ℕ)
            → register n r ≡ extend_all sha384 (register n start_registers) (digests_for n events))
  unfolding dump
  dump_registers s events {tail} hs he ht hr =
      let (r, e, each) = replay_registers sha384 events start_registers hr in
      (r, rw (check_log_ok s events hs he ht, measure_variables_ok) e, each)

  module _ (encode_text : String → List ℕ) where
    abbrev pub expected0 : (blocks : List ℕ) → TdxConfig → TdvfSection → List (List ℕ)
    expected0 blocks config cfv =
        sha384 blocks
        ∷ sha384 (slice config.image cfv.data_offset (cfv.data_offset + cfv.raw_data_size))
        ∷ sha384 (encode_text "QEMU")
        ∷ sha384 (3 ∷ 0 ∷ 0 ∷ 0 ∷ [])
        ∷ sha384 variable_records.secure_boot
        ∷ sha384 variable_records.pk
        ∷ sha384 variable_records.kek
        ∷ sha384 variable_records.db
        ∷ sha384 variable_records.dbx
        ∷ sha384 (0 ∷ 0 ∷ 0 ∷ 0 ∷ [])
        ∷ []

    abbrev pub expected1 : Form → List (List ℕ)
    expected1 form =
        form.kernel_tdx
        ∷ sha384 (encode_text "Calling EFI Application from Boot Option")
        ∷ sha384 (0 ∷ 0 ∷ 0 ∷ 0 ∷ [])
        ∷ sha384 (encode_text "Exit Boot Services Invocation")
        ∷ sha384 (encode_text "Exit Boot Services Returned with Success")
        ∷ []

    abbrev pub expected2 : Form → List (List ℕ)
    expected2 form = sha384 (encode_utf16_le (form.append ++ (0 ∷ []))) ∷ form.initrd_tdx ∷ []

    abbrev expected : (blocks : List ℕ) → Form → TdxConfig → TdvfSection → Measurement
    expected blocks form config cfv = record {
      rtmr0 = extend_all sha384 zero_register (expected0 blocks config cfv);
      rtmr1 = extend_all sha384 zero_register (expected1 form);
      rtmr2 = extend_all sha384 zero_register (expected2 form);
      hob = sha384 blocks;
      cfv = sha384 (slice config.image cfv.data_offset (cfv.data_offset + cfv.raw_data_size));
      sep = sha384 (0 ∷ 0 ∷ 0 ∷ 0 ∷ []);
      cmd = sha384 (encode_utf16_le (form.append ++ (0 ∷ [])));
      kernel = form.kernel_tdx;
      initrd = form.initrd_tdx;
    }

    -- With a section for the firmware's configuration, `tdx_measure` returns, and the three registers
    -- are what the expected digests make of 48 zero bytes; without one it throws.
    pub tdx_measure_registers :
        (form : Form) (config : TdxConfig)
        → (find_cfv config.sections ≡ none
            → tdx_measure sha384 encode_text form config ≡ err missing_cfv_section)
          × ((cfv : TdvfSection)
              → find_cfv config.sections ≡ some cfv
              → (m : Measurement) × (blocks : List ℕ) × (tdx_measure sha384 encode_text form config
                  ≡ ok m)
                × (build_hob form.memory config.sections ≡ ok blocks)
                × (m.rtmr0 ≡ extend_all sha384 zero_register (expected0 blocks config cfv))
                × (m.rtmr1 ≡ extend_all sha384 zero_register (expected1 form))
                × (m.rtmr2 ≡ extend_all sha384 zero_register (expected2 form)))
    unfolding tdx_measure replicate
    tdx_measure_registers form config =
        let (blocks, e, _, _) = build_hob_total form.memory config.sections in
        (
          λ missing. rw (e, missing) refl,
          λ cfv found. (
            expected blocks form config cfv,
            blocks,
            rw (e, found, measure_variables_ok) refl,
            e,
            refl,
            refl,
            refl,
          ),
        )

    -- If the SHA-384 digests that a log holds for RTMR 0, 1 and 2 are the expected ones, register by
    -- register and in their order, the replay of its events ends in the three registers of
    -- `tdx_measure`, however the events of the registers are interleaved.
    pub replay_measured :
        (form : Form) (config : TdxConfig) (cfv : TdvfSection) (blocks : List ℕ)
        (events : List Event)
        → find_cfv config.sections ≡ some cfv
        → build_hob form.memory config.sections ≡ ok blocks
        → All IsReplayable events
        → digests_for 0 events ≡ expected0 blocks config cfv
        → digests_for 1 events ≡ expected1 form
        → digests_for 2 events ≡ expected2 form
        → (m : Measurement) × (r : Registers) × (tdx_measure sha384 encode_text form config ≡ ok m)
          × (replay sha384 events start_registers ≡ ok r)
          × (r.rtmr0 ≡ m.rtmr0)
          × (r.rtmr1 ≡ m.rtmr1)
          × (r.rtmr2 ≡ m.rtmr2)
    replay_measured form config cfv blocks events found built hr h₀ h₁ h₂ =
        let (m, blocks', e, same, m₀, m₁, m₂) = (tdx_measure_registers form config).1 cfv found in
        let (r, e', each) = replay_registers sha384 events start_registers hr in
        let b : blocks' ≡ blocks = cc (same, built) in
        (
          m,
          r,
          e,
          e',
          each 0 ∙ rw (h₀, m₀, b) refl,
          each 1 ∙ rw (h₁, m₁) refl,
          each 2 ∙ rw (h₂, m₂) refl,
        )
