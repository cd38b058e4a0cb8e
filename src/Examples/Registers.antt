-- ===== src/Examples/Registers.antt =====
-- The log of Logs replayed, and the registers that are predicted for a guest.
use sylica.Base.{
  ℕ, ◌≡◌, refl, String, List, [], ◌∷◌, ◌++◌, none, some, replicate, ◌<◌, All, All-append, ok, err,
  arith, missing_cfv_section,
}
use sylica.Examples.Digests.{toy_hash}
use sylica.Examples.Logs.{
  content, separator, second, events, content-IsSpec, separator-IsEvent, second-IsEvent, end_marker,
  end_marker-Ending,
}
use sylica.Memory.{TdvfSection, build_hob}
use sylica.Memory.Blocks.{build_hob_total}
use sylica.Ccel.{Event}
use sylica.Ccel.Format.{log_bytes}
use sylica.Firmware.Tdvf.{TdxConfig}
use sylica.Runtime.{
  Form, Measurement, Registers, find_cfv, find_digest, start_registers, zero_register, show_event,
  replay, dump, tdx_measure,
}
use sylica.Runtime.Replay.{IsReplayable, register, digests_for, extend_all}
use sylica.Runtime.Predicted.{
  expected0, expected1, expected2, dump_registers, tdx_measure_registers, replay_measured,
}

separator-IsReplayable : IsReplayable separator
unfolding find_digest show_event
separator-IsReplayable = ((0, refl, omega arith), (1 ∷ 2 ∷ 3 ∷ [], refl), refl)

second-IsReplayable : IsReplayable second
unfolding find_digest show_event
second-IsReplayable = ((2, refl, omega arith), (1 ∷ 2 ∷ 3 ∷ [], refl), refl)

dump_registers_example :
    (r : Registers) × (dump toy_hash (log_bytes content events ++ end_marker) ≡ ok r)
    × ((n : ℕ)
        → register n r ≡ extend_all toy_hash (register n start_registers) (digests_for n events))
dump_registers_example =
    dump_registers toy_hash content events content-IsSpec (separator-IsEvent, (second-IsEvent, tt))
      end_marker-Ending (separator-IsReplayable, (second-IsReplayable, tt))

-- The digests that a register gets.
digests_for_second : digests_for 2 events ≡ (1 ∷ 2 ∷ 3 ∷ []) ∷ []
unfolding find_digest
digests_for_second = refl

-- Only the text "QEMU" has a code here.
abbrev pub encode : String → List ℕ
encode text = b'Q' ∷ b'E' ∷ b'M' ∷ b'U' ∷ []

abbrev pub form : Form
form = record {
  memory = 0x1000000;
  append = b'q' ∷ [];
  kernel_tdx = replicate 48 1;
  initrd_tdx = replicate 48 2;
}

abbrev pub cfv : TdvfSection
cfv = record {
  data_offset = 2;
  raw_data_size = 3;
  memory_address = 0;
  memory_data_size = 0;
  sec_type = 1;
  attributes = 0;
}

abbrev pub config : TdxConfig
config = record { ovmf_hash = replicate 48 0; sections = cfv ∷ []; image = 1 ∷ 2 ∷ 3 ∷ 4 ∷ 5 ∷ [] }

pub cfv-found : find_cfv config.sections ≡ some cfv
unfolding find_cfv
cfv-found = refl

tdx_measure_registers_example :
    (find_cfv config.sections ≡ none
      → tdx_measure toy_hash encode form config ≡ err missing_cfv_section)
    × ((s : TdvfSection)
        → find_cfv config.sections ≡ some s
        → (m : Measurement) × (blocks : List ℕ) × (tdx_measure toy_hash encode form config ≡ ok m)
          × (build_hob form.memory config.sections ≡ ok blocks)
          × (m.rtmr0
              ≡ extend_all toy_hash zero_register (expected0 toy_hash encode blocks config s))
          × (m.rtmr1 ≡ extend_all toy_hash zero_register (expected1 toy_hash encode form))
          × (m.rtmr2 ≡ extend_all toy_hash zero_register (expected2 toy_hash encode form)))
tdx_measure_registers_example = tdx_measure_registers toy_hash encode form config

abbrev blocks : List ℕ
blocks = (build_hob_total form.memory config.sections).0

blocks-built : build_hob form.memory config.sections ≡ ok blocks
blocks-built = (build_hob_total form.memory config.sections).1

-- One event for each expected digest.
abbrev event_for : ℕ → List ℕ → Event
event_for n d = record separator {
  rtmr = some n;
  digests = record { algorithm_id = 12; digest = d } ∷ [];
}

abbrev events_for : ℕ → List (List ℕ) → List Event
events_for n [] = []
events_for n (d ∷ ds) = event_for n d ∷ events_for n ds

abbrev boot : List Event
boot =
    events_for 0 (expected0 toy_hash encode blocks config cfv)
    ++ (events_for 1 (expected1 toy_hash encode form)
        ++ events_for 2 (expected2 toy_hash encode form))

events_for-All : (n : ℕ) (ds : List (List ℕ)) → n < 4 → All IsReplayable (events_for n ds)
unfolding find_digest show_event
events_for-All n [] h = tt
events_for-All n (d ∷ ds) h = (((n, refl, h), (d, refl), refl), events_for-All n ds h)

boot-All : All IsReplayable boot
boot-All =
    All-append IsReplayable (events_for 0 (expected0 toy_hash encode blocks config cfv))
      (events_for 1 (expected1 toy_hash encode form)
        ++ events_for 2 (expected2 toy_hash encode form))
      (events_for-All 0 (expected0 toy_hash encode blocks config cfv) (omega arith))
      (All-append IsReplayable (events_for 1 (expected1 toy_hash encode form))
        (events_for 2 (expected2 toy_hash encode form))
        (events_for-All 1 (expected1 toy_hash encode form) (omega arith))
        (events_for-All 2 (expected2 toy_hash encode form) (omega arith)))

boot0 : digests_for 0 boot ≡ expected0 toy_hash encode blocks config cfv
unfolding find_digest
boot0 = refl

boot1 : digests_for 1 boot ≡ expected1 toy_hash encode form
unfolding find_digest
boot1 = refl

boot2 : digests_for 2 boot ≡ expected2 toy_hash encode form
unfolding find_digest
boot2 = refl

replay_measured_example :
    (m : Measurement) × (r : Registers) × (tdx_measure toy_hash encode form config ≡ ok m)
    × (replay toy_hash boot start_registers ≡ ok r)
    × (r.rtmr0 ≡ m.rtmr0)
    × (r.rtmr1 ≡ m.rtmr1)
    × (r.rtmr2 ≡ m.rtmr2)
replay_measured_example =
    replay_measured toy_hash encode form config cfv blocks boot cfv-found blocks-built boot-All
      boot0 boot1 boot2
