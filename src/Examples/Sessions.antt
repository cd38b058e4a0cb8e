-- ===== src/Examples/Sessions.antt =====
-- A session of the page in TDX mode.
use sylica.Base.{
  ℕ, ◌≡◌, refl, sym, subst, List, [], ◌∷◌, ◌++◌, true, false, Option, some, none, Bool, replicate,
  take, drop, length, encode_le, same_bytes, ok, arith,
}
use sylica.Examples.Digests.{toy_hash, toy_hash_length}
use sylica.Examples.Registers.{encode, cfv, cfv-found}
use sylica.Launch.Hashes.{guid_bytes, format}
use sylica.Firmware.{Table, footer_guid, footer_table}
use sylica.Firmware.Sev.{same_guid, lookup}
use sylica.Firmware.Tdvf.{TdxConfig, tdx_metadata_guid, ovmf_measure_tdx}
use sylica.Firmware.Walk.{Entry, entry_bytes, table_bytes, found, image, footer_table-image}
use sylica.Firmware.Stream.{stream, build_operations}
use sylica.Firmware.TdvfMetadata.{
  FitsTdvf, sections_bytes, tdvf_bytes, tdvf_entry, ovmf_measure_tdx-tdvf_bytes,
}
use sylica.Firmware.Measure.{
  snp, tdx, FirmwareMeasurement, measured_tdx, measure_table, ovmf_measure,
}
use sylica.Runtime.Predicted.{tdx_measure_registers}
use sylica.Page.Form.{PageForm, bios, is_filled, ready, reset_form, set_hash, tdx_form}
use sylica.Page.Session.{
  Measured, registers, Session, digesting, loading, measuring, reset, toggle, first_measurement,
  wait_for, run_measure, measure, load, resolve, digested, resume, loads, toggles, finishes,
  Reachable, starts, continues,
}
use sylica.Page.Session.Current.{measure_settled}
use sylica.Page.Session.Drained.{Ends, measure_settles}
use sylica.Page.Session.Stale.{with_image, with_numbers, measure_overtaken}
use sylica.Page.Session.Switched.{mode_switched}

-- The entry says that the metadata starts 120 bytes in front of the end.
abbrev entries : List Entry
entries = record { guid = guid_bytes tdx_metadata_guid; content = encode_le 4 120 } ∷ []

-- Metadata with one section, which has no pages, and the table behind it.
abbrev firmware : List ℕ
firmware = image (tdvf_bytes 48 (cfv ∷ []) []) entries (replicate 32 0)

abbrev behind : List ℕ
behind = table_bytes entries ++ (encode_le 2 40 ++ (guid_bytes footer_guid ++ replicate 32 0))

firmware-tdvf_bytes : firmware ≡ [] ++ tdvf_bytes 48 (cfv ∷ []) behind
unfolding image table_bytes entry_bytes tdvf_bytes sections_bytes encode_le guid_bytes
firmware-tdvf_bytes = refl

behind_size : length (tdvf_bytes 48 (cfv ∷ []) behind) ≡ 120
unfolding table_bytes entry_bytes tdvf_bytes sections_bytes encode_le guid_bytes replicate
behind_size = refl

abbrev firmware_config : TdxConfig
firmware_config = record {
  ovmf_hash = toy_hash (stream (build_operations firmware (cfv ∷ [])));
  sections = cfv ∷ [];
  image = firmware;
}

firmware_table : footer_table firmware ≡ ok ((tdx_metadata_guid, encode_le 4 120) ∷ [])
unfolding found format guid_bytes take drop encode_le table_bytes entry_bytes replicate
firmware_table =
    footer_table-image (tdvf_bytes 48 (cfv ∷ []) []) entries (replicate 32 0)
      ((refl, omega arith), tt) (omega arith) refl

cfv-FitsTdvf : FitsTdvf cfv
cfv-FitsTdvf = record {
  data_offset_fits = omega arith;
  raw_data_size_fits = omega arith;
  memory_is_exact = omega arith;
  sec_type_fits = omega arith;
  attributes_fits = omega arith;
}

abbrev table : Table
table = (tdx_metadata_guid, encode_le 4 120) ∷ []

firmware_entry :
    lookup tdx_metadata_guid table ≡ some (tdvf_entry [] (length (tdvf_bytes 48 (cfv ∷ []) behind)))
unfolding lookup same_guid same_bytes tdvf_entry
firmware_entry = rw behind_size refl

firmware-tdx : ovmf_measure_tdx toy_hash table firmware ≡ ok firmware_config
firmware-tdx =
    subst
      (λ x.
        ovmf_measure_tdx toy_hash table x
        ≡ ok (record {
          ovmf_hash = toy_hash (stream (build_operations x (cfv ∷ [])));
          sections = cfv ∷ [];
          image = x;
        }))
      (sym firmware-tdvf_bytes)
      (ovmf_measure_tdx-tdvf_bytes toy_hash table [] [] 48 (cfv ∷ []) behind firmware_entry
        (omega arith) (omega arith) (cfv-FitsTdvf, tt) (omega (arith, behind_size)))

firmware-measured : ovmf_measure toy_hash tdx firmware ≡ ok (measured_tdx firmware_config)
unfolding ovmf_measure measure_table
firmware-measured = rw (firmware_table, firmware-tdx) refl

-- The values of the form in TDX mode, in front of any file but the kernel and the initial disk.
abbrev page_form : PageForm
page_form = record {
  vcpus = 1;
  vcpu_sig = "EPYC-v4";
  memory = 512;
  append = [];
  cmdline = [];
  kernel = [];
  initrd = [];
  kernel_tdx = replicate 48 1;
  initrd_tdx = replicate 48 2;
  ovmf = [];
}

abbrev start : Session
start = record { mode = tdx; form = reset_form tdx page_form; target = none; pending = [] }

start-Reachable : (orderly : Bool) → Reachable toy_hash toy_hash encode orderly start
unfolding toggle reset
start-Reachable orderly = continues (starts page_form) (toggles _)

-- And when the firmware has been dropped.
abbrev loaded : PageForm
loaded = with_image toy_hash firmware (reset_form tdx page_form)

abbrev other : PageForm
other = with_numbers 1 "EPYC-v4" 1024 loaded

abbrev result_of : PageForm → Measured
result_of f =
    registers
      ((tdx_measure_registers toy_hash encode (tdx_form f) firmware_config).1 cfv cfv-found).0

run-result_of :
    (f : PageForm)
    → run_measure toy_hash toy_hash encode tdx f (measured_tdx firmware_config) ≡ ok (result_of f)
unfolding run_measure
run-result_of f =
    rw (((tdx_measure_registers toy_hash encode (tdx_form f) firmware_config).1 cfv cfv-found).2)
      refl

is_filled-length : (xs : List ℕ) → length xs ≡ 48 → is_filled xs ≡ true
is_filled-length [] h = absurd (let e : ◌≡◌ {A = ℕ} 0 48 = h in let f : ⊥ = omega (arith, e) in f)
is_filled-length (x ∷ xs) h = refl

ready-loaded : ready tdx loaded ≡ true
unfolding ready
ready-loaded = is_filled-length (toy_hash firmware) (toy_hash_length firmware)

abbrev config : FirmwareMeasurement
config = measured_tdx firmware_config

abbrev dropped : Session
dropped = record start { pending = digesting bios firmware ∷ [] }

abbrev digested_one : Session
digested_one = record start { form = loaded; pending = loading (ok config) ∷ [] }

abbrev waiting : Session
waiting = record start {
  form = loaded;
  target = some (config, first_measurement config);
  pending = measuring (ok (result_of loaded)) ∷ [];
}

abbrev finished : Session
finished = record start { form = loaded; target = some (config, some (result_of loaded)) }

abbrev IsReached : Session → Type 0
IsReached = Reachable toy_hash toy_hash encode true

digested-firmware : resume toy_hash toy_hash encode (digesting bios firmware) start ≡ digested_one
unfolding resume digested wait_for set_hash
digested-firmware = rw firmware-measured refl

loaded-firmware :
    resume toy_hash toy_hash encode (loading (ok config)) (record digested_one { pending = [] })
    ≡ waiting
unfolding resume measure wait_for
loaded-firmware = rw (ready-loaded, run-result_of loaded) refl

waiting-Reachable : IsReached waiting
unfolding load wait_for
waiting-Reachable =
    let at₁ : IsReached dropped = continues (start-Reachable true) (loads bios firmware start) in
    let at₂ : IsReached digested_one =
      subst IsReached digested-firmware (
        continues at₁
          (finishes [] [] (digesting bios firmware) dropped refl (λ h. (refl, refl)))) in
    subst IsReached loaded-firmware
      (continues at₂ (finishes [] [] (loading (ok config)) digested_one refl (λ h. (refl, refl))))

finished-Reachable : IsReached finished
unfolding resume resolve
finished-Reachable =
    continues waiting-Reachable
      (finishes [] [] (measuring (ok (result_of loaded))) waiting refl (λ h. (refl, refl)))

measure_settled_example : some (result_of loaded) ≡ some (result_of loaded)
measure_settled_example =
    measure_settled toy_hash toy_hash encode config (some (result_of loaded)) (result_of loaded)
      finished-Reachable refl refl ready-loaded (run-result_of loaded)

measure_overtaken_example :
    (s : Session) × Reachable toy_hash toy_hash encode false s
    × (s.mode ≡ tdx)
    × (s.pending ≡ [])
    × (s.form ≡ other)
    × (s.target ≡ some (config, some (result_of loaded)))
unfolding reset_form ready
measure_overtaken_example =
    measure_overtaken toy_hash toy_hash encode tdx (reset_form tdx page_form) none firmware config 1
      "EPYC-v4" 1024 (result_of loaded) (result_of other) (start-Reachable false) firmware-measured
      ready-loaded ready-loaded (run-result_of loaded) (run-result_of other)

mode_switched_example :
    (s : Session) × Reachable toy_hash toy_hash encode true s
    × (s.mode ≡ snp)
    × (s.target ≡ some (config, first_measurement config))
mode_switched_example =
    mode_switched toy_hash toy_hash encode tdx (reset_form tdx page_form) none firmware config
      (start-Reachable true) firmware-measured

measure_settles_example :
    (t : Session) × Ends toy_hash toy_hash encode dropped t
    × (t.pending ≡ [])
    × (t.mode ≡ tdx)
    × ((other_config : FirmwareMeasurement) (m : Option Measured) (v : Measured)
        → t.target ≡ some (other_config, m)
        → ready t.mode t.form ≡ true
        → run_measure toy_hash toy_hash encode t.mode t.form other_config ≡ ok v
        → m ≡ some v)
unfolding load wait_for
measure_settles_example =
    measure_settles toy_hash toy_hash encode {s = dropped}
      (continues (start-Reachable true) (loads bios firmware start))
      ((config, firmware-measured), tt)
