-- ===== src/Page/Session.antt =====
-- index.js, the state that the page's handlers share: the mode, the form, the target and what they
-- wait for. A handler that starts is a step, and so is the end of each hash, of each image and of
-- each measurement that it waits for, which may come in any order.
pub mod Current
pub mod Drained
pub mod Stale
pub mod Switched
use sylica.Base.{
  List, [], ◌∷◌, ◌++◌, ◌≡◌, String, Bool, true, false, ℕ, ◌*◌, ◌^◌, Option, none, some,
  if◌then◌else◌, Result, ok, err, ◌>>=◌, unknown_section,
}
use sylica.Authenticode.{authenticode}
use sylica.Launch.Snp.{snp_measure, Config}
use sylica.Runtime.{tdx_measure, Measurement}
use sylica.Firmware.Tdvf.{TdxConfig}
use sylica.Page.Form.{
  PageForm, Zone, bios, kernel, initrd, ready, other_mode, reset_form, set_hash, set_tdx_hash,
  snp_form, tdx_form,
}
use sylica.Firmware.Measure.{
  Mode, snp, tdx, FirmwareMeasurement, measured_snp, measured_tdx, ovmf_measure,
}

-- What `target.measurement` is set to.
pub data Measured : Type 0 where
  firmware_digest : List ℕ → Measured
  launch_digest : List ℕ → Measured
  registers : Measurement → Measured

-- `target`: what `ovmf_measure` returned, and its measurement, once there is one.
abbrev pub SessionTarget : Type 0
SessionTarget = FirmwareMeasurement × Option Measured

-- In TDX mode `ovmf_measure` returns MRTD as a measurement, too.
unfoldable pub first_measurement : FirmwareMeasurement → Option Measured
first_measurement (measured_snp config) = none
first_measurement (measured_tdx config) = some (firmware_digest config.ovmf_hash)

-- What a handler waits for: SHA-256 of a file, SHA-384 of a file or of its signed parts,
-- `ovmf_measure`, SHA-256 of the command line, `snp_measure` or `tdx_measure`.
pub data Job : Type 0 where
  digesting : Zone → List ℕ → Job
  digesting_tdx : Zone → List ℕ → Job
  loading : Result FirmwareMeasurement → Job
  hashing : List ℕ → Job
  measuring : Result Measured → Job

-- `pending` holds what has not ended, the oldest first.
pub record Session : Type 0 where
  pub mode : Mode
  pub form : PageForm
  pub target : Option SessionTarget
  pub pending : List Job

-- `form.reset()`
unfoldable pub reset : Session → Session
unfolding reset_form
reset s = record s { form = reset_form s.mode s.form; target = none }

-- The handler of the switch.
unfoldable pub toggle : Session → Session
unfolding reset
toggle s = reset (record s { mode = other_mode s.mode })

-- The handler goes on to wait.
unfoldable pub wait_for : Job → Session → Session
wait_for j s = record s { pending = s.pending ++ (j ∷ []) }

-- `target.measurement = ...`, which throws where there is no target.
unfoldable pub resolve : Measured → Session → Session
resolve m s = elim s.target [ none ↦ s | some t ↦ record s { target = some (t.0, some m) } ]

-- A target of the other mode. Its sections have no `type`: the first one throws; and `&` takes a
-- missing `reset_eip` for 0.
unfoldable pub as_snp : TdxConfig → Result Config
as_snp config = elim config.sections [
  | [] ↦ ok (record { ovmf_hash = config.ovmf_hash; sections = []; sev_hashes = 0; reset_eip = 0 })
  | s ∷ rest ↦ err (unknown_section 0)
]

-- Its sections have no `secType`: none is found; and there is no image.
unfoldable pub as_tdx : Config → TdxConfig
as_tdx config = record { ovmf_hash = config.ovmf_hash; sections = []; image = [] }

module _ (sha256 sha384 : List ℕ → List ℕ) (encode_text : String → List ℕ) where
  -- The computation that `measure` starts.
  unfoldable pub run_measure : Mode → PageForm → FirmwareMeasurement → Result Measured
  unfolding as_snp as_tdx
  run_measure snp form (measured_snp config) = do
    digest ← snp_measure sha384 (snp_form form) config
    ok (launch_digest digest)
  run_measure tdx form (measured_tdx config) = do
    measurement ← tdx_measure sha384 encode_text (tdx_form form) config
    ok (registers measurement)
  run_measure snp form (measured_tdx config) = do
    other ← as_snp config
    digest ← snp_measure sha384 (snp_form form) other
    ok (launch_digest digest)
  run_measure tdx form (measured_snp config) = do
    measurement ← tdx_measure sha384 encode_text (tdx_form form) (as_tdx config)
    ok (registers measurement)

  -- `measure()`
  unfoldable pub measure : Session → Session
  unfolding wait_for
  measure s = elim s.target [
    | none ↦ s
    | some t ↦
        if ready s.mode s.form then wait_for (measuring (run_measure s.mode s.form t.0)) s else s
  ]

  -- The handlers of the other inputs and selections: number and type of the processors, memory.
  unfoldable pub edit : ℕ → String → ℕ → Session → Session
  unfolding measure
  edit vcpus vcpu_sig memory s =
      measure
        (record s { form = record s.form { vcpus = vcpus; vcpu_sig = vcpu_sig; memory = memory } })

  -- The handler of `append`, up to its wait; `raw` is the text in UTF-8.
  unfoldable pub edit_append : (append raw : List ℕ) → Session → Session
  unfolding wait_for
  edit_append append raw s =
      wait_for (hashing (raw ++ (0 ∷ []))) (record s { form = record s.form { append = append } })

  -- The handler of a file, once it has been read, up to its first wait.
  unfoldable pub load : Zone → List ℕ → Session → Session
  unfolding wait_for
  load zone file s = wait_for (digesting zone file) s

  -- The same handler, behind its first wait.
  unfoldable pub digested : Zone → List ℕ → Mode → Session → Session
  unfolding wait_for measure
  digested bios file mode s = wait_for (loading (ovmf_measure sha384 mode file)) s
  digested kernel file snp s = measure s
  digested initrd file snp s = measure s
  digested kernel file tdx s = elim (authenticode file) [
    | ok image ↦ wait_for (digesting_tdx kernel image) s
    | err x ↦ s
  ]
  digested initrd file tdx s = wait_for (digesting_tdx initrd file) s

  -- A handler goes on when what it waits for has ended.
  unfoldable pub resume : Job → Session → Session
  unfolding digested measure
  resume (digesting zone file) s =
      digested zone file s.mode (record s { form = set_hash zone (sha256 file) s.form })
  resume (digesting_tdx zone content) s =
      measure (record s { form = set_tdx_hash zone (sha384 content) s.form })
  resume (loading (ok config)) s =
      measure (record s { target = some (config, first_measurement config) })
  resume (loading (err x)) s = s
  resume (hashing raw) s = measure (record s { form = record s.form { cmdline = sha256 raw } })
  resume (measuring (ok m)) s = resolve m s
  resume (measuring (err x)) s = s

  -- Whether the file can be measured.
  abbrev pub is_measurable : Mode → Job → Bool
  is_measurable mode (digesting bios file) = true
  is_measurable mode (digesting initrd file) = true
  is_measurable snp (digesting kernel file) = true
  is_measurable tdx (digesting kernel file) = elim (authenticode file) [
    | ok image ↦ true
    | err x ↦ false
  ]
  is_measurable mode (digesting_tdx zone content) = true
  is_measurable mode (loading (ok config)) = true
  is_measurable mode (loading (err x)) = false
  is_measurable mode (hashing raw) = true
  is_measurable mode (measuring r) = true

  -- `orderly`: what was started first ends first, and each file can be measured.
  pub data Step (orderly : Bool) : Session → Session → Type 0 where
    edits :
        (vcpus : ℕ) (vcpu_sig : String) (memory : ℕ) (s : Session)
        → Step orderly s (edit vcpus vcpu_sig memory s)
    edits_append : (append raw : List ℕ) (s : Session) → Step orderly s (edit_append append raw s)
    loads : (zone : Zone) (file : List ℕ) (s : Session) → Step orderly s (load zone file s)
    resets : (s : Session) → Step orderly s (reset s)
    toggles : (s : Session) → Step orderly s (toggle s)
    finishes :
        (before after : List Job) (j : Job) (s : Session)
        → s.pending ≡ before ++ (j ∷ after)
        → (orderly ≡ true → (before ≡ []) × (is_measurable s.mode j ≡ true))
        → Step orderly s (resume j (record s { pending = before ++ after }))

  -- From the page as it is loaded, with no target; a browser may have kept values of the form.
  pub data Reachable (orderly : Bool) : Session → Type 0 where
    starts :
        (form : PageForm)
        → Reachable orderly (record { mode = snp; form = form; target = none; pending = [] })
    continues : {s t : Session} → Reachable orderly s → Step orderly s t → Reachable orderly t
