-- ===== src/Page/Session/Drained.antt =====
-- What the handlers wait for comes to an end.
use sylica.Base.{
  List, [], ◌∷◌, ◌++◌, ◌≡◌, refl, sym, ap, ◌∙◌, subst, ◌⊎◌, inl, inr, ◌<◌, ◌≤◌, ◌+◌, String, true,
  Bool-cases, ℕ, zero, suc, Option, none, some, ok, err, All, All-append, arith,
}
use sylica.Authenticode.{authenticode}
use sylica.Firmware.Measure.{Mode, snp, tdx, FirmwareMeasurement, ovmf_measure}
use sylica.Page.Form.{PageForm, Zone, bios, kernel, initrd, ready, set_hash}
use sylica.Page.Session.{
  Measured, SessionTarget, Job, digesting, digesting_tdx, loading, hashing, measuring, Session,
  resolve, wait_for, first_measurement, run_measure, measure, digested, resume, is_measurable,
  finishes, Reachable, continues,
}
use sylica.Page.Session.Current.{measure_settled}

-- How often the handler of a job still waits, at most.
abbrev waits : Job → ℕ
waits (digesting zone file) = 3
waits (digesting_tdx zone content) = 2
waits (loading r) = 2
waits (hashing raw) = 2
waits (measuring r) = 1

abbrev all_waits : List Job → ℕ
all_waits [] = 0
all_waits (j ∷ js) = waits j + all_waits js

waits-positive : (j : Job) → 0 < waits j
waits-positive (digesting zone file) = omega arith
waits-positive (digesting_tdx zone content) = omega arith
waits-positive (loading r) = omega arith
waits-positive (hashing raw) = omega arith
waits-positive (measuring r) = omega arith

all_waits-snoc : (js : List Job) (j : Job) → all_waits (js ++ (j ∷ [])) ≡ all_waits js + waits j
all_waits-snoc [] j = omega arith
all_waits-snoc (k ∷ js) j = omega (arith, all_waits-snoc js j)

module _ (sha256 sha384 : List ℕ → List ℕ) (encode_text : String → List ℕ) where
  -- In this mode the file can be measured, and the firmware in it, too.
  abbrev pub IsAccepted : Mode → Job → Type 0
  IsAccepted mode (digesting bios file) =
      (config : FirmwareMeasurement) × (ovmf_measure sha384 mode file ≡ ok config)
  IsAccepted snp (digesting kernel file) = Unit {0}
  IsAccepted tdx (digesting kernel file) = (image : List ℕ) × (authenticode file ≡ ok image)
  IsAccepted mode (digesting initrd file) = Unit {0}
  IsAccepted mode (digesting_tdx zone content) = Unit {0}
  IsAccepted mode (loading r) = (config : FirmwareMeasurement) × (r ≡ ok config)
  IsAccepted mode (hashing raw) = Unit {0}
  IsAccepted mode (measuring r) = Unit {0}

  IsAccepted-is_measurable :
      (mode : Mode) (j : Job)
      → IsAccepted mode j
      → is_measurable sha256 sha384 encode_text mode j ≡ true
  IsAccepted-is_measurable mode (digesting bios file) h = refl
  IsAccepted-is_measurable snp (digesting kernel file) h = refl
  IsAccepted-is_measurable tdx (digesting kernel file) (image, e) = rw (e, is_measurable) refl
  IsAccepted-is_measurable mode (digesting initrd file) h = refl
  IsAccepted-is_measurable mode (digesting_tdx zone content) h = refl
  IsAccepted-is_measurable mode (loading (ok config)) h = refl
  IsAccepted-is_measurable mode (loading (err x)) (config, e) = cc (e)
  IsAccepted-is_measurable mode (hashing raw) h = refl
  IsAccepted-is_measurable mode (measuring r) h = refl

  -- A session in the mode that waits for `after`, and at most for one thing more, which waits less
  -- often than `n`.
  abbrev Follows : ℕ → Mode → List Job → Session → Type 0
  Follows n mode after s =
      (s.mode ≡ mode)
      × ((s.pending ≡ after)
          ⊎ ((k : Job) × (s.pending ≡ after ++ (k ∷ [])) × (waits k < n) × IsAccepted mode k))

  measure-Follows :
      (n : ℕ) (mode : Mode) (form : PageForm) (target : Option SessionTarget) (after : List Job)
      → 1 < n
      → Follows n mode after (
          measure sha256 sha384 encode_text
            (record { mode = mode; form = form; target = target; pending = after }))
  unfolding measure wait_for
  measure-Follows n mode form none after h = (refl, inl refl)
  measure-Follows n mode form (some t) after h = elim (Bool-cases (ready mode form)) [
    | inl e ↦ rw e (refl, inr (measuring _, refl, h, tt))
    | inr e ↦ rw e (refl, inl refl)
  ]

  digested-Follows :
      (zone : Zone) (file : List ℕ) (mode : Mode) (form : PageForm) (target : Option SessionTarget)
      (after : List Job)
      → IsAccepted mode (digesting zone file)
      → Follows 3 mode after (
          digested sha256 sha384 encode_text zone file mode
            (record { mode = mode; form = form; target = target; pending = after }))
  unfolding digested wait_for
  digested-Follows bios file mode form target after (config, e) =
      (refl, inr (loading _, refl, omega arith, (config, e)))
  digested-Follows kernel file snp form target after h =
      measure-Follows 3 snp form target after (omega arith)
  digested-Follows initrd file snp form target after h =
      measure-Follows 3 snp form target after (omega arith)
  digested-Follows kernel file tdx form target after (image, e) =
      rw (e, digested) (refl, inr (digesting_tdx kernel image, refl, omega arith, tt))
  digested-Follows initrd file tdx form target after h =
      (refl, inr (digesting_tdx initrd file, refl, omega arith, tt))

  resume-Follows :
      (mode : Mode) (form : PageForm) (target : Option SessionTarget) (after : List Job) (j : Job)
      → IsAccepted mode j
      → Follows (waits j) mode after (
          resume sha256 sha384 encode_text j
            (record { mode = mode; form = form; target = target; pending = after }))
  unfolding resume resolve
  resume-Follows mode form target after (digesting zone file) h =
      digested-Follows zone file mode (set_hash zone (sha256 file) form) target after h
  resume-Follows mode form target after (digesting_tdx zone content) h =
      measure-Follows 2 mode _ target after (omega arith)
  resume-Follows mode form target after (loading (ok config)) h =
      measure-Follows 2 mode form (some (config, first_measurement config)) after (omega arith)
  resume-Follows mode form target after (loading (err x)) (config, e) = cc (e)
  resume-Follows mode form target after (hashing raw) h =
      measure-Follows 2 mode _ target after (omega arith)
  resume-Follows mode form none after (measuring (ok m)) h = (refl, inl refl)
  resume-Follows mode form (some t) after (measuring (ok m)) h = (refl, inl refl)
  resume-Follows mode form target after (measuring (err x)) h = (refl, inl refl)

  abbrev IsReached : Session → Type 0
  IsReached = Reachable sha256 sha384 encode_text true

  -- Only ends of what is waited for.
  pub data Ends : Session → Session → Type 0 where
    ended : (s : Session) → Ends s s
    ends :
        {t : Session} (j : Job) (after : List Job) (s : Session)
        → s.pending ≡ j ∷ after
        → Ends (resume sha256 sha384 encode_text j (record s { pending = after })) t
        → Ends s t

  abbrev Drains : Session → Type 0
  Drains s = (t : Session) × Ends s t × IsReached t × (t.pending ≡ []) × (t.mode ≡ s.mode)

  Follows-next :
      (n : ℕ) (mode : Mode) (j : Job) (js : List Job) (t : Session)
      → waits j + all_waits js ≤ suc n
      → All (IsAccepted mode) js
      → Follows (waits j) mode js t
      → (all_waits t.pending ≤ n) × All (IsAccepted t.mode) t.pending
  Follows-next n mode j js t h a (m, inl e) = (
    omega (arith, waits-positive j, ap all_waits e),
    subst (λ x. All (IsAccepted x) t.pending) (sym m) (subst (All (IsAccepted mode)) (sym e) a),
  )
  Follows-next n mode j js t h a (m, inr (k, e, l, b)) = (
    omega (arith, all_waits-snoc js k, ap all_waits e),
    subst (λ x. All (IsAccepted x) t.pending) (sym m)
        (subst (All (IsAccepted mode)) (sym e)
          (All-append (IsAccepted mode) js (k ∷ []) a (b, tt))),
  )

  drains :
      (n : ℕ) (mode : Mode) (form : PageForm) (target : Option SessionTarget) (js : List Job)
      → IsReached (record { mode = mode; form = form; target = target; pending = js })
      → all_waits js ≤ n
      → All (IsAccepted mode) js
      → Drains (record { mode = mode; form = form; target = target; pending = js })
  drains n mode form target [] r h a = (_, ended _, r, refl, refl)
  drains zero mode form target (j ∷ js) r h a = absurd (omega (arith, waits-positive j))
  drains (suc n) mode form target (j ∷ js) r h (a, accepted) =
      let s : Session = record { mode = mode; form = form; target = target; pending = j ∷ js } in
      let t = resume sha256 sha384 encode_text j (record s { pending = js }) in
      let reached : IsReached t =
        continues r (finishes [] js j s refl (λ o. (refl, IsAccepted-is_measurable mode j a))) in
      let follows = resume-Follows mode form target js j a in
      let (fewer, accepted_then) = Follows-next n mode j js t h accepted follows in
      let (u, e, last, none_left, same) =
        drains n t.mode t.form t.target t.pending reached fewer accepted_then in
      (u, ends j js s refl e, last, none_left, same ∙ follows.0)

  -- From any page that has come about in order, with files in wait that can all be measured in the
  -- present mode: when all that is waited for ends in order, with no other input, the page comes to
  -- have nothing left to wait for, in the same mode; and if the form is then complete and its
  -- measurement for the target succeeds, the target has that measurement.
  pub measure_settles :
      {s : Session}
      → IsReached s
      → All (IsAccepted s.mode) s.pending
      → (t : Session) × Ends s t
        × (t.pending ≡ [])
        × (t.mode ≡ s.mode)
        × ((config : FirmwareMeasurement) (m : Option Measured) (v : Measured)
            → t.target ≡ some (config, m)
            → ready t.mode t.form ≡ true
            → run_measure sha256 sha384 encode_text t.mode t.form config ≡ ok v
            → m ≡ some v)
  measure_settles {s} r a =
      let (t, e, r', p, m) =
        drains (all_waits s.pending) s.mode s.form s.target s.pending r (omega arith) a in
      (
        t,
        e,
        p,
        m,
        λ config o v h k c. measure_settled sha256 sha384 encode_text config o v r' p h k c,
      )
