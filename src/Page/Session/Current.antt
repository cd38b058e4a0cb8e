-- ===== src/Page/Session/Current.antt =====
-- The measurement of the target is up to date when nothing is left to wait for.
use sylica.Base.{
  List, [], ◌∷◌, ◌++◌, ◌≡◌, refl, sym, ap, subst, ◌⊎◌, inl, inr, String, Bool, true, false,
  Bool-cases, ℕ, Option, none, some, Result, ok, err,
}
use sylica.Authenticode.{authenticode}
use sylica.Firmware.Measure.{Mode, snp, tdx, FirmwareMeasurement}
use sylica.Page.Form.{PageForm, Zone, bios, kernel, initrd, ready, set_hash}
use sylica.Page.Session.{
  Measured, SessionTarget, Job, digesting, digesting_tdx, loading, hashing, measuring, Session,
  reset, toggle, resolve, wait_for, first_measurement, run_measure, measure, edit, edit_append,
  load, digested, resume, is_measurable, Step, edits, edits_append, loads, resets, toggles,
  finishes, Reachable, starts, continues,
}

-- Everything but a measurement leads to a measurement when it has ended.
abbrev leads_on : Job → Bool
leads_on (digesting zone file) = true
leads_on (digesting_tdx zone content) = true
leads_on (loading r) = true
leads_on (hashing raw) = true
leads_on (measuring r) = false

abbrev some_lead_on : List Job → Bool
some_lead_on [] = false
some_lead_on (digesting zone file ∷ js) = true
some_lead_on (digesting_tdx zone content ∷ js) = true
some_lead_on (loading r ∷ js) = true
some_lead_on (hashing raw ∷ js) = true
some_lead_on (measuring r ∷ js) = some_lead_on js

last_leads_on : (js : List Job) (j : Job) → leads_on j ≡ true → some_lead_on (js ++ (j ∷ [])) ≡ true
last_leads_on [] (digesting zone file) h = refl
last_leads_on [] (digesting_tdx zone content) h = refl
last_leads_on [] (loading r) h = refl
last_leads_on [] (hashing raw) h = refl
last_leads_on [] (measuring r) h = cc (h)
last_leads_on (digesting zone file ∷ js) j h = refl
last_leads_on (digesting_tdx zone content ∷ js) j h = refl
last_leads_on (loading r ∷ js) j h = refl
last_leads_on (hashing raw ∷ js) j h = refl
last_leads_on (measuring r ∷ js) j h = last_leads_on js j h

-- Some handler still leads to a measurement; or the last thing to wait for is this measurement; or
-- nothing is, and the target has it, if it is no exception.
abbrev Latest : Result Measured → Option Measured → List Job → Type 0
Latest r m pending =
    (some_lead_on pending ≡ true)
    ⊎ (((ps : List Job) × (pending ≡ ps ++ (measuring r ∷ [])))
        ⊎ ((pending ≡ []) × ((v : Measured) → r ≡ ok v → m ≡ some v)))

-- Behind the end of the first measurement.
Latest-tail :
    (r q : Result Measured) (m : Option Measured) (after : List Job)
    → Latest r m (measuring q ∷ after)
    → ((after ≡ []) × (r ≡ q))
      ⊎ ((some_lead_on after ≡ true) ⊎ ((ps : List Job) × (after ≡ ps ++ (measuring r ∷ []))))
Latest-tail r q m after (inl w) = inr (inl w)
Latest-tail r q m after (inr (inl ([], e))) = inl (cc (e), cc (e))
Latest-tail r q m after (inr (inl (p ∷ ps, e))) = inr (inr (ps, cc (e)))
Latest-tail r q m after (inr (inr (e, _))) = cc (e)

module _ (sha256 sha384 : List ℕ → List ℕ) (encode_text : String → List ℕ) where
  abbrev Current : Mode → PageForm → Option SessionTarget → List Job → Type 0
  Current mode form none pending = Unit {0}
  Current mode form (some (c, m)) pending =
      ready mode form ≡ true → Latest (run_measure sha256 sha384 encode_text mode form c) m pending

  abbrev IsCurrent : Session → Type 0
  IsCurrent s = Current s.mode s.form s.target s.pending

  measure-Current :
      (mode : Mode) (form : PageForm) (target : Option SessionTarget) (pending : List Job)
      → IsCurrent (
          measure sha256 sha384 encode_text
            (record { mode = mode; form = form; target = target; pending = pending }))
  unfolding measure wait_for
  measure-Current mode form none pending = tt
  measure-Current mode form (some (c, m)) pending = elim (Bool-cases (ready mode form)) [
    | inl e ↦ rw e (λ k. inr (inl (pending, refl)))
    | inr e ↦ rw e (λ k. cc (k))
  ]

  wait_for-Current :
      (mode : Mode) (form : PageForm) (target : Option SessionTarget) (pending : List Job) (j : Job)
      → leads_on j ≡ true
      → IsCurrent
          (wait_for j (record { mode = mode; form = form; target = target; pending = pending }))
  unfolding wait_for
  wait_for-Current mode form none pending j h = tt
  wait_for-Current mode form (some (c, m)) pending j h = λ k. inl (last_leads_on pending j h)

  resolve-Current :
      (mode : Mode) (form : PageForm) (target : Option SessionTarget) (after : List Job)
      (q : Result Measured)
      → Current mode form target (measuring q ∷ after)
      → IsCurrent (
          resume sha256 sha384 encode_text
            (measuring q)
            (record { mode = mode; form = form; target = target; pending = after }))
  unfolding resume resolve
  resolve-Current mode form none after (err x) h = tt
  resolve-Current mode form none after (ok v) h = tt
  resolve-Current mode form (some (c, m)) after (err x) h = λ k.
      elim (Latest-tail _ (err x) m after (h k)) [
        | inl (e, same) ↦ inr (inr (e, λ v o. cc (same, o)))
        | inr (inl w) ↦ inl w
        | inr (inr last) ↦ inr (inl last)
      ]
  resolve-Current mode form (some (c, m)) after (ok v) h = λ k.
      elim (Latest-tail _ (ok v) m after (h k)) [
        | inl (e, same) ↦ inr (inr (e, λ w o. cc (same, o)))
        | inr (inl w) ↦ inl w
        | inr (inr last) ↦ inr (inl last)
      ]

  digested-Current :
      (zone : Zone) (file : List ℕ) (mode : Mode) (form : PageForm) (target : Option SessionTarget)
      (pending : List Job)
      → is_measurable sha256 sha384 encode_text mode (digesting zone file) ≡ true
      → IsCurrent (
          digested sha256 sha384 encode_text zone file mode
            (record { mode = mode; form = form; target = target; pending = pending }))
  unfolding digested
  digested-Current bios file mode form target pending h =
      wait_for-Current mode form target pending (loading _) refl
  digested-Current kernel file snp form target pending h = measure-Current snp form target pending
  digested-Current initrd file snp form target pending h = measure-Current snp form target pending
  digested-Current kernel file tdx form target pending h = signed (authenticode file) h
    where
      signed :
          (r : Result (List ℕ))
          → elim r as (λ x. Bool) [ ok image ↦ true | err x ↦ false ] ≡ true
          → IsCurrent (elim r as (λ x. Session) [
            | ok image ↦
                wait_for
                  (digesting_tdx kernel image)
                  (record { mode = tdx; form = form; target = target; pending = pending })
            | err x ↦ record { mode = tdx; form = form; target = target; pending = pending }
          ])
      signed (ok image) h' =
          wait_for-Current tdx form target pending (digesting_tdx kernel image) refl
      signed (err x) h' = cc (h')
  digested-Current initrd file tdx form target pending h =
      wait_for-Current tdx form target pending (digesting_tdx initrd file) refl

  resume-Current :
      (mode : Mode) (form : PageForm) (target : Option SessionTarget) (after : List Job) (j : Job)
      → Current mode form target (j ∷ after)
      → is_measurable sha256 sha384 encode_text mode j ≡ true
      → IsCurrent (
          resume sha256 sha384 encode_text j
            (record { mode = mode; form = form; target = target; pending = after }))
  unfolding resume
  resume-Current mode form target after (digesting zone file) c h =
      digested-Current zone file mode (set_hash zone (sha256 file) form) target after h
  resume-Current mode form target after (digesting_tdx zone content) c h =
      measure-Current mode _ target after
  resume-Current mode form target after (loading (ok config)) c h =
      measure-Current mode form (some (config, first_measurement config)) after
  resume-Current mode form target after (loading (err x)) c h = cc (h)
  resume-Current mode form target after (hashing raw) c h = measure-Current mode _ target after
  resume-Current mode form target after (measuring q) c h =
      resolve-Current mode form target after q c

  Step-IsCurrent :
      {s t : Session} → IsCurrent s → Step sha256 sha384 encode_text true s t → IsCurrent t
  unfolding edit edit_append load reset toggle
  Step-IsCurrent c (edits vcpus vcpu_sig memory s) = measure-Current s.mode _ s.target s.pending
  Step-IsCurrent c (edits_append append raw s) =
      wait_for-Current s.mode _ s.target s.pending (hashing _) refl
  Step-IsCurrent c (loads zone file s) =
      wait_for-Current s.mode s.form s.target s.pending (digesting zone file) refl
  Step-IsCurrent c (resets s) = tt
  Step-IsCurrent c (toggles s) = tt
  Step-IsCurrent c (finishes before after j s h o) =
      let (none_before, measurable) = o refl in
      let all : s.pending ≡ j ∷ after = cc (h, none_before) in
      let first : before ++ after ≡ after = ap (λ x. x ++ after) none_before in
      subst (λ x. IsCurrent (resume sha256 sha384 encode_text j (record s { pending = x })))
        (sym first)
        (resume-Current s.mode s.form s.target after j
          (subst (Current s.mode s.form s.target) all c) measurable)

  Reachable-IsCurrent : {s : Session} → Reachable sha256 sha384 encode_text true s → IsCurrent s
  Reachable-IsCurrent (starts form) = tt
  Reachable-IsCurrent (continues r step) = Step-IsCurrent (Reachable-IsCurrent r) step

  settled :
      (mode : Mode) (form : PageForm) (target : Option SessionTarget) (pending : List Job)
      (config : FirmwareMeasurement) (m : Option Measured) (v : Measured)
      → Current mode form target pending
      → pending ≡ []
      → target ≡ some (config, m)
      → ready mode form ≡ true
      → run_measure sha256 sha384 encode_text mode form config ≡ ok v
      → m ≡ some v
  settled mode form target pending config m v c e t k r =
      let latest = subst (λ x. Current mode form x pending) t c k in
      elim latest [
        | inl w ↦
            let w' : some_lead_on [] ≡ true = subst (λ x. some_lead_on x ≡ true) e w in cc (w')
        | inr (inl ([], h)) ↦ cc (h, e)
        | inr (inl (p ∷ ps, h)) ↦ cc (h, e)
        | inr (inr (_, f)) ↦ f v r
      ]

  -- If what the handlers wait for ends in the order in which it was started, and each file that is
  -- dropped can be measured: whenever nothing is left to wait for, the form is complete and the
  -- measurement of the form for the target succeeds, the target has that measurement, whatever
  -- inputs, files, resets and switches of the mode came before, also while others were waited for.
  pub measure_settled :
      {s : Session} (config : FirmwareMeasurement) (m : Option Measured) (v : Measured)
      → Reachable sha256 sha384 encode_text true s
      → s.pending ≡ []
      → s.target ≡ some (config, m)
      → ready s.mode s.form ≡ true
      → run_measure sha256 sha384 encode_text s.mode s.form config ≡ ok v
      → m ≡ some v
  measure_settled {s} config m v r e t k h =
      settled s.mode s.form s.target s.pending config m v (Reachable-IsCurrent r) e t k h
