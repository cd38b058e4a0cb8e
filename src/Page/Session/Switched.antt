-- ===== src/Page/Session/Switched.antt =====
-- A switch of the mode while an image is measured.
use sylica.Base.{
  List, [], ◌∷◌, ◌≡◌, refl, subst, String, Bool-cases, inl, inr, true, ℕ, Option, none, some, ok,
}
use sylica.Firmware.Measure.{Mode, FirmwareMeasurement, ovmf_measure}
use sylica.Page.Form.{PageForm, bios, ready, other_mode, reset_form, set_hash}
use sylica.Page.Session.{
  SessionTarget, Job, digesting, loading, Session, reset, toggle, wait_for, first_measurement,
  measure, load, digested, resume, loads, toggles, finishes, Reachable, continues,
}

module _ (sha256 sha384 : List ℕ → List ℕ) (encode_text : String → List ℕ) where
  -- `measure` may start a computation, and changes nothing else.
  measure-same :
      (mode : Mode) (form : PageForm) (target : Option SessionTarget) (pending : List Job)
      → (let s : Session =
            measure sha256 sha384 encode_text
              (record { mode = mode; form = form; target = target; pending = pending }) in
          (s.mode ≡ mode) × (s.target ≡ target))
  unfolding measure wait_for
  measure-same mode form none pending = (refl, refl)
  measure-same mode form (some t) pending = elim (Bool-cases (ready mode form)) [
    | inl e ↦ rw e (refl, refl)
    | inr e ↦ rw e (refl, refl)
  ]

  -- From any page on which nothing is left to wait for, and for every image that can be measured in
  -- the page's mode: though everything ends in the order in which it was started, the page can come
  -- to be in the other mode with this measurement of the image, made for the first mode, as its
  -- target: the mode was switched, which takes the target away, before the image was measured.
  pub mode_switched :
      (mode : Mode) (form : PageForm) (target : Option SessionTarget) (image : List ℕ)
      (config : FirmwareMeasurement)
      → Reachable sha256 sha384 encode_text true
          (record { mode = mode; form = form; target = target; pending = [] })
      → ovmf_measure sha384 mode image ≡ ok config
      → (s : Session) × Reachable sha256 sha384 encode_text true s
        × (s.mode ≡ other_mode mode)
        × (s.target ≡ some (config, first_measurement config))
  unfolding load toggle reset wait_for resume digested set_hash
  mode_switched mode form target image config at₀ o =
      let first : PageForm = record form { ovmf = sha256 image } in
      let s₀ : Session = record { mode = mode; form = form; target = target; pending = [] } in
      let s₁ : Session = record s₀ { pending = digesting bios image ∷ [] } in
      let s₂ : Session = record {
        mode = mode;
        form = first;
        target = target;
        pending = loading (ok config) ∷ [];
      } in
      let s₃ : Session = record {
        mode = other_mode mode;
        form = reset_form (other_mode mode) first;
        target = none;
        pending = loading (ok config) ∷ [];
      } in
      let digested_image : resume sha256 sha384 encode_text (digesting bios image) s₀ ≡ s₂ =
        rw o refl in
      let IsReached : Session → Type 0 = Reachable sha256 sha384 encode_text true in
      let at₁ : IsReached s₁ = continues at₀ (loads bios image s₀) in
      let at₂ =
        subst IsReached digested_image
          (continues at₁ (finishes [] [] (digesting bios image) s₁ refl (λ h. (refl, refl)))) in
      let at₃ : IsReached s₃ = continues at₂ (toggles s₂) in
      let (same_mode, same_target) =
        measure-same (other_mode mode) (reset_form (other_mode mode) first)
          (some (config, first_measurement config)) [] in
      (
        _,
        continues at₃ (finishes [] [] (loading (ok config)) s₃ refl (λ h. (refl, refl))),
        same_mode,
        same_target,
      )
