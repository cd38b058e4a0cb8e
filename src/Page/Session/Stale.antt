-- ===== src/Page/Session/Stale.antt =====
-- Measurements that end out of order.
use sylica.Base.{List, [], ◌∷◌, ◌≡◌, refl, subst, String, true, false, ℕ, Option, some, ok}
use sylica.Firmware.Measure.{Mode, FirmwareMeasurement, ovmf_measure}
use sylica.Page.Form.{PageForm, bios, ready, set_hash}
use sylica.Page.Session.{
  Measured, SessionTarget, digesting, loading, measuring, Session, resolve, wait_for,
  first_measurement, run_measure, measure, edit, load, digested, resume, edits, loads, finishes,
  Reachable, continues,
}

-- The form when the image has been dropped, and with other numbers.
abbrev pub with_image : (List ℕ → List ℕ) → List ℕ → PageForm → PageForm
with_image sha256 image form = record form { ovmf = sha256 image }

abbrev pub with_numbers : ℕ → String → ℕ → PageForm → PageForm
with_numbers vcpus vcpu_sig memory form = record form {
  vcpus = vcpus;
  vcpu_sig = vcpu_sig;
  memory = memory;
}

module _ (sha256 sha384 : List ℕ → List ℕ) (encode_text : String → List ℕ) where
  -- From any page on which nothing is left to wait for: if an image can be measured, and the form as
  -- it is then and with other numbers can, too, the page can come to show the other numbers, with
  -- nothing left to wait for, and yet hold the measurement of the first form for its target: the
  -- measurement that was started first has ended last.
  pub measure_overtaken :
      (mode : Mode) (form : PageForm) (target : Option SessionTarget) (image : List ℕ)
      (config : FirmwareMeasurement) (vcpus : ℕ) (vcpu_sig : String) (memory : ℕ) (v w : Measured)
      → Reachable sha256 sha384 encode_text false
          (record { mode = mode; form = form; target = target; pending = [] })
      → ovmf_measure sha384 mode image ≡ ok config
      → ready mode (with_image sha256 image form) ≡ true
      → ready mode (with_numbers vcpus vcpu_sig memory (with_image sha256 image form)) ≡ true
      → run_measure sha256 sha384 encode_text mode (with_image sha256 image form) config ≡ ok v
      → run_measure sha256 sha384 encode_text mode
          (with_numbers vcpus vcpu_sig memory (with_image sha256 image form))
          config
        ≡ ok w
      → (s : Session) × Reachable sha256 sha384 encode_text false s
        × (s.mode ≡ mode)
        × (s.pending ≡ [])
        × (s.form ≡ with_numbers vcpus vcpu_sig memory (with_image sha256 image form))
        × (s.target ≡ some (config, some v))
  unfolding edit load measure resolve resume digested wait_for set_hash
  measure_overtaken mode form target image config vcpus vcpu_sig memory v w at₀ o r₁ r₂ e₁ e₂ =
      let first : PageForm = with_image sha256 image form in
      let second : PageForm = with_numbers vcpus vcpu_sig memory first in
      let m₀ = first_measurement config in
      let s₀ : Session = record { mode = mode; form = form; target = target; pending = [] } in
      let s₁ : Session = record s₀ { pending = digesting bios image ∷ [] } in
      let s₂ : Session = record {
        mode = mode;
        form = first;
        target = target;
        pending = loading (ok config) ∷ [];
      } in
      let s₃ : Session = record {
        mode = mode;
        form = first;
        target = some (config, m₀);
        pending = measuring (ok v) ∷ [];
      } in
      let s₄ : Session = record {
        mode = mode;
        form = second;
        target = some (config, m₀);
        pending = measuring (ok v) ∷ (measuring (ok w) ∷ []);
      } in
      let digested_image : resume sha256 sha384 encode_text (digesting bios image) s₀ ≡ s₂ =
        rw o refl in
      let loaded : resume sha256 sha384 encode_text (loading (ok config))
            (record s₂ { pending = [] })
          ≡ s₃ =
        rw (r₁, e₁) refl in
      let edited : edit sha256 sha384 encode_text vcpus vcpu_sig memory s₃ ≡ s₄ =
        rw (r₂, e₂) refl in
      let IsReached : Session → Type 0 = Reachable sha256 sha384 encode_text false in
      let at₁ : IsReached s₁ = continues at₀ (loads bios image s₀) in
      let at₂ =
        subst IsReached digested_image
          (continues at₁ (finishes [] [] (digesting bios image) s₁ refl (λ h. cc (h)))) in
      let at₃ =
        subst IsReached loaded
          (continues at₂ (finishes [] [] (loading (ok config)) s₂ refl (λ h. cc (h)))) in
      let at₄ = subst IsReached edited (continues at₃ (edits vcpus vcpu_sig memory s₃)) in
      let at₅ =
        continues at₄
          (finishes (measuring (ok v) ∷ []) [] (measuring (ok w)) s₄ refl (λ h. cc (h))) in
      let s₅ : Session = record {
        mode = mode;
        form = second;
        target = some (config, some w);
        pending = measuring (ok v) ∷ [];
      } in
      (
        _,
        continues at₅ (finishes [] [] (measuring (ok v)) s₅ refl (λ h. cc (h))),
        refl,
        refl,
        refl,
        refl,
      )
