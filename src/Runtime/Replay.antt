-- ===== src/Runtime/Replay.antt =====
-- index.js, `dump`: the registers that a list of events leads to, whatever the order in which the
-- events of different registers stand.
use sylica.Base.{
  ℕ, zero, suc, ◌<◌, ◌≡◌, refl, ap, ◌∙◌, List, [], ◌∷◌, Bool, false, Option, none, some, ◌==◌,
  if◌then◌else◌, Result, ok, err, arith, All, Bool-cases, inl, inr,
}
use sylica.Ccel.{Event}
use sylica.Runtime.{
  Registers, find_digest, extend, extend_state, extend_register, show_event, replay_event, replay,
}

abbrev pub register : ℕ → Registers → List ℕ
register n s =
    if 0 == n
    then s.rtmr0
    else (if 1 == n
        then s.rtmr1
        else (if 2 == n then s.rtmr2 else (if 3 == n then s.rtmr3 else [])))

abbrev pub goes_to : ℕ → Event → Bool
goes_to n event = elim event.rtmr [ none ↦ false | some m ↦ m == n ]

abbrev pub digest_of : Event → List ℕ
digest_of event = elim (find_digest event.digests) [ err x ↦ [] | ok d ↦ d ]

-- The SHA-384 digests of the events for a register, in their order.
abbrev pub digests_for : ℕ → List Event → List (List ℕ)
digests_for n [] = []
digests_for n (event ∷ rest) =
    let others = digests_for n rest in if goes_to n event then digest_of event ∷ others else others

-- An event that `dump` can replay: for a register, with a SHA-384 digest, and its data readable.
abbrev pub IsReplayable : Event → Type 0
IsReplayable event =
    ((n : ℕ) × (event.rtmr ≡ some n) × (n < 4))
    × ((d : List ℕ) × (find_digest event.digests ≡ ok d))
    × (show_event event ≡ ok tt)

module _ (sha384 : List ℕ → List ℕ) where
  -- A register behind a list of digests.
  abbrev pub extend_all : List ℕ → List (List ℕ) → List ℕ
  extend_all pcr [] = pcr
  extend_all pcr (d ∷ ds) = extend_all (extend sha384 pcr d) ds

  -- Only the register of the event changes.
  extend_register_at :
      (m : ℕ) (s : Registers) (d : List ℕ)
      → m < 4
      → (s' : Registers) × (extend_register sha384 s (some m) d ≡ ok s')
        × ((n : ℕ)
            → register n s' ≡ (if m == n then extend sha384 (register n s) d else register n s))
  unfolding extend_register extend_state extend
  extend_register_at zero s d h =
      (record s { rtmr0 = extend sha384 s.rtmr0 d }, refl, λ n. ground arith)
  extend_register_at (suc zero) s d h =
      (record s { rtmr1 = extend sha384 s.rtmr1 d }, refl, λ n. ground arith)
  extend_register_at (suc (suc zero)) s d h =
      (record s { rtmr2 = extend sha384 s.rtmr2 d }, refl, λ n. ground arith)
  extend_register_at (suc (suc (suc zero))) s d h =
      (record s { rtmr3 = extend sha384 s.rtmr3 d }, refl, λ n. ground arith)
  extend_register_at (suc (suc (suc (suc m)))) s d h = absurd (omega arith)

  replay_event_at :
      (event : Event) (s : Registers)
      → IsReplayable event
      → (s' : Registers) × (replay_event sha384 s event ≡ ok s')
        × ((n : ℕ)
            → register n s' ≡ (
                if goes_to n event
                then extend sha384 (register n s) (digest_of event)
                else register n s))
  unfolding replay_event
  replay_event_at event s ((m, r, h), (d, f), shown) =
      let (s', e, each) = extend_register_at m s d h in
      let g = λ (n : ℕ).
        ap (λ (x : Option ℕ). elim x as (λ _. Bool) [ none ↦ false | some k ↦ k == n ]) r in
      let v : digest_of event ≡ d =
        ap (λ (x : Result (List ℕ)). elim x as (λ _. List ℕ) [ err y ↦ [] | ok k ↦ k ]) f in
      (s', simp (f, r, e, shown) refl, λ n. rw (g n, v) (each n))

  extend_all_if :
      (n : ℕ) (event : Event) (rest : List Event) (s : Registers)
      → extend_all
          (if goes_to n event then extend sha384 (register n s) (digest_of event) else register n s)
          (digests_for n rest)
        ≡ extend_all (register n s) (digests_for n (event ∷ rest))
  extend_all_if n event rest s = elim (Bool-cases (goes_to n event)) [
    | inl e ↦ rw e refl
    | inr e ↦ rw e refl
  ]

  pub replay_registers :
      (events : List Event) (s : Registers)
      → All IsReplayable events
      → (s' : Registers) × (replay sha384 events s ≡ ok s')
        × ((n : ℕ) → register n s' ≡ extend_all (register n s) (digests_for n events))
  unfolding replay
  replay_registers [] s h = (s, refl, λ n. refl)
  replay_registers (event ∷ rest) s (h, hs) =
      let (s₁, e₁, each₁) = replay_event_at event s h in
      let (s₂, e₂, each₂) = replay_registers rest s₁ hs in
      (s₂, rw (e₁) e₂, λ n. each₂ n ∙ rw (each₁ n) (extend_all_if n event rest s))
