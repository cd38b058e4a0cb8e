-- ===== src/Base/Errors.antt =====
-- Exceptions as values: what the scripts throw themselves, and what the JavaScript runtime throws.
use Prim.Native.Nat.{ℕ}
use mathlib.Core.Path.{◌≡◌, refl}
use mathlib.Core.Bool.{Bool, true, false}
use mathlib.Core.Logic.{◌≢◌, ◌⊎◌, inl, inr}

pub data Error : Type 0 where
  -- Thrown by the runtime: an access out of range, a wrong kind of value, text that is no number.
  range_error type_error syntax_error : Error
  -- Thrown by tools/measure-browser/static/binutil.js.
  invalid_value invalid_type invalid_size missing_field missing_mz missing_pe : Error
  -- Thrown by tools/measure-browser/static/types.js.
  unsupported_quote_version unsupported_certification : ℕ → Error
  unsupported_body : ℕ → ℕ → Error
  unknown_algorithm unknown_event_type : ℕ → Error
  -- Thrown by tools/measure-browser/static/measure.js.
  invalid_length invalid_table_length missing_cfv_section missing_sev_hashes missing_reset_block :
      Error
  missing_sev_metadata wrong_sev_signature wrong_sev_version missing_tdx_metadata : Error
  invalid_tdvf_descriptor unsupported_tdvf_version : Error
  invalid_footer_guid invalid_footer_table_size invalid_entry_size : Error
  unknown_section : ℕ → Error
  -- Thrown by tools/measure-browser/static/verify.js.
  unsupported_version unsupported_signature_algorithm unsupported_signer unsupported_product : Error
  unverified_ask unverified_crl revoked_ask invalid_crl unverified_vcek unverified_report : Error
  unsupported_tee_type unsupported_key_type unverified_quote mismatched_key unverified_qe : Error
  no_certificates empty_chain mismatched_root unverified_chain : Error
  -- Thrown by tools/measure-browser/static/index.js.
  broken_parser wrong_measurement : Error
  -- No exception: a loop of the model has run out of fuel.
  out_of_fuel : Error

-- What a call returns or throws.
pub data Result {ℓ} (Returned : Type ℓ) : Type ℓ where
  ok : Returned → Result Returned
  err : Error → Result Returned

-- `if (!test) throw exception`
abbrev pub guard : (test : Bool) (exception : Error) → Result (Unit {0})
guard false exception = err exception
guard true _ = ok tt

-- One statement behind another: an exception ends the run.
infixl 5 ◌>>=◌
abbrev pub ◌>>=◌ {ℓ κ} :
    {Before : Type ℓ} {After : Type κ} → Result Before → (Before → Result After) → Result After
err exception >>= next = err exception
ok v >>= next = next v

infixl 5 ◌>>◌
abbrev pub ◌>>◌ {κ} : {After : Type κ} → Result (Unit {0}) → Result After → Result After
check >> next = check >>= (λ done. next)

-- Inversion of a step that succeeded.
pub >>=-eq-ok {ℓ κ} :
    {Before : Type ℓ} {After : Type κ} (m : Result Before) (next : Before → Result After)
    {w : After}
    → (m >>= next) ≡ ok w
    → (v : Before) × (m ≡ ok v) × (next v ≡ ok w)
>>=-eq-ok (err exception) next h = cc
>>=-eq-ok (ok v) next h = (v, refl, h)

pub guard-eq-ok {ℓ} :
    {B : Type ℓ} (t : Bool) (e : Error) (k : Result B) {b : B}
    → (guard t e >> k) ≡ ok b
    → (t ≡ true) × (k ≡ ok b)
guard-eq-ok true e k h = (refl, h)
guard-eq-ok false e k h = cc

pub guard-true : (t : Bool) (e : Error) {u : Unit {0}} → guard t e ≡ ok u → t ≡ true
guard-true true e h = refl
guard-true false e h = cc

pub ok-injective {ℓ} : {A : Type ℓ} {a b : A} → ok a ≡ ok b → a ≡ b
ok-injective e = cc

pub Result-cases {ℓ} :
    {A : Type ℓ} (r : Result A) → ((a : A) × (r ≡ ok a)) ⊎ ((e : Error) × (r ≡ err e))
Result-cases (ok a) = inl (a, refl)
Result-cases (err e) = inr (e, refl)

-- An exception that neither a step nor what follows it throws.
pub >>=-ne-err {ℓ κ} :
    {Before : Type ℓ} {After : Type κ} (m : Result Before) (next : Before → Result After)
    (x : Error)
    → m ≢ err x
    → ((v : Before) → m ≡ ok v → next v ≢ err x)
    → (m >>= next) ≢ err x
>>=-ne-err (ok v) next x h k = k v refl
>>=-ne-err (err y) next x h k = λ e. h (cc e)
