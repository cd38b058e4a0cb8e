-- ===== src/Report/Products.antt =====
-- types.js, `CpuId.product`: the products that `verifyReport` knows.
use sylica.Base.{ℕ, ◌≡◌, refl, ap, subst, inl, inr, Bool-cases, true, false, ◌==◌, ==_iff}
use sylica.Ctype.{
  Value, undefined, num, flag, bytes, buffer, view, signing_key, object, member, is_number,
}
use sylica.Report.{Product, milan, genoa, turin, unknown, is_known, product}

-- The family and the model of a known product.
abbrev pub IsProduct : Value → Product → Type 0
IsProduct cpuid milan =
    (is_number (member "family" cpuid) 25 ≡ true) × (is_number (member "model" cpuid) 1 ≡ true)
IsProduct cpuid genoa =
    (is_number (member "family" cpuid) 25 ≡ true) × (is_number (member "model" cpuid) 17 ≡ true)
IsProduct cpuid turin =
    (is_number (member "family" cpuid) 26 ≡ true) × (is_number (member "model" cpuid) 2 ≡ true)
IsProduct cpuid unknown = ⊥

pub product-IsProduct :
    (cpuid : Value) (p : Product) → product cpuid ≡ p → is_known p ≡ true → IsProduct cpuid p
unfolding product
product-IsProduct cpuid p e k = elim (Bool-cases (is_number (member "family" cpuid) 25)) [
  | inl f ↦ elim (Bool-cases (is_number (member "model" cpuid) 1)) [
    | inl m ↦ subst (IsProduct cpuid) (rw (product, f, m) at e) (f, m)
    | inr m ↦ elim (Bool-cases (is_number (member "model" cpuid) 17)) [
      | inl g ↦ subst (IsProduct cpuid) (rw (product, f, m, g) at e) (f, g)
      | inr g ↦
          let none_known : unknown ≡ p = rw (product, f, m, g) at e in
          cc (k, ap is_known none_known)
    ]
  ]
  | inr f ↦ elim (Bool-cases (is_number (member "family" cpuid) 26)) [
    | inl t ↦ elim (Bool-cases (is_number (member "model" cpuid) 2)) [
      | inl m ↦ subst (IsProduct cpuid) (rw (product, f, t, m) at e) (t, m)
      | inr m ↦
          let none_known : unknown ≡ p = rw (product, f, t, m) at e in
          cc (k, ap is_known none_known)
    ]
    | inr t ↦
        let none_known : unknown ≡ p = rw (product, f, t) at e in cc (k, ap is_known none_known)
  ]
]

one_number : (v : Value) (m n : ℕ) → (m == n) ≡ false → is_number v m ≡ true → is_number v n ≡ false
unfolding is_number
one_number (num k) m n h e = let same : k ≡ m = (==_iff k m).0 e in rw same h
one_number undefined m n h e = refl
one_number (flag b) m n h e = refl
one_number (bytes b) m n h e = refl
one_number (buffer b) m n h e = refl
one_number (view b) m n h e = refl
one_number (signing_key b) m n h e = refl
one_number (object fields d) m n h e = refl

pub IsProduct-product :
    (cpuid : Value) (p : Product) → IsProduct cpuid p → (product cpuid ≡ p) × (is_known p ≡ true)
unfolding product
IsProduct-product cpuid milan (f, m) = (rw (product, f, m) refl, refl)
IsProduct-product cpuid genoa (f, m) =
    (rw (product, f, m, one_number (member "model" cpuid) 17 1 refl m) refl, refl)
IsProduct-product cpuid turin (f, m) =
    (rw (product, f, m, one_number (member "family" cpuid) 26 25 refl f) refl, refl)
IsProduct-product cpuid unknown h = absurd h
