-- ===== src/Report/Accepted.antt =====
-- Which reports `verifyReport` accepts.
use sylica.Base.{
  guard-true, ok-injective, ℕ, ◌≡◌, refl, sym, ap, subst, ◌∙◌, ◌↔◌, List, [], ◌∷◌, ◌++◌, Bool, true,
  false, not, ◌||◌, ltb, take, drop, ok, >>=-eq-ok, guard-eq-ok,
}
use mathlib.Core.List.{reverse}
use sylica.Ctype.{member, number, byte_array, is_number}
use sylica.Pem.{begin_marker, Readers, parse_pem}
use sylica.Report.{
  SnpAttestation, Services, Product, is_vcek, product, report_signature, vcek_url, vcek_of,
  cert_chain, crl_of, chain_pieces, first_two, parse_pems, fetch_chain, check_revocation,
  check_signature, verify_report,
}
use sylica.Report.Products.{IsProduct, product-IsProduct, IsProduct-product}
use sylica.Report.Chain.{behind_markers, chain_pieces-eq}

module _ (r : Readers) (k : Services r) where
  open r use {Certificate, decode_text, from_ber}
  open k use {
    Crl, Key, fetch, crl_from_ber, certificate_verify, crl_verify, is_revoked, this_update,
    next_update, now, public_key, verify_signature,
  }

  -- ASK is the first certificate in the text of the product's chain and ARK the second one; other
  -- pieces may follow, and all of them are base64. ARK has signed ASK.
  abbrev pub IsChain : Product → Certificate → Certificate → Type 0
  IsChain p ask ark =
      (raw : List ℕ) × (front : List ℕ) × (ask_pem : List ℕ) × (ark_pem : List ℕ) × (others : List
        (List ℕ))
      × (ask_raw : List ℕ) × (ark_raw : List ℕ) × (others_raw : List (List ℕ)) × (fetch
            (cert_chain p)
          ≡ ok raw)
      × (chain_pieces (decode_text raw) ≡ front ∷ (ask_pem ∷ (ark_pem ∷ others)))
      × (decode_text raw
          ≡ front
            ++ (begin_marker ++ (ask_pem ++ (begin_marker ++ (ark_pem ++ behind_markers others)))))
      × (parse_pem r ask_pem ≡ ok ask_raw)
      × (parse_pem r ark_pem ≡ ok ark_raw)
      × (parse_pems r k others ≡ ok others_raw)
      × (from_ber ask_raw ≡ ok ask)
      × (from_ber ark_raw ≡ ok ark)
      × (certificate_verify ask ark ≡ true)

  -- ARK has signed a list of this day that does not name ASK.
  abbrev pub IsUnrevoked : Product → Certificate → Certificate → Type 0
  IsUnrevoked p ask ark =
      (raw : List ℕ) × (crl : Crl) × (fetch (crl_of p) ≡ ok raw)
      × (crl_from_ber raw ≡ ok crl)
      × (crl_verify crl ark ≡ true)
      × (is_revoked crl ask ≡ false)
      × (ltb now (this_update crl) ≡ false)
      × (ltb (next_update crl) now ≡ false)

  -- The certificate of the chip with this number and these versions is signed by ASK, and its key
  -- verifies the signature, whose halves are stored from their last byte on, over the signed part.
  abbrev pub IsSigned : Product → Certificate → SnpAttestation → Type 0
  IsSigned p ask a =
      (raw : List ℕ) × (chip : Certificate) × (key : Key) × (fetch (
          vcek_of p (byte_array (member "chip_id" a.report))
            (number (member "bootloader" (member "reported_tcb" a.report)))
            (number (member "tee" (member "reported_tcb" a.report)))
            (number (member "snp" (member "reported_tcb" a.report)))
            (number (member "microcode" (member "reported_tcb" a.report))))
        ≡ ok raw)
      × (from_ber raw ≡ ok chip)
      × (certificate_verify chip ask ≡ true)
      × (public_key chip ≡ ok key)
      × (verify_signature key
            (reverse (take 48 (byte_array (member "r" (member "signature" a.report))))
              ++ reverse (take 48 (byte_array (member "s" (member "signature" a.report)))))
            a.raw_report
          ≡ true)

  abbrev pub IsGenuine : SnpAttestation → Type 0
  IsGenuine a =
      (is_number (member "version" a.report) 3 ≡ true)
      × (is_number (member "signature_algorithm" a.report) 1 ≡ true)
      × (is_vcek (member "signing_key" (member "flags" a.report)) ≡ true)
      × ((p : Product) × (ask : Certificate) × (ark : Certificate) × IsProduct
            (member "cpuid" a.report) p
          × IsChain p ask ark
          × IsUnrevoked p ask ark
          × IsSigned p ask a)

  parse_pems-pair :
      (pieces raws : List (List ℕ)) (ask_raw ark_raw : List ℕ)
      → parse_pems r k (drop 1 pieces) ≡ ok raws
      → first_two raws ≡ ok (ask_raw, ark_raw)
      → (front : List ℕ) × (ask_pem : List ℕ) × (ark_pem : List ℕ) × (others : List (List ℕ))
        × (others_raw : List (List ℕ)) × (pieces ≡ front ∷ (ask_pem ∷ (ark_pem ∷ others)))
        × (parse_pem r ask_pem ≡ ok ask_raw)
        × (parse_pem r ark_pem ≡ ok ark_raw)
        × (parse_pems r k others ≡ ok others_raw)
  unfolding parse_pems first_two drop
  parse_pems-pair [] raws a b h f = cc (ap first_two (ok-injective h), f)
  parse_pems-pair (front ∷ []) raws a b h f = cc (ap first_two (ok-injective h), f)
  parse_pems-pair (front ∷ (x ∷ [])) raws a b h f =
      let (x_raw, e, h₁) = >>=-eq-ok (parse_pem r x) _ h in cc (ap first_two (ok-injective h₁), f)
  parse_pems-pair (front ∷ (x ∷ (y ∷ others))) raws a b h f =
      let (x_raw, ex, h₁) = >>=-eq-ok (parse_pem r x) _ h in
      let (tail_raw, et, h₂) = >>=-eq-ok (parse_pems r k (y ∷ others)) _ h₁ in
      let (y_raw, ey, h₃) = >>=-eq-ok (parse_pem r y) _ et in
      let (others_raw, eo, h₄) = >>=-eq-ok (parse_pems r k others) _ h₃ in
      let all : x_raw ∷ (y_raw ∷ others_raw) ≡ raws =
        ap (λ t. x_raw ∷ t) (ok-injective h₄) ∙ ok-injective h₂ in
      let pair : (x_raw, y_raw) ≡ (a, b) = ok-injective (ap first_two all ∙ f) in
      (
        front,
        x,
        y,
        others,
        others_raw,
        refl,
        ex ∙ ap (λ t. ok (t.0)) pair,
        ey ∙ ap (λ t. ok (t.1)) pair,
        eo,
      )

  fetch_chain_iff :
      (p : Product) (ask ark : Certificate)
      → (fetch_chain r k p ≡ ok (ask, ark)) ↔ IsChain p ask ark
  unfolding fetch_chain parse_pems first_two drop
  fetch_chain_iff p ask ark = (
    λ h.
        let (raw, f, h₁) = >>=-eq-ok (fetch (cert_chain p)) _ h in
        let (bers, b, h₂) =
          >>=-eq-ok (parse_pems r k (drop 1 (chain_pieces (decode_text raw)))) _ h₁ in
        let (pair, t, h₃) = >>=-eq-ok (first_two bers) _ h₂ in
        let (ark', ea, h₄) = >>=-eq-ok (from_ber pair.1) _ h₃ in
        let (ask', es, h₅) = >>=-eq-ok (from_ber pair.0) _ h₄ in
        let (v, e) = guard-eq-ok _ _ _ h₅ in
        let same : (ask', ark') ≡ (ask, ark) = ok-injective e in
        let (front, x, y, others, others_raw, pieces, px, py, po) =
          parse_pems-pair (chain_pieces (decode_text raw)) bers pair.0 pair.1 b t in
        (
          raw,
          front,
          x,
          y,
          others,
          pair.0,
          pair.1,
          others_raw,
          f,
          pieces,
          chain_pieces-eq (decode_text raw) front (x ∷ (y ∷ others)) pieces,
          px,
          py,
          po,
          es ∙ ap (λ c. ok (c.0)) same,
          ea ∙ ap (λ c. ok (c.1)) same,
          subst (λ c. certificate_verify c.0 c.1 ≡ true) same v,
        ),
    λ (raw, front, x, y, others, x_raw, y_raw, others_raw, f, pieces, _, px, py, po, es, ea, v).
        rw (f, pieces, px, py, po, ea, es, v) refl,
  )

  not-true : (b : Bool) → not b ≡ true → b ≡ false
  not-true true h = cc
  not-true false h = refl

  or-false : (b c : Bool) → (b || c) ≡ false → (b ≡ false) × (c ≡ false)
  or-false true c h = cc
  or-false false c h = (refl, h)

  check_revocation_iff :
      (p : Product) (ask ark : Certificate)
      → (check_revocation r k p ask ark ≡ ok tt) ↔ IsUnrevoked p ask ark
  unfolding check_revocation
  check_revocation_iff p ask ark = (
    λ h.
        let (raw, f, h₁) = >>=-eq-ok (fetch (crl_of p)) _ h in
        let (crl, c, h₂) = >>=-eq-ok (crl_from_ber raw) _ h₁ in
        let (v, h₃) = guard-eq-ok _ _ _ h₂ in
        let (unrevoked, h₄) = guard-eq-ok _ _ _ h₃ in
        let t = guard-true _ _ h₄ in
        let (early, late) = or-false _ _ (not-true _ t) in
        (raw, crl, f, c, v, not-true _ unrevoked, early, late),
    λ (raw, crl, f, c, v, unrevoked, early, late). rw (f, c, v, unrevoked, early, late) refl,
  )

  check_signature_iff :
      (p : Product) (ask : Certificate) (a : SnpAttestation)
      → (check_signature r k p ask a ≡ ok tt) ↔ IsSigned p ask a
  unfolding check_signature vcek_url report_signature
  check_signature_iff p ask a = (
    λ h.
        let (raw, f, h₁) = >>=-eq-ok (fetch (vcek_url p a.report)) _ h in
        let (chip, c, h₂) = >>=-eq-ok (from_ber raw) _ h₁ in
        let (v, h₃) = guard-eq-ok _ _ _ h₂ in
        let (key, e, h₄) = >>=-eq-ok (public_key chip) _ h₃ in
        (raw, chip, key, f, c, v, e, guard-true _ _ h₄),
    λ (raw, chip, key, f, c, v, e, s). rw (f, c, v, e, s) refl,
  )

  -- `verifyReport` returns no report but the one that it got, and it returns it exactly when: the
  -- version is 3, the signature algorithm 1, and the chip's own key has signed; the family and the
  -- model are those of Milan, Genoa or Turin; in the text of the product's chain the first and the
  -- second certificate are ASK and ARK, and ARK has signed ASK; ARK has signed a revocation list of
  -- this day that does not name ASK; and ASK has signed the certificate of the chip of the report,
  -- in the versions that the report gives, and the key of that certificate verifies the report's
  -- signature, its halves reversed, over the report's signed part.
  pub verify_report_iff :
      (a b : SnpAttestation) → (verify_report r k a ≡ ok b) ↔ ((b ≡ a) × IsGenuine a)
  unfolding verify_report
  verify_report_iff a b = (
    λ h.
        let (version, h₁) = guard-eq-ok _ _ _ h in
        let (algorithm, h₂) = guard-eq-ok _ _ _ h₁ in
        let (signer, h₃) = guard-eq-ok _ _ _ h₂ in
        let (known, h₄) = guard-eq-ok _ _ _ h₃ in
        let p : Product = product (member "cpuid" a.report) in
        let (cs, chain, h₅) = >>=-eq-ok (fetch_chain r k p) _ h₄ in
        let (_, unrevoked, h₆) = >>=-eq-ok (check_revocation r k p cs.0 cs.1) _ h₅ in
        let (_, signed, h₇) = >>=-eq-ok (check_signature r k p cs.0 a) _ h₆ in
        (
          sym (ok-injective h₇),
          (
            version,
            algorithm,
            signer,
            (
              p,
              cs.0,
              cs.1,
              product-IsProduct (member "cpuid" a.report) p refl known,
              (fetch_chain_iff p cs.0 cs.1).0 chain,
              (check_revocation_iff p cs.0 cs.1).0 unrevoked,
              (check_signature_iff p cs.0 a).0 signed,
            ),
          ),
        ),
    λ (same, (version, algorithm, signer, (p, ask, ark, made, chain, unrevoked, signed))).
        let (found, known) = IsProduct-product (member "cpuid" a.report) p made in
        rw
          (
            version,
            algorithm,
            signer,
            found,
            known,
            (fetch_chain_iff p ask ark).1 chain,
            (check_revocation_iff p ask ark).1 unrevoked,
            (check_signature_iff p ask a).1 signed,
          )
          (ap ok (sym same)),
  )
