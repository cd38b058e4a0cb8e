-- ===== src/Page/Quoted.antt =====
-- What `verify` reports in TDX mode: bytes of the input that the quote's signature covers.
use sylica.Base.{
  ok-injective, ℕ, ◌+◌, ◌≤◌, ◌≡◌, refl, sym, ap, ◌∙◌, ◌↔◌, subst, List, true, Option, none, some,
  take, drop, IsBytes, same_bytes→eq, same_bytes_refl, ok, >>=-eq-ok, guard-eq-ok,
}
use sylica.Ctype.{member, number, byte_array}
use sylica.Quote.{TdxQuote, check_quote}
use sylica.Pem.{Readers}
use sylica.Verify.{QuoteServices, verify_quote}
use sylica.Verify.Accepted.{verify_quote_steps}
use sylica.Page.{Target, matches_ovmf_hash, verify_tdx}
use sylica.Quote.RoundTrip.{check_quote-eq-unpack_quote}
use sylica.Page.MrTd.{mr_td_offset}
use sylica.Page.SignedPart.{quote-HasMrTd}

matches_ovmf_hash_iff :
    (target : Option Target) (received : List ℕ)
    → (matches_ovmf_hash target received ≡ true)
      ↔ ((t : Target) × (target ≡ some t) × (t.ovmf_hash ≡ received))
unfolding matches_ovmf_hash
matches_ovmf_hash_iff none received = (λ h. cc (h), λ (t, e, _). cc (e))
matches_ovmf_hash_iff (some t) received = (
  λ h. (t, refl, sym (same_bytes→eq received t.ovmf_hash h)),
  λ (t', e, h). let same : t.ovmf_hash ≡ received = cc (e, h) in rw same (same_bytes_refl received),
)

-- Of a file of bytes in TDX mode, `verify` reports a measurement exactly when the file is parsed as a
-- quote, `verifyQuote` accepts the quote, whose signed part is a first part of the file, and the
-- measurement stands in this part, from byte 184 on in version 4 and from byte 190 on in version 5,
-- and is the one that the page has computed for its target.
pub verify_tdx_iff :
    (r : Readers) (k : QuoteServices r) (target : Option Target) (buf m : List ℕ)
    → IsBytes buf
    → (verify_tdx r k target buf ≡ ok m) ↔ (
        (q : TdxQuote) × (check_quote buf ≡ ok q)
        × (verify_quote r k q ≡ ok q)
        × ((end : ℕ) × (q.raw_report_for_signature ≡ take end buf)
            × (mr_td_offset (number (member "version" q.header)) + 48 ≤ end))
        × (m ≡ take 48 (drop (mr_td_offset (number (member "version" q.header))) buf))
        × ((t : Target) × (target ≡ some t) × (t.ovmf_hash ≡ m)))
unfolding verify_tdx
verify_tdx_iff r k target buf m b = (
  λ h.
      let (q, c, h₁) = >>=-eq-ok (check_quote buf) _ h in
      let (q', v, h₂) = >>=-eq-ok (verify_quote r k q) _ h₁ in
      let (matched, h₃) = guard-eq-ok _ _ _ h₂ in
      let same : byte_array (member "mr_td" q.body) ≡ m = ok-injective h₃ in
      let (end, raw, (at, fits)) =
        quote-HasMrTd buf q b (sym (check_quote-eq-unpack_quote buf b) ∙ c) in
      let (unchanged, _) = (verify_quote_steps r k q q').0 v in
      (
        q,
        c,
        v ∙ ap ok unchanged,
        (end, raw, fits),
        sym same ∙ at,
        (matches_ovmf_hash_iff target m).0
            (subst (λ x. matches_ovmf_hash target x ≡ true) same matched),
      ),
  λ (q, c, v, _, e, matched).
      let (end, raw, (at, fits)) =
        quote-HasMrTd buf q b (sym (check_quote-eq-unpack_quote buf b) ∙ c) in
      let same : byte_array (member "mr_td" q.body) ≡ m = at ∙ sym e in
      rw (c, v, same, (matches_ovmf_hash_iff target m).1 matched) refl,
)
