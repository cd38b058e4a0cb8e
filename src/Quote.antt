-- ===== src/Quote.antt =====
-- tools/measure-browser/static/types.js, the class `TdxQuote`: a TDX quote is read piece by piece
-- and written again. index.js checks each parsed quote against the input (`check_quote`).
pub mod Parts
pub mod Body
pub mod Certification
pub mod RoundTrip
use sylica.Base.{
  ℕ, ◌+◌, List, [], ◌∷◌, ◌++◌, Bool, true, false, ◌&&◌, Option, none, some, String, ◌==◌,
  if◌then◌else◌, length, slice, Result, ok, err, ◌>>=◌, ◌>>◌, guard, unsupported_quote_version,
  unsupported_certification, unsupported_body, broken_parser, join, same_bytes,
}
use sylica.Ctype.{inherited, Fields, Value, undefined, object, member, number, is_number}
use sylica.Ctype.Size.{ctype_size}
use sylica.Ctype.Unpack.{unpack}
use sylica.Ctype.Pack.{pack}
use sylica.Types.Tdx.{
  tdx_quote_header, td_quote_body_descriptor, td_quote_body_v4, td_quote_body_v5, enclave_report,
  certification_data_header, ecdsa_signature_data, qe_report_cert_data,
}

-- A member that was not assigned is `undefined`, or `none`.
pub record TdxQuote : Type 0 where
  pub header : Value
  pub descriptor : Value
  pub body : Value
  pub raw_report_for_signature : List ℕ
  pub sig_data : Value
  pub cert_header : Value
  pub qe_cert_data : Value
  pub raw_qe_report_bytes : Option (List ℕ)
  pub qe_auth_data : Option (List ℕ)
  pub pck_cert_header : Value
  pub pck_cert_chain_raw : Option (List ℕ)

-- `Class.unpack(data.slice(offset, offset + ctype.size(Class)))`, and the offset behind it.
unfoldable pub unpack_at : Fields → List ℕ → ℕ → Result (Value × ℕ)
unpack_at fields data_bytes offset = do
  n ← ctype_size fields
  v ← unpack inherited fields (slice data_bytes offset (offset + n))
  ok (v, offset + n)

-- The body of a version 5 quote: `bodyType` and `bodySize` are the descriptor's.
unfoldable pub unpack_body_v5 : ℕ → ℕ → List ℕ → ℕ → Result Value
unpack_body_v5 body_type body_size data_bytes offset = do
  size_v4 ← ctype_size td_quote_body_v4
  size_v5 ← ctype_size td_quote_body_v5
  (if body_type == 2 && body_size == size_v4
      then unpack inherited td_quote_body_v4 (slice data_bytes offset (offset + body_size))
      else (if body_type == 3 && body_size == size_v5
          then unpack inherited td_quote_body_v5 (slice data_bytes offset (offset + body_size))
          else err (unsupported_body body_type body_size)))

-- The branch on `version`: the descriptor, the body and the offset behind the body.
unfoldable pub unpack_body : ℕ → List ℕ → ℕ → Result (Value × Value × ℕ)
unfolding unpack_at unpack_body_v5
unpack_body version data_bytes offset =
    if version == 4
    then (do
      (body, offset') ← unpack_at td_quote_body_v4 data_bytes offset
      ok (undefined, body, offset'))
    else (if version == 5
        then (do
          (descriptor, offset') ← unpack_at td_quote_body_descriptor data_bytes offset
          let body_size = number (member "size" descriptor)
          body ← unpack_body_v5 (number (member "type" descriptor)) body_size data_bytes offset'
          ok (descriptor, body, offset' + body_size))
        else err (unsupported_quote_version version))

-- What the certification data of each type assigns: from the quote so far and the offset.
unfoldable pub unpack_certification : TdxQuote → List ℕ → ℕ → Result TdxQuote
unfolding unpack_at
unpack_certification quote data_bytes offset =
    let cert_type = number (member "type" quote.cert_header) in
    if cert_type == 6
    then (do
      (qe_cert_data, offset₁) ← unpack_at qe_report_cert_data data_bytes offset
      report_size ← ctype_size enclave_report
      let auth_data_size = number (member "qe_auth_data_size" qe_cert_data)
      let offset₂ = offset₁ + auth_data_size
      (pck_cert_header, offset₃) ← unpack_at certification_data_header data_bytes offset₂
      let size = number (member "size" pck_cert_header)
      ok (record quote {
        qe_cert_data = qe_cert_data;
        raw_qe_report_bytes = some (slice data_bytes offset (offset + report_size));
        qe_auth_data = some (slice data_bytes offset₁ offset₂);
        pck_cert_header = pck_cert_header;
        pck_cert_chain_raw = some (slice data_bytes offset₃ (offset₃ + size));
      }))
    else (if cert_type == 5
        then (let size = number (member "size" quote.cert_header) in
            ok (record quote {
              pck_cert_chain_raw = some (slice data_bytes offset (offset + size));
            }))
        else err (unsupported_certification cert_type))

-- `TdxQuote.unpack(data)`
unfoldable pub unpack_quote : List ℕ → Result TdxQuote
unfolding unpack_at unpack_body unpack_certification
unpack_quote data_bytes = do
  header ← unpack inherited tdx_quote_header data_bytes
  offset₀ ← ctype_size tdx_quote_header
  (descriptor, body, offset₁) ← unpack_body (number (member "version" header)) data_bytes offset₀
  (sig_data, offset₂) ← unpack_at ecdsa_signature_data data_bytes offset₁
  (cert_header, offset₃) ← unpack_at certification_data_header data_bytes offset₂
  unpack_certification
      (record {
        header = header;
        descriptor = descriptor;
        body = body;
        raw_report_for_signature = slice data_bytes 0 offset₁;
        sig_data = sig_data;
        cert_header = cert_header;
        qe_cert_data = undefined;
        raw_qe_report_bytes = none;
        qe_auth_data = none;
        pck_cert_header = undefined;
        pck_cert_chain_raw = none;
      })
      data_bytes offset₃

-- An entry of `parts` behind `.filter(Boolean)`: what is undefined is left out.
unfoldable pub part : Value → Result (List (List ℕ))
part undefined = ok []
part v = do bs ← pack v; ok (bs ∷ [])

unfoldable pub raw_part : Option (List ℕ) → List (List ℕ)
raw_part none = []
raw_part (some bs) = bs ∷ []

-- `certParts`
unfoldable pub cert_parts : TdxQuote → Result (List (List ℕ))
unfolding part raw_part
cert_parts quote =
    if is_number (member "type" quote.cert_header) 6
    then (do
      a ← part quote.qe_cert_data
      b ← part quote.pck_cert_header
      ok (a ++ (raw_part quote.qe_auth_data ++ (b ++ raw_part quote.pck_cert_chain_raw))))
    else (if is_number (member "type" quote.cert_header) 5
        then ok (raw_part quote.pck_cert_chain_raw)
        else ok [])

-- `pack()` of a quote.
unfoldable pub pack_quote : TdxQuote → Result (List ℕ)
unfolding cert_parts part
pack_quote quote = do
  certs ← cert_parts quote
  header ← part quote.header
  descriptor ←
      (if is_number (member "version" quote.header) 5 then part quote.descriptor else ok [])
  body ← part quote.body
  sig_data ← part quote.sig_data
  cert_header ← part quote.cert_header
  join (header ++ (descriptor ++ (body ++ (sig_data ++ (cert_header ++ certs)))))

-- index.js, `verify`, in TDX mode: the quote is parsed, and packed again for a comparison.
unfoldable pub check_quote : List ℕ → Result TdxQuote
unfolding unpack_quote pack_quote
check_quote data_bytes = do
  quote ← unpack_quote data_bytes
  packed ← pack_quote quote
  guard (same_bytes packed (slice data_bytes 0 (length packed))) broken_parser
  ok quote
