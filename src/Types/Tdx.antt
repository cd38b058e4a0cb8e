-- ===== src/Types/Tdx.antt =====
-- tools/measure-browser/static/types.js: the parts of a TDX quote.
use sylica.Ctype.{Fields, end, ◌▸◌, inherited, sized, struct, typed, u16, u32}

-- `TdxQuoteHeader`
abbrev pub tdx_quote_header : Fields
tdx_quote_header =
    typed "version" u16
    ▸ typed "attestation_key_type" u16
    ▸ typed "tee_type" u32
    ▸ sized "pce_svn" 2
    ▸ sized "qe_svn" 2
    ▸ sized "qe_vendor_id" 16
    ▸ sized "user_data" 20
    ▸ end

-- `TdQuoteBodyDescriptor`
abbrev pub td_quote_body_descriptor : Fields
td_quote_body_descriptor = typed "type" u16 ▸ typed "size" u32 ▸ end

-- `TdQuoteBodyV4`
abbrev pub td_quote_body_v4 : Fields
td_quote_body_v4 =
    sized "tee_tcb_svn" 16
    ▸ sized "mr_seam" 48
    ▸ sized "mr_signer_seam" 48
    ▸ sized "seam_attributes" 8
    ▸ sized "td_attributes" 8
    ▸ sized "xfam" 8
    ▸ sized "mr_td" 48
    ▸ sized "mr_config_id" 48
    ▸ sized "mr_owner" 48
    ▸ sized "mr_owner_config" 48
    ▸ sized "rtmr0" 48
    ▸ sized "rtmr1" 48
    ▸ sized "rtmr2" 48
    ▸ sized "rtmr3" 48
    ▸ sized "report_data" 64
    ▸ end

-- `TdQuoteBodyV5`: the fields of `TdQuoteBodyV4` and two more.
abbrev pub td_quote_body_v5 : Fields
td_quote_body_v5 =
    sized "tee_tcb_svn" 16
    ▸ sized "mr_seam" 48
    ▸ sized "mr_signer_seam" 48
    ▸ sized "seam_attributes" 8
    ▸ sized "td_attributes" 8
    ▸ sized "xfam" 8
    ▸ sized "mr_td" 48
    ▸ sized "mr_config_id" 48
    ▸ sized "mr_owner" 48
    ▸ sized "mr_owner_config" 48
    ▸ sized "rtmr0" 48
    ▸ sized "rtmr1" 48
    ▸ sized "rtmr2" 48
    ▸ sized "rtmr3" 48
    ▸ sized "report_data" 64
    ▸ sized "tee_tcb_svn2" 16
    ▸ sized "mr_service_td" 48
    ▸ end

-- `EnclaveReport`
abbrev pub enclave_report : Fields
enclave_report =
    sized "cpu_svn" 16
    ▸ typed "misc_select" u32
    ▸ sized "reserved1" 28
    ▸ sized "attributes" 16
    ▸ sized "mr_enclave" 32
    ▸ sized "reserved2" 32
    ▸ sized "mr_signer" 32
    ▸ sized "reserved3" 96
    ▸ typed "isv_prod_id" u16
    ▸ typed "isv_svn" u16
    ▸ sized "reserved4" 60
    ▸ sized "report_data" 64
    ▸ end

-- `Ecdsa256Signature`
abbrev pub ecdsa256_signature : Fields
ecdsa256_signature = sized "r" 32 ▸ sized "s" 32 ▸ end

-- `Ecdsa256PublicKey`
abbrev pub ecdsa256_public_key : Fields
ecdsa256_public_key = sized "x" 32 ▸ sized "y" 32 ▸ end

-- `CertificationDataHeader`
abbrev pub certification_data_header : Fields
certification_data_header = typed "type" u16 ▸ typed "size" u32 ▸ end

-- `EcdsaSignatureData`
abbrev pub ecdsa_signature_data : Fields
ecdsa_signature_data =
    typed "signed_data_size" u32
    ▸ typed "signature" (struct inherited ecdsa256_signature)
    ▸ typed "attestation_key" (struct inherited ecdsa256_public_key)
    ▸ end

-- `QeReportCertData`
abbrev pub qe_report_cert_data : Fields
qe_report_cert_data =
    typed "qe_report" (struct inherited enclave_report)
    ▸ typed "qe_report_signature" (struct inherited ecdsa256_signature)
    ▸ typed "qe_auth_data_size" u16
    ▸ end
