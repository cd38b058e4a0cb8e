-- ===== src/Types/Ccel.antt =====
-- tools/measure-browser/static/types.js: the structures of the CCEL event log.
use sylica.Ctype.{Fields, end, ◌▸◌, sized, typed, u16, u32, u8}

-- `TcgPcrEventHeader`
abbrev pub tcg_pcr_event_header : Fields
tcg_pcr_event_header =
    typed "pcr_index" u32
    ▸ typed "event_type" u32
    ▸ sized "digest" 20
    ▸ typed "event_data_size" u32
    ▸ end

-- `TcgEfiSpecIdEventHeader`
abbrev pub tcg_efi_spec_id_event_header : Fields
tcg_efi_spec_id_event_header =
    sized "signature" 16
    ▸ typed "platform_class" u32
    ▸ typed "spec_version_minor" u8
    ▸ typed "spec_version_major" u8
    ▸ typed "spec_version_errata" u8
    ▸ typed "uint8_size" u8
    ▸ typed "number_of_algorithms" u32
    ▸ end

-- `TcgEfiSpecIdEventAlgorithmSize`
abbrev pub tcg_efi_spec_id_event_algorithm_size : Fields
tcg_efi_spec_id_event_algorithm_size = typed "algorithm_id" u16 ▸ typed "digest_size" u16 ▸ end

-- `TcgPcrEvent2Header`
abbrev pub tcg_pcr_event2_header : Fields
tcg_pcr_event2_header =
    typed "pcr_index" u32 ▸ typed "event_type" u32 ▸ typed "digest_count" u32 ▸ end
