-- ===== src/Types/Ovmf.antt =====
-- tools/measure-browser/static/types.js: the structures of the firmware image.
use sylica.Ctype.{Fields, end, ◌▸◌, custom_sized, typed, u16, u32}

-- `OvmfSevMetadataSectionDesc`
abbrev pub ovmf_sev_metadata_section_desc : Fields
ovmf_sev_metadata_section_desc = typed "gpa" u32 ▸ typed "size" u32 ▸ typed "type" u32 ▸ end

-- `OvmfSevMetadataHeader`
abbrev pub ovmf_sev_metadata_header : Fields
ovmf_sev_metadata_header =
    custom_sized "signature" 4
    ▸ typed "size" u32
    ▸ typed "version" u32
    ▸ typed "num_items" u32
    ▸ end

-- `OvmfFooterTableEntry`
abbrev pub ovmf_footer_table_entry : Fields
ovmf_footer_table_entry = typed "size" u16 ▸ custom_sized "guid" 16 ▸ end

-- `GuidLe`
abbrev pub guid_le : Fields
guid_le = custom_sized "data" 16 ▸ end
