-- ===== src/Types/Hashes.antt =====
-- tools/measure-browser/static/types.js: the table of kernel hashes.
use sylica.Ctype.{
  Fields, end, ◌▸◌, custom_sized, inherited, no_default_constructor, sized, struct, typed, u16,
}
use sylica.Types.Ovmf.{guid_le}
use sylica.Base.{◌+◌, ◌-◌, ◌*◌, ◌/◌}

-- `SevHashTableEntry`
abbrev pub sev_hash_table_entry : Fields
sev_hash_table_entry =
    typed "guid" (struct no_default_constructor guid_le)
    ▸ typed "length" u16
    ▸ custom_sized "hash" 32
    ▸ end

-- `SevHashTable`
abbrev pub sev_hash_table : Fields
sev_hash_table =
    typed "guid" (struct no_default_constructor guid_le)
    ▸ typed "length" u16
    ▸ typed "cmdline" (struct inherited sev_hash_table_entry)
    ▸ typed "initrd" (struct inherited sev_hash_table_entry)
    ▸ typed "kernel" (struct inherited sev_hash_table_entry)
    ▸ end

-- `PaddedSevHashTable`
abbrev pub padded_sev_hash_table : Fields
padded_sev_hash_table =
    typed "ht" (struct inherited sev_hash_table)
    ▸ sized "padding" ((168 + 15) / 16 * 16 - 168)
    ▸ end
