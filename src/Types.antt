-- ===== src/Types.antt =====
-- tools/measure-browser/static/types.js: the classes of the binary structures, by their FIELDS.
pub mod Ovmf
pub mod Hashes
pub mod SaveArea
pub mod Snp
pub mod Tdx
pub mod Ccel
