-- ===== src/Lib.antt =====
-- The measurement page of Sylica (tools/measure-browser/static): a browser page that computes the
-- launch measurement of a confidential guest and verifies its attestation evidence.
--
-- The parts of the program and the files that model them:
-- - Base: bytes, slices of buffers, little-endian numbers (DataView, Uint8Array), exceptions as a
--   result type, positions in a buffer (Cursor), and lemmas on lists. A byte array or a buffer is
--   a list of bytes.
-- - Ctype: tools/measure-browser/static/binutil.js, the class `ctype` with `size`, `set`, `value`,
--   `pack` and `unpack`. A class is a schema (its FIELDS), an instance the schema with its
--   members. Layout tells which schemas are plain; RoundTrip joins what Reading, Writing and
--   Truncated show. Filled describes classes of numbers and arrays by their content, Located finds
--   an array's place.
-- - Types: the FIELDS of every class of tools/measure-browser/static/types.js.
-- - Quote: types.js, `TdxQuote.unpack` and `pack`, and the comparison of index.js, `verify`.
-- - Launch: tools/measure-browser/static/measure.js, the classes `GCTX` (Launch), `SevHashes`
--   (Hashes) and `VMSA` (Vmsa) and the function `snp_measure` (Snp). Pages states the digest of
--   the specification, Entries and Table the page of hashes, Areas the save areas, Digest the
--   whole.
-- - Memory: measure.js, the part of `tdx_measure` that tracks accepted memory and builds the
--   blocks (HOB) that the guest's firmware hands over.
-- - Firmware: measure.js, `ovmf_measure` (Measure): the footer and the table of GUIDs, where Walk
--   is about well-formed images and Fuel about any image; `ovmf_measure_snp` (Sev, SevMetadata);
--   `ovmf_measure_tdx` (Tdvf, TdvfMetadata), with its digest as a list of operations (Stream);
--   Guest joins `ovmf_measure_snp` and `snp_measure`.
-- - Variables: binutil.js, `encodeUtf16LE` and `efiVariable`, the records of EFI variables.
-- - Ccel: types.js, `CcelEventLog.unpack` and `pack` and `eventType`; index.js, the comparison in
--   `dump`. Format describes a log by its content; Reading, Opening and Writing follow the code.
-- - Runtime: measure.js, `measureVariables` and the registers of `tdx_measure` (Predicted);
--   index.js, the replay of an event log in `dump` (Replay).
-- - Report: types.js, `SnpAttestation.unpack` and `CpuId.product`; index.js, the check of a parsed
--   report; verify.js, `verifyReport` (Accepted), with the text of the chain (Chain) and the known
--   products (Products). Policy is about the flags of a guest policy.
-- - Pem: verify.js, `parsePem` and `extractCertsFromPemChain` (Chain), and the search's fuel
--   (Fuel).
-- - Verify: verify.js, `verifyQuote` and `verifyPckCertChain`: Accepted follows its steps, Signed
--   says what they bind.
-- - Page: index.js, `verify` (Page; Measured for reports, Quoted, MrTd and SignedPart for quotes),
--   the values of its form (Form), and the handlers that share mode, form and target (Session):
--   the start of a handler is a step, and so is the end of each hash, image or measurement that it
--   waits for. Current and Drained are about what ends in order, Stale about other orders,
--   Switched about a switch of the mode while an image is measured.
-- - Authenticode: binutil.js, `authenticode`: the bytes of a PE image that its signature covers.
-- - Examples: the theorems at concrete inputs, and tests.
-- The page reads a firmware image (Firmware) and form values and measures them (Launch, Memory,
-- Runtime), or reads evidence, parses it (Quote, Report, Ccel, all on Ctype) and verifies it
-- (Report, Pem, Verify, Page) against the measurement of its target.
--
-- Numbers are exact where the source's are; setters of a DataView wrap around; the 64-bit numbers
-- of a TDVF section are rounded to doubles, and the sums of addresses are exact, as the source's
-- are below 2 ^ 53. Images are shorter than 4 GiB. SHA-384 is a parameter, whose results have 48
-- bytes where a layout depends on it; the text encoder is another. Certificates, lists, keys,
-- signatures, base64, the text decoder, the network and the clock are the records `Services` of
-- Report, `Readers` of Pem and `QuoteServices` of Verify. Four loops run on fuel: the walk through
-- the table of GUIDs, one more than the bytes of the table; the loop over the events of a log, one
-- more than the bytes of the log; the search for PEM blocks, one more than the characters of the
-- text; the split of the text of a chain, its characters. Each turn uses up a byte or a character.
-- All others follow a list or a number.
--
-- Not modelled: `parseMemorySize` of a text with a unit or a fraction (the memory is a natural
-- number), `hexdump`, the page's elements and messages, the cache of fetched files, and the C, Go
-- and Python parts of the repository.
pub mod Base
pub mod Ctype
pub mod Types
pub mod Quote
pub mod Launch
pub mod Memory
pub mod Report
pub mod Firmware
pub mod Variables
pub mod Ccel
pub mod Runtime
pub mod Pem
pub mod Verify
pub mod Page
pub mod Authenticode
pub mod Examples
