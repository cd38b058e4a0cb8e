-- ===== src/Page/Form.antt =====
-- index.js, the form of the page: its values, the handler of `reset`, and what is measured of it.
use sylica.Base.{ℕ, ◌*◌, ◌^◌, String, List, [], ◌∷◌, Bool, true, false}
use sylica.Launch.Snp.{Form as SnpForm}
use sylica.Runtime.{Form as TdxForm}
use sylica.Firmware.Measure.{Mode, snp, tdx}

-- The values of the form that are measured: hashes in hexadecimal, here as bytes; the memory in
-- digits alone, here as their number.
pub record PageForm : Type 0 where
  pub vcpus : ℕ
  pub vcpu_sig : String
  pub memory : ℕ
  pub append : List ℕ
  pub cmdline : List ℕ
  pub kernel : List ℕ
  pub initrd : List ℕ
  pub kernel_tdx : List ℕ
  pub initrd_tdx : List ℕ
  pub ovmf : List ℕ

-- The drop zones of files that are measured.
pub data Zone : Type 0 where
  bios kernel initrd : Zone

abbrev pub is_filled : List ℕ → Bool
is_filled [] = false
is_filled (b ∷ bs) = true

-- The two early returns for an incomplete form.
unfoldable pub ready : Mode → PageForm → Bool
ready snp form = is_filled form.kernel
ready tdx form = is_filled form.ovmf

abbrev pub other_mode : Mode → Mode
other_mode snp = tdx
other_mode tdx = snp

-- "e3b0c44298fc1c149afbf4c8996fb92427ae41e4649b934ca495991b7852b855"
abbrev pub no_initrd : List ℕ
no_initrd =
    0xe3 ∷ 0xb0 ∷ 0xc4 ∷ 0x42 ∷ 0x98 ∷ 0xfc ∷ 0x1c ∷ 0x14 ∷ 0x9a ∷ 0xfb ∷ 0xf4 ∷ 0xc8 ∷ 0x99 ∷ 0x6f
    ∷ 0xb9 ∷ 0x24 ∷ 0x27 ∷ 0xae ∷ 0x41 ∷ 0xe4 ∷ 0x64 ∷ 0x9b ∷ 0x93 ∷ 0x4c ∷ 0xa4 ∷ 0x95 ∷ 0x99
    ∷ 0x1b ∷ 0x78 ∷ 0x52 ∷ 0xb8 ∷ 0x55 ∷ []

-- "8415315fdb250b9a97b0daf6f2649577b4a1f76a331f708df2ba2cc751003690"
abbrev pub default_cmdline : List ℕ
default_cmdline =
    0x84 ∷ 0x15 ∷ 0x31 ∷ 0x5f ∷ 0xdb ∷ 0x25 ∷ 0x0b ∷ 0x9a ∷ 0x97 ∷ 0xb0 ∷ 0xda ∷ 0xf6 ∷ 0xf2 ∷ 0x64
    ∷ 0x95 ∷ 0x77 ∷ 0xb4 ∷ 0xa1 ∷ 0xf7 ∷ 0x6a ∷ 0x33 ∷ 0x1f ∷ 0x70 ∷ 0x8d ∷ 0xf2 ∷ 0xba ∷ 0x2c
    ∷ 0xc7 ∷ 0x51 ∷ 0x00 ∷ 0x36 ∷ 0x90 ∷ []

-- "console=hvc0 quiet" and "initrd=initrd console=ttyS0 quiet"
abbrev pub default_append : Mode → List ℕ
default_append snp =
    b'c' ∷ b'o' ∷ b'n' ∷ b's' ∷ b'o' ∷ b'l' ∷ b'e' ∷ b'=' ∷ b'h' ∷ b'v' ∷ b'c' ∷ b'0' ∷ b' ' ∷ b'q'
    ∷ b'u' ∷ b'i' ∷ b'e' ∷ b't' ∷ []
default_append tdx =
    b'i' ∷ b'n' ∷ b'i' ∷ b't' ∷ b'r' ∷ b'd' ∷ b'=' ∷ b'i' ∷ b'n' ∷ b'i' ∷ b't' ∷ b'r' ∷ b'd' ∷ b' '
    ∷ b'c' ∷ b'o' ∷ b'n' ∷ b's' ∷ b'o' ∷ b'l' ∷ b'e' ∷ b'=' ∷ b't' ∷ b't' ∷ b'y' ∷ b'S' ∷ b'0'
    ∷ b' ' ∷ b'q' ∷ b'u' ∷ b'i' ∷ b'e' ∷ b't' ∷ []

-- The values after the handler of `reset` and the browser's own reset, which leaves the values of
-- hidden inputs as they are.
unfoldable pub reset_form : Mode → PageForm → PageForm
reset_form mode form = record form {
  vcpus = 1;
  vcpu_sig = "EPYC-v4";
  memory = 512;
  append = default_append mode;
  cmdline = default_cmdline;
  kernel = [];
  initrd = no_initrd;
}

-- `form.elements[...].value = ...` of the hash of a file.
unfoldable pub set_hash : Zone → List ℕ → PageForm → PageForm
set_hash bios digest form = record form { ovmf = digest }
set_hash kernel digest form = record form { kernel = digest }
set_hash initrd digest form = record form { initrd = digest }

unfoldable pub set_tdx_hash : Zone → List ℕ → PageForm → PageForm
set_tdx_hash bios digest form = form
set_tdx_hash kernel digest form = record form { kernel_tdx = digest }
set_tdx_hash initrd digest form = record form { initrd_tdx = digest }

abbrev pub snp_form : PageForm → SnpForm
snp_form form = record {
  vcpus = form.vcpus;
  vcpu_sig = form.vcpu_sig;
  hashes = record { kernel = form.kernel; initrd = form.initrd; cmdline = form.cmdline };
}

-- `parseMemorySize(mb)` of digits with no unit.
unfoldable pub parse_memory_size : ℕ → ℕ
parse_memory_size mb = mb * 1024 ^ 2

abbrev pub tdx_form : PageForm → TdxForm
tdx_form form = record {
  memory = parse_memory_size form.memory;
  append = form.append;
  kernel_tdx = form.kernel_tdx;
  initrd_tdx = form.initrd_tdx;
}
