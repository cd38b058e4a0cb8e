-- ===== src/Base/Bytes.antt =====
-- Bytes are natural numbers; little-endian integers of a given number of bytes.
use Prim.Native.Nat.{ℕ, zero, suc, ◌+◌, ◌*◌, ◌/◌, ◌%◌, ◌^◌, ◌<◌}
use mathlib.Core.Path.{◌≡◌, refl, ap}
use mathlib.Core.List.{List, [], ◌∷◌}
use native.Mathlib.Omega.{arith}
use native.Mathlib.Nat.{pow-suc}
use sylica.Base.Lists.{length, All}

abbrev pub IsByte : ℕ → Type 0
IsByte b = b < 256

abbrev pub IsBytes : List ℕ → Type 0
IsBytes = All IsByte

-- The low `w` bytes of a number, lowest first: what a DataView setter stores.
unfoldable pub encode_le : ℕ → ℕ → List ℕ
encode_le zero n = []
encode_le (suc w) n = (n % 256) ∷ encode_le w (n / 256)

-- What a DataView getter reads.
unfoldable pub decode_le : List ℕ → ℕ
decode_le [] = 0
decode_le (b ∷ bs) = b + 256 * decode_le bs

pub length-encode_le : (w n : ℕ) → length (encode_le w n) ≡ w
unfolding encode_le
length-encode_le zero n = refl
length-encode_le (suc w) n = ap suc (length-encode_le w (n / 256))

pub encode_le-IsBytes : (w n : ℕ) → IsBytes (encode_le w n)
unfolding encode_le
encode_le-IsBytes zero n = tt
encode_le-IsBytes (suc w) n = (omega arith, encode_le-IsBytes w (n / 256))

-- Bytes that are read as a number and stored again come back.
pub encode_le-decode_le :
    (w : ℕ) (xs : List ℕ) → length xs ≡ w → IsBytes xs → encode_le w (decode_le xs) ≡ xs
unfolding encode_le decode_le
encode_le-decode_le zero [] e h = refl
encode_le-decode_le zero (x ∷ xs) e h = absurd (omega arith)
encode_le-decode_le (suc w) [] e h = absurd (omega arith)
encode_le-decode_le (suc w) (x ∷ xs) e h =
    let low : (x + 256 * decode_le xs) % 256 ≡ x = omega arith in
    let high : (x + 256 * decode_le xs) / 256 ≡ decode_le xs = omega arith in
    rw (low, high) (ap (◌∷◌ x) (encode_le-decode_le w xs (omega arith) h.1))

pub decode_le-lt : (w : ℕ) (xs : List ℕ) → length xs ≡ w → IsBytes xs → decode_le xs < 256 ^ w
unfolding decode_le
decode_le-lt zero [] e h = omega arith
decode_le-lt zero (x ∷ xs) e h = absurd (omega arith)
decode_le-lt (suc w) [] e h = absurd (omega arith)
decode_le-lt (suc w) (x ∷ xs) e h =
    omega (arith, pow-suc 256 w, decode_le-lt w xs (omega arith) h.1)

-- A number that fits comes back from its bytes.
pub decode_le-encode_le : (w n : ℕ) → n < 256 ^ w → decode_le (encode_le w n) ≡ n
unfolding encode_le decode_le
decode_le-encode_le zero n h = omega arith
decode_le-encode_le (suc w) n h =
    rw (decode_le-encode_le w (n / 256) (omega (arith, pow-suc 256 w))) (omega arith)
