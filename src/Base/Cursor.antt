-- ===== src/Base/Cursor.antt =====
-- A buffer read from an offset on: what stands there, and where the next thing stands.
use Prim.Native.Nat.{ℕ, ◌+◌, ◌-◌, ◌^◌, ◌<◌}
use mathlib.Core.Path.{◌≡◌, ap, sym, ◌∙◌}
use mathlib.Core.Bool.{true, false}
use mathlib.Core.List.{List, [], ◌++◌}
use native.Mathlib.Omega.{arith}
use sylica.Base.Tests.{ltb, lt→ltb}
use sylica.Base.Lists.{
  length, take, drop, length-append, length-drop, drop-drop, take-append, drop-append,
}
use sylica.Base.Errors.{ok}
use sylica.Base.Bytes.{encode_le, length-encode_le, decode_le-encode_le}
use sylica.Base.Slices.{get_le, get_le_ok, slice, slice_lem}

abbrev pub At : List ℕ → ℕ → List ℕ → Type 0
At buf off xs = drop off buf ≡ xs

pub At-append :
    (buf : List ℕ) (off k : ℕ) (bs more : List ℕ)
    → At buf off (bs ++ more)
    → length bs ≡ k
    → At buf (off + k) more
At-append buf off k bs more h l = rw (← drop-drop off k buf, h, ← l) (drop-append bs more)

pub At-take :
    (buf : List ℕ) (off k : ℕ) (bs more : List ℕ)
    → At buf off (bs ++ more)
    → length bs ≡ k
    → take k (drop off buf) ≡ bs
At-take buf off k bs more h l = rw (h, ← l) (take-append bs more)

pub At-slice :
    (buf : List ℕ) (off k : ℕ) (bs more : List ℕ)
    → At buf off (bs ++ more)
    → length bs ≡ k
    → slice buf off (off + k) ≡ bs
At-slice buf off k bs more h l = slice_lem buf off k ∙ At-take buf off k bs more h l

pub At-length :
    (buf : List ℕ) (off : ℕ) (xs : List ℕ) → At buf off xs → length buf - off ≡ length xs
At-length buf off xs h = sym (length-drop off buf) ∙ ap length h

pub At-get_le :
    (buf : List ℕ) (off w n : ℕ) (more : List ℕ)
    → At buf off (encode_le w n ++ more)
    → 0 < w
    → n < 256 ^ w
    → get_le w buf off ≡ ok n
At-get_le buf off w n more h p f = rw (
  get_le_ok w buf off (
      omega (
        arith,
        At-length buf off (encode_le w n ++ more) h,
        length-append (encode_le w n) more,
        length-encode_le w n,
      )),
  At-take buf off w (encode_le w n) more h (length-encode_le w n),
  decode_le-encode_le w n f,
)

pub At-inside :
    (buf : List ℕ) (off : ℕ) (xs : List ℕ)
    → At buf off xs
    → 0 < length xs
    → ltb off (length buf) ≡ true
At-inside buf off xs h p = lt→ltb off (length buf) (omega (arith, At-length buf off xs h))

pub At-end : (buf : List ℕ) (off : ℕ) → At buf off [] → ltb off (length buf) ≡ false
At-end buf off h = ground (arith, At-length buf off [] h)
