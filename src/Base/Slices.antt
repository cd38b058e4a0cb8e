-- ===== src/Base/Slices.antt =====
-- Reading and writing in buffers, with JavaScript's bounds: a DataView access or a
-- `TypedArray.set` out of range throws a RangeError, and `slice` and `subarray` clamp.
use Prim.Native.Nat.{ℕ, zero, suc, ◌*◌, ◌+◌, ◌-◌, ◌≤◌, ◌<◌}
use mathlib.Core.Path.{◌≡◌, ap, subst}
use mathlib.Core.Bool.{true}
use mathlib.Core.List.{List, [], ◌∷◌, ◌++◌, append_assoc}
use native.Mathlib.Nat.{suc-add}
use native.Mathlib.Omega.{arith}
use sylica.Base.Tests.{leb, if◌then◌else◌, le→leb}
use sylica.Base.Lists.{
  All-take, All-drop, length, take, drop, replicate, length-append, take-append, drop-append,
  drop-drop, drop-replicate, length-replicate, length-take, length-drop,
}
use sylica.Base.Errors.{Result, ok, err, range_error}
use sylica.Base.Bytes.{decode_le, IsByte, IsBytes}

-- `view.getUint8(off)` and, little-endian, its siblings of `w` bytes.
unfoldable pub get_le : ℕ → List ℕ → ℕ → Result ℕ
get_le w buf off =
    if leb (off + w) (length buf) then ok (decode_le (take w (drop off buf))) else err range_error

-- `arr.set(xs, off)`, and the DataView setters at the bytes of a number.
unfoldable pub set_bytes : List ℕ → ℕ → List ℕ → Result (List ℕ)
set_bytes arr off xs =
    if leb (off + length xs) (length arr)
    then ok (take off arr ++ (xs ++ drop (off + length xs) arr))
    else err range_error

-- `buf.slice(start, end)` at offsets that are not negative.
unfoldable pub slice : List ℕ → ℕ → ℕ → List ℕ
slice buf start end = take (end - start) (drop start buf)

pub length-slice_le : (buf : List ℕ) (start n : ℕ) → length (slice buf start (start + n)) ≤ n
unfolding slice
length-slice_le buf start n = omega (arith, length-take (start + n - start) (drop start buf))

pub length-slice :
    (buf : List ℕ) (start n : ℕ) → start + n ≤ length buf → length (slice buf start (start + n)) ≡ n
unfolding slice
length-slice buf start n h =
    omega (arith, length-take (start + n - start) (drop start buf), length-drop start buf)

pub slice_lem : (buf : List ℕ) (start n : ℕ) → slice buf start (start + n) ≡ take n (drop start buf)
unfolding slice
slice_lem buf start n =
    ap (λ k. take k (drop start buf)) (let e : start + n - start ≡ n = omega arith in e)

-- A getter inverted, and its success.
pub get_le-eq-ok :
    (w : ℕ) (buf : List ℕ) (off : ℕ) {v : ℕ}
    → get_le w buf off ≡ ok v
    → (off + w ≤ length buf) × (v ≡ decode_le (take w (drop off buf)))
unfolding get_le
get_le-eq-ok w buf off h = ground arith

pub get_le_ok :
    (w : ℕ) (buf : List ℕ) (off : ℕ)
    → off + w ≤ length buf
    → get_le w buf off ≡ ok (decode_le (take w (drop off buf)))
unfolding get_le
get_le_ok w buf off h = ground arith

-- Writing the next bytes of a buffer that is filled from the left.
pub set_bytes_fill :
    (done xs : List ℕ) (m : ℕ)
    → set_bytes (done ++ replicate (length xs + m) 0) (length done) xs
      ≡ ok ((done ++ xs) ++ replicate m 0)
unfolding set_bytes
set_bytes_fill done xs m =
    let fits : leb (length done + length xs) (length (done ++ replicate (length xs + m) 0)) ≡ true =
      le→leb _ _ (
        omega (
          arith,
          length-append done (replicate (length xs + m) 0),
          length-replicate {A = ℕ} (length xs + m) 0,
        )) in
    rw (
      fits,
      take-append done (replicate (length xs + m) 0),
      ← drop-drop (length done) (length xs) (done ++ replicate (length xs + m) 0),
      drop-append done (replicate (length xs + m) 0),
      drop-replicate {A = ℕ} (length xs) m 0,
      append_assoc,
    )

-- The byte at an offset, in front of those behind it.
pub take-drop-suc :
    (n offset : ℕ) (buf : List ℕ)
    → offset + 1 ≤ length buf
    → take (suc n) (drop offset buf)
      ≡ decode_le (take 1 (drop offset buf)) ∷ take n (drop (offset + 1) buf)
unfolding take drop decode_le
take-drop-suc n offset [] h = absurd (omega arith)
take-drop-suc n zero (b ∷ bs) h = let e : b ≡ b + 256 * 0 = omega arith in ap (λ x. x ∷ take n bs) e
take-drop-suc n (suc offset) (b ∷ bs) h = rw suc-add (take-drop-suc n offset bs (omega arith))

pub slice-IsBytes : (buf : List ℕ) (start end : ℕ) → IsBytes buf → IsBytes (slice buf start end)
unfolding slice
slice-IsBytes buf start end h =
    All-take IsByte (end - start) (drop start buf) (All-drop IsByte start buf h)

pub get_le_short :
    (w : ℕ) (buf : List ℕ) (off : ℕ) → length buf < off + w → get_le w buf off ≡ err range_error
unfolding get_le
get_le_short w buf off h = ground arith

-- The same at an offset and a length that are known by equations.
pub set_bytes_at :
    (done xs : List ℕ) (offset n m : ℕ)
    → length done ≡ offset
    → length xs + m ≡ n
    → set_bytes (done ++ replicate n 0) offset xs ≡ ok ((done ++ xs) ++ replicate m 0)
set_bytes_at done xs offset n m a b =
    subst (λ k. set_bytes (done ++ replicate n 0) k xs ≡ ok ((done ++ xs) ++ replicate m 0)) a
      (subst
        (λ k.
          set_bytes (done ++ replicate k 0) (length done) xs ≡ ok ((done ++ xs) ++ replicate m 0))
        b (set_bytes_fill done xs m))
