-- ===== src/Base/Join.antt =====
-- The loop at the end of several functions, which copies parts into one new array, and the
-- comparison of arrays.
use Prim.Native.Nat.{ℕ, zero, suc, ◌+◌}
use mathlib.Core.Path.{◌≡◌, refl, ap, ap₂}
use mathlib.Core.Bool.{Bool, true, false, ◌&&◌}
use mathlib.Core.List.{List, [], ◌∷◌, ◌++◌, append_assoc, append-nil}
use native.Mathlib.Nat.{sub-zero}
use sylica.Base.Tests.{◌==◌, ==_iff, &&_split}
use sylica.Base.Lists.{length, replicate, length-append, take, drop, take-add}
use sylica.Base.Errors.{Result, ok, ◌>>=◌}
use sylica.Base.Slices.{set_bytes, set_bytes_fill, slice, slice_lem}

unfoldable pub total_size : List (List ℕ) → ℕ
total_size [] = 0
total_size (part ∷ parts) = length part + total_size parts

-- `for (const part of parts) { buffer.set(part, offset); offset += part.byteLength; }`
unfoldable pub copy_parts : List (List ℕ) → List ℕ → ℕ → Result (List ℕ)
copy_parts [] buffer offset = ok buffer
copy_parts (part ∷ parts) buffer offset = do
  buffer' ← set_bytes buffer offset part
  copy_parts parts buffer' (offset + length part)

unfoldable pub join : List (List ℕ) → Result (List ℕ)
unfolding copy_parts total_size
join parts = copy_parts parts (replicate (total_size parts) 0) 0

unfoldable pub flatten : List (List ℕ) → List ℕ
flatten [] = []
flatten (part ∷ parts) = part ++ flatten parts

copy_parts-flatten :
    (parts : List (List ℕ)) (done : List ℕ)
    → copy_parts parts (done ++ replicate (total_size parts) 0) (length done)
      ≡ ok (done ++ flatten parts)
unfolding copy_parts total_size flatten replicate
copy_parts-flatten [] done = refl
copy_parts-flatten (part ∷ parts) done = rw (
  set_bytes_fill done part (total_size parts),
  ← length-append done part,
  copy_parts-flatten parts (done ++ part),
  append_assoc,
)

-- The parts one behind the other; the copying is never out of range.
pub join-flatten : (parts : List (List ℕ)) → join parts ≡ ok (flatten parts)
unfolding join
join-flatten parts = copy_parts-flatten parts []

-- `a.toBase64() === b.toBase64()`: base64 texts are equal where the bytes are.
unfoldable pub same_bytes : List ℕ → List ℕ → Bool
same_bytes [] [] = true
same_bytes [] (y ∷ ys) = false
same_bytes (x ∷ xs) [] = false
same_bytes (x ∷ xs) (y ∷ ys) = x == y && same_bytes xs ys

pub same_bytes_refl : (xs : List ℕ) → same_bytes xs xs ≡ true
unfolding same_bytes
same_bytes_refl [] = refl
same_bytes_refl (x ∷ xs) = rw ((==_iff x x).1 refl) (same_bytes_refl xs)

pub same_bytes→eq : (xs ys : List ℕ) → same_bytes xs ys ≡ true → xs ≡ ys
unfolding same_bytes
same_bytes→eq [] [] h = refl
same_bytes→eq [] (y ∷ ys) h = cc
same_bytes→eq (x ∷ xs) [] h = cc
same_bytes→eq (x ∷ xs) (y ∷ ys) h =
    let (e, r) = &&_split (x == y) (same_bytes xs ys) h in
    ap₂ ◌∷◌ ((==_iff x y).0 e) (same_bytes→eq xs ys r)

pub flatten-append : (ps qs : List (List ℕ)) → flatten (ps ++ qs) ≡ flatten ps ++ flatten qs
unfolding flatten
flatten-append [] qs = refl
flatten-append (p ∷ ps) qs = rw (flatten-append ps qs, append_assoc)

-- The parts are the buffer from one offset to another.
abbrev pub Spans : List ℕ → ℕ → ℕ → List (List ℕ) → Type 0
Spans buf start end parts = take start buf ++ flatten parts ≡ take end buf

pub Spans-append :
    (buf : List ℕ) (a b c : ℕ) (ps qs : List (List ℕ))
    → Spans buf a b ps
    → Spans buf b c qs
    → Spans buf a c (ps ++ qs)
Spans-append buf a b c ps qs h k = rw (flatten-append ps qs, ← append_assoc, h) k

pub Spans-nil : (buf : List ℕ) (a : ℕ) → Spans buf a a []
unfolding flatten
Spans-nil buf a = append-nil (take a buf)

pub Spans-take : (buf : List ℕ) (a n : ℕ) → Spans buf a (a + n) (take n (drop a buf) ∷ [])
unfolding flatten
Spans-take buf a n = rw (append-nil (take n (drop a buf)), take-add a n buf)

pub Spans-slice : (buf : List ℕ) (a n : ℕ) → Spans buf a (a + n) (slice buf a (a + n) ∷ [])
Spans-slice buf a n = rw slice_lem (Spans-take buf a n)

pub join-Spans :
    (buf : List ℕ) (n : ℕ) (ps : List (List ℕ)) → Spans buf 0 n ps → join ps ≡ ok (take n buf)
unfolding take
join-Spans buf n ps h = rw (join-flatten ps) (ap ok h)

take-length-take : (n : ℕ) (buf : List ℕ) → take (length (take n buf)) buf ≡ take n buf
unfolding take
take-length-take zero buf = refl
take-length-take (suc n) [] = refl
take-length-take (suc n) (b ∷ bs) = ap (◌∷◌ b) (take-length-take n bs)

pub slice_all : (n : ℕ) (buf : List ℕ) → slice buf 0 (length (take n buf)) ≡ take n buf
unfolding slice drop
slice_all n buf = rw sub-zero (take-length-take n buf)
