-- ===== src/Examples.antt =====
-- Concrete inputs: the theorems applied to them, and tests of the definitions.
mod Formats
mod Digests
mod Regions
mod Reports
mod Images
mod Variables
mod Logs
mod Registers
mod Quotes
mod Sessions
mod Metadata
mod Portable
use sylica.Base.{ℕ, ◌≡◌, refl, List, [], ◌∷◌, Bool, true, ◌&&◌, ltb, IsBytes, &&_split, ltb→lt}

unfoldable all_bytes : List ℕ → Bool
all_bytes [] = true
all_bytes (x ∷ xs) = ltb x 256 && all_bytes xs

all_bytes-IsBytes : (xs : List ℕ) → all_bytes xs ≡ true → IsBytes xs
unfolding all_bytes
all_bytes-IsBytes [] h = tt
all_bytes-IsBytes (x ∷ xs) h =
    let (low, rest) = &&_split (ltb x 256) (all_bytes xs) h in
    (ltb→lt x 256 low, all_bytes-IsBytes xs rest)
