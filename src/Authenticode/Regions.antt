-- ===== src/Authenticode/Regions.antt =====
-- Which bytes of an image are signed when its sections lie one behind the other.
use sylica.Base.{ℕ, ◌+◌, ◌≡◌, List, [], ◌∷◌}
use sylica.Authenticode.{PeSection}

-- The sections lie one behind the other, from `start` to `end`.
unfoldable pub Tiles : ℕ → List PeSection → ℕ → Type 0
Tiles start [] end = start ≡ end
Tiles start (s ∷ rest) end = (s.pointer ≡ start) × Tiles (start + s.size) rest end
