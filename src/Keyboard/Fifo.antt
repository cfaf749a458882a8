-- ===== src/Keyboard/Fifo.antt =====
-- What the key queue promises: at most 255 characters, oldest first, and one that finds it full is
-- lost.
use mx_os.Prelude.{ℕ, Option, none, some, List, [], ◌∷◌, ◌++◌, length, leb, if◌then◌else◌}

unfoldable pub offer : ℕ → List ℕ → List ℕ
offer c q = if leb 255 (length q) then q else q ++ c ∷ []

unfoldable pub poll : List ℕ → Option ℕ × List ℕ
poll [] = (none, [])
poll (c ∷ q) = (some c, q)
