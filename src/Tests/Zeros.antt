-- ===== src/Tests/Zeros.antt =====
-- Long test data.
use embedded_project_pc.Common.{ℕ, zero, suc, ◌≡◌, refl, ap, List, [], ◌∷◌, length}

unfoldable pub zeros : ℕ → List ℕ
zeros zero = []
zeros (suc n) = 0 ∷ zeros n

pub length-zeros : (n : ℕ) → length (zeros n) ≡ n
unfolding zeros
length-zeros zero = refl
length-zeros (suc n) = ap suc (length-zeros n)
