-- ===== src/Random.antt =====
-- Random values: what a distribution of the library draws, call after call, is the environment's choice.
use multithreading_labs.Base.{ℕ, zero, suc, ◌≡◌, refl, ap, List, [], ◌∷◌, ℤ, length, All}

-- `n` calls, from the `i`-th one on.
unfoldable pub draw_values : (ℕ → ℤ) → ℕ → ℕ → List ℤ
draw_values draws i zero = []
draw_values draws i (suc n) = draws i ∷ draw_values draws (suc i) n

pub length-draw_values : (draws : ℕ → ℤ) (i n : ℕ) → length (draw_values draws i n) ≡ n
unfolding draw_values
length-draw_values draws i zero = refl
length-draw_values draws i (suc n) = ap suc (length-draw_values draws (suc i) n)

pub All-draw_values :
    (P : ℤ → Type 0) (draws : ℕ → ℤ) (i n : ℕ)
    → ((k : ℕ) → P (draws k))
    → All P (draw_values draws i n)
unfolding draw_values
All-draw_values P draws i zero h = tt
All-draw_values P draws i (suc n) h = (h i, All-draw_values P draws (suc i) n h)
