-- ===== src/Base/Text.antt =====
-- Text as a list of bytes.
use Prim.Native.Nat.{ℕ}
use Prim.Native.Char.{code}
use Prim.Native.String.{String}
use mathlib.Core.Path.{◌≡◌}
use mathlib.Core.Logic.{◌↔◌}
use native.Mathlib.Omega.{arith}
use mathlib.Core.Bool.{Bool, true, false, ◌&&◌, ◌||◌}
use mathlib.Core.List.{List, [], ◌∷◌}
use multithreading_labs.Base.Tests.{◌==◌}

-- The bytes of a literal.
abbrev pub codes : String → List ℕ
codes String.[] = []
codes (String.◌∷◌ c s) = code c ∷ codes s

abbrev pub same_text : List ℕ → List ℕ → Bool
same_text [] [] = true
same_text [] (y ∷ ys) = false
same_text (x ∷ xs) [] = false
same_text (x ∷ xs) (y ∷ ys) = x == y && same_text xs ys

abbrev pub starts_with : List ℕ → List ℕ → Bool
starts_with xs [] = true
starts_with [] (y ∷ ys) = false
starts_with (x ∷ xs) (y ∷ ys) = x == y && starts_with xs ys

-- `std::string::find` finds the word.
abbrev pub contains : List ℕ → List ℕ → Bool
contains [] word = starts_with [] word
contains (x ∷ xs) word = starts_with (x ∷ xs) word || contains xs word

pub same_text_iff : (xs ys : List ℕ) → (same_text xs ys ≡ true) ↔ (xs ≡ ys)
same_text_iff [] [] = ground arith
same_text_iff [] (y ∷ ys) = ground arith
same_text_iff (x ∷ xs) [] = ground arith
same_text_iff (x ∷ xs) (y ∷ ys) = ground (arith, same_text_iff xs ys)
