-- ===== src/Blocks/Slices.antt =====
-- The items of a block, for threads that walk through their blocks one item at a time.
use multithreading_labs.Base.{
  ℕ, zero, suc, ◌+◌, ◌-◌, ◌<◌, ◌≡◌, refl, sym, ap, ◌∙◌, List, [], ◌∷◌, ◌++◌, map, arith, length,
  take, drop, length-append, size_mod, fold, get_elem?, set, some,
}
use multithreading_labs.Blocks.{Block, blocks}
use multithreading_labs.Blocks.Tiling.{Tiles, blocks-Tiles}

module _ {A : Type 0} where
  -- `xs[b.start]` up to `xs[b.stop - 1]`
  abbrev pub slice : List A → Block → List A
  slice xs b = take (b.stop - b.start) (drop b.start xs)

  -- The items of several threads, one thread after the other.
  abbrev pub concat : List (List A) → List A
  concat [] = []
  concat (xs ∷ xss) = xs ++ concat xss

  pub length-drop : (n : ℕ) (xs : List A) → length (drop n xs) ≡ length xs - n
  length-drop zero xs = omega arith
  length-drop (suc n) [] = omega arith
  length-drop (suc n) (x ∷ xs) = omega (arith, length-drop n xs)

  pub take-drop : (n : ℕ) (xs : List A) → take n xs ++ drop n xs ≡ xs
  take-drop zero xs = refl
  take-drop (suc n) [] = refl
  take-drop (suc n) (x ∷ xs) = ap (◌∷◌ x) (take-drop n xs)

  pub drop-drop : (a n m : ℕ) (xs : List A) → a + n ≡ m → drop n (drop a xs) ≡ drop m xs
  drop-drop zero n m xs e = ap (λ k. drop k xs) (omega arith)
  drop-drop (suc a) zero zero xs e = absurd (omega arith)
  drop-drop (suc a) zero (suc m) [] e = refl
  drop-drop (suc a) zero (suc m) (x ∷ xs) e = drop-drop a zero m xs (omega arith)
  drop-drop (suc a) (suc n) zero xs e = absurd (omega arith)
  drop-drop (suc a) (suc n) (suc m) [] e = refl
  drop-drop (suc a) (suc n) (suc m) (x ∷ xs) e = drop-drop a (suc n) m xs (omega arith)

  drop-length : (xs : List A) (n : ℕ) → n ≡ length xs → drop n xs ≡ []
  drop-length [] zero e = refl
  drop-length [] (suc n) e = refl
  drop-length (x ∷ xs) zero e = absurd (omega arith)
  drop-length (x ∷ xs) (suc n) e = drop-length xs n (omega arith)

  concat-slices :
      (xs : List A) (lo hi : ℕ) (bs : List Block)
      → hi ≡ length xs
      → Tiles lo hi bs
      → concat (map (slice xs) bs) ≡ drop lo xs
  concat-slices xs lo hi [] e t = sym (drop-length xs lo (omega arith))
  concat-slices xs lo hi (b ∷ bs) e t =
      ap (λ ys. slice xs b ++ ys) (concat-slices xs b.stop hi bs e t.2)
      ∙ ap (λ ys. slice xs b ++ ys)
          (sym (drop-drop b.start (b.stop - b.start) b.stop xs (omega (arith, t.0, t.1))))
      ∙ take-drop (b.stop - b.start) (drop b.start xs)
      ∙ ap (λ k. drop k xs) t.0

  -- Together the slices of the blocks are all the items, in order.
  pub concat-blocks :
      (xs : List A) (threads : ℕ)
      → 0 < threads
      → length xs < size_mod
      → concat (map (slice xs) (blocks (length xs) threads)) ≡ xs
  concat-blocks xs threads h fits =
      concat-slices xs 0 (length xs) _ refl (blocks-Tiles (length xs) threads h fits)

  -- No thread has an item left.
  abbrev pub IsDone : List (List A) → Type 0
  IsDone [] = Unit
  IsDone (xs ∷ xss) = (xs ≡ []) × IsDone xss

  pub concat-done : (xss : List (List A)) → IsDone xss → concat xss ≡ []
  concat-done [] h = refl
  concat-done (xs ∷ xss) h = rw (h.0) (concat-done xss h.1)

module _ {A : Type 0} where
  -- While an item is left, some thread has a next item.
  pub concat-busy :
      (xss : List (List A))
      → 0 < length (concat xss)
      → (i : ℕ) × (x : A) × (rest : List A) × (get_elem? xss i ≡ some (x ∷ rest))
  concat-busy [] h = absurd (omega arith)
  concat-busy ([] ∷ xss) h = let (i, x, rest, e) = concat-busy xss h in (suc i, x, rest, e)
  concat-busy ((x ∷ xs) ∷ xss) h = (0, x, xs, refl)

  pub length-concat-set :
      (xss : List (List A)) (i : ℕ) (x : A) (rest : List A)
      → get_elem? xss i ≡ some (x ∷ rest)
      → length (concat xss) ≡ suc (length (concat (set xss i rest)))
  length-concat-set [] i x rest e = cc
  length-concat-set (xs ∷ xss) zero x rest e =
      let same : xs ≡ x ∷ rest = cc in ap (λ ys. length (ys ++ concat xss)) same
  length-concat-set (xs ∷ xss) (suc i) x rest e = omega (
    arith,
    length-append xs (concat xss),
    length-append xs (concat (set xss i rest)),
    length-concat-set xss i x rest e,
  )

  pub IsDone-of_length : (xss : List (List A)) → length (concat xss) ≡ 0 → IsDone xss
  IsDone-of_length [] h = tt
  IsDone-of_length ([] ∷ xss) h = (refl, IsDone-of_length xss h)
  IsDone-of_length ((x ∷ xs) ∷ xss) h = absurd (omega arith)

module _ {A R : Type 0} (f : R → A → R) (comm : (r : R) (x y : A) → f (f r x) y ≡ f (f r y) x) where
  fold-append : (r : R) (xs ys : List A) → fold f r (xs ++ ys) ≡ fold f (fold f r xs) ys
  fold-append r [] ys = refl
  fold-append r (x ∷ xs) ys = fold-append (f r x) xs ys

  fold-step : (r : R) (x : A) (xs : List A) → fold f (f r x) xs ≡ f (fold f r xs) x
  fold-step r x [] = refl
  fold-step r x (y ∷ xs) = ap (λ s. fold f s xs) (comm r x y) ∙ fold-step (f r y) x xs

  -- Where the order does not matter, any thread's next item can be taken first.
  pub fold-set :
      (r : R) (left : List (List A)) (i : ℕ) (x : A) (rest : List A)
      → get_elem? left i ≡ some (x ∷ rest)
      → fold f (f r x) (concat (set left i rest)) ≡ fold f r (concat left)
  fold-set r [] i x rest e = cc
  fold-set r (xs ∷ left) zero x rest e =
      let same : xs ≡ x ∷ rest = cc in ap (λ ys. fold f r (ys ++ concat left)) (sym same)
  fold-set r (xs ∷ left) (suc i) x rest e =
      fold-append (f r x) xs (concat (set left i rest))
      ∙ ap (λ s. fold f s (concat (set left i rest))) (fold-step r x xs)
      ∙ fold-set (fold f r xs) left i x rest e
      ∙ sym (fold-append r xs (concat left))
