-- ===== src/MinAtomic/Minimum.antt =====
-- `findMinAndCountParallelAtomic`: no schedule changes the minimum.
use multithreading_labs.Base.{
  ℕ, zero, suc, ◌<◌, ◌≡◌, refl, ap, subst, sym, ◌∙◌, some, false, List, [], ◌∷◌, arith, ℤ, pos,
  ◌≤ℤ◌, ltb_ℤ, eq_of_parts, All, length, get_elem?, set, fold, Option-cases, inl, inr, ◌⊎◌,
  if◌then◌else◌, ◌==◌, replicate, length-replicate, map, size_mod,
}
use multithreading_labs.Blocks.Slices.{slice, concat, concat-blocks, fold-set, concat-done, IsDone}
use multithreading_labs.Blocks.{blocks}
use multithreading_labs.Blocks.Tiling.{length-blocks}
use multithreading_labs.MinCount.{MinResult, absorb, find_min_and_count, int_max}
use multithreading_labs.MinAtomic.{
  Point, loads, stores, Atomics, Turn, exchange, act, turn, turns, started,
  find_min_and_count_parallel_atomic,
}
use multithreading_labs.MinAtomic.Invariant.{
  Knows, IsValid, Effect, stays, lowers, leaves, act-Effect, go_to-IsValid, advance-IsValid,
  exchange-IsValid,
}

abbrev pub min_ℤ : ℤ → ℤ → ℤ
min_ℤ m v = if ltb_ℤ v m then v else m

min_ℤ_comm : (m v w : ℤ) → min_ℤ (min_ℤ m v) w ≡ min_ℤ (min_ℤ m w) v
min_ℤ_comm m v w = ground (arith, eq_of_parts v w)

-- What the minimum would be if the remaining values were looked at one thread after the other.
abbrev lowest : Atomics → ℤ
lowest s = fold min_ℤ s.min_value (concat s.left)

-- The turn of a thread with a value at hand, or nothing.
pub turn-cases :
    (s : Atomics) (t : Turn)
    → (turn s t ≡ s)
      ⊎ ((v : ℤ) × (rest : List ℤ) × (p : Point) × (get_elem? s.left t.thread ≡ some (v ∷ rest))
          × (get_elem? s.points t.thread ≡ some p)
          × (turn s t ≡ act s t v rest p))
unfolding turn
turn-cases s t = elim (Option-cases (get_elem? s.left t.thread)) [
  | inl e ↦ inl (rw (e, turn))
  | inr ([], e) ↦ inl (rw (e, turn))
  | inr (v ∷ rest, e) ↦ elim (Option-cases (get_elem? s.points t.thread)) [
    | inl e' ↦ inl (rw (e, e', turn))
    | inr (p, e') ↦ inr (v, rest, p, e, e', rw (e, e', turn))
  ]
]

Effect-lowest :
    (s s' : Atomics) (i : ℕ) (v : ℤ) (rest : List ℤ)
    → get_elem? s.left i ≡ some (v ∷ rest)
    → Effect s i v rest s'
    → lowest s' ≡ lowest s
unfolding exchange
Effect-lowest s s' i v rest here (stays p k) = refl
Effect-lowest s s' i v rest here (lowers below) =
    let taken = fold-set min_ℤ min_ℤ_comm s.min_value s.left i v rest here in
    let again = fold-set min_ℤ min_ℤ_comm v s.left i v rest here in
    let first : min_ℤ s.min_value v ≡ v = rw below refl in
    let second : min_ℤ v v ≡ v = ground arith in
    sym again ∙ ap (λ m. fold min_ℤ m (concat (set s.left i rest))) (second ∙ sym first) ∙ taken
Effect-lowest s s' i v rest here (leaves count k) =
    let same : min_ℤ s.min_value v ≡ s.min_value = ground arith in
    ap (λ m. fold min_ℤ m (concat (set s.left i rest))) (sym same)
    ∙ fold-set min_ℤ min_ℤ_comm s.min_value s.left i v rest here

Effect-IsValid :
    (s s' : Atomics) (i : ℕ) (v : ℤ) (rest : List ℤ)
    → get_elem? s.left i ≡ some (v ∷ rest)
    → IsValid s
    → Effect s i v rest s'
    → IsValid s'
unfolding exchange
Effect-IsValid s s' i v rest here h (stays p k) = go_to-IsValid s i v rest here h p k
Effect-IsValid s s' i v rest here h (lowers below) =
    go_to-IsValid (exchange s v) i v rest here (exchange-IsValid s v (ground arith) h) stores
      (ground arith)
Effect-IsValid s s' i v rest here h (leaves count k) = advance-IsValid s i v rest here h count

turn-IsValid :
    (s : Atomics) (t : Turn) → IsValid s → IsValid (turn s t) × (lowest (turn s t) ≡ lowest s)
turn-IsValid s t h = elim (turn-cases s t) [
  | inl e ↦ (subst IsValid (sym e) h, ap lowest e)
  | inr (v, rest, p, here, there, e) ↦
      let effect = act-Effect s t v rest p h (h.known t.thread v rest p here there) in
      (
        subst IsValid (sym e) (Effect-IsValid s (act s t v rest p) t.thread v rest here h effect),
        ap lowest e ∙ Effect-lowest s (act s t v rest p) t.thread v rest here effect,
      )
]

pub turns-IsValid :
    (s : Atomics) (schedule : List Turn)
    → IsValid s
    → IsValid (turns s schedule) × (lowest (turns s schedule) ≡ lowest s)
unfolding turns
turns-IsValid s [] h = (h, refl)
turns-IsValid s (t ∷ schedule) h =
    let (h', e) = turn-IsValid s t h in
    let (h2, e') = turns-IsValid (turn s t) schedule h' in (h2, e' ∙ e)

get_elem?-replicate : (n i : ℕ) (a b : Point) → get_elem? (replicate n a) i ≡ some b → a ≡ b
get_elem?-replicate zero i a b e = cc
get_elem?-replicate (suc n) zero a b e = cc
get_elem?-replicate (suc n) (suc i) a b e = get_elem?-replicate n i a b e

length-map : {A B : Type 0} (f : A → B) (xs : List A) → length (map f xs) ≡ length xs
length-map f [] = refl
length-map f (x ∷ xs) = ap suc (length-map f xs)

pub started-IsValid : (values : List ℤ) (thread_count : ℕ) → IsValid (started values thread_count)
unfolding started
started-IsValid values thread_count = record {
  falls = tt;
  known = λ i v rest p at_left at_point.
      subst (Knows int_max v) (get_elem?-replicate thread_count i loads p at_point) tt;
  matched =
      length-replicate thread_count loads
      ∙ sym (length-blocks (length values) thread_count)
      ∙ sym (length-map (slice values) (blocks (length values) thread_count));
}

-- The minimum that the sequential search finds.
fold-absorb :
    (r : MinResult) (vs : List ℤ) → (fold absorb r vs).min_value ≡ fold min_ℤ r.min_value vs
unfolding absorb
fold-absorb r [] = refl
fold-absorb r (v ∷ vs) =
    let head : (absorb r v).min_value ≡ min_ℤ r.min_value v = ground arith in
    fold-absorb (absorb r v) vs ∙ ap (λ m. fold min_ℤ m vs) head

lowest-started :
    (v : ℤ) (vs : List ℤ) (thread_count : ℕ)
    → 0 < thread_count
    → length (v ∷ vs) < size_mod
    → v ≤ℤ int_max
    → lowest (started (v ∷ vs) thread_count) ≡ (find_min_and_count (v ∷ vs)).min_value
unfolding started find_min_and_count
lowest-started v vs thread_count h fits small =
    let first : min_ℤ int_max v ≡ v = ground (arith, eq_of_parts v int_max) in
    ap (fold min_ℤ int_max) (concat-blocks (v ∷ vs) thread_count h fits)
    ∙ ap (λ m. fold min_ℤ m vs) first
    ∙ sym (fold-absorb (record { min_value = v; count = 1 }) vs)

-- With at least one thread, on any array of `int` values shorter than 2 ^ 64: every schedule that
-- lets all threads finish returns the minimum that the single-threaded search returns, whichever of
-- the earlier values the loads see, and however often a weak exchange fails.
pub find_min_and_count_parallel_atomic-min :
    (values : List ℤ) (thread_count : ℕ) (schedule : List Turn)
    → 0 < thread_count
    → length values < size_mod
    → All (λ v. v ≤ℤ int_max) values
    → IsDone (turns (started values thread_count) schedule).left
    → (r : MinResult) × (find_min_and_count_parallel_atomic values thread_count schedule ≡ some r)
      × (r.min_value ≡ (find_min_and_count values).min_value)
unfolding find_min_and_count_parallel_atomic
find_min_and_count_parallel_atomic-min [] thread_count schedule h fits small done =
    (record { min_value = pos 0; count = 0 }, refl, unfold find_min_and_count in refl)
find_min_and_count_parallel_atomic-min (v ∷ vs) thread_count schedule h fits small done =
    let last = turns (started (v ∷ vs) thread_count) schedule in
    let nonzero : (thread_count == 0) ≡ false = ground arith in
    let (valid, kept) =
      turns-IsValid (started (v ∷ vs) thread_count) schedule
        (started-IsValid (v ∷ vs) thread_count) in
    (
      record { min_value = last.min_value; count = last.count },
      rw nonzero refl,
      sym (ap (fold min_ℤ last.min_value) (concat-done last.left done))
          ∙ kept
          ∙ lowest-started v vs thread_count h fits small.0,
    )
