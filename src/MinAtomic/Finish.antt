-- ===== src/MinAtomic/Finish.antt =====
-- The threads of `findMinAndCountParallelAtomic` can always finish.
use multithreading_labs.Base.{
  ℕ, zero, suc, ◌*◌, ◌≤◌, ◌≡◌, refl, ap, subst, sym, ◌∙◌, none, some, true, false, List, [], ◌∷◌,
  ◌++◌, arith, ℤ, ltb_ℤ, ◌==ℤ◌, length, get_elem?, set, length-append, get_elem?-set_self,
  get_elem?-in_range, get_elem?-bound, Bool-cases, inl, inr,
}
use multithreading_labs.Blocks.Slices.{
  concat, concat-busy, length-concat-set, IsDone-of_length, IsDone,
}
use multithreading_labs.MinAtomic.{
  Point, loads, compares, stores, tests, adds, Atomics, Turn, load, go_to, exchange, act, turn,
  turns, started,
}
use multithreading_labs.MinAtomic.Invariant.{IsValid}
use multithreading_labs.MinAtomic.Minimum.{turns-IsValid, started-IsValid}

-- A turn in which the load sees the newest value and an exchange fails only if it has to.
abbrev newest : Atomics → ℕ → Turn
newest s i = record { thread = i; fails = false; age = length s.older }

get_elem?-length : (xs : List ℤ) → get_elem? xs (length xs) ≡ none
get_elem?-length [] = refl
get_elem?-length (x ∷ xs) = get_elem?-length xs

load-newest : (s : Atomics) → load s (length s.older) ≡ s.min_value
unfolding load
load-newest s = rw (get_elem?-length s.older, load)

turns-append : (s : Atomics) (a b : List Turn) → turns s (a ++ b) ≡ turns (turns s a) b
unfolding turns
turns-append s [] b = refl
turns-append s (t ∷ a) b = turns-append (turn s t) a b

-- Thread `i` can be done with its value in `n` turns.
abbrev Ends : ℕ → Atomics → ℕ → List ℤ → Type 0
Ends n s i rest =
    (schedule : List Turn) × (length schedule ≤ n) × ((turns s schedule).left ≡ set s.left i rest)

-- The thread has `v` at hand, at point `p`.
module _ (i : ℕ) (v : ℤ) (rest : List ℤ) where
  pub record Stands (s : Atomics) (p : Point) : Type 0 where
    pub at_left : get_elem? s.left i ≡ some (v ∷ rest)
    pub at_point : get_elem? s.points i ≡ some p

  turn-act :
      (s : Atomics) (p : Point) → Stands s p → turn s (newest s i) ≡ act s (newest s i) v rest p
  unfolding turn
  turn-act s p h = rw (h.at_left, h.at_point, turn)

  go_to-Stands : (s : Atomics) (p q : Point) → Stands s p → Stands (go_to s i q) q
  go_to-Stands s p q h = record {
    at_left = h.at_left;
    at_point = get_elem?-set_self s.points i q (get_elem?-bound s.points i p h.at_point);
  }

  exchanged : (s : Atomics) (p : Point) → Stands s p → Stands (go_to (exchange s v) i stores) stores
  unfolding exchange
  exchanged s p h =
      let moved = go_to-Stands s p stores h in
      record { at_left = moved.at_left; at_point = moved.at_point }

  -- One turn, then the rest.
  goes :
      (n : ℕ) (s s' : Atomics) (p : Point)
      → Stands s p
      → act s (newest s i) v rest p ≡ s'
      → s'.left ≡ s.left
      → Ends n s' i rest
      → Ends (suc n) s i rest
  unfolding turns
  goes n s s' p h e same (schedule, short, done) = (
    newest s i ∷ schedule,
    omega arith,
    ap (λ (u : Atomics). (turns u schedule).left) (turn-act s p h ∙ e)
        ∙ done
        ∙ ap (λ (left : List (List ℤ)). set left i rest) same,
  )

  last :
      (n : ℕ) (s : Atomics) (p : Point)
      → Stands s p
      → (act s (newest s i) v rest p).left ≡ set s.left i rest
      → Ends (suc n) s i rest
  unfolding turns
  last n s p h e = (newest s i ∷ [], omega arith, ap (λ (u : Atomics). u.left) (turn-act s p h) ∙ e)

  Ends-tests : (s : Atomics) → Stands s tests → Ends 2 s i rest
  unfolding act
  Ends-tests s h = elim (Bool-cases (v ==ℤ load s (length s.older))) [
    | inr e ↦ last 1 s tests h (rw e refl)
    | inl e ↦
        goes 1 s (go_to s i adds) tests h (rw e refl) refl
          (last 0 (go_to s i adds) adds (go_to-Stands s tests adds h) refl)
  ]

  Ends-newest : (s : Atomics) → Stands s (compares s.min_value) → Ends 3 s i rest
  unfolding act exchange
  Ends-newest s h = elim (Bool-cases (ltb_ℤ v s.min_value)) [
    | inr e ↦
        goes 2 s (go_to s i tests) (compares s.min_value) h (rw e refl) refl
          (Ends-tests (go_to s i tests) (go_to-Stands s _ tests h))
    | inl e ↦
        let same : (s.min_value ==ℤ s.min_value) ≡ true = ground arith in
        goes 2 s (go_to (exchange s v) i stores) (compares s.min_value) h (rw (e, same) refl) refl (
          last 1 (go_to (exchange s v) i stores) stores (exchanged s (compares s.min_value) h) refl)
  ]

  Ends-compares : (s : Atomics) (c : ℤ) → Stands s (compares c) → Ends 4 s i rest
  unfolding act
  Ends-compares s c h = elim (Bool-cases (ltb_ℤ v c)) [
    | inr e ↦
        let (schedule, short, done) =
          Ends-tests (go_to s i tests) (go_to-Stands s (compares c) tests h) in
        goes 3 s (go_to s i tests) (compares c) h (rw e refl) refl (schedule, omega arith, done)
    | inl e ↦ elim (Bool-cases (s.min_value ==ℤ c)) [
      | inl e' ↦
          goes 3 s (go_to (exchange s v) i stores) (compares c) h (rw (e, e') refl) refl
            (last 2 (go_to (exchange s v) i stores) stores (exchanged s (compares c) h) refl)
      | inr e' ↦
          let s' = go_to s i (compares s.min_value) in
          goes 3 s s' (compares c) h (rw (e, e', load-newest s) refl) refl
            (Ends-newest s' (go_to-Stands s (compares c) (compares s.min_value) h))
    ]
  ]

  Ends-any : (s : Atomics) (p : Point) → Stands s p → Ends 4 s i rest
  unfolding act
  Ends-any s loads h =
      let s' = go_to s i (compares s.min_value) in
      goes 3 s s' loads h (rw (load-newest s) refl) refl
        (Ends-newest s' (go_to-Stands s loads (compares s.min_value) h))
  Ends-any s (compares c) h = Ends-compares s c h
  Ends-any s stores h = last 3 s stores h refl
  Ends-any s tests h = let (schedule, short, done) = Ends-tests s h in (schedule, omega arith, done)
  Ends-any s adds h = last 3 s adds h refl

-- The threads of a valid state can all finish, in `n` values' worth of turns.
finish_from :
    (n : ℕ) (s : Atomics)
    → IsValid s
    → length (concat s.left) ≡ n
    → (schedule : List Turn) × (length schedule ≤ 4 * n) × IsDone (turns s schedule).left
unfolding turns
finish_from zero s h e = ([], omega arith, IsDone-of_length s.left e)
finish_from (suc n) s h e =
    let (i, v, rest, here) = concat-busy s.left (omega arith) in
    let (p, there) =
      get_elem?-in_range s.points i
        (omega (arith, h.matched, get_elem?-bound s.left i (v ∷ rest) here)) in
    let (first, short, done) =
      Ends-any i v rest s p (record { at_left = here; at_point = there }) in
    let s' = turns s first in
    let fewer : length (concat s'.left) ≡ n =
      ap (λ (left : List (List ℤ)). length (concat left)) done
      ∙ omega (arith, length-concat-set s.left i v rest here) in
    let (others, short', done') = finish_from n s' (turns-IsValid s first h).0 fewer in
    (
      first ++ others,
      omega (arith, length-append first others),
      subst (λ (u : Atomics). IsDone u.left) (sym (turns-append s first others)) done',
    )

-- The threads never block one another for good: whatever has happened since they were started, they
-- can all finish, in at most four turns for each value that is left.
pub turns-finish :
    (values : List ℤ) (thread_count : ℕ) (schedule : List Turn)
    → let s = turns (started values thread_count) schedule in
      (others : List Turn) × (length others ≤ 4 * length (concat s.left))
      × IsDone (turns s others).left
turns-finish values thread_count schedule =
    let s = turns (started values thread_count) schedule in
    finish_from (length (concat s.left)) s
      (turns-IsValid (started values thread_count) schedule (started-IsValid values thread_count)).0
      refl
