-- ===== src/MinCount/Mutex.antt =====
-- `findMinAndCountParallelMutex`: no schedule of the threads changes the result.
use multithreading_labs.Base.{
  ℕ, zero, suc, ◌<◌, ◌≡◌, refl, ap, ◌∙◌, sym, subst, ◌⊎◌, Option, none, some, List, [], ◌∷◌, arith,
  ℤ, ◌≤ℤ◌, All, size_mod, length, get_elem?, set, fold, inl, inr, ◌==◌, false,
}
use multithreading_labs.Blocks.Slices.{
  concat, concat-blocks, concat-busy, length-concat-set, IsDone-of_length, fold-set, concat-done,
  IsDone,
}
use multithreading_labs.MinCount.{
  MinResult, absorb, find_min_and_count, int_max, Shared, round, rounds, started,
  find_min_and_count_parallel_mutex,
}
use multithreading_labs.MinCount.Absorb.{absorb_comm, fold-find_min_and_count}

-- What the result would be if the remaining values were absorbed one thread after the other.
abbrev outcome : Shared → MinResult
outcome s = fold absorb s.global (concat s.left)

round-idle :
    (s : Shared) (i : ℕ)
    → (get_elem? s.left i ≡ none) ⊎ (get_elem? s.left i ≡ some [])
    → round s i ≡ s
unfolding round
round-idle s i (inl e) = rw (e, round)
round-idle s i (inr e) = rw (e, round)

round-busy :
    (s : Shared) (i : ℕ) (v : ℤ) (rest : List ℤ)
    → get_elem? s.left i ≡ some (v ∷ rest)
    → round s i ≡ record { global = absorb s.global v; left = set s.left i rest }
unfolding round
round-busy s i v rest e = rw (e, round)

outcome-round_of :
    (s : Shared) (i : ℕ) (next : Option (List ℤ))
    → get_elem? s.left i ≡ next
    → outcome (round s i) ≡ outcome s
outcome-round_of s i none e = ap outcome (round-idle s i (inl e))
outcome-round_of s i (some []) e = ap outcome (round-idle s i (inr e))
outcome-round_of s i (some (v ∷ rest)) e =
    ap outcome (round-busy s i v rest e) ∙ fold-set absorb absorb_comm s.global s.left i v rest e

outcome-round : (s : Shared) (i : ℕ) → outcome (round s i) ≡ outcome s
outcome-round s i = outcome-round_of s i (get_elem? s.left i) refl

outcome-rounds : (s : Shared) (schedule : List ℕ) → outcome (rounds s schedule) ≡ outcome s
unfolding rounds
outcome-rounds s [] = refl
outcome-rounds s (i ∷ schedule) = outcome-rounds (round s i) schedule ∙ outcome-round s i

outcome-done : (s : Shared) → IsDone s.left → outcome s ≡ s.global
outcome-done s h = ap (fold absorb s.global) (concat-done s.left h)

-- With at least one thread, every schedule that lets all threads finish gives what the
-- single-threaded search gives, on any array of `int` values shorter than 2 ^ 64.
pub find_min_and_count_parallel_mutex-sequential :
    (values : List ℤ) (thread_count : ℕ) (schedule : List ℕ)
    → 0 < thread_count
    → length values < size_mod
    → All (λ v. v ≤ℤ int_max) values
    → IsDone (rounds (started values thread_count) schedule).left
    → find_min_and_count_parallel_mutex values thread_count schedule
      ≡ some (find_min_and_count values)
unfolding find_min_and_count_parallel_mutex started
find_min_and_count_parallel_mutex-sequential [] thread_count schedule h fits small done =
    unfold find_min_and_count in refl
find_min_and_count_parallel_mutex-sequential (v ∷ vs) thread_count schedule h fits small done =
    let last = rounds (started (v ∷ vs) thread_count) schedule in
    let nonzero : (thread_count == 0) ≡ false = ground arith in
    rw nonzero (
      ap some (
        sym (outcome-done last done)
        ∙ outcome-rounds (started (v ∷ vs) thread_count) schedule
        ∙ ap (fold absorb (record { min_value = int_max; count = 0 }))
            (concat-blocks (v ∷ vs) thread_count h fits)
        ∙ fold-find_min_and_count v vs small.0))

finish_from :
    (n : ℕ) (s : Shared)
    → length (concat s.left) ≡ n
    → (schedule : List ℕ) × (length schedule ≡ n) × IsDone (rounds s schedule).left
unfolding rounds
finish_from zero s e = ([], refl, IsDone-of_length s.left e)
finish_from (suc n) s e =
    let (i, v, rest, q) = concat-busy s.left (omega arith) in
    let (schedule, len, done) =
      finish_from n (record { global = absorb s.global v; left = set s.left i rest })
        (omega (arith, length-concat-set s.left i v rest q)) in
    (
      i ∷ schedule,
      ap suc len,
      subst (λ t. IsDone (rounds t schedule).left) (sym (round-busy s i v rest q)) done,
    )

-- The threads never block one another for good: from every state they can all finish, in as many
-- rounds as there are values left.
pub rounds-finish :
    (s : Shared)
    → (schedule : List ℕ) × (length schedule ≡ length (concat s.left))
      × IsDone (rounds s schedule).left
rounds-finish s = finish_from (length (concat s.left)) s refl
