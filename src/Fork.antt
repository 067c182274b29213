-- ===== src/Fork.antt =====
-- Fork and join with one result slot per thread, as in lab_1/main.cpp and
-- lab_4/cpp/include/minmax.h: thread `i` computes `work i` from data that no thread writes and
-- stores it in slot `i`, which nobody else touches before the joins. So all that an interleaving
-- decides is the order in which the slots are written.
use multithreading_labs.Base.{
  ℕ, ◌<◌, ◌≡◌, refl, sym, ◌∙◌, ◌⊎◌, inl, inr, Option, some, List, [], ◌∷◌, arith, ◌>>=◌, length,
  set, get_elem?, Has, All, length-set, get_elem?-set_self, get_elem?-set_ne, ℕ_discrete,
}

-- An order in which all of the threads 0 to `n - 1`, and only they, finish. (A thread listed twice
-- writes the same value twice.)
pub record IsJoined (n : ℕ) (order : List ℕ) : Type 0 where
  pub known : All (λ i. i < n) order
  pub joined : (i : ℕ) → i < n → Has i order

module _ {A : Type 0} (work : ℕ → Option A) where
  -- The slots after the threads of `order` have stored their results, first to last.
  unfoldable pub finish : List ℕ → List A → Option (List A)
  finish [] slots = some slots
  finish (i ∷ order) slots = work i >>= λ a. finish order (set slots i a)

  -- Slot `i` holds what thread `i` computed.
  abbrev pub Stored : List A → ℕ → Type 0
  Stored slots i = get_elem? slots i ≡ work i

  set-Stored :
      (slots : List A) (i j : ℕ) (a : A)
      → i < length slots
      → work i ≡ some a
      → (j ≡ i) ⊎ Stored slots j
      → Stored (set slots i a) j
  set-Stored slots i j a lt e h = elim (ℕ_discrete i j) [
    | yes p ↦ rw (← p) (get_elem?-set_self slots i a lt ∙ sym e)
    | no p ↦ elim h [ inl q ↦ absurd (p (sym q)) | inr q ↦ get_elem?-set_ne slots a p ∙ q ]
  ]

  module _ (n : ℕ) (total : (i : ℕ) → i < n → (a : A) × (work i ≡ some a)) where
    pub finish_lem :
        (order : List ℕ) (slots : List A)
        → All (λ i. i < n) order
        → length slots ≡ n
        → (slots' : List A) × (finish order slots ≡ some slots')
          × (length slots' ≡ n)
          × ((j : ℕ) → Has j order ⊎ Stored slots j → Stored slots' j)
    unfolding finish
    finish_lem [] slots known len =
        (slots, refl, len, λ j h. elim h [ inl x ↦ absurd x | inr q ↦ q ])
    finish_lem (i ∷ order) slots known len =
        let (a, e) = total i known.0 in
        let (slots', run, len', stored) =
          finish_lem order (set slots i a) known.1 (length-set slots i a ∙ len) in
        let keep = set-Stored slots i in
        (
          slots',
          rw e run,
          len',
          λ j h. stored j (elim h [
            | inl x ↦ elim x [ inl p ↦ inr (keep j a (omega arith) e (inl p)) | inr p ↦ inl p ]
            | inr q ↦ inr (keep j a (omega arith) e (inr q))
          ]),
        )
