-- ===== src/MinAtomic/Invariant.antt =====
-- What holds of the atomics at every turn: `minValue` only falls, and a thread is past the exchange
-- only when `minValue` is at most its value.
use multithreading_labs.Base.{
  ℕ, ◌<◌, ◌≡◌, refl, ap, subst, sym, ◌∙◌, some, true, not, ◌&&◌, List, [], ◌∷◌, arith, ℤ, ◌≤ℤ◌,
  ltb_ℤ, ◌==ℤ◌, All, All-get_elem?, length, length-set, get_elem?, set, get_elem?-set_self,
  get_elem?-set_ne, get_elem?-bound, ℕ_discrete, Bool-cases, Option-cases, inl, inr, ◌≢◌, add_size,
}
use multithreading_labs.MinAtomic.{
  Point, loads, compares, stores, tests, adds, Atomics, Turn, load, go_to, advance, exchange, act,
}

-- What a thread at this point knows of its value `v`.
abbrev pub Knows : ℤ → ℤ → Point → Type 0
Knows min_value v loads = Unit
Knows min_value v (compares current_global_min) = min_value ≤ℤ current_global_min
Knows min_value v stores = min_value ≤ℤ v
Knows min_value v tests = min_value ≤ℤ v
Knows min_value v adds = min_value ≤ℤ v

pub record IsValid (s : Atomics) : Type 0 where
  pub falls : All (λ m. s.min_value ≤ℤ m) s.older
  pub known :
      (i : ℕ) (v : ℤ) (rest : List ℤ) (p : Point)
      → get_elem? s.left i ≡ some (v ∷ rest)
      → get_elem? s.points i ≡ some p
      → Knows s.min_value v p
  pub matched : length s.points ≡ length s.left

pub load-above : (s : Atomics) (age : ℕ) → IsValid s → s.min_value ≤ℤ load s age
unfolding load
load-above s age h = elim (Option-cases (get_elem? s.older age)) [
  | inl e ↦ rw (e, load) (omega arith)
  | inr (m, e) ↦ rw (e, load) (All-get_elem? (λ m. s.min_value ≤ℤ m) s.older age m h.falls e)
]

Knows-lower : (m m' v : ℤ) (p : Point) → m' ≤ℤ m → Knows m v p → Knows m' v p
Knows-lower m m' v loads le k = tt
Knows-lower m m' v (compares c) le k = omega arith
Knows-lower m m' v stores le k = omega arith
Knows-lower m m' v tests le k = omega arith
Knows-lower m m' v adds le k = omega arith

All-lower : (m m' : ℤ) (xs : List ℤ) → m' ≤ℤ m → All (λ x. m ≤ℤ x) xs → All (λ x. m' ≤ℤ x) xs
All-lower m m' [] le h = tt
All-lower m m' (x ∷ xs) le h = (omega (arith, h.0), All-lower m m' xs le h.1)

-- One thread is in a new place, and knows what it has to there; the others stay.
module _ (s : Atomics) (i : ℕ) (h : IsValid s) (points : List Point) (left : List (List ℤ))
    (points_stay : (j : ℕ) → i ≢ j → get_elem? points j ≡ get_elem? s.points j)
    (left_stay : (j : ℕ) → i ≢ j → get_elem? left j ≡ get_elem? s.left j)
    (matched : length points ≡ length left)
    (knows : (v : ℤ) (rest : List ℤ) (p : Point)
      → get_elem? left i ≡ some (v ∷ rest)
      → get_elem? points i ≡ some p
      → Knows s.min_value v p) where
  pub moved-IsValid :
      (count : ℕ) → IsValid (record s { count = count; points = points; left = left })
  moved-IsValid count = record {
    falls = h.falls;
    matched = matched;
    known = λ j v rest p at_left at_point. elim (ℕ_discrete i j) [
      | yes e ↦
          knows v rest p (ap (get_elem? left) e ∙ at_left) (ap (get_elem? points) e ∙ at_point)
      | no n ↦ h.known j v rest p (sym (left_stay j n) ∙ at_left) (sym (points_stay j n) ∙ at_point)
    ];
  }

module _ (s : Atomics) (i : ℕ) (v : ℤ) (rest : List ℤ) (here : get_elem? s.left i ≡ some (v ∷ rest))
    (h : IsValid s) where
  in_range : i < length s.points
  in_range = omega (arith, get_elem?-bound s.left i (v ∷ rest) here, h.matched)

  pub go_to-IsValid : (p : Point) → Knows s.min_value v p → IsValid (go_to s i p)
  go_to-IsValid p k =
      let self = get_elem?-set_self s.points i p in_range in
      moved-IsValid s i h (set s.points i p) s.left (λ j n. get_elem?-set_ne s.points p n)
        (λ j n. refl) (length-set s.points i p ∙ h.matched)
        (λ w rest' q at_left at_point.
          let same_value : v ≡ w = cc in
          let same_point : p ≡ q = cc in
          subst (λ (x : ℤ). Knows s.min_value x q) same_value
            (subst (λ (x : Point). Knows s.min_value v x) same_point k))
        s.count

  pub advance-IsValid : (count : ℕ) → IsValid (advance (record s { count = count }) i rest)
  advance-IsValid count =
      let self = get_elem?-set_self s.points i loads in_range in
      moved-IsValid s i h (set s.points i loads) (set s.left i rest)
        (λ j n. get_elem?-set_ne s.points loads n) (λ j n. get_elem?-set_ne s.left rest n)
        (length-set s.points i loads ∙ h.matched ∙ sym (length-set s.left i rest))
        (λ w rest' q at_left at_point.
          let same_point : loads ≡ q = cc in subst (Knows s.min_value w) same_point tt)
        count

pub exchange-IsValid : (s : Atomics) (v : ℤ) → v ≤ℤ s.min_value → IsValid s → IsValid (exchange s v)
unfolding exchange
exchange-IsValid s v le h = record {
  falls = (le, All-lower s.min_value v s.older le h.falls);
  known = λ i w rest p at_left at_point.
      Knows-lower s.min_value v w p le (h.known i w rest p at_left at_point);
  matched = h.matched;
}

-- What a turn does to a thread with the value `v` at hand: it stays with it, or it puts `v` into
-- `minValue`, or it is done with it, and then `minValue` is at most `v`.
pub data Effect (s : Atomics) (i : ℕ) (v : ℤ) (rest : List ℤ) : Atomics → Type 0 where
  stays : (p : Point) → Knows s.min_value v p → Effect s i v rest (go_to s i p)
  lowers : ltb_ℤ v s.min_value ≡ true → Effect s i v rest (go_to (exchange s v) i stores)
  leaves :
      (count : ℕ)
      → s.min_value ≤ℤ v
      → Effect s i v rest (advance (record s { count = count }) i rest)

pub act-Effect :
    (s : Atomics) (t : Turn) (v : ℤ) (rest : List ℤ) (p : Point)
    → IsValid s
    → Knows s.min_value v p
    → Effect s t.thread v rest (act s t v rest p)
unfolding act
act-Effect s t v rest loads h k = stays (compares (load s t.age)) (load-above s t.age h)
act-Effect s t v rest (compares c) h k = elim (Bool-cases (ltb_ℤ v c)) [
  | inl below ↦ elim (Bool-cases (not t.fails && s.min_value ==ℤ c)) [
    | inl wins ↦ rw (below, wins) (lowers (ground arith))
    | inr fails ↦ rw (below, fails) (stays (compares (load s t.age)) (load-above s t.age h))
  ]
  | inr above ↦ rw above (stays tests (ground arith))
]
act-Effect s t v rest stores h k = leaves 1 k
act-Effect s t v rest tests h k = elim (Bool-cases (v ==ℤ load s t.age)) [
  | inl e ↦ rw e (stays adds k)
  | inr e ↦ rw e (leaves s.count k)
]
act-Effect s t v rest adds h k = leaves (add_size s.count 1) k
