-- ===== src/Cache/Lookup.antt =====
-- The search for a path in the cache.
use multithreading_labs.Base.{
  ℕ, suc, ◌≡◌, refl, sym, ap, ◌∙◌, ◌⊎◌, inl, inr, Option, none, some, true, false, List, [], ◌∷◌,
  ◌++◌, length, get_elem?, same_text, same_text_iff, Bool-cases, Option-cases, eq_of_some,
}
use multithreading_labs.Cache.{FileCache, find_entry}

find_entry-first :
    (f : FileCache) (cache : List FileCache) (filepath : List ℕ)
    → same_text f.filepath filepath ≡ true
    → find_entry (f ∷ cache) filepath ≡ some 0
unfolding find_entry
find_entry-first f cache filepath same = rw same refl

find_entry-later :
    (f : FileCache) (cache : List FileCache) (filepath : List ℕ) (o : Option ℕ)
    → same_text f.filepath filepath ≡ false
    → find_entry cache filepath ≡ o
    → find_entry (f ∷ cache) filepath
      ≡ (elim o as (λ x. Option ℕ) [ none ↦ none | some i ↦ some (suc i) ])
unfolding find_entry
find_entry-later f cache filepath o other e = rw (other, e) refl

-- Where the search in a list with a first entry ends.
find_entry-cases :
    (f : FileCache) (cache : List FileCache) (filepath : List ℕ) (i : ℕ)
    → find_entry (f ∷ cache) filepath ≡ some i
    → ((f.filepath ≡ filepath) × (i ≡ 0))
      ⊎ ((j : ℕ) × (same_text f.filepath filepath ≡ false)
          × (find_entry cache filepath ≡ some j)
          × (i ≡ suc j))
find_entry-cases f cache filepath i e = elim (Bool-cases (same_text f.filepath filepath)) [
  | inl same ↦ inl (
    (same_text_iff f.filepath filepath).0 same,
    sym (eq_of_some 0 i (sym (find_entry-first f cache filepath same) ∙ e)),
  )
  | inr other ↦ elim (Option-cases (find_entry cache filepath)) [
    | inl missing ↦
        let nowhere = find_entry-later f cache filepath none other missing in absurd (cc)
    | inr (j, found) ↦
        let later = find_entry-later f cache filepath (some j) other found in
        inr (j, other, found, sym (eq_of_some (suc j) i (sym later ∙ e)))
  ]
]

-- An index that the search finds is that of an entry of the path.
pub find_entry-filepath :
    (cache : List FileCache) (filepath : List ℕ) (i : ℕ)
    → find_entry cache filepath ≡ some i
    → (f : FileCache) × (get_elem? cache i ≡ some f) × (f.filepath ≡ filepath)
unfolding find_entry
find_entry-filepath [] filepath i e = cc
find_entry-filepath (f ∷ cache) filepath i e = elim (find_entry-cases f cache filepath i e) [
  | inl (same, first) ↦ (f, rw first refl, same)
  | inr (j, other, found, later) ↦
      let (g, there, same) = find_entry-filepath cache filepath j found in (g, rw later there, same)
]

-- What the search finds, it still finds when entries have been added.
pub find_entry-append :
    (cache more : List FileCache) (filepath : List ℕ) (i : ℕ)
    → find_entry cache filepath ≡ some i
    → find_entry (cache ++ more) filepath ≡ some i
unfolding find_entry
find_entry-append [] more filepath i e = cc
find_entry-append (f ∷ cache) more filepath i e = elim (find_entry-cases f cache filepath i e) [
  | inl (same, first) ↦
      find_entry-first f (cache ++ more) filepath ((same_text_iff f.filepath filepath).1 same)
      ∙ ap some (sym first)
  | inr (j, other, found, later) ↦
      find_entry-later f (cache ++ more) filepath (some j) other
        (find_entry-append cache more filepath j found)
      ∙ ap some (sym later)
]

-- An entry that is added for a path with none is found in its place.
pub find_entry-new :
    (cache : List FileCache) (f : FileCache)
    → find_entry cache f.filepath ≡ none
    → find_entry (cache ++ (f ∷ [])) f.filepath ≡ some (length cache)
find_entry-new [] f e =
    find_entry-first f [] f.filepath ((same_text_iff f.filepath f.filepath).1 refl)
find_entry-new (g ∷ cache) f e = elim (Bool-cases (same_text g.filepath f.filepath)) [
  | inl same ↦ let first = find_entry-first g cache f.filepath same in absurd (cc)
  | inr other ↦ elim (Option-cases (find_entry cache f.filepath)) [
    | inl missing ↦
        find_entry-later g (cache ++ (f ∷ [])) f.filepath (some (length cache)) other
          (find_entry-new cache f missing)
    | inr (j, found) ↦
        let later = find_entry-later g cache f.filepath (some j) other found in absurd (cc)
  ]
]
