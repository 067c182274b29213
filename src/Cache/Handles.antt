-- ===== src/Cache/Handles.antt =====
-- What the cache keeps: its bound, one entry for a path, the places of its entries, and no open handle
-- without an entry.
use mathlib.Core.List.{append-nil}
use multithreading_labs.Base.{
  Has, ◌<◌, ◌^◌, ℕ, zero, suc, ◌≡◌, ◌≤◌, refl, sym, ap, ◌∙◌, subst, ◌⊎◌, inl, inr, none, some, List,
  [], ◌∷◌, ◌++◌, length, get_elem?, arith, map, length-append, eq_of_some,
}
use multithreading_labs.Windows.{Windows, IsDocumented}
use multithreading_labs.Cache.{FileCache, find_entry, get_file_cache, new_cache, max_cached_files}
use multithreading_labs.Cache.Lookup.{find_entry-filepath, find_entry-append, find_entry-new}
use multithreading_labs.Cache.Cases.{get_file_cache-cases}

-- The element that was put at the end, or one of those before.
get_elem?-snoc {ℓ} :
    {A : Type ℓ} (xs : List A) (x y : A) (i : ℕ)
    → get_elem? (xs ++ (x ∷ [])) i ≡ some y
    → (get_elem? xs i ≡ some y) ⊎ ((i ≡ length xs) × (x ≡ y))
get_elem?-snoc [] x y zero e = inr (refl, eq_of_some x y e)
get_elem?-snoc [] x y (suc i) e = cc
get_elem?-snoc (z ∷ xs) x y zero e = inl e
get_elem?-snoc (z ∷ xs) x y (suc i) e = elim (get_elem?-snoc xs x y i e) [
  | inl before ↦ inl before
  | inr (last, same) ↦ inr (ap suc last, same)
]

map-snoc {ℓ κ} :
    {A : Type ℓ} {B : Type κ} (f : A → B) (xs : List A) (x : A)
    → map f (xs ++ (x ∷ [])) ≡ map f xs ++ (f x ∷ [])
map-snoc f [] x = refl
map-snoc f (y ∷ xs) x = ap (◌∷◌ (f y)) (map-snoc f xs x)

module _ (W : Windows) (D : IsDocumented W) where
  pub record IsValid (cache : List FileCache) (s : W.State) : Type 0 where
    pub bounded : length cache ≤ max_cached_files
    pub found :
        (i : ℕ) (f : FileCache) → get_elem? cache i ≡ some f → find_entry cache f.filepath ≡ some i
    pub sized :
        (i : ℕ) (f : FileCache)
        → get_elem? cache i ≡ some f
        → (f.file_size ≡ length (D.content s f.handle)) × (f.file_size < 2 ^ 63)
    pub owned : D.handles s ≡ map (λ (f : FileCache). f.handle) cache

  -- The handle of an entry is one that the process holds.
  entry-held :
      (cache : List FileCache) (i : ℕ) (f : FileCache)
      → get_elem? cache i ≡ some f
      → Has f.handle (map (λ (f : FileCache). f.handle) cache)
  entry-held [] i f e = cc
  entry-held (g ∷ cache) zero f e =
      let same : g ≡ f = cc in inl (ap (λ (f : FileCache). f.handle) (sym same))
  entry-held (g ∷ cache) (suc i) f e = inr (entry-held cache i f e)

  -- The sizes stay right where the files of the entries stay as they are.
  keep-sized :
      (cache : List FileCache) (s s' : W.State)
      → IsValid cache s
      → ((h : ℕ) → Has h (D.handles s) → D.content s' h ≡ D.content s h)
      → (i : ℕ) (f : FileCache) → get_elem? cache i ≡ some f
      → (f.file_size ≡ length (D.content s' f.handle)) × (f.file_size < 2 ^ 63)
  keep-sized cache s s' v keeps i f e =
      let (size, small) = v.sized i f e in
      let held = subst (Has f.handle) (sym v.owned) (entry-held cache i f e) in
      (size ∙ ap length (sym (keeps f.handle held)), small)

  add-found :
      (cache : List FileCache) (s : W.State) (f : FileCache)
      → IsValid cache s
      → find_entry cache f.filepath ≡ none
      → (i : ℕ) (g : FileCache) → get_elem? (cache ++ (f ∷ [])) i ≡ some g
      → find_entry (cache ++ (f ∷ [])) g.filepath ≡ some i
  add-found cache s f v missing i g e = elim (get_elem?-snoc cache f g i e) [
    | inl before ↦ find_entry-append cache (f ∷ []) g.filepath i (v.found i g before)
    | inr (last, same) ↦
        subst (λ (g : FileCache). find_entry (cache ++ (f ∷ [])) g.filepath ≡ some i) same
          (find_entry-new cache f missing ∙ ap some (sym last))
  ]

  add-sized :
      (cache : List FileCache) (s : W.State) (filepath : List ℕ) (f : FileCache)
      → IsValid cache s
      → (f.file_size ≡ length (D.content (W.create_file s filepath).1 f.handle))
        × (f.file_size < 2 ^ 63)
      → (i : ℕ) (g : FileCache) → get_elem? (cache ++ (f ∷ [])) i ≡ some g
      → (g.file_size ≡ length (D.content (W.create_file s filepath).1 g.handle))
        × (g.file_size < 2 ^ 63)
  add-sized cache s filepath f v new_ i g e = elim (get_elem?-snoc cache f g i e) [
    | inl before ↦ keep-sized cache s _ v (D.create-content s filepath) i g before
    | inr (last, same) ↦
        subst
          (λ (g : FileCache).
            (g.file_size ≡ length (D.content (W.create_file s filepath).1 g.handle))
            × (g.file_size < 2 ^ 63))
          same new_
  ]

  -- A valid cache stays valid, for any path and whatever Windows answers: it is within its bound,
  -- has one entry for a path, with the size of its file, and its handles are those that the
  -- process holds: none is left open without an entry, also when the size of a file cannot be had.
  pub get_file_cache-IsValid :
      (cache : List FileCache) (s : W.State) (filepath : List ℕ)
      → IsValid cache s
      → IsValid (get_file_cache W cache s filepath).1 (get_file_cache W cache s filepath).2
  get_file_cache-IsValid cache s filepath v = elim (get_file_cache-cases W cache s filepath) [
    | inl (i, f, there, same, at_i, e) ↦ rw e v
    | inr (missing, inl (inl (e, why))) ↦ rw e v
    | inr (missing, inl (inr (inl (nothing, e)))) ↦ rw e (record {
      bounded = v.bounded;
      found = v.found;
      sized = keep-sized cache s _ v (D.create-content s filepath);
      owned = D.create-nothing s filepath nothing ∙ v.owned;
    })
    | inr (missing, inl (inr (inr (h, made, unsized, e)))) ↦ rw e (record {
      bounded = v.bounded;
      found = v.found;
      sized = keep-sized cache s _ v (λ g held.
          D.close-content _ _ h g (D.create-handle s filepath h made) held
          ∙ D.create-content s filepath g held);
      owned = D.close-last _ _ h (D.create-handle s filepath h made) ∙ v.owned;
    })
    | inr (missing, inr (h, size, made, sized, room, e)) ↦ rw e (record {
      bounded = omega (arith, length-append cache (new_cache filepath h size ∷ []));
      found = add-found cache s (new_cache filepath h size) v missing;
      sized =
          add-sized cache s filepath (new_cache filepath h size) v
            (D.size-content (W.create_file s filepath).1 h size sized);
      owned =
          D.create-handle s filepath h made
          ∙ ap (λ (hs : List ℕ). hs ++ (h ∷ [])) v.owned
          ∙ sym (map-snoc (λ (f : FileCache). f.handle) cache _);
    })
  ]

  returned-found :
      (cache : List FileCache) (s : W.State) (filepath : List ℕ) (i : ℕ)
      → (get_file_cache W cache s filepath).0 ≡ some i
      → (added : List FileCache) × ((get_file_cache W cache s filepath).1 ≡ cache ++ added)
        × (find_entry (get_file_cache W cache s filepath).1 filepath ≡ some i)
  returned-found cache s filepath i r = elim (get_file_cache-cases W cache s filepath) [
    | inl (j, f, there, same, at_j, e) ↦
        ([], rw e (sym (append-nil cache)), rw e (at_j ∙ sym (ap (λ r. r.0) e) ∙ r))
    | inr (missing, inl (inl (e, why))) ↦ absurd (cc)
    | inr (missing, inl (inr (inl (nothing, e)))) ↦ absurd (cc)
    | inr (missing, inl (inr (inr (h, made, unsized, e)))) ↦ absurd (cc)
    | inr (missing, inr (h, size, made, sized, room, e)) ↦ (
      new_cache filepath h size ∷ [],
      rw e refl,
      rw e (find_entry-new cache (new_cache filepath h size) missing ∙ sym (ap (λ r. r.0) e) ∙ r),
    )
  ]

  -- A pointer that was returned stays good: the entries before keep their places, the pointer's entry
  -- is one of the path, and the next call for the path returns the same pointer and changes nothing,
  -- whatever the state of the files is by then and whatever entries have been added.
  pub get_file_cache-again :
      (cache : List FileCache) (s : W.State) (filepath : List ℕ) (i : ℕ)
      → (get_file_cache W cache s filepath).0 ≡ some i
      → (more : List FileCache) (later : W.State)
      → let cache' = (get_file_cache W cache s filepath).1 in
        ((added : List FileCache) × (cache' ≡ cache ++ added))
        × ((f : FileCache) × (get_elem? cache' i ≡ some f) × (f.filepath ≡ filepath))
        × (get_file_cache W (cache' ++ more) later filepath ≡ (some i, cache' ++ more, later))
  unfolding get_file_cache
  get_file_cache-again cache s filepath i e more later =
      let (added, grown, found) = returned-found cache s filepath i e in
      (
        (added, grown),
        find_entry-filepath _ filepath i found,
        rw
            (
              find_entry-append (get_file_cache W cache s filepath).1 more filepath i found,
              get_file_cache,
            )
            refl,
      )
