-- ===== src/Cache/Cases.antt =====
-- What `get_file_cache` does, on every branch.
use multithreading_labs.Base.{
  ℕ, ◌≡◌, ◌≤◌, ◌<◌, refl, ◌∙◌, ◌⊎◌, inl, inr, none, some, true, List, [], ◌∷◌, ◌++◌, ◌||◌, length,
  get_elem?, arith, Bool-cases, Option-cases, leb, leb→le, ◌==◌,
}
use multithreading_labs.Windows.{Windows}
use multithreading_labs.Cache.{
  FileCache, find_entry, get_file_cache, open_entry, opened, add_entry, new_cache, max_cached_files,
  is_directory, invalid_file_attributes,
}
use multithreading_labs.Cache.Lookup.{find_entry-filepath}

module _ (W : Windows) where
  open W use {State, get_file_attributes, create_file, get_file_size, close_handle}

  -- The path is in the cache: nothing changes.
  abbrev pub Hits : List FileCache → State → List ℕ → Type 0
  Hits cache s filepath =
      (i : ℕ) × (f : FileCache) × (get_elem? cache i ≡ some f)
      × (f.filepath ≡ filepath)
      × (find_entry cache filepath ≡ some i)
      × (get_file_cache W cache s filepath ≡ (some i, cache, s))

  -- No entry: the cache is full, the path names no file, or the file cannot be opened; a file of
  -- which the size cannot be had is closed again.
  abbrev pub Misses : List FileCache → State → List ℕ → Type 0
  Misses cache s filepath =
      ((get_file_cache W cache s filepath ≡ (none, cache, s))
        × ((max_cached_files ≤ length cache)
            ⊎ ((get_file_attributes s filepath ≡ invalid_file_attributes)
                ⊎ (is_directory (get_file_attributes s filepath) ≡ true))))
      ⊎ (((create_file s filepath).0 ≡ none)
          × (get_file_cache W cache s filepath ≡ (none, cache, (create_file s filepath).1)))
      ⊎ ((h : ℕ) × ((create_file s filepath).0 ≡ some h)
          × (get_file_size (create_file s filepath).1 h ≡ none)
          × (get_file_cache W cache s filepath
              ≡ (none, cache, close_handle (create_file s filepath).1 h)))

  -- A new entry behind the others, with the size and the type of its file.
  abbrev pub Adds : List FileCache → State → List ℕ → Type 0
  Adds cache s filepath =
      (h size : ℕ) × ((create_file s filepath).0 ≡ some h)
      × (get_file_size (create_file s filepath).1 h ≡ some size)
      × (length cache < max_cached_files)
      × (get_file_cache W cache s filepath ≡ (
        some (length cache),
        cache ++ (new_cache filepath h size ∷ []),
        (create_file s filepath).1,
      ))

  -- `open_entry`, when there is room and the path names a file.
  create-cases :
      (cache : List FileCache) (s : State) (filepath : List ℕ)
      → find_entry cache filepath ≡ none
      → get_file_cache W cache s filepath ≡ opened W cache filepath (create_file s filepath)
      → length cache < max_cached_files
      → Misses cache s filepath ⊎ Adds cache s filepath
  unfolding opened add_entry
  create-cases cache s filepath new_ goes room = elim (Option-cases (create_file s filepath).0) [
    | inl none_ ↦ inl (inr (inl (none_, goes ∙ rw none_ refl)))
    | inr (h, some_) ↦ elim (Option-cases (get_file_size (create_file s filepath).1 h)) [
      | inl none_ ↦ inl (inr (inr (h, some_, none_, goes ∙ rw (some_, none_) refl)))
      | inr (size, sized) ↦ inr (h, size, some_, sized, room, goes ∙ rw (some_, sized) refl)
    ]
  ]

  open-cases :
      (cache : List FileCache) (s : State) (filepath : List ℕ)
      → find_entry cache filepath ≡ none
      → Misses cache s filepath ⊎ Adds cache s filepath
  unfolding get_file_cache open_entry
  open-cases cache s filepath missing =
      let attrs = get_file_attributes s filepath in
      elim (Bool-cases (leb max_cached_files (length cache))) [
        | inl full ↦ inl (
            inl (
              rw (missing, get_file_cache, full) refl,
              inl (leb→le max_cached_files (length cache) full),
            ))
        | inr room ↦ elim (Bool-cases (attrs == invalid_file_attributes || is_directory attrs)) [
          | inl nothing ↦
              inl (inl (rw (missing, get_file_cache, room, nothing) refl, inr (ground arith)))
          | inr file ↦
              create-cases cache s filepath missing (rw (missing, get_file_cache, room, file) refl)
                (ground arith)
        ]
      ]

  -- What `get_file_cache` does, on every branch.
  pub get_file_cache-cases :
      (cache : List FileCache) (s : State) (filepath : List ℕ)
      → Hits cache s filepath
        ⊎ ((find_entry cache filepath ≡ none) × (Misses cache s filepath ⊎ Adds cache s filepath))
  unfolding get_file_cache open_entry
  get_file_cache-cases cache s filepath = elim (Option-cases (find_entry cache filepath)) [
    | inr (i, found) ↦
        let (f, there, same) = find_entry-filepath cache filepath i found in
        inl (i, f, there, same, found, rw (found, get_file_cache) refl)
    | inl missing ↦ inr (missing, open-cases cache s filepath missing)
  ]
