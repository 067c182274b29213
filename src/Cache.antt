-- ===== src/Cache.antt =====
-- lab_5/src/cache.cpp and lab_5/include/cache.h: the files that the server has opened. The array
-- `cache` with its first `cache_size` places is a list, and a `FileCache *` is an index into it.
-- `CacheLock` makes a call one step.
pub mod Lookup
pub mod Cases
pub mod Handles
use multithreading_labs.Base.{
  ℕ, zero, suc, ◌/◌, ◌%◌, ◌^◌, ◌-◌, ◌≡◌, Option, none, some, Bool, true, false, ◌||◌, List, [], ◌∷◌,
  ◌++◌, leb, ◌==◌, if◌then◌else◌, length, map, codes, same_text, contains,
}
use multithreading_labs.Windows.{Windows}

abbrev pub max_cached_files : ℕ
max_cached_files = 100

pub record FileCache : Type 0 where
  pub filepath : List ℕ
  pub handle : ℕ
  pub file_size : ℕ
  pub content_type : List ℕ

abbrev pub invalid_file_attributes : ℕ
invalid_file_attributes = 2 ^ 32 - 1

-- `attrs & FILE_ATTRIBUTE_DIRECTORY`
abbrev pub is_directory : ℕ → Bool
is_directory attrs = attrs / 16 % 2 == 1

unfoldable pub find_entry : List FileCache → List ℕ → Option ℕ
find_entry [] filepath = none
find_entry (f ∷ cache) filepath =
    let later : Option ℕ = elim (find_entry cache filepath) [
      | none ↦ none
      | some i ↦ some (suc i)
    ] in
    if same_text f.filepath filepath then some 0 else later

unfoldable pub content_type_of : List ℕ → List ℕ
content_type_of filepath =
    if contains filepath (codes ".html")
    then codes "text/html"
    else if contains filepath (codes ".css")
    then codes "text/css"
    else if contains filepath (codes ".js")
    then codes "application/javascript"
    else if contains filepath (codes ".png")
    then codes "image/png"
    else if contains filepath (codes ".jpg") || contains filepath (codes ".jpeg")
    then codes "image/jpeg"
    else codes "text/plain"

abbrev pub new_cache : List ℕ → ℕ → ℕ → FileCache
new_cache filepath handle size = record {
  filepath = filepath;
  handle = handle;
  file_size = size;
  content_type = content_type_of filepath;
}

module _ (W : Windows) where
  open W use {State, get_file_attributes, create_file, get_file_size, close_handle}

  -- The file is open: its size decides whether it gets an entry.
  unfoldable pub add_entry :
      List FileCache → List ℕ → ℕ → State → Option ℕ → Option ℕ × List FileCache × State
  add_entry cache filepath handle s none = (none, cache, close_handle s handle)
  add_entry cache filepath handle s (some size) =
      (some (length cache), cache ++ (new_cache filepath handle size ∷ []), s)

  -- What `CreateFileA` returned.
  unfoldable pub opened :
      List FileCache → List ℕ → Option ℕ × State → Option ℕ × List FileCache × State
  unfolding add_entry
  opened cache filepath (none, s) = (none, cache, s)
  opened cache filepath (some handle, s) =
      add_entry cache filepath handle s (get_file_size s handle)

  unfoldable pub open_entry : List FileCache → State → List ℕ → Option ℕ × List FileCache × State
  unfolding opened
  open_entry cache s filepath =
      let attrs = get_file_attributes s filepath in
      if leb max_cached_files (length cache)
      then (none, cache, s)
      else if attrs == invalid_file_attributes || is_directory attrs
      then (none, cache, s)
      else opened cache filepath (create_file s filepath)

  unfoldable pub get_file_cache :
      List FileCache → State → List ℕ → Option ℕ × List FileCache × State
  unfolding find_entry open_entry
  get_file_cache cache s filepath = elim (find_entry cache filepath) [
    | some i ↦ (some i, cache, s)
    | none ↦ open_entry cache s filepath
  ]
