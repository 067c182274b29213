-- ===== src/HttpServer/Wanted.antt =====
-- What a client must get for a request line, written out without the code: the texts of the answers,
-- and what they depend on.
use multithreading_labs.Base.{
  ◌≡◌, ◌≢◌, ◌⊎◌, refl, ◌∙◌, inl, inr, ℕ, zero, suc, ◌+◌, ◌/◌, ◌%◌, ◌≤◌, ◌<◌, ◌^◌, none, some, true,
  List, [], ◌∷◌, ◌++◌, length, arith, codes, All, get_elem?, Bool-cases, Option-cases,
  if◌then◌else◌, ltb, same_text, same_text_iff, length-append,
}
use multithreading_labs.Windows.{Windows, IsDocumented}
use multithreading_labs.Cache.{
  FileCache, find_entry, content_type_of, max_cached_files, is_directory, invalid_file_attributes,
}
use multithreading_labs.HttpServer.{digits, decimal, header_of}
use multithreading_labs.HttpServer.Names.{Named, HasDots}
use multithreading_labs.HttpServer.Header.{value, decimal-value}

abbrev pub refusal_text : List ℕ
refusal_text = codes "HTTP/1.1 405 Method Not Allowed\r\nContent-Length: 0\r\n\r\n"

abbrev not_found_header : List ℕ
not_found_header =
    codes
      "HTTP/1.1 404 Not Found\r\nContent-Type: text/html\r\nContent-Length: 48\r\nConnection: close\r\n\r\n"

abbrev pub not_found_text : List ℕ
not_found_text = not_found_header ++ codes "<html><body><h1>404 Not Found</h1></body></html>"

abbrev IsDigit : ℕ → Type 0
IsDigit d = (b'0' ≤ d) × (d ≤ b'9')

-- A decimal numeral.
abbrev IsNumeral : List ℕ → ℕ → Type 0
IsNumeral ds n = All IsDigit ds × (0 < length ds) × (value ds ≡ n)

-- The whole content of a file behind a header with its type and its length.
abbrev pub IsFileText : (content_type content text : List ℕ) → Type 0
IsFileText content_type content text =
    (ds : List ℕ) × IsNumeral ds (length content)
    × (text
        ≡ codes "HTTP/1.1 200 OK\r\nContent-Type: "
          ++ content_type
          ++ codes "\r\nContent-Length: "
          ++ ds
          ++ codes "\r\nConnection: close\r\n\r\n"
          ++ content)

-- The path has no entry in the cache.
abbrev pub NoEntry : List FileCache → List ℕ → Type 0
NoEntry cache name = All (λ (f : FileCache). f.filepath ≢ name) cache

module _ (W : Windows) (D : IsDocumented W) where
  -- The file is not to be had: there is no room for another entry, the name is none of a file, or
  -- Windows does not open it or does not give its size.
  abbrev pub NoFile : List FileCache → W.State → List ℕ → Type 0
  NoFile cache s name =
      (max_cached_files ≤ length cache)
      ⊎ (W.get_file_attributes s name ≡ invalid_file_attributes)
      ⊎ (is_directory (W.get_file_attributes s name) ≡ true)
      ⊎ ((W.create_file s name).0 ≡ none)
      ⊎ ((h : ℕ) × ((W.create_file s name).0 ≡ some h)
          × (W.get_file_size (W.create_file s name).1 h ≡ none))

  -- What GET gets for a name without "..": the content of the file of its entry, or of the file that
  -- Windows opens.
  pub data Served (cache : List FileCache) (s : W.State) (name : List ℕ) : List ℕ → Type 0 where
    no_file : NoEntry cache name → NoFile cache s name → Served cache s name not_found_text
    cached_file :
        (i : ℕ) (f : FileCache) (text : List ℕ)
        → get_elem? cache i ≡ some f
        → f.filepath ≡ name
        → IsFileText f.content_type (D.content s f.handle) text
        → Served cache s name text
    opened_file :
        (h : ℕ) (text : List ℕ)
        → NoEntry cache name
        → (W.create_file s name).0 ≡ some h
        → IsFileText (content_type_of name) (D.content (W.create_file s name).1 h) text
        → Served cache s name text

  -- What a method and a path get.
  pub data Wanted (cache : List FileCache) (s : W.State) (method path : List ℕ)
      : List ℕ → Type 0 where
    other_method : method ≢ codes "GET" → Wanted cache s method path refusal_text
    with_dots :
        (name : List ℕ)
        → method ≡ codes "GET"
        → Named path name
        → HasDots name
        → Wanted cache s method path not_found_text
    without_dots :
        (name text : List ℕ)
        → method ≡ codes "GET"
        → Named path name
        → ¬ (HasDots name)
        → Served cache s name text
        → Wanted cache s method path text

All-snoc :
    {A : Type 0} (P : A → Type 0) (xs : List A) (x : A) → All P xs → P x → All P (xs ++ (x ∷ []))
All-snoc P [] x h p = (p, tt)
All-snoc P (y ∷ ys) x h p = (h.0, All-snoc P ys x h.1 p)

digits-All : (places n : ℕ) → All IsDigit (digits places n)
unfolding digits
digits-All zero n = tt
digits-All (suc places) n = elim (Bool-cases (ltb n 10)) [
  | inl small ↦ rw small ((omega arith, omega arith), tt)
  | inr large ↦ rw large (
      All-snoc IsDigit (digits places (n / 10)) (b'0' + n % 10) (digits-All places (n / 10))
        (omega arith, omega arith))
]

decimal-IsNumeral : (n : ℕ) → n < 2 ^ 64 → IsNumeral (decimal n) n
unfolding decimal digits
decimal-IsNumeral n small = (
  digits-All 20 n,
  omega (arith, length-append (if ltb n 10 then [] else digits 19 (n / 10)) ((b'0' + n % 10) ∷ [])),
  decimal-value n small,
)

pub header_of-IsFileText :
    (content_type content : List ℕ) (size : ℕ)
    → size ≡ length content
    → size < 2 ^ 63
    → IsFileText content_type content (header_of (codes "200 OK") content_type size ++ content)
unfolding header_of
header_of-IsFileText content_type content size same small =
    let (all, some_, read) = decimal-IsNumeral size (omega arith) in
    (decimal size, (all, some_, read ∙ same), refl)

pub find_entry-NoEntry :
    (cache : List FileCache) (name : List ℕ) → find_entry cache name ≡ none → NoEntry cache name
unfolding find_entry
find_entry-NoEntry [] name e = tt
find_entry-NoEntry (f ∷ cache) name e = elim (Bool-cases (same_text f.filepath name)) [
  | inl same ↦ let first : find_entry (f ∷ cache) name ≡ some 0 = rw same refl in absurd (cc)
  | inr other ↦ elim (Option-cases (find_entry cache name)) [
    | inl missing ↦ (
      λ same. let found = (same_text_iff f.filepath name).1 same in cc,
      find_entry-NoEntry cache name missing,
    )
    | inr (j, found) ↦
        let later : find_entry (f ∷ cache) name ≡ some (suc j) = rw (other, found) refl in
        absurd (cc)
  ]
]
