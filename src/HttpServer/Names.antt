-- ===== src/HttpServer/Names.antt =====
-- The name of the file that a path asks for, and a ".." in a name, described without the code.
use multithreading_labs.Base.{
  ◌≡◌, ◌≢◌, refl, sym, ap, ◌∙◌, inl, inr, ℕ, true, false, List, [], ◌∷◌, ◌++◌, ◌==◌, codes,
  same_text, same_text_iff, contains, starts_with, Bool-cases, arith,
}
use multithreading_labs.HttpServer.{filepath_of}

-- The file with a name in the directory "public", and the home page for "/".
pub data Named : List ℕ → List ℕ → Type 0 where
  home : Named (codes "/") (codes "public/index.html")
  below : (path : List ℕ) → path ≢ codes "/" → Named path (codes "public" ++ path)

-- The word stands somewhere in the text.
abbrev pub Holds : List ℕ → List ℕ → Type 0
Holds text word = (front back : List ℕ) × (text ≡ front ++ (word ++ back))

abbrev pub HasDots : List ℕ → Type 0
HasDots name = Holds name (codes "..")

starts_with-append : (word back : List ℕ) → starts_with (word ++ back) word ≡ true
starts_with-append [] back = refl
starts_with-append (c ∷ word) back =
    let later = starts_with-append word back in
    let same : (c == c) ≡ true = ground arith in rw (same, later) refl

starts_with-split :
    (text word : List ℕ) → starts_with text word ≡ true → (back : List ℕ) × (text ≡ word ++ back)
starts_with-split text [] e = (text, refl)
starts_with-split [] (c ∷ word) e = cc
starts_with-split (d ∷ text) (c ∷ word) e =
    let same : d ≡ c = ground arith in
    let later : starts_with text word ≡ true = ground arith in
    let (back, rest) = starts_with-split text word later in (back, cc)

pub contains-split : (text word : List ℕ) → contains text word ≡ true → Holds text word
contains-split [] word e = let (back, same) = starts_with-split [] word e in ([], back, same)
contains-split (d ∷ text) word e = elim (Bool-cases (starts_with (d ∷ text) word)) [
  | inl here ↦ let (back, same) = starts_with-split (d ∷ text) word here in ([], back, same)
  | inr there ↦
      let later : contains text word ≡ true = sym (rw there refl) ∙ e in
      let (front, back, same) = contains-split text word later in (d ∷ front, back, ap (◌∷◌ d) same)
]

contains-append : (front word back : List ℕ) → contains (front ++ (word ++ back)) word ≡ true
contains-append [] [] [] = refl
contains-append [] [] (b ∷ back) = refl
contains-append [] (c ∷ word) back = let here = starts_with-append (c ∷ word) back in rw here refl
contains-append (d ∷ front) word back =
    let later = contains-append front word back in ground (arith, later)

pub contains-none : (text word : List ℕ) → contains text word ≡ false → ¬ (Holds text word)
contains-none text word e (front, back, same) =
    let found : contains text word ≡ true =
      ap (λ (t : List ℕ). contains t word) same ∙ contains-append front word back in
    cc

pub filepath_of-Named : (path : List ℕ) → Named path (filepath_of path)
filepath_of-Named path = elim (Bool-cases (same_text path (codes "/"))) [
  | inl root ↦ rw ((same_text_iff path (codes "/")).0 root) home
  | inr other ↦ rw other (below path (λ e. let same = (same_text_iff path (codes "/")).1 e in cc))
]
