-- ===== src/HttpServer/Request.antt =====
-- What the server makes of a request line.
use multithreading_labs.Base.{
  ◌≢◌, ◌⊎◌, same_text_iff, length-append, >>=-eq-some, inl, inr, ℕ, zero, suc, ◌≡◌, ◌≤◌, refl, sym,
  ap, ◌∙◌, subst, some, List, [], ◌∷◌, ◌++◌, Bool, true, false, length, arith, All, codes,
  same_text, contains, starts_with, ◌==◌, if◌then◌else◌, Bool-cases, Option-cases, eq_of_some,
}
use multithreading_labs.HttpServer.Names.{
  Named, HasDots, filepath_of-Named, contains-split, contains-none,
}
use multithreading_labs.HttpServer.{
  Action, ignores, refuses, hides, serves, decide, filepath_of, static_path, scan_request,
  scan_fields, scanned, scan_string, scan_chars, skip_spaces, c_string, is_space,
}

-- A byte that is neither white space nor the end of a string.
abbrev pub IsPlain : ℕ → Type 0
IsPlain c = (is_space c ≡ false) × ((c == 0) ≡ false)

c_string-append :
    (word rest : List ℕ) → All IsPlain word → c_string (word ++ rest) ≡ word ++ c_string rest
c_string-append [] rest h = refl
c_string-append (c ∷ cs) rest h = rw (h.0.1, c_string-append cs rest h.1) refl

skip_spaces-word : (c : ℕ) (cs : List ℕ) → IsPlain c → skip_spaces (c ∷ cs) ≡ c ∷ cs
skip_spaces-word c cs h = rw h.0 refl

-- A word that fits is read up to the white space behind it.
scan_chars-word :
    (width : ℕ) (word : List ℕ) (space : ℕ) (rest : List ℕ)
    → All IsPlain word
    → length word ≤ width
    → is_space space ≡ true
    → scan_chars width (word ++ (space ∷ rest)) ≡ (word, space ∷ rest)
unfolding scan_chars
scan_chars-word zero [] space rest h fits s = refl
scan_chars-word zero (c ∷ cs) space rest h fits s = absurd (omega arith)
scan_chars-word (suc width) [] space rest h fits s = rw s refl
scan_chars-word (suc width) (c ∷ cs) space rest h fits s =
    rw (h.0.0, scan_chars-word width cs space rest h.1 (omega (arith, fits)) s) refl

scan_string-word :
    (width c : ℕ) (cs : List ℕ) (space : ℕ) (rest : List ℕ)
    → All IsPlain (c ∷ cs)
    → length (c ∷ cs) ≤ width
    → is_space space ≡ true
    → scan_string width ((c ∷ cs) ++ (space ∷ rest)) ≡ some (c ∷ cs, space ∷ rest)
unfolding scan_string
scan_string-word width c cs space rest h fits s =
    ap (λ (t : List ℕ). scanned (scan_chars width t))
      (skip_spaces-word c (cs ++ (space ∷ rest)) h.0)
    ∙ ap scanned (scan_chars-word width (c ∷ cs) space rest h fits s)

scan_string-blank :
    (width : ℕ) (text : List ℕ) → scan_string width (b' ' ∷ text) ≡ scan_string width text
unfolding scan_string
scan_string-blank width text = refl

-- The bytes of a request: a request line with three words, whatever is behind it.
abbrev pub request : (method path rest : List ℕ) → List ℕ
request method path rest = method ++ (b' ' ∷ (path ++ (codes " HTTP/1.1\r\n" ++ rest)))

IsPlain-protocol : All IsPlain (codes "HTTP/1.1")
IsPlain-protocol = (
  (refl, refl),
  (
    (refl, refl),
    (
      (refl, refl),
      ((refl, refl), ((refl, refl), ((refl, refl), ((refl, refl), ((refl, refl), tt))))),
    ),
  ),
)

scan_fields-words :
    (text after_method after_path method path : List ℕ) (last : List ℕ × List ℕ)
    → scan_string 15 text ≡ some (method, after_method)
    → scan_string 255 after_method ≡ some (path, after_path)
    → scan_string 15 after_path ≡ some last
    → scan_fields text ≡ some (method, path)
unfolding scan_fields
scan_fields-words text after_method after_path method path last a b c =
    rw (scan_fields, a, b, c) refl

scan_request-request :
    (m : ℕ) (ms : List ℕ) (c : ℕ) (cs rest : List ℕ)
    → All IsPlain (m ∷ ms)
    → length (m ∷ ms) ≤ 15
    → All IsPlain (c ∷ cs)
    → length (c ∷ cs) ≤ 255
    → scan_request (request (m ∷ ms) (c ∷ cs) rest) ≡ some (m ∷ ms, c ∷ cs)
unfolding scan_request
scan_request-request m ms c cs rest plain short h fits =
    let after_path = b' ' ∷ (codes "HTTP/1.1" ++ (13 ∷ 10 ∷ c_string rest)) in
    let text : c_string (request (m ∷ ms) (c ∷ cs) rest)
        ≡ (m ∷ ms) ++ (b' ' ∷ ((c ∷ cs) ++ after_path)) =
      c_string-append (m ∷ ms) (b' ' ∷ ((c ∷ cs) ++ (codes " HTTP/1.1\r\n" ++ rest))) plain
      ∙ ap (λ (t : List ℕ). (m ∷ ms) ++ (b' ' ∷ t))
          (c_string-append (c ∷ cs) (codes " HTTP/1.1\r\n" ++ rest) h) in
    let method = scan_string-word 15 m ms b' ' ((c ∷ cs) ++ after_path) plain short refl in
    let path =
      scan_string-blank 255 ((c ∷ cs) ++ after_path)
      ∙ scan_string-word 255 c cs b' ' (codes "HTTP/1.1" ++ (13 ∷ 10 ∷ c_string rest)) h fits
          refl in
    let protocol =
      scan_string-blank 15 (codes "HTTP/1.1" ++ (13 ∷ 10 ∷ c_string rest))
      ∙ scan_string-word 15 b'H' (codes "TTP/1.1") 13 (10 ∷ c_string rest) IsPlain-protocol
          (omega arith) refl in
    ap scan_fields text
    ∙ scan_fields-words ((m ∷ ms) ++ (b' ' ∷ ((c ∷ cs) ++ after_path)))
        (b' ' ∷ ((c ∷ cs) ++ after_path)) after_path (m ∷ ms) (c ∷ cs)
        (codes "HTTP/1.1", 13 ∷ 10 ∷ c_string rest) method path protocol

-- What is decided for a method and the name of a file.
abbrev pub Decided : List ℕ → List ℕ → Action → Type 0
Decided method name action =
    ((method ≢ codes "GET") × (action ≡ refuses))
    ⊎ ((method ≡ codes "GET") × HasDots name × (action ≡ hides))
    ⊎ ((method ≡ codes "GET") × (¬ (HasDots name)) × (action ≡ serves name))

-- The request line with a method of 1 to 15 bytes, a path of 1 to 255 bytes, none of them white
-- space or zero, and "HTTP/1.1", whatever is behind it. The path names "public/index.html" if it is
-- "/", else the file "public" followed by the path. Another method than GET is refused; GET is
-- answered with 404 if ".." stands in that name, and with the file of that name if not. Nothing
-- asks for a "/" at the front of the path.
pub decide-request :
    (m : ℕ) (ms : List ℕ) (c : ℕ) (cs rest : List ℕ)
    → All IsPlain (m ∷ ms)
    → length (m ∷ ms) ≤ 15
    → All IsPlain (c ∷ cs)
    → length (c ∷ cs) ≤ 255
    → (name : List ℕ) × Named (c ∷ cs) name
      × Decided (m ∷ ms) name (decide (request (m ∷ ms) (c ∷ cs) rest))
unfolding decide
decide-request m ms c cs rest plain short h fits =
    let name = filepath_of (c ∷ cs) in
    let read = scan_request-request m ms c cs rest plain short h fits in
    let is_get = same_text (m ∷ ms) (codes "GET") in
    let dots = contains name (codes "..") in
    (
      name,
      filepath_of-Named (c ∷ cs),
      elim (Bool-cases is_get) [
        | inr other ↦ inl (
          λ e. let same = (same_text_iff (m ∷ ms) (codes "GET")).1 e in cc,
          rw (decide, read, other) refl,
        )
        | inl get ↦
            let is = (same_text_iff (m ∷ ms) (codes "GET")).0 get in
            elim (Bool-cases dots) [
              | inl outside ↦ inr (
                  inl (
                    is,
                    contains-split name (codes "..") outside,
                    rw (decide, read, get, outside) refl,
                  ))
              | inr inside ↦ inr (
                  inr (
                    is,
                    contains-none name (codes "..") inside,
                    rw (decide, read, get, inside) refl,
                  ))
            ]
      ],
    )

-- A name that begins with "public", with no "..", of at most 261 bytes.
abbrev pub IsInside : List ℕ → Type 0
IsInside filepath =
    (starts_with filepath static_path ≡ true)
    × (contains filepath (codes "..") ≡ false)
    × (length filepath ≤ 261)

scan_chars-length : (width : ℕ) (text : List ℕ) → length (scan_chars width text).0 ≤ width
unfolding scan_chars
scan_chars-length zero text = omega arith
scan_chars-length (suc width) [] = omega arith
scan_chars-length (suc width) (c ∷ cs) = elim (Bool-cases (is_space c)) [
  | inl space ↦ rw space (omega arith)
  | inr plain ↦ rw plain (omega (arith, scan_chars-length width cs))
]

scanned-word :
    (read : List ℕ × List ℕ) (word rest : List ℕ) → scanned read ≡ some (word, rest) → word ≡ read.0
scanned-word ([], left) word rest e = cc
scanned-word (c ∷ cs, left) word rest e = sym (ap (λ r. r.0) (eq_of_some _ _ e))

scan_string-length :
    (width : ℕ) (text word rest : List ℕ)
    → scan_string width text ≡ some (word, rest)
    → length word ≤ width
unfolding scan_string
scan_string-length width text word rest e = omega (
  arith,
  ap length (scanned-word (scan_chars width (skip_spaces text)) word rest e),
  scan_chars-length width (skip_spaces text),
)

scan_fields-path :
    (text method path : List ℕ) → scan_fields text ≡ some (method, path) → length path ≤ 255
unfolding scan_fields
scan_fields-path text method path e =
    let (first, one, e1) = >>=-eq-some (scan_string 15 text) _ e in
    let (second, two, e2) = >>=-eq-some (scan_string 255 first.1) _ e1 in
    let (third, three, e3) = >>=-eq-some (scan_string 15 second.1) _ e2 in
    let same : second.0 ≡ path = ap (λ r. r.1) (eq_of_some _ _ e3) in
    omega (arith, ap length same, scan_string-length 255 first.1 second.0 second.1 two)

filepath_of-IsInside :
    (path : List ℕ)
    → length path ≤ 255
    → contains (filepath_of path) (codes "..") ≡ false
    → IsInside (filepath_of path)
filepath_of-IsInside path short inside = elim (Bool-cases (same_text path (codes "/"))) [
  | inl root ↦ (refl, inside, rw root (omega arith))
  | inr other ↦ (refl, inside, rw other (omega (arith, length-append static_path path, short)))
]

decided :
    (is_get outside : Bool) (file filepath : List ℕ)
    → (if is_get then (if outside then hides else serves file) else refuses) ≡ serves filepath
    → (outside ≡ false) × (file ≡ filepath)
decided false outside file filepath e = cc
decided true true file filepath e = cc
decided true false file filepath e = (refl, cc)

-- Whatever the bytes of a request are, the file that it is answered with is named by "public" and
-- at most 255 bytes behind it, with no ".." in the name.
pub decide-IsInside :
    (buffer filepath : List ℕ) → decide buffer ≡ serves filepath → IsInside filepath
unfolding decide scan_request
decide-IsInside buffer filepath e = elim (Option-cases (scan_request buffer)) [
  | inl nothing ↦ let none_ : decide buffer ≡ ignores = rw (decide, nothing) refl in absurd (cc)
  | inr ((method, path), read) ↦
      let (inside, same) =
        decided (same_text method (codes "GET")) (contains (filepath_of path) (codes ".."))
          (filepath_of path) filepath (sym (rw (decide, read) refl) ∙ e) in
      subst IsInside same
        (filepath_of-IsInside path (scan_fields-path (c_string buffer) method path read) inside)
]
