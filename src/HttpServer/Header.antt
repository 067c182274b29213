-- ===== src/HttpServer/Header.antt =====
-- The header of an answer in its buffer of 512 bytes, and the number in it.
use multithreading_labs.Base.{
  ltb→lt, ℕ, zero, suc, ◌+◌, ◌-◌, ◌*◌, ◌/◌, ◌%◌, ◌≡◌, ◌≤◌, ◌<◌, ◌^◌, refl, sym, subst, List, [],
  ◌∷◌, ◌++◌, length, arith, codes, length-append, fold, Bool-cases, inl, inr, ltb,
}
use native.Mathlib.Nat.{pow-suc}
use multithreading_labs.Cache.{content_type_of}
use multithreading_labs.HttpServer.{digits, decimal, header_of}

digits-length : (places n : ℕ) → length (digits places n) ≤ places
unfolding digits
digits-length zero n = omega arith
digits-length (suc places) n = elim (Bool-cases (ltb n 10)) [
  | inl small ↦ rw small (omega arith)
  | inr large ↦ rw large (
      omega (
        arith,
        digits-length places (n / 10),
        length-append (digits places (n / 10)) ((b'0' + n % 10) ∷ []),
      ))
]

content_type_of-length : (filepath : List ℕ) → length (content_type_of filepath) ≤ 22
unfolding content_type_of
content_type_of-length filepath = ground arith

-- What a reader of a decimal number does.
abbrev pub value : List ℕ → ℕ
value ds = fold (λ v d. 10 * v + (d - b'0')) 0 ds

value-snoc :
    (ds : List ℕ) (v d : ℕ)
    → fold (λ v d. 10 * v + (d - b'0')) v (ds ++ (d ∷ []))
      ≡ 10 * fold (λ v d. 10 * v + (d - b'0')) v ds + (d - b'0')
value-snoc [] v d = refl
value-snoc (e ∷ ds) v d = value-snoc ds _ d

digits-value : (places n : ℕ) → n < 10 ^ places → value (digits places n) ≡ n
unfolding digits
digits-value zero n small = omega arith
digits-value (suc places) n small = elim (Bool-cases (ltb n 10)) [
  | inl one ↦ rw one (omega (arith, ltb→lt n 10 one))
  | inr more ↦ rw more (
      omega (
        arith,
        value-snoc (digits places (n / 10)) 0 (b'0' + n % 10),
        digits-value places (n / 10) (omega (arith, pow-suc 10 places)),
      ))
]

-- The digits behind "Content-Length: " read back as the size of the file, for every size below 2 ^
-- 64.
pub decimal-value : (size : ℕ) → size < 2 ^ 64 → value (decimal size) ≡ size
unfolding decimal
decimal-value size small = digits-value 20 size (omega arith)

decimal-length : (size : ℕ) → length (decimal size) ≤ 20
unfolding decimal
decimal-length size = digits-length 20 size

length-parts :
    (a b c d e f g : List ℕ)
    → length (a ++ b ++ c ++ d ++ e ++ f ++ g)
      ≡ length a + length b + length c + length d + length e + length f + length g
length-parts a b c d e f g = omega (
  arith,
  length-append (a ++ b ++ c ++ d ++ e ++ f) g,
  length-append (a ++ b ++ c ++ d ++ e) f,
  length-append (a ++ b ++ c ++ d) e,
  length-append (a ++ b ++ c) d,
  length-append (a ++ b) c,
  length-append a b,
)

-- The header of a file fits into its buffer, so that `snprintf` cuts nothing off and `send` reads
-- nothing behind it.
pub header_of-fits :
    (filepath : List ℕ) (size : ℕ)
    → length (header_of (codes "200 OK") (content_type_of filepath) size) < 512
unfolding header_of
header_of-fits filepath size =
    let parts =
      length-parts (codes "HTTP/1.1 ") (codes "200 OK") (codes "\r\nContent-Type: ")
        (content_type_of filepath) (codes "\r\nContent-Length: ") (decimal size)
        (codes "\r\nConnection: close\r\n\r\n") in
    subst (λ (n : ℕ). n < 512) (sym parts)
      (omega (arith, content_type_of-length filepath, decimal-length size))
