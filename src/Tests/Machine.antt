-- ===== src/Tests/Machine.antt =====
-- A little-endian machine.
use multithreading_labs.Base.{
  ℕ, zero, suc, ◌+◌, ◌*◌, ◌/◌, ◌%◌, ◌^◌, ◌<◌, ◌≡◌, ap, ◌∙◌, arith, List, [], ◌∷◌,
}
use multithreading_labs.Protocol.{Host, be_32, be_16}

abbrev pub little : ℕ → ℕ → List ℕ
little zero w = []
little (suc n) w = w % 256 ∷ little n (w / 256)

abbrev pub of_little : List ℕ → ℕ
of_little [] = 0
of_little (b ∷ bs) = b + 256 * of_little bs

abbrev pub of_big : ℕ → List ℕ → ℕ
of_big high [] = high
of_big high (b ∷ bs) = of_big (256 * high + b) bs

byte_lt : (w : ℕ) → w % 256 < 256
byte_lt w = omega arith

little_of_four :
    (a b c d : ℕ)
    → a < 256
    → b < 256
    → c < 256
    → d < 256
    → little 4 (of_little (a ∷ b ∷ c ∷ d ∷ [])) ≡ a ∷ b ∷ c ∷ d ∷ []
little_of_four a b c d ha hb hc hd = grind arith

little_of_two : (a b : ℕ) → a < 256 → b < 256 → little 2 (of_little (a ∷ b ∷ [])) ≡ a ∷ b ∷ []
little_of_two a b ha hb = grind arith

pub little-be_32 : (v : ℕ) → little 4 (of_little (be_32 v)) ≡ be_32 v
little-be_32 v = little_of_four _ _ _ _ (byte_lt _) (byte_lt _) (byte_lt _) (byte_lt _)

pub little-be_16 : (v : ℕ) → little 2 (of_little (be_16 v)) ≡ be_16 v
little-be_16 v = little_of_two _ _ (byte_lt _) (byte_lt _)

pub big-be_32 : (v : ℕ) → v < 2 ^ 32 → of_big 0 (be_32 v) ≡ v
big-be_32 v h = omega arith

pub big-be_16 : (v : ℕ) → v < 2 ^ 16 → of_big 0 (be_16 v) ≡ v
big-be_16 v h = omega arith

abbrev pub x86 : Host
x86 = record {
  store_32 = little 4;
  load_32 = of_little;
  store_16 = little 2;
  load_16 = of_little;
  htonl = λ v. of_little (be_32 v);
  ntohl = λ w. of_big 0 (little 4 w);
  htons = λ v. of_little (be_16 v);
  ntohs = λ w. of_big 0 (little 2 w);
  ntohl-lt = λ w. omega arith;
  store-htonl = λ v h. little-be_32 v;
  ntohl-load = λ v h. ap (of_big 0) (little-be_32 v) ∙ big-be_32 v h;
  store-htons = λ v h. little-be_16 v;
  ntohs-load = λ v h. ap (of_big 0) (little-be_16 v) ∙ big-be_16 v h;
}
