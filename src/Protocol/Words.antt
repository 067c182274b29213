-- ===== src/Protocol/Words.antt =====
-- Words on the wire.
use multithreading_labs.Base.{
  ℕ, ◌+◌, ◌^◌, ◌≤◌, ◌<◌, ◌≡◌, refl, sym, ap, ◌∙◌, none, some, List, [], ◌∷◌, ◌++◌, ℤ, pos, negsuc,
  arith, ltb, length, take, drop, add_size, size_mod, Bool-cases, inl, inr,
}
use multithreading_labs.Blocks.Slices.{length-drop, drop-drop}
use multithreading_labs.Protocol.{
  Host, be_32, unsigned_32, signed_32, append_u32, append_i32, read_u32, read_i32,
}

-- An `int32_t`.
abbrev pub IsInt32 : ℤ → Type 0
IsInt32 (pos n) = n < 2 ^ 31
IsInt32 (negsuc n) = n < 2 ^ 31

pub unsigned_32-lt : (v : ℤ) → unsigned_32 v < 2 ^ 32
unsigned_32-lt (pos n) = omega arith
unsigned_32-lt (negsuc n) = omega arith

-- An `int32_t` comes back from its conversion to an unsigned word.
pub signed_32-unsigned_32 : (v : ℤ) → IsInt32 v → signed_32 (unsigned_32 v) ≡ v
signed_32-unsigned_32 (pos n) h = ground arith
signed_32-unsigned_32 (negsuc n) h = ground arith

-- The bytes of the words, one after the other.
abbrev pub be_all : List ℕ → List ℕ
be_all [] = []
be_all (w ∷ ws) = be_32 w ++ be_all ws

module _ (host : Host) where
  pub append_u32-be_32 :
      (buffer : List ℕ) (v : ℕ) → v < 2 ^ 32 → append_u32 host buffer v ≡ buffer ++ be_32 v
  unfolding append_u32
  append_u32-be_32 buffer v h = ap (◌++◌ buffer) (host.store-htonl v h)

  pub append_i32-be_32 :
      (buffer : List ℕ) (v : ℤ) → append_i32 host buffer v ≡ buffer ++ be_32 (unsigned_32 v)
  unfolding append_i32
  append_i32-be_32 buffer v = ap (◌++◌ buffer) (host.store-htonl (unsigned_32 v) (unsigned_32-lt v))

  -- Where the buffer holds a word at the offset, it is read and the offset moves past it.
  module _ (buffer : List ℕ) (offset w : ℕ) (rest : List ℕ)
      (here : drop offset buffer ≡ be_32 w ++ rest) (small : w < 2 ^ 32)
      (fits : length buffer < size_mod) where
    room : offset + 4 ≤ length buffer
    room = omega (arith, length-drop offset buffer, ap length here)

    pub drop-next : drop (offset + 4) buffer ≡ rest
    drop-next = sym (drop-drop offset 4 (offset + 4) buffer refl) ∙ ap (drop 4) here

    load : host.ntohl (host.load_32 (take 4 (drop offset buffer))) ≡ w
    load = ap (λ bs. host.ntohl (host.load_32 (take 4 bs))) here ∙ host.ntohl-load w small

    pub read_u32-at : read_u32 host buffer offset ≡ some (w, offset + 4)
    unfolding read_u32
    read_u32-at = ground (arith, room, load)

    pub read_i32-at : read_i32 host buffer offset ≡ some (signed_32 w, offset + 4)
    unfolding read_i32
    read_i32-at = rw load (ground (arith, room))

  -- A read that would pass the end of the buffer is refused.
  pub read_u32-short :
      (buffer : List ℕ) (offset : ℕ)
      → length buffer < offset + 4
      → offset + 4 < size_mod
      → read_u32 host buffer offset ≡ none
  unfolding read_u32
  read_u32-short buffer offset short fits = ground arith

  pub read_u32-lt :
      (buffer : List ℕ) (offset w next : ℕ)
      → read_u32 host buffer offset ≡ some (w, next)
      → w < 2 ^ 32
  unfolding read_u32
  read_u32-lt buffer offset w next e =
      let small = host.ntohl-lt (host.load_32 (take 4 (drop offset buffer))) in
      elim (Bool-cases (ltb (length buffer) (add_size offset 4))) [
        | inl short ↦ absurd (cc)
        | inr fits ↦ ground (arith, small)
      ]
