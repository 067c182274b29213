-- ===== src/Protocol/Streams.antt =====
-- `sendAll` and `recvAll`: how the stream is cut does not matter.
use mathlib.Core.List.{append_assoc}
use multithreading_labs.Base.{
  ◌⊎◌, inl, inr, false, ℕ, zero, suc, ◌+◌, ◌-◌, ◌≤◌, ◌<◌, ◌≡◌, refl, sym, ap, ◌∙◌, some, eq_of_some,
  true, List, [], ◌∷◌, ◌++◌, >>=-eq-some, ℤ, pos, negsuc, arith, length, take, drop, All,
  length-append, dec_lt,
}
use multithreading_labs.Blocks.Slices.{concat, take-drop, length-drop}
use multithreading_labs.Protocol.{Incoming, recv_all, Sent, send_all}

-- Every call of `recv` finds something.
abbrev pub IsOpen : Incoming → Type 0
IsOpen = All (λ piece. 0 < length piece)

append-longer :
    (xs ys ds rs : List ℕ)
    → xs ++ ys ≡ ds ++ rs
    → length xs ≤ length ds
    → (more : List ℕ) × (ds ≡ xs ++ more) × (ys ≡ more ++ rs)
append-longer [] ys ds rs e h = (ds, refl, e)
append-longer (x ∷ xs) ys [] rs e h = absurd (omega arith)
append-longer (x ∷ xs) ys (d ∷ ds) rs e h =
    let (more, p, q) = append-longer xs ys ds rs (cc) (omega arith) in (more, cc, q)

append-shorter :
    (xs ys ds rs : List ℕ) (n : ℕ)
    → xs ++ ys ≡ ds ++ rs
    → length ds ≡ n
    → n ≤ length xs
    → (take n xs ≡ ds) × (drop n xs ++ ys ≡ rs) × (length (drop n xs) ≡ length xs - n)
append-shorter xs ys [] rs zero e l h = (refl, e, omega arith)
append-shorter xs ys [] rs (suc n) e l h = absurd (omega arith)
append-shorter xs ys (d ∷ ds) rs zero e l h = absurd (omega arith)
append-shorter [] ys (d ∷ ds) rs (suc n) e l h = absurd (omega arith)
append-shorter (x ∷ xs) ys (d ∷ ds) rs (suc n) e l h =
    let (p, q, r) = append-shorter xs ys ds rs n (cc) (omega arith) (omega arith) in
    (cc, q, omega arith)

-- `recvAll` reads exactly the first bytes of a stream that has enough of them, however the network
-- cuts it into pieces that are not empty, and leaves the others.
pub recv_all-concat :
    (need : ℕ) (pieces : Incoming) (bytes rest : List ℕ)
    → IsOpen pieces
    → concat pieces ≡ bytes ++ rest
    → length bytes ≡ need
    → (left : Incoming) × (recv_all need pieces ≡ some (bytes, left))
      × (concat left ≡ rest)
      × IsOpen left
unfolding recv_all
recv_all-concat zero pieces [] rest o e l = (pieces, refl, e, o)
recv_all-concat zero pieces (b ∷ bytes) rest o e l = absurd (omega arith)
recv_all-concat (suc need) [] [] rest o e l = absurd (omega arith)
recv_all-concat (suc need) [] (b ∷ bytes) rest o e l = cc
recv_all-concat (suc need) ([] ∷ pieces) bytes rest o e l = absurd (omega (arith, o.0))
recv_all-concat (suc need) ((b ∷ bs) ∷ pieces) bytes rest o e l = elim (dec_lt need (length bs)) [
  | yes longer ↦
      let (p, q, r) =
        append-shorter (b ∷ bs) (concat pieces) bytes rest (suc need) e l (omega arith) in
      (drop need bs ∷ pieces, ground (arith, p), q, (omega arith, o.1))
  | no shorter ↦
      let (more, p, q) = append-longer (b ∷ bs) (concat pieces) bytes rest e (omega arith) in
      let (left, run, done, o') =
        recv_all-concat (need - length bs) pieces more rest o.1 q
          (omega (arith, ap length p, length-append bs more)) in
      (left, ground (arith, run), done, o')
]

-- What a call of `send` returns if it sends something.
abbrev pub Sends : ℤ → Type 0
Sends (pos n) = 0 < n
Sends (negsuc n) = ⊥

-- While the calls of `send` make progress, `sendAll` succeeds after at most one call for each byte,
-- and exactly the given bytes are on the wire.
pub send_all-Sends :
    (results : List ℤ) (bytes : List ℕ)
    → All Sends results
    → length bytes ≤ length results
    → (left : List ℤ) × (send_all results bytes
        ≡ some (record { ok = true; wire = bytes; results = left }))
      × All Sends left
      × (length results ≤ length left + length bytes)
unfolding send_all
send_all-Sends results [] s h = (results, refl, s, omega arith)
send_all-Sends [] (b ∷ bytes) s h = absurd (omega arith)
send_all-Sends (negsuc n ∷ results) (b ∷ bytes) s h = absurd (s.0)
send_all-Sends (pos zero ∷ results) (b ∷ bytes) s h = absurd (omega (arith, s.0))
send_all-Sends (pos (suc n) ∷ results) (b ∷ bytes) s h =
    let (left, run, s', h') =
      send_all-Sends results (drop n bytes) s.1 (omega (arith, length-drop n bytes)) in
    (
      left,
      rw run
          (ap (λ w. some (record { ok = true; wire = b ∷ w; results = left })) (take-drop n bytes)),
      s',
      omega (arith, length-drop n bytes),
    )

-- Whatever the calls of `send` return: what is on the wire is a first part of the given bytes, and
-- all of them if `sendAll` reports success.
pub send_all-prefix :
    (results : List ℤ) (bytes : List ℕ) (s : Sent)
    → send_all results bytes ≡ some s
    → (more : List ℕ) × (bytes ≡ s.wire ++ more) × ((s.ok ≡ false) ⊎ (more ≡ []))
unfolding send_all
send_all-prefix results [] s e = ([], ground arith, inr refl)
send_all-prefix [] (b ∷ bytes) s e = cc
send_all-prefix (negsuc n ∷ results) (b ∷ bytes) s e = (b ∷ bytes, ground arith, inl (ground arith))
send_all-prefix (pos zero ∷ results) (b ∷ bytes) s e = (b ∷ bytes, ground arith, inl (ground arith))
send_all-prefix (pos (suc n) ∷ results) (b ∷ bytes) s e =
    let (s', run, e') = >>=-eq-some (send_all results (drop n bytes)) _ e in
    let (more, p, q) = send_all-prefix results (drop n bytes) s' run in
    let whole = eq_of_some _ _ e' in
    (
      more,
      ap (◌∷◌ b) (
            sym (take-drop n bytes)
            ∙ ap (◌++◌ (take n bytes)) p
            ∙ sym (append_assoc (take n bytes) s'.wire more))
          ∙ ap (λ (t : Sent). t.wire ++ more) whole,
      elim q [
        | inl failed ↦ inl (sym (ap (λ (t : Sent). t.ok) whole) ∙ failed)
        | inr nothing ↦ inr nothing
      ],
    )
