-- ===== src/HttpServer/Loop.antt =====
-- The loop of `send_file_response` ends.
use multithreading_labs.Base.{
  Bool-cases, Option-cases, ◌⊎◌, inl, inr, ℕ, zero, suc, ◌+◌, ◌*◌, ◌≡◌, ◌≤◌, ◌<◌, refl, sym, subst,
  List, [], ◌∷◌, length, arith, ltb, if◌then◌else◌, ◌==ℤ◌, negsuc, sub_size, size_mod,
}
use multithreading_labs.Windows.{Windows, IsDocumented}
use multithreading_labs.Cache.{FileCache}
use multithreading_labs.HttpServer.{
  Stream, seeking, reading, writing, finished, stream, stream_step, stream_fuel, buffer_size,
}

module _ (W : Windows) (D : IsDocumented W) (f : FileCache) (client : ℕ) where
  -- A read leaves the loop, or it is followed by a `send`, and less remains.
  read-cases :
      (n : ℕ) (s : W.State)
      → suc n < size_mod
      → ((stream_step W f client (reading (suc n)) s).0 ≡ finished)
        ⊎ ((b : ℕ) × (bs : List ℕ) × ((stream_step W f client (reading (suc n)) s).0
              ≡ writing (suc n) (b ∷ bs))
            × (sub_size (suc n) (length (b ∷ bs)) ≤ n))
  unfolding stream_step
  read-cases n s small =
      let to_read = if ltb buffer_size (suc n) then buffer_size else suc n in
      let asked : to_read ≤ suc n = ground arith in
      elim (Option-cases (W.read_file s f.handle to_read).0) [
        | inl failed ↦ inl (rw failed refl)
        | inr ([], got) ↦ inl (rw got refl)
        | inr (b ∷ bs, got) ↦
            let (front, fits, moved) = D.read-some s f.handle to_read (b ∷ bs) got in
            inr (b, bs, rw got refl, omega (arith, fits, asked, small))
      ]

  ended : (fuel : ℕ) (s : W.State) → (stream W fuel f client finished s).0 ≡ finished
  unfolding stream stream_step
  ended zero s = refl
  ended (suc fuel) s = ended fuel s

  step-ends :
      (fuel : ℕ) (place : Stream) (s : W.State)
      → (stream_step W f client place s).0 ≡ finished
      → (stream W (suc fuel) f client place s).0 ≡ finished
  unfolding stream
  step-ends fuel place s e =
      subst
        (λ (place' : Stream).
          (stream W fuel f client place' (stream_step W f client place s).1).0 ≡ finished)
        (sym e) (ended fuel _)

  -- A step to another place of the loop.
  step-goes_on :
      (fuel : ℕ) (place place' : Stream) (s : W.State)
      → (stream_step W f client place s).0 ≡ place'
      → ((s' : W.State) → (stream W fuel f client place' s').0 ≡ finished)
      → (stream W (suc fuel) f client place s).0 ≡ finished
  unfolding stream
  step-goes_on fuel place place' s e after =
      subst
        (λ (at : Stream).
          (stream W fuel f client at (stream_step W f client place s).1).0 ≡ finished)
        (sym e) (after _)

  writing-finishes :
      (fuel remaining : ℕ) (bytes : List ℕ) (s : W.State)
      → ((s' : W.State)
          → (stream W fuel f client (reading (sub_size remaining (length bytes))) s').0 ≡ finished)
      → (stream W (suc fuel) f client (writing remaining bytes) s).0 ≡ finished
  unfolding stream_step
  writing-finishes fuel remaining bytes s after =
      elim (Bool-cases ((W.send s client bytes).0 ==ℤ negsuc 0)) [
        | inl failed ↦ step-ends fuel (writing remaining bytes) s (rw failed refl)
        | inr sent ↦ step-goes_on fuel (writing remaining bytes) _ s (rw sent refl) after
      ]

  -- The loop ends, whatever `ReadFile` and `send` return.
  reading-finishes :
      (fuel n : ℕ) (s : W.State)
      → 2 * n + 1 ≤ fuel
      → n < size_mod
      → (stream W fuel f client (reading n) s).0 ≡ finished
  reading-finishes zero n s enough small = absurd (omega arith)
  reading-finishes (suc fuel) zero s enough small =
      step-ends fuel (reading 0) s (unfold stream_step in refl)
  reading-finishes (suc zero) (suc n) s enough small = absurd (omega arith)
  reading-finishes (suc (suc fuel)) (suc n) s enough small = elim (read-cases n s small) [
    | inl over ↦ step-ends (suc fuel) (reading (suc n)) s over
    | inr (b, bs, read, less) ↦
        step-goes_on (suc fuel) (reading (suc n)) (writing (suc n) (b ∷ bs)) s read (λ s'.
          writing-finishes fuel (suc n) (b ∷ bs) s' (λ s''.
            reading-finishes fuel _ s'' (omega (arith, less, enough)) (omega (arith, less, small))))
  ]

  -- The fuel of `send_file` is enough for every size below 2 ^ 64: whatever `ReadFile` and `send`
  -- return, the loop is left.
  pub stream-finishes :
      (s : W.State)
      → f.file_size < size_mod
      → (stream W (stream_fuel W f) f client seeking s).0 ≡ finished
  unfolding stream stream_step
  stream-finishes s small =
      reading-finishes (suc (2 * f.file_size)) f.file_size _ (omega arith) small
