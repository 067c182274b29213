-- ===== src/HttpServer/Sharing.antt =====
-- Two threads that send the same file: the entry of the cache has one handle, and the handle has one
-- file pointer.
use multithreading_labs.Base.{
  Option-cases, inl, inr, ℕ, zero, suc, ◌*◌, ◌≡◌, ◌≢◌, ◌<◌, ◌^◌, refl, sym, ap, ◌∙◌, List, [], ◌∷◌,
  ◌++◌, Bool, true, false, length, arith, take, drop, ltb, if◌then◌else◌, replicate,
}
use multithreading_labs.Blocks.Slices.{length-drop}
use multithreading_labs.Windows.{Windows, IsDocumented, Reads, Sends}
use multithreading_labs.Cache.{FileCache}
use multithreading_labs.HttpServer.{
  Stream, seeking, reading, finished, stream, stream_step, buffer_size,
}
use multithreading_labs.HttpServer.Sending.{stream-reading, empty}

module _ (W : Windows) (f : FileCache) (one other : ℕ) where
  -- The calls of Windows that the two threads make behind their headers, in the order of a schedule:
  -- `true` is a call of the first thread.
  abbrev pub interleave : List Bool → Stream → Stream → W.State → Stream × Stream × W.State
  interleave [] a b s = (a, b, s)
  interleave (true ∷ schedule) a b s =
      let (a', s') = stream_step W f one a s in interleave schedule a' b s'
  interleave (false ∷ schedule) a b s =
      let (b', s') = stream_step W f other b s in interleave schedule a b' s'

  -- The first thread makes some calls in a row.
  interleave-first :
      (n : ℕ) (schedule : List Bool) (a b : Stream) (s : W.State)
      → interleave (replicate n true ++ schedule) a b s
        ≡ interleave schedule (stream W n f one a s).0 b (stream W n f one a s).1
  unfolding stream
  interleave-first zero schedule a b s = refl
  interleave-first (suc n) schedule a b s = interleave-first n schedule _ b _

module _ (W : Windows) (D : IsDocumented W) (reads : Reads W D) (sends : Sends W) where
  -- At the end of the file the loop is left, and no socket gets anything.
  read-at_end :
      (f : FileCache) (client n : ℕ) (s : W.State)
      → D.position s f.handle ≡ length (D.content s f.handle)
      → ((stream_step W f client (reading n) s).0 ≡ finished)
        × ((k : ℕ) → D.wire (stream_step W f client (reading n) s).1 k ≡ D.wire s k)
  unfolding stream_step
  read-at_end f client zero s end = (refl, λ k. refl)
  read-at_end f client (suc n) s end =
      let to_read = if ltb buffer_size (suc n) then buffer_size else suc n in
      let kept = λ (k : ℕ). (D.read-keeps s f.handle to_read f.handle k).1 in
      elim (Option-cases (W.read_file s f.handle to_read).0) [
        | inl failed ↦ (rw failed refl, kept)
        | inr ([], got) ↦ (rw got refl, kept)
        | inr (b ∷ bs, got) ↦
            let (front, fits, moved) = D.read-some s f.handle to_read (b ∷ bs) got in
            let nothing : drop (D.position s f.handle) (D.content s f.handle) ≡ [] =
              empty _
                (length-drop (D.position s f.handle) (D.content s f.handle) ∙ omega (arith, end)) in
            let none_read : b ∷ bs ≡ [] = front ∙ ap (take (suc (length bs))) nothing in absurd (cc)
      ]

  -- One thread's file pointer is the other's: of two threads that send the same file, not empty,
  -- each to a client of its own, the second can move the pointer back before the first reads.
  -- While reads make progress and `send` takes what it is given, the first then sends the whole
  -- file; the second finds the pointer at the end, sends nothing of the file, and leaves its loop.
  pub interleave-starves :
      (f : FileCache) (one other : ℕ) (s : W.State)
      → one ≢ other
      → f.file_size ≡ length (D.content s f.handle)
      → 0 < f.file_size
      → f.file_size < 2 ^ 63
      → (schedule : List Bool) × let (a, b, s') =
            interleave W f one other schedule seeking seeking s in
          (a ≡ finished)
          × (b ≡ finished)
          × (D.wire s' one ≡ D.wire s one ++ D.content s f.handle)
          × (D.wire s' other ≡ D.wire s other)
  unfolding stream_step
  interleave-starves f one other s apart size some_ small =
      let s1 = W.set_file_pointer s f.handle 0 in
      let s2 = W.set_file_pointer s1 f.handle 0 in
      let (content1, wire1, handles1) = D.seek-keeps s f.handle 0 f.handle one in
      let (content2, wire2, handles2) = D.seek-keeps s1 f.handle 0 f.handle one in
      let start = D.seek-start s1 f.handle in
      let fuel = suc (2 * f.file_size) in
      let (over, wire3, content3, position3, others3) =
        stream-reading W D reads sends f one fuel f.file_size s2 (omega arith)
          (omega (arith, start, size, ap length content2, ap length content1)) (omega arith) in
      let s3 = (stream W fuel f one (reading f.file_size) s2).1 in
      let (left, quiet) =
        read-at_end f other f.file_size s3 (position3 ∙ ap length (sym content3)) in
      let whole : drop (D.position s2 f.handle) (D.content s2 f.handle) ≡ D.content s f.handle =
        ap (λ (p : ℕ). drop p (D.content s2 f.handle)) start ∙ content2 ∙ content1 in
      let run =
        interleave-first W f one other fuel (false ∷ []) (reading f.file_size) (reading f.file_size)
          s2 in
      (
        true ∷ false ∷ (replicate fuel true ++ (false ∷ [])),
        (
          ap (λ r. r.0) run ∙ over,
          ap (λ r. r.1) run ∙ left,
          ap (λ r. D.wire r.2 one) run
              ∙ quiet one
              ∙ wire3
              ∙ ap (◌++◌ (D.wire s2 one)) whole
              ∙ ap (λ (w : List ℕ). w ++ D.content s f.handle) (wire2 ∙ wire1),
          ap (λ r. D.wire r.2 other) run
              ∙ quiet other
              ∙ others3 other apart
              ∙ (D.seek-keeps s1 f.handle 0 f.handle other).1
              ∙ (D.seek-keeps s f.handle 0 f.handle other).1,
        ),
      )
