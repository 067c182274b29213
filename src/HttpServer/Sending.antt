-- ===== src/HttpServer/Sending.antt =====
-- The loop of `send_file_response`: what a client gets that has the file to itself.
use mathlib.Core.List.{append_assoc, append-nil}
use multithreading_labs.Base.{
  ◌≢◌, codes, false, ℕ, zero, suc, ◌+◌, ◌*◌, ◌-◌, ◌≡◌, ◌≤◌, ◌<◌, ◌^◌, refl, sym, ap, ◌∙◌, subst,
  some, List, [], ◌∷◌, ◌++◌, length, arith, take, drop, take-all, ltb, if◌then◌else◌, ◌==ℤ◌, negsuc,
  pos, sub_size, size_mod,
}
use multithreading_labs.Blocks.Slices.{length-drop, take-drop, drop-drop}
use multithreading_labs.Windows.{Windows, IsDocumented, Reads, Sends}
use multithreading_labs.Cache.{FileCache}
use multithreading_labs.HttpServer.{
  Stream, reading, finished, stream, stream_step, buffer_size, send_file, header_of,
}

-- What remains of a list behind a first part.
drop-split :
    (p : ℕ) (bytes whole : List ℕ)
    → bytes ≡ take (length bytes) (drop p whole)
    → drop p whole ≡ bytes ++ drop (p + length bytes) whole
drop-split p bytes whole e =
    sym (take-drop (length bytes) (drop p whole))
    ∙ ap (λ (front : List ℕ). front ++ drop (length bytes) (drop p whole)) (sym e)
    ∙ ap (◌++◌ bytes) (drop-drop p (length bytes) (p + length bytes) whole refl)

-- A count of bytes is not `SOCKET_ERROR`.
not_error : (n : ℕ) → (pos n ==ℤ negsuc 0) ≡ false
not_error n = ground arith

pub empty : (xs : List ℕ) → length xs ≡ 0 → xs ≡ []
empty [] e = refl
empty (x ∷ xs) e = absurd (omega arith)

module _ (W : Windows) (D : IsDocumented W) (reads : Reads W D) (sends : Sends W) (f : FileCache)
    (client : ℕ) where
  -- The loop has ended, the rest of the file is on the wire, and the file pointer at its end; the
  -- other clients' wires are as they were.
  abbrev pub Delivers : W.State → Stream × W.State → Type 0
  Delivers s (place, s') =
      (place ≡ finished)
      × (D.wire s' client ≡ D.wire s client ++ drop (D.position s f.handle) (D.content s f.handle))
      × (D.content s' f.handle ≡ D.content s f.handle)
      × (D.position s' f.handle ≡ length (D.content s f.handle))
      × ((k : ℕ) → client ≢ k → D.wire s' k ≡ D.wire s k)

  stream-finished : (fuel : ℕ) (s : W.State) → stream W fuel f client finished s ≡ (finished, s)
  unfolding stream stream_step
  stream-finished zero s = refl
  stream-finished (suc fuel) s = stream-finished fuel s

  -- A round of the loop.
  read_and_send :
      (fuel n : ℕ) (s : W.State)
      → D.position s f.handle + suc n ≡ length (D.content s f.handle)
      → suc n < size_mod
      → (b : ℕ) × (bs : List ℕ) × (s' : W.State) × (stream W
            (suc (suc fuel))
            f
            client
            (reading (suc n))
            s
          ≡ stream W fuel f client (reading (suc n - length (b ∷ bs))) s')
        × (length (b ∷ bs) ≤ suc n)
        × (b ∷ bs ≡ take (length (b ∷ bs)) (drop (D.position s f.handle) (D.content s f.handle)))
        × (D.position s' f.handle ≡ D.position s f.handle + length (b ∷ bs))
        × (D.content s' f.handle ≡ D.content s f.handle)
        × (D.wire s' client ≡ D.wire s client ++ (b ∷ bs))
        × ((k : ℕ) → client ≢ k → D.wire s' k ≡ D.wire s k)
  unfolding stream stream_step
  read_and_send fuel n s rest small =
      let to_read = if ltb buffer_size (suc n) then buffer_size else suc n in
      let asked : (0 < to_read) × (to_read ≤ suc n) = ground arith in
      let (b, bs, got) = reads s f.handle to_read asked.0 (omega arith) in
      let s1 = (W.read_file s f.handle to_read).1 in
      let (front, fits, moved) = D.read-some s f.handle to_read (b ∷ bs) got in
      let (content1, wire1, handles1) = D.read-keeps s f.handle to_read f.handle client in
      let s2 = (W.send s1 client (b ∷ bs)).1 in
      let took = sends s1 client (b ∷ bs) in
      let (all, wire2) = D.send-some s1 client (b ∷ bs) (length (b ∷ bs)) took in
      let (content2, position2, handles2, others) =
        D.send-keeps s1 client (b ∷ bs) f.handle client in
      let left : sub_size (suc n) (length (b ∷ bs)) ≡ suc n - length (b ∷ bs) =
        omega (arith, asked, fits, small) in
      (
        b,
        bs,
        s2,
        rw (got, took, not_error (length (b ∷ bs)))
            (ap (λ (k : ℕ). stream W fuel f client (reading k) s2) left),
        omega (arith, asked, fits),
        front,
        position2 ∙ moved,
        content2 ∙ content1,
        wire2
            ∙ ap (λ (w : List ℕ). w ++ take (length (b ∷ bs)) (b ∷ bs)) wire1
            ∙ ap (◌++◌ (D.wire s client)) (take-all (b ∷ bs)),
        λ k apart.
            (D.send-keeps s1 client (b ∷ bs) f.handle k).3 apart
            ∙ (D.read-keeps s f.handle to_read f.handle k).1,
      )

  stream-end :
      (fuel : ℕ) (s : W.State)
      → D.position s f.handle + 0 ≡ length (D.content s f.handle)
      → Delivers s (stream W (suc fuel) f client (reading 0) s)
  unfolding stream stream_step
  stream-end fuel s rest =
      let over = stream-finished fuel s in
      let nothing : drop (D.position s f.handle) (D.content s f.handle) ≡ [] =
        empty _ (length-drop (D.position s f.handle) (D.content s f.handle) ∙ omega arith) in
      (
        ap (λ r. r.0) over,
        ap (λ r. D.wire r.1 client) over
            ∙ sym (append-nil (D.wire s client))
            ∙ ap (◌++◌ (D.wire s client)) (sym nothing),
        ap (λ r. D.content r.1 f.handle) over,
        ap (λ r. D.position r.1 f.handle) over ∙ omega (arith, rest),
        λ k apart. ap (λ r. D.wire r.1 k) over,
      )

  -- The loop, with what remains and enough fuel.
  pub stream-reading :
      (fuel n : ℕ) (s : W.State)
      → 2 * n + 1 ≤ fuel
      → D.position s f.handle + n ≡ length (D.content s f.handle)
      → n < size_mod
      → Delivers s (stream W fuel f client (reading n) s)
  stream-reading zero n s enough rest small = absurd (omega arith)
  stream-reading (suc fuel) zero s enough rest small = stream-end fuel s rest
  stream-reading (suc zero) (suc n) s enough rest small = absurd (omega arith)
  stream-reading (suc (suc fuel)) (suc n) s enough rest small =
      let (b, bs, s', e, fits, front, position', content', wire', others') =
        read_and_send fuel n s rest small in
      let (over, wire'', content'', position'', others'') =
        stream-reading fuel (suc n - length (b ∷ bs)) s' (omega (arith, enough, fits))
          (omega (arith, rest, position', ap length content', fits)) (omega (arith, small)) in
      let behind : drop (D.position s' f.handle) (D.content s' f.handle)
          ≡ drop (D.position s f.handle + length (b ∷ bs)) (D.content s f.handle) =
        ap (λ (p : ℕ). drop p (D.content s' f.handle)) position'
        ∙ ap (drop (D.position s f.handle + length (b ∷ bs))) content' in
      subst (Delivers s) (sym e) (
        over,
        wire''
            ∙ ap (λ (w : List ℕ). w ++ drop (D.position s' f.handle) (D.content s' f.handle)) wire'
            ∙ append_assoc (D.wire s client) (b ∷ bs) _
            ∙ ap (λ (r : List ℕ). D.wire s client ++ ((b ∷ bs) ++ r)) behind
            ∙ ap (◌++◌ (D.wire s client))
                (sym (drop-split (D.position s f.handle) (b ∷ bs) (D.content s f.handle) front)),
        content'' ∙ content',
        position'' ∙ ap length content',
        λ k apart. others'' k apart ∙ others' k apart,
      )

  -- The header and the whole file are on the wire.
  pub send_file-content :
      (s : W.State)
      → f.file_size ≡ length (D.content s f.handle)
      → f.file_size < 2 ^ 63
      → D.wire (send_file W s client (some f)) client
        ≡ D.wire s client
          ++ (header_of (codes "200 OK") f.content_type f.file_size ++ D.content s f.handle)
  unfolding send_file stream stream_step
  send_file-content s size small =
      let header = header_of (codes "200 OK") f.content_type f.file_size in
      let s1 = (W.send s client header).1 in
      let (all, wire1) = D.send-some s client header (length header) (sends s client header) in
      let (content1, position1, handles1, others) = D.send-keeps s client header f.handle client in
      let s2 = W.set_file_pointer s1 f.handle 0 in
      let (content2, wire2, handles2) = D.seek-keeps s1 f.handle 0 f.handle client in
      let start = D.seek-start s1 f.handle in
      let (over, wire3, content3, position3, others3) =
        stream-reading (suc (2 * f.file_size)) f.file_size s2 (omega arith)
          (omega (arith, start, size, ap length content2, ap length content1)) (omega arith) in
      let whole : drop (D.position s2 f.handle) (D.content s2 f.handle) ≡ D.content s f.handle =
        ap (λ (p : ℕ). drop p (D.content s2 f.handle)) start ∙ content2 ∙ content1 in
      wire3
      ∙ ap (◌++◌ (D.wire s2 client)) whole
      ∙ ap (λ (w : List ℕ). w ++ D.content s f.handle)
          (wire2 ∙ wire1 ∙ ap (◌++◌ (D.wire s client)) (take-all header))
      ∙ append_assoc (D.wire s client) header (D.content s f.handle)
