-- ===== src/Tests/Disk.antt =====
-- A small Windows: every path names one file of five bytes, every client asks for the same page.
use multithreading_labs.Base.{
  eq_of_some, Bool-cases, inl, inr, ℕ, zero, suc, ◌+◌, ◌≡◌, ◌≤◌, ◌<◌, refl, sym, ap, ◌∙◌, some,
  List, [], ◌∷◌, ◌++◌, pos, length, take, drop, codes, arith, ◌==◌, if◌then◌else◌, ==_iff, take-all,
  pos_part, ◌≢◌,
}
use multithreading_labs.Blocks.Slices.{length-drop}
use multithreading_labs.Windows.{Windows, IsDocumented, Reads, Sends}
use multithreading_labs.HttpServer.Request.{request}

pub record Desk : Type 0 where
  pub held : List ℕ
  pub place : ℕ
  pub wires : ℕ → List ℕ

abbrev pub page : List ℕ
page = codes "hello"

abbrev pub all_but_last : List ℕ → List ℕ
all_but_last [] = []
all_but_last (x ∷ []) = []
all_but_last (x ∷ (y ∷ xs)) = x ∷ all_but_last (y ∷ xs)

abbrev pub windows : Windows
windows = record {
  State = Desk;
  get_file_attributes = λ s path. 32;
  create_file = λ s path. (some 7, record s { held = s.held ++ (7 ∷ []) });
  get_file_size = λ s h. some 5;
  close_handle = λ s h. record s { held = all_but_last s.held };
  set_file_pointer = λ s h to. record s { place = to };
  read_file = λ s h n.
      let bytes = take n (drop s.place page) in
      (some bytes, record s { place = s.place + length bytes });
  recv = λ s k n. (some (request (codes "GET") (codes "/") []), s);
  send = λ s k bytes. (
    pos (length bytes),
    record s { wires = λ j. if j == k then s.wires j ++ bytes else s.wires j },
  );
  close_socket = λ s k. s;
}

pub all_but_last-snoc : (xs : List ℕ) (x : ℕ) → all_but_last (xs ++ (x ∷ [])) ≡ xs
all_but_last-snoc [] x = refl
all_but_last-snoc (y ∷ []) x = refl
all_but_last-snoc (y ∷ (z ∷ xs)) x = ap (◌∷◌ y) (all_but_last-snoc (z ∷ xs) x)

pub take-length : (n : ℕ) (xs : List ℕ) → take n xs ≡ take (length (take n xs)) xs
take-length zero xs = refl
take-length (suc n) [] = refl
take-length (suc n) (x ∷ xs) = ap (◌∷◌ x) (take-length n xs)

pub length-take_le : (n : ℕ) (xs : List ℕ) → length (take n xs) ≤ n
length-take_le zero xs = omega arith
length-take_le (suc n) [] = omega arith
length-take_le (suc n) (x ∷ xs) = omega (arith, length-take_le n xs)

pub send_self :
    (s : Desk) (k : ℕ) (bytes : List ℕ) (r : ℕ)
    → pos (length bytes) ≡ pos r
    → (r ≤ length bytes) × ((windows.send s k bytes).1.wires k ≡ s.wires k ++ take r bytes)
send_self s k bytes r e =
    let same : length bytes ≡ r = ap pos_part e in
    (
      omega (arith, same),
      rw ((==_iff k k).1 refl)
          (ap (◌++◌ (s.wires k)) (sym (take-all bytes) ∙ ap (λ (n : ℕ). take n bytes) same)),
    )

pub send_other :
    (s : Desk) (k j : ℕ) (bytes : List ℕ) → k ≢ j → (windows.send s k bytes).1.wires j ≡ s.wires j
send_other s k j bytes apart = elim (Bool-cases (j == k)) [
  | inl same ↦ absurd (apart (sym ((==_iff j k).0 same)))
  | inr other ↦ rw other refl
]

abbrev pub documented : IsDocumented windows
documented = record {
  handles = λ s. s.held;
  content = λ s h. page;
  position = λ s h. s.place;
  wire = λ s k. s.wires k;
  size-content = λ s h n e. let same : 5 ≡ n = eq_of_some 5 n e in (sym same, omega (arith, same));
  create-handle =
      λ s path h e. let same : 7 ≡ h = eq_of_some 7 h e in ap (λ (h : ℕ). s.held ++ (h ∷ [])) same;
  create-nothing = λ s path e. absurd (cc);
  close-last = λ s hs h e. ap all_but_last e ∙ all_but_last-snoc hs h;
  seek-start = λ s h. refl;
  seek-keeps = λ s h to g k. (refl, refl, refl);
  read-some = λ s h n bytes e.
      let same : take n (drop s.place page) ≡ bytes = eq_of_some _ bytes e in
      (
        sym same
            ∙ take-length n (drop s.place page)
            ∙ ap (λ (bs : List ℕ). take (length bs) (drop s.place page)) same,
        omega (arith, ap length same, length-take_le n (drop s.place page)),
        ap (λ (bs : List ℕ). s.place + length bs) same,
      );
  read-keeps = λ s h n g k. (refl, refl, refl);
  send-some = λ s k bytes r e. send_self s k bytes r e;
  send-keeps = λ s k bytes h j. (refl, refl, refl, λ apart. send_other s k j bytes apart);
  recv-keeps = λ s k n h j. (refl, refl, refl);
  create-keeps = λ s path k. refl;
  create-content = λ s path h held. refl;
  close-keeps = λ s h k. refl;
  close-content = λ s hs g h e held. refl;
  socket-keeps = λ s k h j. (refl, refl, refl);
}

take-some :
    (n : ℕ) (xs : List ℕ) → 0 < n → 0 < length xs → (b : ℕ) × (bs : List ℕ) × (take n xs ≡ b ∷ bs)
take-some zero xs a b = absurd (omega arith)
take-some (suc n) [] a b = absurd (omega arith)
take-some (suc n) (x ∷ xs) a b = (x, take n xs, refl)

pub reads : Reads windows documented
reads s h n some_ before =
    let (b, bs, e) =
      take-some n (drop s.place page) some_ (omega (arith, before, length-drop s.place page)) in
    (b, bs, ap some e)

pub sends : Sends windows
sends s k bytes = refl
