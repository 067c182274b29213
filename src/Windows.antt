-- ===== src/Windows.antt =====
-- The calls of Windows that lab_5 makes: files, handles and sockets. What they do is the operating
-- system's; what is documented of them is in `IsDocumented`.
use multithreading_labs.Base.{
  ℕ, ◌+◌, ◌≤◌, ◌<◌, ◌^◌, ◌≡◌, Option, none, some, List, [], ◌∷◌, ◌++◌, ℤ, pos, length, take, drop,
  Has, ◌≢◌,
}

-- A file is named by the bytes of its path, a handle and a socket by a number. `none` stands for
-- `INVALID_HANDLE_VALUE`, for `FALSE` and, from `recv`, for a result that is not positive.
pub record Windows : Type 1 where
  pub State : Type 0
  pub get_file_attributes : State → List ℕ → ℕ
  pub create_file : State → List ℕ → Option ℕ × State
  pub get_file_size : State → ℕ → Option ℕ
  pub close_handle : State → ℕ → State
  pub set_file_pointer : State → ℕ → ℕ → State
  pub read_file : State → ℕ → ℕ → Option (List ℕ) × State
  pub recv : State → ℕ → ℕ → Option (List ℕ) × State
  pub send : State → ℕ → List ℕ → ℤ × State
  pub close_socket : State → ℕ → State

module _ (W : Windows) where
  open W use {
    State, create_file, get_file_size, close_handle, set_file_pointer, read_file, recv, send,
    close_socket,
  }

  -- What can be seen of a state: the handles that the process holds, the newest last, what stands in the file
  -- of a handle and where the handle's file pointer is, and what a socket has put on the wire. The
  -- files are opened with `FILE_SHARE_READ`, so that nobody writes to them.
  pub record IsDocumented : Type 0 where
    pub handles : State → List ℕ
    pub content : State → ℕ → List ℕ
    pub position : State → ℕ → ℕ
    pub wire : State → ℕ → List ℕ
    pub size-content :
        (s : State) (h n : ℕ)
        → get_file_size s h ≡ some n
        → (n ≡ length (content s h)) × (n < 2 ^ 63)
    pub create-handle :
        (s : State) (path : List ℕ) (h : ℕ)
        → (create_file s path).0 ≡ some h
        → handles (create_file s path).1 ≡ handles s ++ (h ∷ [])
    pub create-nothing :
        (s : State) (path : List ℕ)
        → (create_file s path).0 ≡ none
        → handles (create_file s path).1 ≡ handles s
    pub close-last :
        (s : State) (hs : List ℕ) (h : ℕ)
        → handles s ≡ hs ++ (h ∷ [])
        → handles (close_handle s h) ≡ hs
    pub seek-start : (s : State) (h : ℕ) → position (set_file_pointer s h 0) h ≡ 0
    pub seek-keeps :
        (s : State) (h to g k : ℕ)
        → (content (set_file_pointer s h to) g ≡ content s g)
          × (wire (set_file_pointer s h to) k ≡ wire s k)
          × (handles (set_file_pointer s h to) ≡ handles s)
    pub read-some :
        (s : State) (h n : ℕ) (bytes : List ℕ)
        → (read_file s h n).0 ≡ some bytes
        → (bytes ≡ take (length bytes) (drop (position s h) (content s h)))
          × (length bytes ≤ n)
          × (position (read_file s h n).1 h ≡ position s h + length bytes)
    pub read-keeps :
        (s : State) (h n g k : ℕ)
        → (content (read_file s h n).1 g ≡ content s g)
          × (wire (read_file s h n).1 k ≡ wire s k)
          × (handles (read_file s h n).1 ≡ handles s)
    pub send-some :
        (s : State) (k : ℕ) (bytes : List ℕ) (r : ℕ)
        → (send s k bytes).0 ≡ pos r
        → (r ≤ length bytes) × (wire (send s k bytes).1 k ≡ wire s k ++ take r bytes)
    pub send-keeps :
        (s : State) (k : ℕ) (bytes : List ℕ) (h j : ℕ)
        → (content (send s k bytes).1 h ≡ content s h)
          × (position (send s k bytes).1 h ≡ position s h)
          × (handles (send s k bytes).1 ≡ handles s)
          × (k ≢ j → wire (send s k bytes).1 j ≡ wire s j)
    pub recv-keeps :
        (s : State) (k n h j : ℕ)
        → (content (recv s k n).1 h ≡ content s h)
          × (wire (recv s k n).1 j ≡ wire s j)
          × (handles (recv s k n).1 ≡ handles s)
    pub create-keeps :
        (s : State) (path : List ℕ) (k : ℕ) → wire (create_file s path).1 k ≡ wire s k
    pub create-content :
        (s : State) (path : List ℕ) (h : ℕ)
        → Has h (handles s)
        → content (create_file s path).1 h ≡ content s h
    pub close-keeps : (s : State) (h k : ℕ) → wire (close_handle s h) k ≡ wire s k
    pub close-content :
        (s : State) (hs : List ℕ) (g h : ℕ)
        → handles s ≡ hs ++ (g ∷ [])
        → Has h hs
        → content (close_handle s g) h ≡ content s h
    pub socket-keeps :
        (s : State) (k h j : ℕ)
        → (content (close_socket s k) h ≡ content s h)
          × (wire (close_socket s k) j ≡ wire s j)
          × (handles (close_socket s k) ≡ handles s)

-- Between the start and the end of a file, a read that asks for bytes gets some.
abbrev pub Reads : (W : Windows) → IsDocumented W → Type 0
Reads W d =
    (s : W.State) (h n : ℕ)
    → 0 < n
    → d.position s h < length (d.content s h)
    → (b : ℕ) × (bs : List ℕ) × ((W.read_file s h n).0 ≡ some (b ∷ bs))

-- A call of `send` takes all bytes that it is given.
abbrev pub Sends : Windows → Type 0
Sends W = (s : W.State) (k : ℕ) (bytes : List ℕ) → (W.send s k bytes).0 ≡ pos (length bytes)
