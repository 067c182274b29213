-- ===== src/HttpServer/Answer.antt =====
-- `handle_client` as a whole: what it keeps.
use multithreading_labs.Base.{
  ℕ, zero, suc, ◌-◌, ◌≡◌, refl, sym, ap, ◌∙◌, Option, none, some, List, [], ◌∷◌, ◌++◌, length, All,
  inl, inr, get_elem?, ◌>>=◌,
}
use multithreading_labs.Windows.{Windows, IsDocumented}
use multithreading_labs.Cache.{FileCache, get_file_cache}
use multithreading_labs.Cache.Cases.{get_file_cache-cases}
use multithreading_labs.Cache.Handles.{IsValid, get_file_cache-IsValid}
use multithreading_labs.HttpServer.{
  Action, ignores, refuses, hides, serves, decide, perform, send_file, send_404, send_response,
  send_file_response, handle_client, handle_request, Stream, seeking, reading, writing, finished,
  stream, stream_step, stream_fuel, buffer_size,
}
use multithreading_labs.HttpServer.Request.{IsInside, decide-IsInside}

module _ (W : Windows) (D : IsDocumented W) where
  -- The same handles are open, on the same files.
  pub record Calm (s s' : W.State) : Type 0 where
    pub handles : D.handles s' ≡ D.handles s
    pub content : (h : ℕ) → D.content s' h ≡ D.content s h

  calm : (s : W.State) → Calm s s
  calm s = record { handles = refl; content = λ h. refl }

  Calm-chain : {s s' s'' : W.State} → Calm s s' → Calm s' s'' → Calm s s''
  Calm-chain a b = record {
    handles = b.handles ∙ a.handles;
    content = λ h. b.content h ∙ a.content h;
  }

  send-Calm : (s : W.State) (k : ℕ) (bytes : List ℕ) → Calm s (W.send s k bytes).1
  send-Calm s k bytes = record {
    handles = (D.send-keeps s k bytes 0 0).2;
    content = λ h. (D.send-keeps s k bytes h 0).0;
  }

  pub recv-Calm : (s : W.State) (k n : ℕ) → Calm s (W.recv s k n).1
  recv-Calm s k n = record {
    handles = (D.recv-keeps s k n 0 0).2;
    content = λ h. (D.recv-keeps s k n h 0).0;
  }

  close_socket-Calm : (s : W.State) (k : ℕ) → Calm s (W.close_socket s k)
  close_socket-Calm s k = record {
    handles = (D.socket-keeps s k 0 0).2;
    content = λ h. (D.socket-keeps s k h 0).0;
  }

  stream_step-Calm :
      (f : FileCache) (client : ℕ) (place : Stream) (s : W.State)
      → Calm s (stream_step W f client place s).1
  unfolding stream_step
  stream_step-Calm f client seeking s = record {
    handles = (D.seek-keeps s f.handle 0 0 0).2;
    content = λ h. (D.seek-keeps s f.handle 0 h 0).0;
  }
  stream_step-Calm f client (reading zero) s = calm s
  stream_step-Calm f client (reading (suc n)) s = record {
    handles = (D.read-keeps s f.handle _ 0 0).2;
    content = λ h. (D.read-keeps s f.handle _ h 0).0;
  }
  stream_step-Calm f client (writing remaining bytes) s = send-Calm s client bytes
  stream_step-Calm f client finished s = calm s

  stream-Calm :
      (n : ℕ) (f : FileCache) (client : ℕ) (place : Stream) (s : W.State)
      → Calm s (stream W n f client place s).1
  unfolding stream
  stream-Calm zero f client place s = calm s
  stream-Calm (suc n) f client place s =
      Calm-chain (stream_step-Calm f client place s) (stream-Calm n f client _ _)

  send_404-Calm : (s : W.State) (client : ℕ) → Calm s (send_404 W s client)
  unfolding send_404 send_response
  send_404-Calm s client = Calm-chain (send-Calm s client _) (send-Calm _ client _)

  send_file-Calm :
      (s : W.State) (client : ℕ) (f : Option FileCache) → Calm s (send_file W s client f)
  unfolding send_file
  send_file-Calm s client none = send_404-Calm s client
  send_file-Calm s client (some f) =
      Calm-chain (send-Calm s client _) (stream-Calm (stream_fuel W f) f client seeking _)

  -- What the server keeps of its cache: it is valid, and its names are as `IsInside` says.
  pub record IsSafe (cache : List FileCache) (s : W.State) : Type 0 where
    pub valid : IsValid W D cache s
    pub inside : All (λ f. IsInside f.filepath) cache

  pub Calm-IsValid :
      (cache : List FileCache) {s s' : W.State}
      → Calm s s'
      → IsValid W D cache s
      → IsValid W D cache s'
  Calm-IsValid cache c v = record {
    bounded = v.bounded;
    found = v.found;
    sized = λ i f e. ((v.sized i f e).0 ∙ ap length (sym (c.content f.handle)), (v.sized i f e).1);
    owned = c.handles ∙ v.owned;
  }

  Calm-IsSafe :
      (cache : List FileCache) {s s' : W.State} → Calm s s' → IsSafe cache s → IsSafe cache s'
  Calm-IsSafe cache c safe = record {
    valid = Calm-IsValid cache c safe.valid;
    inside = safe.inside;
  }

  All-snoc :
      (P : FileCache → Type 0) (cache : List FileCache) (f : FileCache)
      → All P cache
      → P f
      → All P (cache ++ (f ∷ []))
  All-snoc P [] f a p = (p, tt)
  All-snoc P (g ∷ cache) f a p = (a.0, All-snoc P cache f a.1 p)

  get_file_cache-IsSafe :
      (cache : List FileCache) (s : W.State) (filepath : List ℕ)
      → IsSafe cache s
      → IsInside filepath
      → IsSafe (get_file_cache W cache s filepath).1 (get_file_cache W cache s filepath).2
  get_file_cache-IsSafe cache s filepath safe inside_ = record {
    valid = get_file_cache-IsValid W D cache s filepath safe.valid;
    inside = elim (get_file_cache-cases W cache s filepath) [
      | inl (i, f, there, same, at_i, e) ↦ rw e safe.inside
      | inr (missing, inl (inl (e, why))) ↦ rw e safe.inside
      | inr (missing, inl (inr (inl (nothing, e)))) ↦ rw e safe.inside
      | inr (missing, inl (inr (inr (h, made, unsized, e)))) ↦ rw e safe.inside
      | inr (missing, inr (h, size, made, sized, room, e)) ↦
          rw e (All-snoc (λ f. IsInside f.filepath) cache _ safe.inside inside_)
    ];
  }

  perform-IsSafe :
      (cache : List FileCache) (s : W.State) (client : ℕ) (buffer : List ℕ)
      → IsSafe cache s
      → (action : Action) → decide buffer ≡ action
      → IsSafe (perform W cache s client action).0 (perform W cache s client action).1
  unfolding perform send_file_response
  perform-IsSafe cache s client buffer safe ignores e = safe
  perform-IsSafe cache s client buffer safe refuses e =
      Calm-IsSafe cache (send-Calm s client _) safe
  perform-IsSafe cache s client buffer safe hides e =
      Calm-IsSafe cache (send_404-Calm s client) safe
  perform-IsSafe cache s client buffer safe (serves filepath) e =
      Calm-IsSafe _
        (send_file-Calm _ client (
          (get_file_cache W cache s filepath).0 >>= λ i.
          get_elem? (get_file_cache W cache s filepath).1 i))
        (get_file_cache-IsSafe cache s filepath safe (decide-IsInside buffer filepath e))

  handle_request-IsSafe :
      (cache : List FileCache) (client : ℕ) (buffer : Option (List ℕ)) (s : W.State)
      → IsSafe cache s
      → IsSafe
          (handle_request W cache client (buffer, s)).0
          (handle_request W cache client (buffer, s)).1
  unfolding handle_request
  handle_request-IsSafe cache client none s safe = safe
  handle_request-IsSafe cache client (some buffer) s safe =
      perform-IsSafe cache s client buffer safe (decide buffer) refl

  -- Whatever bytes a client sends, and whatever the files are: a safe cache stays safe. It is
  -- within its bound, has one entry for a path and no handle open without an entry, and every name
  -- in it begins with "public", has no ".." and at most 261 bytes.
  pub handle_client-IsSafe :
      (cache : List FileCache) (s : W.State) (client : ℕ)
      → IsSafe cache s
      → IsSafe (handle_client W cache s client).0 (handle_client W cache s client).1
  unfolding handle_client
  handle_client-IsSafe cache s client safe = Calm-IsSafe _ (close_socket-Calm _ client) (
      handle_request-IsSafe cache client (W.recv s client (buffer_size - 1)).0
        (W.recv s client (buffer_size - 1)).1
        (Calm-IsSafe cache (recv-Calm s client (buffer_size - 1)) safe))
