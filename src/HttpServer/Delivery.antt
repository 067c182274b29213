-- ===== src/HttpServer/Delivery.antt =====
-- What a client gets from `handle_client`.
use multithreading_labs.Base.{
  [], ℕ, Option, none, some, List, [], ◌++◌, length, codes, get_elem?, ◌>>=◌,
}
use multithreading_labs.Windows.{Windows, IsDocumented}
use multithreading_labs.Cache.{FileCache, get_file_cache}
use multithreading_labs.HttpServer.{
  Action, ignores, refuses, hides, serves, header_of, not_allowed, not_found_body,
}
use multithreading_labs.HttpServer.Wanted.{Wanted}

abbrev pub not_found : List ℕ
not_found =
    header_of (codes "404 Not Found") (codes "text/html") (length not_found_body) ++ not_found_body

module _ (W : Windows) (D : IsDocumented W) where
  -- The answer to a request: the whole file behind its header, or one of the fixed answers.
  abbrev pub file_answer : W.State → Option FileCache → List ℕ
  file_answer s none = not_found
  file_answer s (some f) =
      header_of (codes "200 OK") f.content_type f.file_size ++ D.content s f.handle

  abbrev pub answer : List FileCache → W.State → Action → List ℕ
  answer cache s ignores = []
  answer cache s refuses = not_allowed
  answer cache s hides = not_found
  answer cache s (serves filepath) =
      let (i, cache', s') = get_file_cache W cache s filepath in
      let f : Option FileCache = i >>= λ i. get_elem? cache' i in file_answer s' f

  abbrev got : List FileCache → W.State → List ℕ → Action → List ℕ
  got cache s before action = before ++ answer cache s action
