-- ===== src/Tests/Web.antt =====
-- The file cache and the HTTP server on the small Windows.
use multithreading_labs.Base.{
  All, ℕ, ◌≡◌, refl, some, Bool, List, [], ◌++◌, codes, get_elem?, arith,
}
use multithreading_labs.Cache.{FileCache, get_file_cache, content_type_of, new_cache}
use multithreading_labs.Cache.Handles.{IsValid, get_file_cache-IsValid, get_file_cache-again}
use multithreading_labs.HttpServer.{decide, serves, handle_client, seeking, finished}
use multithreading_labs.HttpServer.Request.{IsPlain, request, Decided, decide-request}
use multithreading_labs.HttpServer.Names.{Named}
use multithreading_labs.HttpServer.Wanted.{Wanted}
use multithreading_labs.HttpServer.Answer.{IsSafe, handle_client-IsSafe}
use multithreading_labs.HttpServer.Sharing.{interleave, interleave-starves}
use multithreading_labs.Tests.Disk.{Desk, windows, documented, reads, sends, page}

-- Before the first request.
abbrev desk : Desk
desk = record { held = []; place = 0; wires = λ k. [] }

desk-IsValid : IsValid windows documented [] desk
desk-IsValid = record {
  bounded = omega arith;
  found = λ i f e. cc;
  sized = λ i f e. cc;
  owned = refl;
}

desk-IsSafe : IsSafe windows documented [] desk
desk-IsSafe = record { valid = desk-IsValid; inside = tt }

abbrev home : List ℕ
home = codes "public/index.html"

get_file_cache-IsValid_example :
    IsValid windows documented
      (get_file_cache windows [] desk home).1
      (get_file_cache windows [] desk home).2
get_file_cache-IsValid_example = get_file_cache-IsValid windows documented [] desk home desk-IsValid

get_file_cache-again_example :
    let cache' = (get_file_cache windows [] desk home).1 in
    ((added : List FileCache) × (cache' ≡ [] ++ added))
    × ((f : FileCache) × (get_elem? cache' 0 ≡ some f) × (f.filepath ≡ home))
    × (get_file_cache windows (cache' ++ []) desk home ≡ (some 0, cache' ++ [], desk))
unfolding get_file_cache
get_file_cache-again_example = get_file_cache-again windows documented [] desk home 0 refl [] desk

handle_client-IsSafe_example :
    IsSafe windows documented
      (handle_client windows [] desk 1).0
      (handle_client windows [] desk 1).1
handle_client-IsSafe_example = handle_client-IsSafe windows documented [] desk 1 desk-IsSafe

IsPlain-get : All IsPlain (codes "GET")
IsPlain-get = ((refl, refl), ((refl, refl), ((refl, refl), tt)))

interleave-starves_example :
    (schedule : List Bool) × let (a, b, s') =
        interleave windows (new_cache home 7 5) 1 2 schedule seeking seeking desk in
      (a ≡ finished) × (b ≡ finished) × (s'.wires 1 ≡ [] ++ page) × (s'.wires 2 ≡ [])
interleave-starves_example =
    interleave-starves windows documented reads sends (new_cache home 7 5) 1 2 desk
      (λ e. ground arith) refl (omega arith) (omega arith)

-- A path with no "/" at its front names a file beside "public".
decide-request_example :
    (name : List ℕ) × Named (codes "ly") name
    × Decided (codes "GET") name (decide (request (codes "GET") (codes "ly") []))
decide-request_example =
    decide-request b'G' (codes "ET") b'l' (codes "y") [] IsPlain-get (omega arith)
      ((refl, refl), ((refl, refl), tt)) (omega arith)

beside : decide (request (codes "GET") (codes "ly.txt") []) ≡ serves (codes "publicly.txt")
unfolding decide
beside = refl

json : content_type_of (codes "public/data.json") ≡ codes "application/javascript"
unfolding content_type_of
json = refl
