-- ===== src/Tests/Listening.antt =====
-- Servers that start, fail to start, and serve a client.
use multithreading_labs.Base.{◌+◌, ◌≡◌, refl, some, true, pos, negsuc, total}
use multithreading_labs.Sockets.{Answers, held, own}
use multithreading_labs.Server.{fresh}
use multithreading_labs.Server.Connection.{recv_fails, joins}
use multithreading_labs.Server.Listening
use multithreading_labs.HttpServer.Listening as Web
use multithreading_labs.Tests.Machine.{x86}

abbrev good : Answers
good = record { wsa_startup = 0; socket = some 3; setsockopt = pos 0; bind = pos 0; listen = pos 0 }

-- The port is taken.
abbrev taken : Answers
taken = record good { bind = negsuc 0 }

set_up-LeavesLibrary_example : Web.LeavesLibrary taken (Web.set_up taken)
set_up-LeavesLibrary_example = Web.set_up-LeavesLibrary taken

-- Two clients are accepted, and the first one goes away.
abbrev served :
    (l : Listening.Listener) × Listening.Serves x86
      (λ n. true)
      good
      (Listening.converts (pos 8080))
      l
unfolding Listening.start_main Listening.port_of Listening.set_up Listening.accept_client
    Listening.put_client fresh
served =
    let begun = Listening.begins 8080 3 _ refl in
    let one = Listening.accepts _ (some 7) begun in
    let two = Listening.accepts _ (some 9) one in
    let left = Listening.happens _ 0 7 _ _ two refl (recv_fails fresh) in
    (_, Listening.happens _ 0 7 _ _ left refl (joins fresh refl))

held-owned_example :
    held 9 served.0.calls
    ≡ some (own served.0.server_fd 9 + total (Listening.owns 9) served.0.clients)
held-owned_example = Listening.held-owned x86 (λ n. true) served.1 9

-- A client is accepted, another one gets no thread, and the first one ends.
abbrev web_served : (l : Web.Listener) × Web.Serves good l
unfolding Web.set_up Web.accept_round Web.take_client
web_served =
    let begun = Web.begins 3 _ refl in
    let one = Web.accepts _ (record { accepted = some 7; allocates = true; thread = 11 }) begun in
    let two = Web.accepts _ (record { accepted = some 9; allocates = true; thread = 0 }) one in
    (_, Web.ends _ 0 7 two refl)

Serves-Owned_example : Web.Owned web_served.0
Serves-Owned_example = Web.Serves-Owned web_served.1
