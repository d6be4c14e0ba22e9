-- ===== src/Program/Tests.antt =====
-- Runs of the program on the small kernel.
mod Theorems
use server_coursework.Base.{
  invalid_argument, length, Bool, ℕ, ◌≡◌, refl, true, false, some, List, [], ◌∷◌, ◌++◌, arith,
  Bytes, codes, ℤ, pos, if◌then◌else◌, ◌^◌, ◌+◌, Outcome, returns, throws, spins, dangles, int_eq,
  Secures,
}
use server_coursework.Socket.{close_fd, new_socket, accept_socket, add_flag, recieve, send}
use server_coursework.Connection.{from_socket, new_connection}
use server_coursework.OrdMap.{lookup, insert, assign, erase}
use server_coursework.OrdMap.Keys.{bytes_less, int_Less}
use server_coursework.Text.Find.{find, substr, substr_from}
use server_coursework.Text.Number.{stoi}
use server_coursework.Request
use server_coursework.Response
use server_coursework.Response.Commit
use server_coursework.Socket.Tests.SmallKernel.{Kernel, kernel, kernel-Opens}
use server_coursework.Epoll.{Ctl, Event, process_events}
use server_coursework.Program.{bridge, new_link, client, Link, listener, Handler, Program, Unset}
use server_coursework.Program.Main.{
  server_on, Wakeup, events, interrupted, sigint, run, quit, finish,
}
use server_coursework.Program.Proxy.{world, handle_income, relay, host_of}
use server_coursework.Program.Safety.Quit.{quit-shuts}
use server_coursework.Program.Sessions.{view}
use server_coursework.Program.Sessions.Refinement.{IsCourse, process_events-IsCourse}
use server_coursework.Program.Forward.{handle_income-forwards}
use server_coursework.Program.Route.{IsRouted, relay-IsRouted}
use server_coursework.Response.Tests.{sized, sized-IsPrintable, three_read}
use server_coursework.Response.Commit.{commit_headers}
use server_coursework.Actions.{Ends}
use server_coursework.Request.{Request}
use server_coursework.Program.Safety.{IsSafe, listens}
use server_coursework.Program.Safety.Life.{server_on-IsSafe, IsSafeRunning, run-IsSafe}

instance abbrev watched : Ctl (List ℤ)
watched = record { ctl_add = λ fd k. fd ∷ k; ctl_del = λ fd k. k }

abbrev unset : Unset
unset = record { number = pos 7; flag = false }

abbrev request_text : Bytes
request_text = codes "GET / HTTP/1.1\r\nHost: h\r\n\r\n"

abbrev response_text : Bytes
response_text = codes "HTTP/1.1 200 OK\r\nContent-Length: 3\r\n\r\nhi!"

-- Nothing is open yet. The listening socket will be 3, the client 4, and its bridge 7.
abbrev cold : Kernel
cold = record {
  next_fd = 1;
  opened = λ j. false;
  nonblocking = false;
  written = [];
  incoming = λ j.
      if int_eq j (pos 4) then request_text else if int_eq j (pos 7) then response_text else [];
}

abbrev link_on : ℕ → Link
link_on fd = new_link (record { id = pos 0; socket = record { is_server = false; sfd = pos fd } })

abbrev income : ℕ → Event
income fd = record { fd = pos fd; events = 1 }

abbrev closing : ℕ → Event
closing fd = record { fd = pos fd; events = 2 ^ 13 + 1 }

abbrev one_query : List Wakeup
one_query = events (income 3 ∷ []) ∷ events (income 4 ∷ []) ∷ events (income 7 ∷ []) ∷ []

abbrev ran : List Wakeup → Kernel → Outcome (Program (List ℤ) Kernel)
ran wakeups kernel_state = run kernel unset (codes "80") wakeups [] kernel_state

abbrev written_of : Outcome (Program (List ℤ) Kernel) → List (ℤ × Bytes)
written_of (returns p) = p.os.written
written_of (throws e) = []
written_of spins = []
written_of dangles = []

-- The request goes to the host, and the response to the client.
one_query_served :
    written_of (ran one_query cold)
    ≡ (pos 4, response_text ++ codes "\r\n") ∷ (pos 7, request_text ++ codes "\r\n") ∷ []
unfolding run new_socket process_events lookup insert accept_socket add_flag from_socket assign
    recieve Request.append_data substr substr_from find bytes_less new_connection send
    Response.append_data erase Request.commit Response.Commit.commit stoi close_fd
one_query_served = refl

-- The client closes its side: its socket and that of its bridge are closed, and nothing but the
-- listening socket is watched.
abbrev one_visit : List Wakeup
one_visit =
    events (income 3 ∷ []) ∷ events (income 4 ∷ []) ∷ events (closing 4 ∷ income 7 ∷ []) ∷ []

abbrev left_of : Outcome (Program (List ℤ) Kernel) → Bool × Bool × Bool × ℕ
left_of (returns p) =
    (p.os.opened (pos 3), p.os.opened (pos 4), p.os.opened (pos 7), length p.epoll.handlers)
left_of (throws e) = (false, false, false, 0)
left_of spins = (false, false, false, 0)
left_of dangles = (false, false, false, 0)

one_visit_left : left_of (ran one_visit cold) ≡ (true, false, false, 1)
unfolding run new_socket process_events lookup insert accept_socket add_flag from_socket assign
    recieve Request.append_data substr substr_from find bytes_less new_connection send
    Response.append_data erase Request.commit Response.Commit.commit stoi close_fd
one_visit_left = refl

-- The host closes its side: the client is cut off as well.
one_cut_left :
    left_of (
      ran
        (events (income 3 ∷ []) ∷ events (income 4 ∷ []) ∷ events (closing 7 ∷ income 4 ∷ []) ∷ [])
        cold)
    ≡ (true, false, false, 1)
unfolding run new_socket process_events lookup insert accept_socket add_flag from_socket assign
    recieve Request.append_data substr substr_from find bytes_less new_connection send
    Response.append_data erase Request.commit Response.Commit.commit stoi close_fd
one_cut_left = refl

-- A request that cannot be parsed ends the program.
unparsed_ends :
    ran
      (events (income 3 ∷ []) ∷ events (income 4 ∷ []) ∷ [])
      (record cold { incoming = λ j. codes "GET / HTTP/1.1\r\nContent-Length: x\r\n\r\n" })
    ≡ throws invalid_argument
unfolding run new_socket process_events lookup insert accept_socket add_flag from_socket assign
    recieve Request.append_data substr substr_from find bytes_less new_connection send
    Response.append_data erase Request.commit Response.Commit.commit stoi close_fd
unparsed_ends = refl

-- Where the host is not found, the client gets no answer.
unanswered :
    written_of (
      ran
        (events (income 3 ∷ []) ∷ events (income 4 ∷ []) ∷ [])
        (record cold { incoming = λ j. codes "GET / HTTP/1.1\r\nHost: nowhere\r\n\r\n" }))
    ≡ []
unfolding run new_socket process_events lookup insert accept_socket add_flag from_socket assign
    recieve Request.append_data substr substr_from find bytes_less new_connection send
    Response.append_data erase Request.commit Response.Commit.commit stoi close_fd
unanswered = refl

-- An interrupt ends the loop.
interrupted_left :
    left_of (ran (events (income 3 ∷ []) ∷ interrupted sigint ∷ events (income 4 ∷ []) ∷ []) cold)
    ≡ (true, false, false, 1)
unfolding run new_socket process_events lookup insert accept_socket add_flag from_socket assign
    recieve Request.append_data substr substr_from find bytes_less new_connection send
    Response.append_data erase Request.commit Response.Commit.commit stoi close_fd
interrupted_left = refl
