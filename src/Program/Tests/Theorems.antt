-- ===== src/Program/Tests/Theorems.antt =====
-- The theorems about the program at concrete states of it.
use server_coursework.Base.{
  Bool, ◌≡◌, refl, true, false, ◌||◌, some, List, [], ◌∷◌, ◌++◌, arith, codes, ℤ, pos,
  if◌then◌else◌, Outcome, returns, throws, spins, dangles, int_eq, Secures,
}
use server_coursework.Socket.{close_fd, new_socket, accept_socket, add_flag, recieve, send}
use server_coursework.Connection.{from_socket, new_connection}
use server_coursework.OrdMap.{lookup, insert, assign, erase}
use server_coursework.OrdMap.Keys.{bytes_less, int_Less}
use server_coursework.Text.Find.{find, substr, substr_from}
use server_coursework.Text.Number.{stoi}
use server_coursework.Request
use server_coursework.Response
use server_coursework.Response.Commit
use server_coursework.Socket.Tests.SmallKernel.{Kernel, kernel, kernel-Opens}
use server_coursework.Epoll.{process_events}
use server_coursework.Program.{bridge, client, listener, Handler, Program}
use server_coursework.Program.Main.{server_on, run, quit, finish}
use server_coursework.Program.Proxy.{world, handle_income, relay, host_of}
use server_coursework.Program.Safety.Quit.{quit-shuts}
use server_coursework.Program.Sessions.{view}
use server_coursework.Program.Sessions.Refinement.{IsCourse, process_events-IsCourse}
use server_coursework.Program.Sessions.Runs.{IsCourseRunning, no_sessions, run-IsCourse}
use server_coursework.Program.Forward.{handle_income-forwards}
use server_coursework.Program.Route.{IsRouted, relay-IsRouted}
use server_coursework.Response.Tests.{sized, sized-IsPrintable, three_read}
use server_coursework.Response.Commit.{commit_headers}
use server_coursework.Actions.{Ends}
use server_coursework.Request.{Request, commit_headers as commit_request_headers}
use server_coursework.Request.Body.{complete_with}
use server_coursework.Request.Tests.{post, post-IsPrintable, post_length, two_read}
use server_coursework.Program.HttpServer.{set_request, erase_request}
use server_coursework.Program.Arrive.{handle_income-passes_on}
use server_coursework.Program.Safety.{IsSafe, listens}
use server_coursework.Program.Safety.Life.{server_on-IsSafe, IsSafeRunning, run-IsSafe}
use server_coursework.Program.Tests.{
  watched, unset, response_text, cold, link_on, income, closing, one_query, ran,
}

run-IsSafe_example :
    Secures (IsSafeRunning {K = List ℤ} kernel unset kernel-Opens) (ran one_query cold)
run-IsSafe_example = run-IsSafe kernel unset kernel-Opens (codes "80") one_query [] cold

-- The server before any event.
abbrev idle : Program (List ℤ) Kernel
idle =
    server_on unset [] (record cold { next_fd = 4; opened = λ j. int_eq j (pos 3) })
      (record { is_server = true; sfd = pos 3 })

idle-IsSafe : IsSafe kernel-Opens idle
unfolding server_on
idle-IsSafe =
    server_on-IsSafe kernel-Opens unset [] idle.os (record { is_server = true; sfd = pos 3 }) refl

abbrev state_of : Outcome (Program (List ℤ) Kernel) → Program (List ℤ) Kernel
state_of (returns p) = p
state_of (throws e) = idle
state_of spins = idle
state_of dangles = idle

abbrev running_of : Outcome (Program (List ℤ) Kernel) → Bool
running_of (returns p) = p.running
running_of (throws e) = true
running_of spins = true
running_of dangles = true

state_of-IsSafe :
    (m : Outcome (Program (List ℤ) Kernel))
    → Secures (IsSafeRunning {K = List ℤ} kernel unset kernel-Opens) m
    → running_of m ≡ true
    → IsSafe kernel-Opens (state_of m)
state_of-IsSafe (returns p) h running = h running
state_of-IsSafe (throws e) h running = idle-IsSafe
state_of-IsSafe spins h running = idle-IsSafe
state_of-IsSafe dangles h running = idle-IsSafe

abbrev served : Program (List ℤ) Kernel
served = state_of (ran one_query cold)

served_running : running_of (ran one_query cold) ≡ true
unfolding run new_socket process_events lookup insert accept_socket add_flag from_socket assign
    recieve Request.append_data substr substr_from find bytes_less new_connection send
    Response.append_data erase Request.commit Response.Commit.commit stoi close_fd
served_running = refl

served-IsSafe : IsSafe kernel-Opens served
served-IsSafe =
    state_of-IsSafe (ran one_query cold)
      (run-IsSafe kernel unset kernel-Opens (codes "80") one_query [] cold) served_running

process_events-IsCourse_example :
    Secures
      (IsCourse {K = List ℤ} kernel unset kernel-Opens (closing 7 ∷ income 4 ∷ []) (view served))
      (process_events (world kernel unset) served (closing 7 ∷ income 4 ∷ []))
process_events-IsCourse_example =
    process_events-IsCourse kernel unset kernel-Opens served (closing 7 ∷ income 4 ∷ [])
      served-IsSafe

run-IsCourse_example :
    Secures
      (IsCourseRunning {K = List ℤ} kernel unset kernel-Opens one_query no_sessions)
      (ran one_query cold)
run-IsCourse_example = run-IsCourse kernel unset kernel-Opens (codes "80") one_query [] cold

quit-shuts_example :
    (kernel-Opens.is_open served.server_socket.sfd (quit kernel (finish kernel served)) ≡ false)
    × ((f : ℤ) (handler : Handler)
        → lookup f served.epoll.handlers ≡ some handler
        → listens (some handler) ≡ false
        → kernel-Opens.is_open f (quit kernel (finish kernel served)) ≡ false)
quit-shuts_example = quit-shuts kernel kernel-Opens served served-IsSafe

-- A client, 4, with a bridge, 7, that waits for its response.
abbrev linked : Program (List ℤ) Kernel
linked = record {
  clients = (pos 4, link_on 4) ∷ [];
  server_socket = record { is_server = true; sfd = pos 3 };
  running = true;
  id_counter = pos 1;
  epoll = record {
    handlers = (pos 3, listener) ∷ (pos 4, client) ∷ (pos 7, bridge (pos 4) 0) ∷ [];
    fd_status =
        (pos 3, codes "server socket") ∷ (pos 4, codes "client") ∷ (pos 7, codes "host") ∷ [];
    interest = pos 7 ∷ pos 4 ∷ pos 3 ∷ [];
  };
  request_map = [];
  con_map = (pos 4, (codes "h", record (link_on 7) { is_alive = true })) ∷ [];
  responses = (0, Response.fresh (pos 7)) ∷ [];
  next_address = 1;
  os = record cold { incoming = λ j. response_text };
}

handle_income-forwards_example : handle_income kernel unset (bridge (pos 4) 0) (pos 7) linked ≡ (
  returns tt,
  record linked {
    os = record linked.os {
      incoming = λ j. if int_eq j (pos 7) then [] else response_text;
      written = (pos 4, response_text ++ codes "\r\n") ∷ [];
    };
  },
)
unfolding lookup recieve send bytes_less commit_headers
handle_income-forwards_example =
    handle_income-forwards kernel unset linked (pos 7) (pos 4) 0 sized _ _ (tt, tt) refl refl refl
      sized-IsPrintable refl three_read refl (unfold commit_headers in omega arith) refl refl

abbrev get : Request
get = record Request.fresh { headers = (codes "Host", codes "other") ∷ [] }

relay-IsRouted_example :
    Ends
      (λ _. IsRouted {K = List ℤ} kernel (pos 4) (host_of get) (Request.commit get))
      (λ q. Unit)
      (relay kernel unset (pos 4) get linked)
relay-IsRouted_example = relay-IsRouted kernel unset kernel-Opens (pos 4) get linked (tt, tt)

-- The request that has come in on 4, whose bridge leads to another host.
abbrev asked : Program (List ℤ) Kernel
asked = record linked {
  request_map = (pos 4, Request.fresh) ∷ [];
  con_map = (pos 4, (codes "old", record (link_on 7) { is_alive = true })) ∷ [];
  os = record cold {
    next_fd = 8;
    opened = λ j. int_eq j (pos 4) || int_eq j (pos 7);
    incoming = λ j. if int_eq j (pos 4) then commit_request_headers post ++ codes "hi" else [];
  };
}

-- The kernel behind the reading, and the program behind passing the request on.
abbrev read_asked : Kernel
read_asked = record asked.os {
  incoming = λ j. if int_eq j (pos 4) then [] else asked.os.incoming j;
}

abbrev passed_on : Program (List ℤ) Kernel
passed_on =
    (relay kernel unset (pos 4) (complete_with post post.body [])
      (set_request (pos 4) (complete_with post post.body []) (record asked { os = read_asked }))).1

handle_income-passes_on_example :
    (handle_income kernel unset client (pos 4) asked
      ≡ (returns tt, erase_request (pos 4) passed_on))
    × IsRouted {K = List ℤ} kernel
        (pos 4)
        (host_of post)
        (commit_request_headers post ++ (codes "hi" ++ codes "\r\n"))
        passed_on
unfolding lookup recieve send bytes_less commit_request_headers relay new_connection new_socket
    set_request insert erase close_fd
handle_income-passes_on_example =
    handle_income-passes_on kernel unset kernel-Opens asked passed_on (pos 4) post read_asked
      (tt, tt) refl refl refl post-IsPrintable post_length two_read (omega arith) refl refl
