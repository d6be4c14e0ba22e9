-- ===== src/Program/Safety/Drop.antt =====
-- Taking bridges and clients away.
use server_coursework.Base.{
  ℕ, ℤ, pos, negsuc, ◌≡◌, refl, none, some, int_eq, arith, if◌then◌else◌, Bytes,
}
use server_coursework.OrdMap.{lookup, erase, same}
use server_coursework.OrdMap.Laws.{same_iff, lookup-erase, erase-IsSorted}
use server_coursework.OrdMap.Keys.{int_Less, nat_Less}
use server_coursework.Socket.{Os, close_fd}
use server_coursework.Socket.Opening.{Opens}
use server_coursework.Epoll.{Ctl, remove_socket}
use server_coursework.Epoll.Watch.{remove_socket-IsConsistent, lookup-remove_socket}
use server_coursework.Program.{Program, Link, client, bridge, fd_of}
use server_coursework.Program.TcpServer.{unwatch, erase_client, disconnect_client}
use server_coursework.Program.Proxy.{erase_bridge}
use server_coursework.Program.Safety.{owner, IsSafe}

pub int_eq-same : (a b : ℤ) → int_eq a b ≡ same b a
int_eq-same (pos a) (pos b) = ground arith
int_eq-same (pos a) (negsuc b) = refl
int_eq-same (negsuc a) (pos b) = refl
int_eq-same (negsuc a) (negsuc b) = ground arith

module _ {K S A : Type 0} ⦃ctl : Ctl K⦄ {os : Os S A} (o : Opens os) where
  -- What is left when a bridge is taken away.
  abbrev pub unbridged : ℤ → Link → Program K S → Program K S
  unbridged c k p = record p {
    epoll = remove_socket p.epoll (fd_of k);
    con_map = erase c p.con_map;
    os = os.close (fd_of k) p.os;
  }

  pub erase_bridge-unbridged :
      (p : Program K S) (c : ℤ) {host : Bytes} {k : Link}
      → lookup c p.con_map ≡ some (host, k)
      → erase_bridge os c (unwatch (fd_of k) p) ≡ unbridged c k p
  unfolding erase_bridge unwatch close_fd
  erase_bridge-unbridged p c found = rw (found, erase_bridge) refl

  pub unbridged-IsSafe :
      (p : Program K S) (c : ℤ) {host : Bytes} {k : Link}
      → IsSafe o p
      → lookup c p.con_map ≡ some (host, k)
      → IsSafe o (unbridged c k p)
  unbridged-IsSafe p c {host} {k} s found = record {
    consistent = remove_socket-IsConsistent p.epoll s.consistent f;
    clients_sorted = s.clients_sorted;
    con_map_sorted = erase-IsSorted c p.con_map s.con_map_sorted;
    responses_sorted = s.responses_sorted;
    client_keys = λ d l e. ground (arith, s.client_keys d l e, mine, gone d, same_iff f d);
    client_handlers = λ d e. ground (arith, s.client_handlers d, e, gone d);
    bridges = λ d g e. ground (
      arith,
      s.bridges d g,
      mine,
      e,
      gone g,
      same_iff f g,
      lookup-erase d c p.con_map,
      same_iff c d,
    );
    alive = λ d entry e. ground (arith, s.alive d entry, e, lookup-erase d c p.con_map);
    bridge_handlers = λ g d address e. ground (
      arith,
      s.bridge_handlers g d address,
      e,
      gone g,
      found,
      same_iff f g,
      lookup-erase d c p.con_map,
      same_iff c d,
    );
    own_response =
        λ g h d e address x y. ground (arith, s.own_response g h d e address, x, y, gone g, gone h);
    old_responses = s.old_responses;
    opened = λ g e. ground (arith, s.opened g, e, gone g, o.close-shuts f p.os g, int_eq-same g f);
    server_open = ground (
      arith,
      s.server_open,
      s.server_listens,
      mine,
      o.close-shuts f p.os server,
      int_eq-same server f,
      same_iff f server,
    );
    server_listens = ground (arith, s.server_listens, gone server);
  }
    where
      server : ℤ
      server = p.server_socket.sfd

      f : ℤ
      f = fd_of k

      gone :
          (j : ℤ)
          → lookup j (remove_socket p.epoll f).handlers
            ≡ (if same f j then none else lookup j p.epoll.handlers)
      gone = (lookup-remove_socket p.epoll s.consistent f).0

      mine : owner (lookup f p.epoll.handlers) ≡ some c
      mine = s.bridges c f (rw found refl)

  -- What is left when a client is taken away.
  abbrev pub unclient : ℤ → Program K S → Program K S
  unclient f p = record p {
    epoll = remove_socket p.epoll f;
    clients = erase f p.clients;
    os = os.close f p.os;
  }

  pub disconnect_client-unclient :
      (p : Program K S) (k : Link)
      → lookup (fd_of k) p.clients ≡ some k
      → disconnect_client os k p ≡ unclient (fd_of k) p
  unfolding disconnect_client erase_client unwatch close_fd
  disconnect_client-unclient p k found = rw (found, erase_client) refl

  pub unclient-IsSafe :
      (p : Program K S) (c : ℤ) {k : Link}
      → IsSafe o p
      → lookup c p.clients ≡ some k
      → lookup c p.con_map ≡ none
      → IsSafe o (unclient c p)
  unclient-IsSafe p c {k} s found single = record {
    consistent = remove_socket-IsConsistent p.epoll s.consistent c;
    clients_sorted = erase-IsSorted c p.clients s.clients_sorted;
    con_map_sorted = s.con_map_sorted;
    responses_sorted = s.responses_sorted;
    client_keys = λ d l e.
        ground (arith, s.client_keys d l, e, gone d, lookup-erase d c p.clients, same_iff c d);
    client_handlers = λ d e.
        ground (arith, s.client_handlers d, e, gone d, lookup-erase d c p.clients, same_iff c d);
    bridges = λ d g e. ground (arith, s.bridges d g, mine, e, gone g, same_iff c g);
    alive = s.alive;
    bridge_handlers = λ g d address e. ground (
      arith,
      s.bridge_handlers g d address,
      e,
      gone g,
      single,
      same_iff c g,
      lookup-erase d c p.clients,
      same_iff c d,
    );
    own_response =
        λ g h d e address x y. ground (arith, s.own_response g h d e address, x, y, gone g, gone h);
    old_responses = s.old_responses;
    opened = λ g e. ground (arith, s.opened g, e, gone g, o.close-shuts c p.os g, int_eq-same g c);
    server_open = ground (
      arith,
      s.server_open,
      s.server_listens,
      mine,
      o.close-shuts c p.os server,
      int_eq-same server c,
      same_iff c server,
    );
    server_listens = ground (arith, s.server_listens, gone server);
  }
    where
      server : ℤ
      server = p.server_socket.sfd

      gone :
          (j : ℤ)
          → lookup j (remove_socket p.epoll c).handlers
            ≡ (if same c j then none else lookup j p.epoll.handlers)
      gone = (lookup-remove_socket p.epoll s.consistent c).0

      mine : lookup c p.epoll.handlers ≡ some client
      mine = (s.client_keys c k found).1

  -- A response that no handler has may go.
  pub unanswered-IsSafe :
      (p : Program K S) (address : ℕ)
      → IsSafe o p
      → ((f c : ℤ) → lookup f p.epoll.handlers ≡ some (bridge c address) → ⊥)
      → IsSafe o (record p { responses = erase address p.responses })
  unanswered-IsSafe p address s unused = record {
    consistent = s.consistent;
    clients_sorted = s.clients_sorted;
    con_map_sorted = s.con_map_sorted;
    responses_sorted = erase-IsSorted address p.responses s.responses_sorted;
    client_keys = s.client_keys;
    client_handlers = s.client_handlers;
    bridges = s.bridges;
    alive = s.alive;
    bridge_handlers = λ f c a e. ground (
      arith,
      s.bridge_handlers f c a e,
      unused f c,
      e,
      lookup-erase a address p.responses,
      same_iff address a,
    );
    own_response = s.own_response;
    old_responses = λ a e. ground (arith, s.old_responses a, e, lookup-erase a address p.responses);
    opened = s.opened;
    server_open = s.server_open;
    server_listens = s.server_listens;
  }

  -- A handler that is neither that of a client nor that of a bridge may go.
  pub unwatched-IsSafe :
      (p : Program K S) (f : ℤ)
      → IsSafe o p
      → owner (lookup f p.epoll.handlers) ≡ none
      → (lookup f p.epoll.handlers ≡ some client → ⊥)
      → IsSafe o (unwatch f p)
  unfolding unwatch
  unwatched-IsSafe p f s bridgeless other = record {
    consistent = remove_socket-IsConsistent p.epoll s.consistent f;
    clients_sorted = s.clients_sorted;
    con_map_sorted = s.con_map_sorted;
    responses_sorted = s.responses_sorted;
    client_keys = λ d l e. ground (arith, s.client_keys d l e, other, gone d, same_iff f d);
    client_handlers = λ d e. ground (arith, s.client_handlers d, e, gone d);
    bridges = λ d g e. ground (arith, s.bridges d g, e, bridgeless, gone g, same_iff f g);
    alive = s.alive;
    bridge_handlers = λ g d address e. ground (arith, s.bridge_handlers g d address, e, gone g);
    own_response =
        λ g h d e address x y. ground (arith, s.own_response g h d e address, x, y, gone g, gone h);
    old_responses = s.old_responses;
    opened = λ g e. ground (arith, s.opened g, e, gone g);
    server_open = s.server_open;
    server_listens = ground (arith, s.server_listens, gone p.server_socket.sfd);
  }
    where
      gone :
          (j : ℤ)
          → lookup j (remove_socket p.epoll f).handlers
            ≡ (if same f j then none else lookup j p.epoll.handlers)
      gone = (lookup-remove_socket p.epoll s.consistent f).0

  -- A safe state without the handler of `f`.
  abbrev pub IsLeft : ℤ → Program K S → Type 0
  IsLeft f p = IsSafe o p × (lookup f p.epoll.handlers ≡ none)

  -- The wrapper goes on to remove a socket that has gone.
  pub unwatch-IsLeft : (p : Program K S) (f : ℤ) → IsLeft f p → IsSafe o (unwatch f p)
  unwatch-IsLeft p f h =
      unwatched-IsSafe p f h.0 (ground (arith, h.1)) (λ e. ground (arith, h.1, e))
