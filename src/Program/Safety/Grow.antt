-- ===== src/Program/Safety/Grow.antt =====
-- Clients and bridges that are new.
use server_coursework.Base.{
  inr, inl, Option-cases, ℕ, ℤ, ◌+◌, ◌<◌, ◌≡◌, true, false, ◌||◌, none, some, int_eq, arith,
  if◌then◌else◌, Bytes,
}
use server_coursework.OrdMap.{lookup, insert, assign, has_key, same}
use server_coursework.OrdMap.Laws.{
  same_iff, lookup-assign, lookup-insert, assign-IsSorted, insert-IsSorted,
}
use server_coursework.OrdMap.Keys.{int_Less, nat_Less}
use server_coursework.Socket.{Os}
use server_coursework.Socket.Opening.{Opens}
use server_coursework.Epoll.{Ctl, add_socket}
use server_coursework.Epoll.Watch.{add_socket-IsConsistent}
use server_coursework.Response.{Response}
use server_coursework.Program.{Program, Link, Handler, client, bridge, fd_of}
use server_coursework.Program.Safety.{IsSafe}
use server_coursework.Program.Safety.Drop.{int_eq-same}

module _ {K S A : Type 0} ⦃ctl : Ctl K⦄ {os : Os S A} (o : Opens os) (p : Program K S)
    (h : IsSafe o p) where
  -- A descriptor that is not open is neither watched nor that of a client.
  pub unwatched : (f : ℤ) → o.is_open f p.os ≡ false → lookup f p.epoll.handlers ≡ none
  unwatched f shut = ground (arith, h.opened f, shut)

  pub not_client : (f : ℤ) → o.is_open f p.os ≡ false → lookup f p.clients ≡ none
  not_client f shut = elim (Option-cases (lookup f p.clients)) [
    | inl away ↦ away
    | inr (k, found) ↦ ground (arith, h.client_keys f k found, unwatched f shut)
  ]

  added :
      (f : ℤ) (handler : Handler) (tag : Bytes) (j : ℤ)
      → o.is_open f p.os ≡ false
      → lookup j (add_socket p.epoll f handler tag).handlers
        ≡ (if same f j then some handler else lookup j p.epoll.handlers)
  unfolding add_socket
  added f handler tag j shut =
      ground
        (arith, lookup-insert j f handler p.epoll.handlers h.consistent.sorted, unwatched f shut)

  module _ (f : ℤ) (shut : o.is_open f p.os ≡ false) (s : S)
      (opens : (j : ℤ) → o.is_open j s ≡ (int_eq j f || o.is_open j p.os)) where
    -- A client that has been accepted, with its number.
    abbrev pub joined : Link → Link → ℤ → Bytes → Program K S
    joined v w n tag = record p {
      clients = assign f v (insert f w p.clients);
      id_counter = n;
      epoll = add_socket p.epoll f client tag;
      os = s;
    }

    pub joined-IsSafe :
        (v w : Link) (n : ℤ) (tag : Bytes) → fd_of v ≡ f → IsSafe o (joined v w n tag)
    joined-IsSafe v w n tag own = record {
      consistent = add_socket-IsConsistent p.epoll h.consistent f client tag (unwatched f shut);
      clients_sorted =
          assign-IsSorted f v (insert f w p.clients)
            (insert-IsSorted f w p.clients h.clients_sorted);
      con_map_sorted = h.con_map_sorted;
      responses_sorted = h.responses_sorted;
      client_keys = λ d l e. ground (arith, h.client_keys d l, e, new d, kept d, same_iff f d, own);
      client_handlers = λ d e. ground (arith, h.client_handlers d, e, new d, kept d, same_iff f d);
      bridges = λ d g e. ground (arith, h.bridges d g, e, new g, unwatched f shut, same_iff f g);
      alive = h.alive;
      bridge_handlers = λ g d address e.
          ground (arith, h.bridge_handlers g d address, e, new g, same_iff f g, kept d);
      own_response =
          λ g i d e address x y. ground (arith, h.own_response g i d e address, x, y, new g, new i);
      old_responses = h.old_responses;
      opened = λ g e. ground (arith, h.opened g, e, new g, opens g, int_eq-same g f);
      server_open = ground (arith, h.server_open, opens server);
      server_listens =
          ground (arith, h.server_listens, h.server_open, shut, new server, same_iff f server);
    }
      where
        server : ℤ
        server = p.server_socket.sfd

        new :
            (j : ℤ)
            → lookup j (add_socket p.epoll f client tag).handlers
              ≡ (if same f j then some client else lookup j p.epoll.handlers)
        new j = added f client tag j shut

        kept :
            (j : ℤ)
            → lookup j (assign f v (insert f w p.clients))
              ≡ (if same f j then some v else lookup j p.clients)
        kept j = ground (
          arith,
          lookup-assign j f v (insert f w p.clients),
          lookup-insert j f w p.clients h.clients_sorted,
        )

    -- A bridge that has been made for a client, with its response.
    abbrev pub linked : ℤ → Bytes → Link → Link → Response → Bytes → Program K S
    linked c host v w r tag = record p {
      con_map = assign c (host, v) (insert c (host, w) p.con_map);
      responses = insert p.next_address r p.responses;
      next_address = p.next_address + 1;
      epoll = add_socket p.epoll f (bridge c p.next_address) tag;
      os = s;
    }

    pub linked-IsSafe :
        (c : ℤ) (host : Bytes) (v w : Link) (r : Response) (tag : Bytes)
        → fd_of v ≡ f
        → v.is_alive ≡ true
        → lookup c p.con_map ≡ none
        → has_key c p.clients ≡ true
        → IsSafe o (linked c host v w r tag)
    linked-IsSafe c host v w r tag own living single known = record {
      consistent = add_socket-IsConsistent p.epoll h.consistent f _ tag (unwatched f shut);
      clients_sorted = h.clients_sorted;
      con_map_sorted =
          assign-IsSorted c _ (insert c (host, w) p.con_map)
            (insert-IsSorted c _ p.con_map h.con_map_sorted);
      responses_sorted = insert-IsSorted p.next_address r p.responses h.responses_sorted;
      client_keys =
          λ d l e. ground (arith, h.client_keys d l, e, new d, not_client f shut, same_iff f d);
      client_handlers = λ d e. ground (arith, h.client_handlers d, e, new d);
      bridges = λ d g e. ground (
        arith,
        h.bridges d g,
        e,
        new g,
        kept d,
        own,
        unwatched f shut,
        same_iff f g,
        same_iff c d,
      );
      alive = λ d entry e. ground (arith, h.alive d entry, e, kept d, living);
      bridge_handlers = λ g d address e. ground (
        arith,
        h.bridge_handlers g d address,
        e,
        new g,
        same_iff f g,
        same_iff c d,
        kept d,
        own,
        known,
        single,
        held address,
        same_iff p.next_address address,
      );
      own_response = λ g i d e address x y. ground (
        arith,
        h.own_response g i d e address,
        x,
        y,
        new g,
        new i,
        same_iff f g,
        same_iff f i,
        fresh_address g d address,
        fresh_address i e address,
      );
      old_responses =
          λ a e. ground (arith, h.old_responses a, e, held a, same_iff p.next_address a);
      opened = λ g e. ground (arith, h.opened g, e, new g, opens g, int_eq-same g f);
      server_open = ground (arith, h.server_open, opens server);
      server_listens =
          ground (arith, h.server_listens, h.server_open, shut, new server, same_iff f server);
    }
      where
        server : ℤ
        server = p.server_socket.sfd

        new :
            (j : ℤ)
            → lookup j (add_socket p.epoll f (bridge c p.next_address) tag).handlers
              ≡ (if same f j then some (bridge c p.next_address) else lookup j p.epoll.handlers)
        new j = added f _ tag j shut

        kept :
            (j : ℤ)
            → lookup j (assign c (host, v) (insert c (host, w) p.con_map))
              ≡ (if same c j then some (host, v) else lookup j p.con_map)
        kept j = ground (
          arith,
          lookup-assign j c (host, v) (insert c (host, w) p.con_map),
          lookup-insert j c (host, w) p.con_map h.con_map_sorted,
        )

        held :
            (a : ℕ)
            → has_key a (insert p.next_address r p.responses)
              ≡ (same p.next_address a || has_key a p.responses)
        held a = ground (
          arith,
          lookup-insert a p.next_address r p.responses h.responses_sorted,
          h.old_responses p.next_address,
        )

        fresh_address :
            (g d : ℤ) (a : ℕ) → lookup g p.epoll.handlers ≡ some (bridge d a) → a < p.next_address
        fresh_address g d a e = h.old_responses a (h.bridge_handlers g d a e).2
