-- ===== src/Program/Safety/Leave.antt =====
-- A client that closes its connection.
use server_coursework.Base.{
  ◌≡◌, refl, ◌∙◌, none, some, Option-cases, inl, inr, arith, Bytes, returns,
}
use server_coursework.Actions.{Ends}
use server_coursework.OrdMap.{lookup, erase}
use server_coursework.OrdMap.Laws.{same_refl, lookup-erase}
use server_coursework.OrdMap.Keys.{int_Less, nat_Less}
use server_coursework.Socket.{Os}
use server_coursework.Socket.Opening.{Opens}
use server_coursework.Epoll.{Ctl}
use server_coursework.Epoll.Watch.{lookup-remove_socket}
use server_coursework.Program.{Program, Link, Unset, fd_of, client_ref}
use server_coursework.Program.TcpServer.{client_at, client_disconnect}
use server_coursework.Program.HttpServer.{disconnected, erase_request}
use server_coursework.Program.Proxy.{on_disconnect}
use server_coursework.Program.Safety.{IsSafe}
use server_coursework.Program.Safety.Steady.{steady-IsSafe}
use server_coursework.Program.Safety.Drop.{
  IsLeft, unbridged, unclient, erase_bridge-unbridged, disconnect_client-unclient, unbridged-IsSafe,
  unclient-IsSafe,
}

module _ {K S A : Type 0} ⦃ctl : Ctl K⦄ (os : Os S A) (unset : Unset) (o : Opens os) where
  pub on_disconnect-single :
      (p : Program K S) (k : Link)
      → lookup (fd_of k) p.clients ≡ some k
      → lookup (fd_of k) p.con_map ≡ none
      → on_disconnect os (fd_of k) p ≡ (returns tt, p)
  unfolding on_disconnect client_ref
  on_disconnect-single p k found away = rw (found, on_disconnect, client_ref, away) refl

  pub on_disconnect-bridged :
      (p : Program K S) (k : Link) {host : Bytes} {b : Link}
      → lookup (fd_of k) p.clients ≡ some k
      → lookup (fd_of k) p.con_map ≡ some (host, b)
      → on_disconnect os (fd_of k) p ≡ (returns tt, unbridged o (fd_of k) b p)
  unfolding on_disconnect client_ref
  on_disconnect-bridged p k found bridged =
      rw (found, on_disconnect, client_ref, bridged, erase_bridge-unbridged o p (fd_of k) bridged)
        refl

  disconnected-lem :
      (p q : Program K S) (k : Link)
      → on_disconnect os (fd_of k) p ≡ (returns tt, q)
      → lookup (fd_of k) q.clients ≡ some k
      → disconnected (on_disconnect os) (fd_of k) p ≡ (returns tt, erase_request (fd_of k) q)
  unfolding disconnected client_ref
  disconnected-lem p q k told kept = rw (told, disconnected, kept, client_ref) refl

  -- The end of a client, by what `on_disconnect` has left.
  pub client_disconnect-unclient :
      (p q : Program K S) (k : Link)
      → lookup (fd_of k) p.clients ≡ some k
      → on_disconnect os (fd_of k) p ≡ (returns tt, q)
      → lookup (fd_of k) q.clients ≡ some k
      → client_disconnect os unset (disconnected (on_disconnect os)) (fd_of k) p
        ≡ (returns tt, unclient o (fd_of k) (erase_request (fd_of k) q))
  unfolding client_disconnect client_at erase_request
  client_disconnect-unclient p q k found told kept =
      rw
        (
          found,
          client_disconnect,
          client_at,
          disconnected-lem p q k told kept,
          kept,
          client_at,
          disconnect_client-unclient o (erase_request (fd_of k) q) k kept,
        )
        refl

  unclient-IsLeft :
      (q : Program K S) (k : Link)
      → IsSafe o q
      → lookup (fd_of k) q.clients ≡ some k
      → lookup (fd_of k) q.con_map ≡ none
      → IsLeft o (fd_of k) (unclient o (fd_of k) (erase_request (fd_of k) q))
  unfolding erase_request
  unclient-IsLeft q k h kept away = (
    unclient-IsSafe o (erase_request (fd_of k) q) (fd_of k)
        (steady-IsSafe o q (erase (fd_of k) q.request_map) q.os h (λ j. refl)) kept away,
    (lookup-remove_socket q.epoll h.consistent (fd_of k)).0 (fd_of k)
        ∙ ground (arith, same_refl (fd_of k)),
  )

  pub client_disconnect-Ends :
      (p : Program K S) (k : Link)
      → IsSafe o p
      → lookup (fd_of k) p.clients ≡ some k
      → Ends
          (λ _. IsLeft o (fd_of k))
          (λ q. Unit)
          (client_disconnect os unset (disconnected (on_disconnect os)) (fd_of k) p)
  client_disconnect-Ends p k h found = elim (Option-cases (lookup (fd_of k) p.con_map)) [
    | inl away ↦
        rw (client_disconnect-unclient p p k found (on_disconnect-single p k found away) found)
          (unclient-IsLeft p k h found away)
    | inr ((host, b), bridged) ↦
        rw
          (client_disconnect-unclient p (unbridged o (fd_of k) b p) k found
            (on_disconnect-bridged p k found bridged) found)
          (unclient-IsLeft (unbridged o (fd_of k) b p) k (unbridged-IsSafe o p (fd_of k) h bridged)
            found
            (lookup-erase (fd_of k) (fd_of k) p.con_map ∙ ground (arith, same_refl (fd_of k))))
  ]
