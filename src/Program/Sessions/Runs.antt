-- ===== src/Program/Sessions/Runs.antt =====
-- The sessions of the program from its start on.
use server_coursework.Base.{
  ◌≡◌, refl, subst, true, none, Bool-cases, inl, inr, arith, List, [], ◌∷◌, ◌++◌, Bytes, codes,
  Secures, Secures-bind, Secures-map, Secures-made,
}
use server_coursework.OrdMap.{lookup}
use server_coursework.Socket.{Os, new_socket}
use server_coursework.Socket.Opening.{Opens}
use server_coursework.Epoll.{Ctl, Event, process_events}
use server_coursework.Epoll.Courses.{Course, done, Course-append}
use server_coursework.Program.{Program, Unset}
use server_coursework.Program.Proxy.{world}
use server_coursework.Program.Main.{
  Signal, sigterm, sigint, Wakeup, events, interrupted, my_handler, server_on, open_server, turn,
  serve, start, finish, run,
}
use server_coursework.Program.Safety.{IsSafe}
use server_coursework.Program.Safety.Life.{flagged-IsSafe, my_handler-IsSafe, open_server-IsSafe}
use server_coursework.Program.Sessions.{View, view, Step}
use server_coursework.Program.Sessions.Refinement.{IsCourse, process_events-IsCourse}

-- The events of all wakeups.
abbrev pub all_events : List Wakeup → List Event
all_events [] = []
all_events (events batch ∷ rest) = batch ++ all_events rest
all_events (interrupted signal ∷ rest) = all_events rest

abbrev pub of_one : Wakeup → List Event
of_one (events batch) = batch
of_one (interrupted signal) = []

abbrev pub no_sessions : View
no_sessions c = none

one-all_events :
    (wakeup : Wakeup) (rest : List Wakeup) {v u w : View}
    → Course Step (of_one wakeup) v u
    → Course Step (all_events rest) u w
    → Course Step (all_events (wakeup ∷ rest)) v w
one-all_events (events batch) rest first later = Course-append first later
one-all_events (interrupted signal) rest first later = Course-append first later

module _ {K S A : Type 0} ⦃ctl : Ctl K⦄ (os : Os S A) (unset : Unset) (o : Opens os) where
  view-my_handler : (signal : Signal) (p : Program K S) → view (my_handler signal p) ≡ view p
  unfolding my_handler
  view-my_handler sigterm p = refl
  view-my_handler sigint p = refl

  turn-IsCourse :
      (wakeup : Wakeup) (p : Program K S)
      → IsSafe o p
      → Secures (IsCourse os unset o (of_one wakeup) (view p)) (turn os unset wakeup p)
  unfolding turn
  turn-IsCourse (events batch) p h = process_events-IsCourse os unset o p batch h
  turn-IsCourse (interrupted signal) p h =
      subst
        (λ v.
          Secures (IsCourse os unset o [] v)
            (process_events (world os unset) (my_handler signal p) []))
        (view-my_handler signal p)
        (process_events-IsCourse os unset o (my_handler signal p) []
          (my_handler-IsSafe o signal p h))

  -- While the program runs, its sessions have gone a course over all events.
  abbrev pub IsCourseRunning : List Wakeup → View → Program K S → Type 0
  IsCourseRunning wakeups v p = p.running ≡ true → IsCourse os unset o (all_events wakeups) v p

  serve-IsCourse :
      (wakeups : List Wakeup) (p : Program K S)
      → IsSafe o p
      → Secures (IsCourseRunning wakeups (view p)) (serve os unset wakeups p)
  unfolding serve finish
  serve-IsCourse [] p h = λ e. (h, done)
  serve-IsCourse (wakeup ∷ rest) p h = elim (Bool-cases p.running) [
    | inl running ↦
        rw (running, serve)
          (Secures-bind (IsCourse os unset o (of_one wakeup) (view p)) _ (turn os unset wakeup p) _
            (turn-IsCourse wakeup p h)
            λ q first.
              Secures-map _ _ (serve os unset rest q) (serve-IsCourse rest q first.0)
                λ u later e. ((later e).0, one-all_events wakeup rest first.1 (later e).1))
    | inr ended ↦ rw (ended, serve) (λ e. absurd (ground (arith, e, ended)))
  ]

  opened-no_sessions :
      (host port : Bytes) (instance_ : K) (s : S)
      → Secures
          (λ p. IsSafe o p × (view p ≡ no_sessions))
          (open_server os unset host port instance_ s)
  unfolding open_server server_on lookup
  opened-no_sessions host port instance_ s =
      Secures-made (IsSafe o) (λ p. view p ≡ no_sessions) (new_socket os host port true s).0
        (server_on unset instance_ (new_socket os host port true s).1)
        (open_server-IsSafe os unset o host port instance_ s) (λ socket. refl)

  -- From its start on, whatever comes in, the program uses no object that is gone, and as long as it
  -- runs, its state is safe and its sessions have come from none by one step for each event that
  -- `epoll_wait` has given, in their order. A closed descriptor makes the client leave to which it or
  -- whose bridge it belongs, income from a client may change its own bridge, other income may bring a
  -- new client where its descriptor belongs to no client, and all else, signals too, changes none.
  pub run-IsCourse :
      (port : Bytes) (wakeups : List Wakeup) (instance_ : K) (s : S)
      → Secures (IsCourseRunning wakeups no_sessions) (run os unset port wakeups instance_ s)
  unfolding run start
  run-IsCourse port wakeups instance_ s =
      Secures-bind _ (IsCourseRunning wakeups no_sessions)
        (open_server os unset (codes "localhost") port instance_ s) _
        (opened-no_sessions (codes "localhost") port instance_ s)
        λ p both.
          subst
            (λ v.
              Secures (IsCourseRunning wakeups v)
                (serve os unset wakeups (record p { running = true })))
            both.1
            (serve-IsCourse wakeups (record p { running = true }) (flagged-IsSafe o p true both.0))
