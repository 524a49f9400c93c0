-- ===== src/Earlier/Leaks.antt =====
-- The descriptors that serverbase/webserver/ opens and never closes.
use my_tcp_cs.Base.{
  ℕ, zero, suc, ◌≡◌, ◌≢◌, ap, subst, Bool, true, false, inl, inr, Option, none, some, List, [], ◌∷◌,
  Outcome, done, undefined, terminated, ◌>>=◌, ltb, ◌==◌, All, length, Option-cases, Bool-cases,
}
use my_tcp_cs.Base.Int.{exceeds}
use my_tcp_cs.Server.{Interest, max_fd}
use my_tcp_cs.ThreadPool.{default_requests}
use my_tcp_cs.Http.Progress.Ending.{Ends, ends, breaks, throws, Ends-bind, Ends-if, of_Ends}
use my_tcp_cs.Earlier.{
  Calls, Env, Accept, accepted, accept_failed, Event, set_nonblocking, addfd, removefd, init_conn,
  close_conn, close_until, read, write, append_task, on_accept, on_input, on_output, on_event,
  on_events, serve,
}

-- What the manual says of the calls other than `close`: an open descriptor stays open. `close`
-- closes only the one that it is given.
pub record Opens {K : Type 0} (os : Calls K) : Type 0 where
  pub is_open : K → ℕ → Bool
  pub flags_keep :
      (k k' : K) (f fd flags : ℕ)
      → os.set_flags k f flags ≡ some k'
      → is_open k fd ≡ true
      → is_open k' fd ≡ true
  pub add_keeps :
      (k k' : K) (f fd : ℕ) (i : Interest)
      → os.epoll_add k f i ≡ some k'
      → is_open k fd ≡ true
      → is_open k' fd ≡ true
  pub del_keeps :
      (k k' : K) (f fd : ℕ)
      → os.epoll_del k f ≡ some k'
      → is_open k fd ≡ true
      → is_open k' fd ≡ true
  pub reuse_keeps : (k : K) (f fd : ℕ) → is_open k fd ≡ true → is_open (os.set_reuse k f) fd ≡ true
  pub close_others :
      (k : K) (f fd : ℕ) → f ≢ fd → is_open k fd ≡ true → is_open (os.close k f) fd ≡ true

-- `accept` does not return `fd` for the event, as it does not while `fd` is open.
abbrev pub NotAccepted : ℕ → Event → Type 0
NotAccepted fd e = (addr : ℕ) → e.accept ≢ accepted fd addr

module _ {K : Type 0} {os : Calls K} (o : Opens os) (fd : ℕ) where
  abbrev Open : Env K → Type 0
  Open s = o.is_open s.kernel fd ≡ true

  addfd-Open :
      (k : K) (f : ℕ) (oneshot : Bool)
      → o.is_open k fd ≡ true
      → o.is_open (addfd os k f oneshot).0 fd ≡ true
  unfolding addfd set_nonblocking
  addfd-Open k f oneshot q = elim (Option-cases (set_nonblocking os k f)) [
    | inl refused ↦ rw (addfd, refused) q
    | inr (k', set) ↦
        elim (Option-cases
          (os.epoll_add k' f (record { input = true; output = false; oneshot = oneshot }))) [
            | inl refused ↦ rw (addfd, set, refused) (o.flags_keep k k' f fd _ set q)
            | inr (k'', added) ↦
                rw (addfd, set, added)
                  (o.add_keeps k' k'' f fd _ added (o.flags_keep k k' f fd _ set q))
          ]
  ]

  init_conn-Open : (u f addr : ℕ) (s : Env K) → Open s → Open (init_conn os u f addr s).0
  unfolding init_conn
  init_conn-Open u f addr s q =
      let kept = addfd-Open (os.set_reuse s.kernel f) f true (o.reuse_keeps s.kernel f fd q) in
      elim (Bool-cases (addfd os (os.set_reuse s.kernel f) f true).1) [
        | inl added ↦ rw (init_conn, added) kept
        | inr refused ↦ rw (init_conn, refused) kept
      ]

  close_conn-Open : (u : ℕ) (s : Env K) → Open s → Open (close_conn os u s).0
  unfolding close_conn removefd
  close_conn-Open u s q = elim (Option-cases (s.users u).sockfd) [
    | inl shut ↦ rw (close_conn, shut) q
    | inr (f, open_fd) ↦ elim (Option-cases (os.epoll_del s.kernel f)) [
      | inl refused ↦ rw (close_conn, open_fd, removefd, refused) q
      | inr (k, gone) ↦
          rw (close_conn, open_fd, removefd, gone) (o.del_keeps s.kernel k f fd gone q)
    ]
  ]

  -- Open in the state that is left, where one is.
  abbrev OpenIn : Option (Env K) → Type 0
  OpenIn none = Unit {0}
  OpenIn (some s) = Open s

  close_until-Open : (fuel u : ℕ) (s : Env K) → Open s → OpenIn (close_until os fuel u s)
  unfolding close_until
  close_until-Open zero u s q = tt
  close_until-Open (suc fuel) u s q = elim (Bool-cases (close_conn os u s).1) [
    | inl closed ↦ rw (close_until, closed) (close_conn-Open u s q)
    | inr refused ↦
        rw (close_until, refused)
          (close_until-Open fuel u (close_conn os u s).0 (close_conn-Open u s q))
  ]

  append_task-Open : (u : ℕ) (s : Env K) → Open s → Open (append_task os u s)
  unfolding append_task
  append_task-Open u s q = elim (Bool-cases (ltb default_requests (length s.tasks))) [
    | inl full ↦ rw (append_task, full) q
    | inr room ↦ rw (append_task, room) q
  ]

  on_accept-Open :
      (a : Accept) (s : Env K)
      → ((addr : ℕ) → a ≢ accepted fd addr)
      → Open s
      → Ends Open (on_accept os a s)
  unfolding on_accept
  on_accept-Open accept_failed s other q = ends q
  on_accept-Open (accepted f addr) s other q =
      Ends-if (exceeds s.user_count max_fd) _ _
        (ends (o.close_others s.kernel f fd (λ e. other addr (ap (λ g. accepted g addr) e)) q))
        (Ends-if (ltb f max_fd) _ _ (ends (init_conn-Open f f addr s q)) breaks)

  on_event-Open :
      (listenfd fuel : ℕ) (e : Event) (s : Env K)
      → NotAccepted fd e
      → Open s
      → Ends OpenIn (on_event os listenfd fuel e s)
  unfolding on_event on_input on_output read write
  on_event-Open listenfd fuel e s other q =
      Ends-if (e.fd == listenfd) _ _
        (Ends-bind _ _ (on_accept-Open e.accept s other q) λ s' q'. ends q')
        (Ends-if e.hangup _ _ (ends (close_until-Open fuel e.fd s q)) (
          Ends-if e.input _ _ (ends (append_task-Open e.fd s q))
            (Ends-if e.output _ _ (ends q) (ends q))))

  OpenIn-next :
      (r : Outcome (Option (Env K))) (k : Env K → Outcome (Option (Env K)))
      → Ends OpenIn r
      → ((s : Env K) → Open s → Ends OpenIn (k s))
      → Ends OpenIn (r >>= λ x. elim x [ none ↦ done none | some s ↦ k s ])
  OpenIn-next (done none) k (ends q) next = ends tt
  OpenIn-next (done (some s)) k (ends q) next = next s q
  OpenIn-next undefined k breaks next = breaks
  OpenIn-next terminated k throws next = throws

  on_events-Open :
      (listenfd fuel : ℕ) (es : List Event) (s : Env K)
      → All (NotAccepted fd) es
      → Open s
      → Ends OpenIn (on_events os listenfd fuel es s)
  unfolding on_events
  on_events-Open listenfd fuel [] s others q = ends q
  on_events-Open listenfd fuel (e ∷ es) s others q =
      OpenIn-next _ _ (on_event-Open listenfd fuel e s others.0 q)
        λ s' q'. on_events-Open listenfd fuel es s' others.1 q'

-- `accept` does not return `fd` in any event of a batch.
abbrev pub NeverAccepted : ℕ → Option (List Event) → Type 0
NeverAccepted fd none = Unit {0}
NeverAccepted fd (some es) = All (NotAccepted fd) es

module _ {K : Type 0} {os : Calls K} (o : Opens os) (fd : ℕ) where
  serve-Open :
      (listenfd fuel : ℕ) (batches : List (Option (List Event))) (s : Env K)
      → All (NeverAccepted fd) batches
      → o.is_open s.kernel fd ≡ true
      → Ends (OpenIn o fd) (serve os listenfd fuel batches s)
  unfolding serve
  serve-Open listenfd fuel [] s others q = ends q
  serve-Open listenfd fuel (none ∷ batches) s others q = ends q
  serve-Open listenfd fuel (some es ∷ batches) s others q =
      OpenIn-next o fd _ _ (on_events-Open o fd listenfd fuel es s others.0 q)
        λ s' q'. serve-Open listenfd fuel batches s' others.1 q'

  -- The server never closes the descriptor of a client: one that is open stays open over any
  -- sequence of events, hang-ups among them, in which `accept` does not return it anew.
  pub serve-leaks :
      (listenfd fuel : ℕ) (batches : List (Option (List Event))) (s s' : Env K)
      → All (NeverAccepted fd) batches
      → o.is_open s.kernel fd ≡ true
      → serve os listenfd fuel batches s ≡ done (some s')
      → o.is_open s'.kernel fd ≡ true
  serve-leaks listenfd fuel batches s s' others q e =
      of_Ends (some s') (subst (Ends (OpenIn o fd)) e (serve-Open listenfd fuel batches s others q))
