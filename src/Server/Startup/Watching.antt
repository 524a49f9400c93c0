-- ===== src/Server/Startup/Watching.antt =====
-- What `main` of webserver/src/main.cpp has set up when its loop begins.
use my_tcp_cs.Base.{ℕ, ◌≡◌, subst, inl, inr, Bool, true, false, Option, some, List, Option-cases}
use my_tcp_cs.Timer.{timeslot}
use my_tcp_cs.Server.{Interest, set_nonblocking, addfd}
use my_tcp_cs.Server.Loop.{sigalrm, sigterm}
use my_tcp_cs.Server.Startup.{
  Handler, handled, Host, Result, goes_on, exits, aborts, Setup, after, Listening, add_sig,
  required_true, make_pair, free_pipe, make_pipe, arm_signals, start_main,
}

-- What the manual says of epoll: a registration that is granted stands, and the other calls leave
-- it.
pub record Watches {W : Type 0} (h : Host W) : Type 0 where
  pub watched : W → ℕ → Option Interest
  pub add_sets :
      (w w' : W) (fd : ℕ) (i : Interest)
      → h.kernel.epoll_add w fd i ≡ some w'
      → watched w' fd ≡ some i
  pub add_keeps :
      (w w' : W) (fd f : ℕ) (i j : Interest)
      → h.kernel.epoll_add w fd i ≡ some w'
      → watched w f ≡ some j
      → watched w' f ≡ some j
  pub nonblocking_keeps :
      (w w' : W) (fd flags f : ℕ) (j : Interest)
      → h.kernel.set_flags w fd flags ≡ some w'
      → watched w f ≡ some j
      → watched w' f ≡ some j
  pub pair_keeps :
      (w : W) (f : ℕ) (j : Interest) → watched w f ≡ some j → watched (h.socketpair w).0 f ≡ some j
  pub sigaction_keeps :
      (w : W) (sig : ℕ) (a : Handler) (b : Bool) (f : ℕ) (j : Interest)
      → watched w f ≡ some j
      → watched (h.sigaction w sig a b) f ≡ some j
  pub alarm_keeps :
      (w : W) (seconds f : ℕ) (j : Interest)
      → watched w f ≡ some j
      → watched (h.alarm w seconds) f ≡ some j

-- Where the set-up goes on, `P` holds of the state and the value.
data Leaves {W A : Type 0} (P : W → A → Type 0) : W × Result A → Type 0 where
  leaves : {w : W} {a : A} → P w a → Leaves P (w, goes_on a)
  quits : {w : W} {status : _} → Leaves P (w, exits status)
  fails : {w : W} → Leaves P (w, aborts)

module _ {W A B : Type 0} where
  Leaves-after :
      {P : W → A → Type 0} {Q : W → B → Type 0} {r : W × Result A} (k : A → Setup W B)
      → Leaves P r
      → ((w : W) (a : A) → P w a → Leaves Q (k a w))
      → Leaves Q (after r k)
  unfolding after
  Leaves-after k (leaves p) next = next _ _ p
  Leaves-after k quits next = quits
  Leaves-after k fails next = fails

  after-any :
      {Q : W → B → Type 0} (r : W × Result A) (k : A → Setup W B)
      → ((w : W) (a : A) → Leaves Q (k a w))
      → Leaves Q (after r k)
  unfolding after
  after-any (w, goes_on a) k next = next w a
  after-any (w, exits status) k next = quits
  after-any (w, aborts) k next = fails

of_Leaves : {W A : Type 0} {P : W → A → Type 0} (w : W) (a : A) → Leaves P (w, goes_on a) → P w a
of_Leaves w a (leaves p) = p

-- Input, at every edge and not once only.
abbrev pub for_clients : Interest
for_clients = record { input = true; output = false; oneshot = false }

module _ {W : Type 0} {h : Host W} (v : Watches h) (f : ℕ) where
  -- The descriptor `f` is watched for input.
  abbrev Watched : W → Type 0
  Watched w = v.watched w f ≡ some for_clients

  addfd-keeps : (w : W) (fd : ℕ) → Watched w → Watched (addfd h.kernel w fd false).0
  unfolding addfd set_nonblocking
  addfd-keeps w fd q = elim (Option-cases (set_nonblocking h.kernel w fd)) [
    | inl refused ↦ rw (addfd, refused) q
    | inr (w', set) ↦ elim (Option-cases (h.kernel.epoll_add w' fd for_clients)) [
      | inl refused ↦ rw (addfd, set, refused) (v.nonblocking_keeps w w' fd _ f _ set q)
      | inr (w'', added) ↦
          rw (addfd, set, added)
            (v.add_keeps w' w'' fd f _ _ added (v.nonblocking_keeps w w' fd _ f _ set q))
    ]
  ]

  make_pair-Watched : (w : W) → Watched w → Leaves (λ w' p. Watched w') (make_pair h w)
  unfolding make_pair
  make_pair-Watched w q = elim (Option-cases (h.socketpair w).1) [
    | inl refused ↦ rw (make_pair, refused) fails
    | inr (p, made) ↦ rw (make_pair, made) (leaves (v.pair_keeps w f for_clients q))
  ]

  free_pipe-Watched :
      (pipe_in : ℕ) (w : W) → Watched w → Leaves (λ w' u. Watched w') (free_pipe h pipe_in w)
  unfolding free_pipe set_nonblocking
  free_pipe-Watched pipe_in w q = elim (Option-cases (set_nonblocking h.kernel w pipe_in)) [
    | inl refused ↦ rw (free_pipe, refused) quits
    | inr (w', set) ↦
        rw (free_pipe, set) (leaves (v.nonblocking_keeps w w' pipe_in _ f for_clients set q))
  ]

  make_pipe-Watched : (w : W) → Watched w → Leaves (λ w' p. Watched w') (make_pipe h w)
  unfolding make_pipe
  make_pipe-Watched w q = Leaves-after {P = λ w' p. Watched w'} _ (make_pair-Watched w q) λ w₁ p q₁.
      Leaves-after {P = λ w' p. Watched w'} _ (free_pipe-Watched p.1 w₁ q₁)
        λ w₂ u q₂. leaves (addfd-keeps w₂ p.0 q₂)

  arm_signals-Watched : (w : W) → Watched w → Leaves (λ w' u. Watched w') (arm_signals h w)
  unfolding arm_signals add_sig after
  arm_signals-Watched w q = leaves (
      v.alarm_keeps _ timeslot f for_clients (
        v.sigaction_keeps _ sigterm handled true f for_clients
          (v.sigaction_keeps w sigalrm handled true f for_clients q)))

module _ {W : Type 0} {h : Host W} (v : Watches h) where
  -- `Addfd` that is granted has the descriptor watched.
  watch-Watched :
      (w : W) (fd : ℕ)
      → Leaves (λ w' u. Watched v fd w') (required_true h (addfd h.kernel w fd false))
  unfolding addfd required_true
  watch-Watched w fd = elim (Option-cases (set_nonblocking h.kernel w fd)) [
    | inl refused ↦ rw (addfd, refused) quits
    | inr (w', set) ↦ elim (Option-cases (h.kernel.epoll_add w' fd for_clients)) [
      | inl refused ↦ rw (addfd, set, refused) quits
      | inr (w'', added) ↦ rw (addfd, set, added) (leaves (v.add_sets w' w'' fd for_clients added))
    ]
  ]

  start_main-Leaves :
      (mutex sem : ℕ) (argv : List (List ℕ)) (w : W)
      → Leaves (λ w' l. Watched v l.listenfd w') (start_main h mutex sem argv w)
  unfolding start_main
  start_main-Leaves mutex sem argv w = after-any _ _ λ w₁ port. after-any _ _ λ w₂ u₂.
      after-any _ _ λ w₃ pool. after-any _ _ λ w₄ listenfd. after-any _ _ λ w₅ epollfd.
        Leaves-after _ (watch-Watched w₅ listenfd) λ w₆ u₆ q₆.
          Leaves-after _ (make_pipe-Watched v listenfd w₆ q₆)
            λ w₇ p q₇. Leaves-after _ (arm_signals-Watched v listenfd w₇ q₇) λ w₈ u₈ q₈. leaves q₈

  -- When the set-up of `main` comes to the loop, on a kernel that keeps its registrations as the
  -- manual says, epoll watches the listening socket for clients, at every arrival and not once
  -- only.
  pub start_main-Watched :
      (mutex sem : ℕ) (argv : List (List ℕ)) (w w' : W) (l : Listening)
      → start_main h mutex sem argv w ≡ (w', goes_on l)
      → v.watched w' l.listenfd ≡ some for_clients
  start_main-Watched mutex sem argv w w' l e =
      of_Leaves w' l
        (subst (Leaves (λ w' l. Watched v l.listenfd w')) e (start_main-Leaves mutex sem argv w))
