-- ===== src/Tests/Startup.antt =====
-- The theorem on the set-up of `main` at a small host.
use mathlib.Core.Option.{some-injective, none-ne-some}
use my_tcp_cs.Base.{
  ℕ, ◌≡◌, refl, sym, ap, ◌∙◌, true, false, Option, none, some, List, [], ◌∷◌, ◌==◌, codes,
  replicate, inl, inr, Bool-cases, arith,
}
use my_tcp_cs.Base.Int.{pos}
use my_tcp_cs.Locker.{succeeded, Pthreads}
use my_tcp_cs.ThreadPool.Startup.{new_pool}
use my_tcp_cs.Server.{Kernel, Interest, set_nonblocking, put_user}
use my_tcp_cs.Server.Startup.{after, Host, Listening, start_main}
use my_tcp_cs.Server.Startup.Watching.{Watches, for_clients, start_main-Watched}

-- What epoll watches each descriptor for. A second registration is refused.
abbrev Table : Type 0
Table = ℕ → Option Interest

register : Table → (fd : ℕ) → (before : Option Interest) → Interest → Option Table
register w fd none i = some (put_user w fd (some i))
register w fd (some before) i = none

register-sets :
    (w w' : Table) (fd : ℕ) (before : Option Interest) (i : Interest)
    → register w fd before i ≡ some w'
    → w' fd ≡ some i
unfolding register put_user
register-sets w w' fd none i e = ap (λ t. t fd) (sym (some-injective _ _ e)) ∙ ground arith
register-sets w w' fd (some before) i e = cc

register-keeps :
    (w w' : Table) (fd f : ℕ) (before : Option Interest) (i j : Interest)
    → w fd ≡ before
    → register w fd before i ≡ some w'
    → w f ≡ some j
    → w' f ≡ some j
unfolding register put_user
register-keeps w w' fd f none i j free e q = elim (Bool-cases (f == fd)) [
  | inl same ↦ absurd (none-ne-some j (sym free ∙ ap w (ground (arith, same)) ∙ q))
  | inr other ↦ ap (λ t. t f) (sym (some-injective _ _ e)) ∙ rw (put_user, other) q
]
register-keeps w w' fd f (some before) i j free e q = cc

abbrev tabled : Kernel Table
tabled = record {
  get_flags = λ w fd. 2;
  set_flags = λ w fd flags. some w;
  epoll_add = λ w fd i. register w fd (w fd) i;
  epoll_mod = λ w fd i. some w;
  epoll_del = λ w fd. some w;
  set_reuse = λ w fd. w;
  close = λ w fd. w;
}

abbrev willing : Pthreads Table
willing = record {
  mutex_init = λ w mutex. (w, 0);
  mutex_destroy = λ w mutex. w;
  mutex_lock = λ w mutex. (w, 0);
  mutex_unlock = λ w mutex. (w, 0);
  cond_init = λ w cond. (w, 0);
  cond_destroy = λ w cond. w;
  cond_wait = λ cond mutex w. (w, 0);
  cond_timedwait = λ cond mutex time w. (w, 0);
  cond_signal = λ w cond. (w, 0);
  cond_broadcast = λ w cond. (w, 0);
  sem_init = λ w sem value. (w, succeeded);
  sem_destroy = λ w sem. w;
  sem_wait = λ sem w. (w, succeeded);
  sem_post = λ w sem. (w, succeeded);
}

-- The listening socket is 3, epoll 4, the pipe 5 and 6.
abbrev small_host : Host Table
small_host = record {
  kernel = tabled;
  pthreads = willing;
  threads = record { create = λ w. (w, some 1); detach = λ w thread. (w, 0) };
  atoi = λ text. pos 8080;
  sigaction = λ w sig handler restart. w;
  socket = λ w. (w, some 3);
  bind = λ w fd port. (w, true);
  listen = λ w fd backlog. (w, true);
  epoll_create = λ w. (w, some 4);
  socketpair = λ w. (w, some (5, 6));
  alarm = λ w seconds. w;
  send = λ w fd bytes. w;
}

small_host-Watches : Watches small_host
small_host-Watches = record {
  watched = λ w fd. w fd;
  add_sets = λ w w' fd i e. register-sets w w' fd (w fd) i e;
  add_keeps = λ w w' fd f i j e q. register-keeps w w' fd f (w fd) i j refl e q;
  nonblocking_keeps = λ w w' fd flags f j e q. ap (λ t. t f) (sym (some-injective _ _ e)) ∙ q;
  pair_keeps = λ w f j q. q;
  sigaction_keeps = λ w sig a b f j q. q;
  alarm_keeps = λ w seconds f j q. q;
}

-- "webserver 8080"
abbrev command : List (List ℕ)
command = codes "webserver" ∷ codes "8080" ∷ []

abbrev watching : Table
watching = put_user (put_user (λ fd. none) 3 (some for_clients)) 5 (some for_clients)

abbrev listening : Listening
listening = record {
  listenfd = 3;
  epollfd = some 4;
  pipe_out = 5;
  pipe_in = 6;
  pool = record {
    thread_number = pos 8;
    max_requests = pos 10000;
    threads = some (replicate 8 1);
    stop = false;
  };
}

start_main-Watched_example : watching 3 ≡ some for_clients
unfolding after new_pool set_nonblocking register put_user small_host-Watches
start_main-Watched_example =
    start_main-Watched small_host-Watches 1 2 command (λ fd. none) watching listening
      (unfold start_main in refl)
