-- ===== src/Server/Timed.antt =====
-- The open connections of webserver/src/http_conn.cpp and their timers in the list that `main` of
-- webserver/src/main.cpp keeps.
pub mod Entries
pub mod Sockets
pub mod Parsing
pub mod Responding
pub mod Events
pub mod Postponing
pub mod Handlers
pub mod Keeping
pub mod Working
use my_tcp_cs.Base.{
  ℕ, ◌+◌, ◌*◌, ◌≤◌, ◌≡◌, ◌≢◌, refl, sym, ◌∙◌, ap, subst, inl, inr, Bool, true, false, Option, none,
  some, List, [], ◌∷◌, ◌++◌, All, Option-cases, Bool-cases, ◌==◌, ==-ne, ==-refl, arith,
}
use mathlib.Core.Option.{none-ne-some, some-ne-none}
use my_tcp_cs.Timer.{timeslot}
use my_tcp_cs.Timer.Memory.{State, null, Run, ok}
use my_tcp_cs.Timer.Queue.{Entry, IsSorted}
use my_tcp_cs.Timer.Chain.{IsList, Chain-append}
use my_tcp_cs.Timer.Steps
use my_tcp_cs.Timer.Steps.{Returns, returns}
use my_tcp_cs.Timer.Postpone.{All-without, IsSorted-without}
use my_tcp_cs.Http.Types.{HttpConn}
use my_tcp_cs.Server.{Kernel, Env, put_user, removefd, close_conn}
use my_tcp_cs.Server.Closing.{Closed, close_conn-Closed, close_conn-closed}
use my_tcp_cs.Server.Timed.Entries.{In, first_one, later, In-split, In-without}

-- The latest expiry time that is set at `now`.
abbrev pub deadline : ℕ → ℕ
deadline now = now + 3 * timeslot

-- The connection `u` has a timer among `es` that names it.
abbrev pub HasTimer : (es : List Entry) → (users : ℕ → HttpConn) → ℕ → Type 0
HasTimer es users u = (f : Entry) × In f es × (f.addr ≡ (users u).timer) × (f.user_data ≡ u)

module _ {K : Type 0} where
  -- At the time `now`: the list of timers is in order, none is set later than a timer can be, and
  -- every open connection has its timer there.
  pub record Timed (now : ℕ) (s : State (Env K)) : Type 0 where
    pub entries : List Entry
    pub list : IsList s entries
    pub sorted : IsSorted entries
    pub recent : All (λ f. f.expire ≤ deadline now) entries
    pub timers : (u fd : ℕ) → (s.env.users u).sockfd ≡ some fd → HasTimer entries s.env.users u

  -- The users of `env'` are those of `env`, but for other fields than their descriptor and timer.
  abbrev pub SameUsers : (env env' : Env K) → Type 0
  SameUsers env env' =
      (u : ℕ)
      → ((env'.users u).sockfd ≡ (env.users u).sockfd)
        × ((env'.users u).timer ≡ (env.users u).timer)

  pub Timed-env_entries :
      (now : ℕ) (s : State (Env K)) (env' : Env K)
      → SameUsers s.env env'
      → (t : Timed now s) → (t' : Timed now (record s { env = env' })) × (t'.entries ≡ t.entries)
  Timed-env_entries now s env' same t = (
    record {
      entries = t.entries;
      list = record {
        chain = t.list.chain;
        head_first = t.list.head_first;
        tail_final = t.list.tail_final;
      };
      sorted = t.sorted;
      recent = t.recent;
      timers = λ u fd open_fd.
          let (f, i, at, of) = t.timers u fd (sym (same u).0 ∙ open_fd) in
          (f, i, at ∙ sym (same u).1, of);
    },
    refl,
  )

  pub Timed-env :
      (now : ℕ) (s : State (Env K)) (env' : Env K)
      → SameUsers s.env env'
      → Timed now s
      → Timed now (record s { env = env' })
  Timed-env now s env' same t = (Timed-env_entries now s env' same t).0

  pub live_entry :
      (s : State (Env K)) (xs : List Entry) (e : Entry) (ys : List Entry)
      → IsList s (xs ++ e ∷ ys)
      → e.addr ≢ null
  live_entry s xs e ys l = (Chain-append s.memory null null xs (e ∷ ys) l.chain).1.0

module _ {K : Type 0} (os : Kernel K) where
  pub Closed-Timed :
      (now : ℕ) (s s' : State (Env K)) (u fd : ℕ) (k : K) (e : Entry) (xs ys : List Entry)
      → (t : Timed now s) → t.entries ≡ xs ++ e ∷ ys
      → e.user_data ≡ u
      → Closed os s u fd k e (xs ++ ys) s'
      → Timed now s'
  Closed-Timed now s s' u fd k e xs ys t split of c = record {
    entries = xs ++ ys;
    list = c.list;
    sorted = IsSorted-without xs e ys (subst IsSorted split t.sorted);
    recent = All-without _ xs e ys (subst (All (λ f. f.expire ≤ deadline now)) split t.recent);
    timers = λ v g open_g. elim (Bool-cases (v == u)) [
      | inl same ↦ absurd (
          none-ne-some g
            (sym c.shut ∙ ap (λ w. (s'.env.users w).sockfd) (ground (arith, same)) ∙ open_g))
      | inr other ↦
          let same = c.others v (ground (arith, other)) in
          let (f, i, at, mine) = t.timers v g (sym (ap (λ x. x.sockfd) same) ∙ open_g) in
          elim (In-without xs e ys (subst (In f) split i)) [
            | inl is_e ↦ absurd (cc)
            | inr j ↦ (f, j, at ∙ sym (ap (λ x. x.timer) same), mine)
          ]
    ];
  }

  -- `CloseConn` returns, whatever connection it is for, and keeps every open connection's timer.
  pub close_conn-Timed :
      (now : ℕ) (s : State (Env K)) (u : ℕ)
      → Timed now s
      → Returns (λ b s'. Timed now s') (close_conn os u s)
  unfolding close_conn removefd
  close_conn-Timed now s u t = elim (Option-cases (s.env.users u).sockfd) [
    | inl shut ↦ rw (close_conn-closed os s u shut) (returns t)
    | inr (fd, open_fd) ↦ elim (Option-cases (os.epoll_del s.env.kernel fd)) [
      | inl refused ↦ rw (close_conn, open_fd, removefd, refused) (returns t)
      | inr (k, gone) ↦
          let (e, i, at, of) = t.timers u fd open_fd in
          let (xs, ys, split) = In-split e t.entries i in
          let l : IsList s (xs ++ e ∷ ys) = subst (IsList s) split t.list in
          Steps.mono
            (close_conn-Closed os s u fd k e xs ys open_fd gone (sym at) (live_entry s xs e ys l) l)
            λ b s' p. Closed-Timed now s s' u fd k e xs ys t split of p.1
    ]
  ]
