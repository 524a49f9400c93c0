-- ===== src/Server/Turns/Reuse.antt =====
-- `CloseConn` of webserver/src/http_conn.cpp in two halves, and a client that the event loop of
-- webserver/src/main.cpp accepts between them.
use my_tcp_cs.Base.{
  ℕ, ◌+◌, ◌*◌, ◌≡◌, refl, inl, inr, Bool, true, false, Option, none, some, Option-cases, ◌==◌,
  if◌then◌else◌,
}
use my_tcp_cs.Base.Int.{pred_ℤ}
use my_tcp_cs.Timer.{timeslot, del_timer}
use my_tcp_cs.Timer.Memory.{State, Cmd, pure, ◌>>=◌, ◌>>◌, get_env, put_env}
use my_tcp_cs.Timer.Queue.{Entry}
use my_tcp_cs.Timer.Steps
use my_tcp_cs.Server.{Kernel, Env, put_user, removefd, close_conn}
use my_tcp_cs.Server.Loop.{Event, accepted, on_accept}
use my_tcp_cs.Server.Turns.{Oneshot}

module _ {K : Type 0} (os : Kernel K) where
  -- `CloseConn()` up to `close`. None, if it goes on from there, or else its result.
  unfoldable pub let_go : (u : ℕ) → Cmd (Env K) (Option Bool)
  unfolding removefd
  let_go u = do
    env ← get_env
    elim (env.users u).sockfd [
      | none ↦ pure (some true)
      | some fd ↦ elim (removefd os env.kernel fd) [
        | none ↦ pure (some false)
        | some k ↦ (do put_env (record env { kernel = os.close k fd }); pure none)
      ]
    ]

  -- `CloseConn()` behind `close`.
  unfoldable pub forget : (u : ℕ) → Cmd (Env K) Bool
  forget u = do
    env ← get_env
    let c' = record (env.users u) { sockfd = none }
    put_env (record env { users = put_user env.users u c'; user_count = pred_ℤ env.user_count })
    if c'.timer == 0 then pure true else (do
      del_timer c'.timer
      env' ← get_env
      put_env (record env' { users = put_user env'.users u (record c' { timer = 0 }) })
      pure true)

  -- Without a step of another thread between them, the two halves are `CloseConn`.
  close_conn-halves :
      (u : ℕ) (s : State (Env K))
      → close_conn os u s ≡ (let_go u >>= λ r. elim r [ none ↦ forget u | some b ↦ pure b ]) s
  unfolding close_conn let_go forget
  close_conn-halves u s = elim (Option-cases (s.env.users u).sockfd) [
    | inl shut ↦ rw shut refl
    | inr (fd, is_open) ↦ elim (Option-cases (os.epoll_del s.env.kernel fd)) [
      | inl refused ↦ rw (is_open, refused) refl
      | inr (k, gone) ↦ rw (is_open, gone) refl
    ]
  ]

  -- A worker closes `users[u]`, and between the halves the event loop accepts a client that gets
  -- the descriptor `u` from the kernel.
  unfoldable pub raced : (fuel u addr : ℕ) → Event → Cmd (Env K) Bool
  unfolding let_go forget
  raced fuel u addr e = do let_go u; on_accept os fuel e (accepted u addr); forget u

module _ {K : Type 0} (os : Kernel K) (one : Oneshot os) where
  -- The timer of the client that the event brings.
  abbrev entry_for : Event → (fd : ℕ) → Entry
  entry_for e fd = record {
    addr = e.fresh;
    cb_func = 1;
    expire = e.now + 3 * timeslot;
    user_data = fd;
  }
