-- ===== src/Server/Timed/Working.antt =====
-- A worker's `Process` of webserver/src/http_conn.cpp keeps every open connection's timer.
use my_tcp_cs.Base.{
  ℕ, suc, ◌≡◌, ◌⊎◌, refl, sym, subst, inl, inr, Bool, true, false, Option, some, ◌∷◌, ◌++◌, done,
  if◌then◌else◌, Option-cases,
}
use my_tcp_cs.Timer.Chain.{IsList}
use my_tcp_cs.Timer.Memory.{State, Cmd, ok, pure, ◌>>=◌, ◌>>◌, get_env, put_env}
use my_tcp_cs.Timer.Steps
use my_tcp_cs.Timer.Steps.{Returns, returns}
use my_tcp_cs.Http.Types.{HttpConn, HttpCode, no_request}
use my_tcp_cs.Http.Respond.{Files, process_request, process_write}
use my_tcp_cs.Server.{
  Interest, Kernel, Env, put_user, lift, removefd, modfd, close_conn, close_repeatedly,
}
use my_tcp_cs.Server.Closing.{close_conn-Closed, close_repeatedly-closed}
use my_tcp_cs.Server.Timed.{Timed, Timed-env, Closed-Timed, live_entry}
use my_tcp_cs.Server.Timed.Entries.{In-split}

-- The kernel grants every change of a registration.
abbrev pub Grants : {K : Type 0} → Kernel K → ℕ → Type 0
Grants {K} os fd = (k : K) (i : Interest) → (k' : K) × (os.epoll_mod k fd i ≡ some k')

-- What a worker relies on when it takes up the connection `u`: it is open, its routines return,
-- and the kernel grants its registration.
pub record Works {K : Type 0} (os : Kernel K) (fs : Files) (stray_code : HttpCode) (stray : Bool)
    (fuel : ℕ) (s : State (Env K)) (u : ℕ) : Type 0 where
  pub fd : ℕ
  pub is_open : (s.env.users u).sockfd ≡ some fd
  pub parsed : HttpConn
  pub code : HttpCode
  pub parses : process_request fs stray_code fuel (s.env.users u) ≡ done (some (parsed, code))
  pub answer : HttpConn
  pub built : Bool
  pub builds : process_write stray parsed code ≡ done (answer, built)
  pub grants : Grants os fd

module _ {K : Type 0} (os : Kernel K) where
  -- The loop with `CloseConn` ends with the connection closed, or has done nothing.
  pub close_repeatedly-Timed :
      (now i : ℕ) (s : State (Env K)) (u fd : ℕ)
      → (s.env.users u).sockfd ≡ some fd
      → Timed now s
      → Returns
          (λ b s'. Timed now s' × ((b ≡ true) ⊎ ((b ≡ false) × (s' ≡ s))))
          (close_repeatedly os (suc i) u s)
  unfolding close_repeatedly
  close_repeatedly-Timed now i s u fd open_fd t =
      elim (Option-cases (os.epoll_del s.env.kernel fd)) [
        | inl refused ↦
            let stays : close_conn os u s ≡ ok false s =
              unfold close_conn removefd in rw (close_conn, open_fd, removefd, refused) refl in
            rw (close_repeatedly, stays) (returns (t, inr (refl, refl)))
        | inr (k, gone) ↦
            let (e, i₁, at, of) = t.timers u fd open_fd in
            let (xs, ys, split) = In-split e t.entries i₁ in
            let l : IsList s (xs ++ e ∷ ys) = subst (IsList s) split t.list in
            Steps.bind
              (close_conn-Closed os s u fd k e xs ys open_fd gone (sym at) (live_entry s xs e ys l)
                l)
              λ b s' p.
                rw (p.0, close_repeatedly-closed os i s' u p.1.shut)
                  (returns (Closed-Timed os now s s' u fd k e xs ys t split of p.1, inl refl))
      ]

  pub modfd-Timed :
      (now fd : ℕ) (s : State (Env K)) (sockfd : Option ℕ) (output : Bool)
      → sockfd ≡ some fd
      → Grants os fd
      → Timed now s
      → Returns (λ _ s'. Timed now s') (modfd os sockfd output s)
  unfolding modfd
  modfd-Timed now fd s sockfd output open_fd grants t =
      rw (modfd, open_fd, (grants _ _).1) (returns (Timed-env now s _ (λ u. (refl, refl)) t))

  -- What `Process` does once the request is parsed.
  abbrev answering :
      (env : Env K) (stray : Bool) (u : ℕ) (c : HttpConn) → HttpCode → Cmd (Env K) (Unit {0})
  answering env stray u c code = elim code [
    | no_request ↦ modfd os c.sockfd false
    | other ↦ (do
      (c', built) ← lift (process_write stray c other)
      put_env (record env { users = put_user env.users u c' })
      if built then modfd os c'.sockfd true else (do
        closed ← close_repeatedly os 5 u
        env' ← get_env
        if closed then pure tt else modfd os (env'.users u).sockfd true))
  ]
