-- ===== src/Server/Turns/Closing.antt =====
-- Whose turn a connection is after `CloseConn` of webserver/src/http_conn.cpp.
use my_tcp_cs.Base.{
  ℕ, suc, ◌≡◌, ◌⊎◌, refl, sym, ◌∙◌, ap, subst, inl, inr, Bool, true, false, none, some,
  Option-cases, Bool-cases, ◌==◌, ==-refl, ==-ne, arith, if◌then◌else◌,
}
use mathlib.Core.Option.{none-ne-some}
use my_tcp_cs.Base.Int.{pred_ℤ}
use my_tcp_cs.Timer.Memory.{State, pure, ◌>>=◌, ◌>>◌, get_env, put_env}
use my_tcp_cs.Timer.{del_timer}
use my_tcp_cs.Timer.Keeps.{Keeps-del_timer}
use my_tcp_cs.Http.Types.{HttpConn}
use my_tcp_cs.Server.{Kernel, Env, put_user, removefd, close_conn, close_repeatedly}
use my_tcp_cs.Server.Closing.{
  put_user_self, put_user-ne, close_conn-closed, close_repeatedly-closed,
}
use my_tcp_cs.Server.Turns.{Oneshot, Fixed, Turns}
use my_tcp_cs.Server.Turns.Moves.{Turns-same, Turns-one}
use my_tcp_cs.Server.Turns.Commands.{Resting}
use my_tcp_cs.Server.Turns.Yields.{
  Yields, yields, Yields-bind, Yields-if, Yields-of_Within, Yields-mono,
}

-- A connection that is put back with its descriptor.
pub put_same :
    {K : Type 0} (env : Env K) (u : ℕ) (c : HttpConn)
    → c.sockfd ≡ (env.users u).sockfd
    → (v : ℕ) → (put_user env.users u c v).sockfd ≡ (env.users v).sockfd
put_same env u c same v = elim (Bool-cases (v == u)) [
  | inl here ↦
      let is_u : v ≡ u = ground (arith, here) in
      ap (λ w. (put_user env.users u c w).sockfd) is_u
      ∙ ap (λ d. d.sockfd) (put_user_self env.users u c)
      ∙ same
      ∙ ap (λ w. (env.users w).sockfd) (sym is_u)
  | inr other ↦ ap (λ d. d.sockfd) (put_user-ne env.users u v c (ground (arith, other)))
]

module _ {K : Type 0} (os : Kernel K) (one : Oneshot os) (f : Fixed) (Lost : ℕ → Type 0)
    (held : ℕ → ℕ) (u : ℕ) where
  -- What `CloseConn` leaves: the connection is closed, or nothing has changed.
  abbrev pub Closes : (s : State (Env K)) → Bool → State (Env K) → Type 0
  Closes s b s' =
      ((b ≡ true) × Turns os one f Lost held s'.env × ((s'.env.users u).sockfd ≡ none))
      ⊎ ((b ≡ false) × (s' ≡ s))

  -- The connection's descriptor is taken out of epoll and closed.
  abbrev without : (env : Env K) → (k : K) (fd : ℕ) → Env K
  without env k fd = record env {
    kernel = os.close k fd;
    users = put_user env.users u (record (env.users u) { sockfd = none });
    user_count = pred_ℤ env.user_count;
  }

  without-Turns :
      (env : Env K) (k : K)
      → os.epoll_del env.kernel u ≡ some k
      → Resting os one f Lost held env u
      → Turns os one f Lost held (without env k u)
  without-Turns env k gone r =
      let c : HttpConn = record (env.users u) { sockfd = none } in
      let shut : (put_user env.users u c u).sockfd ≡ none =
        ap (λ d. d.sockfd) (put_user_self env.users u c) in
      Turns-one os one {held = held} {held' = held} {env = env} {env' = without env k u} u r.here
        (λ v ne. (
          ap (λ d. d.sockfd) (put_user-ne env.users u v c ne),
          rw (one.closed k u v, one.removed env.kernel k u v gone, ==-ne v u ne) (omega arith),
        ))
        (λ fd e. absurd (none-ne-some fd (sym shut ∙ e)))
        (λ _. rw (one.closed k u u, ==-refl u, shut) (omega (arith, r.idle))) r.turned

  -- The rest of `CloseConn`, on the connection's timer.
  untimed-Turns :
      (timer : ℕ) (s : State (Env K)) (c : HttpConn)
      → c.sockfd ≡ none
      → (s.env.users u).sockfd ≡ none
      → Turns os one f Lost held s.env
      → Yields
          (λ b s'. (b ≡ true) × Turns os one f Lost held s'.env × ((s'.env.users u).sockfd ≡ none))
          ((if timer == 0 then pure true else (do
            del_timer timer
            env' ← get_env
            put_env (record env' { users = put_user env'.users u (record c { timer = 0 }) })
            pure true))
            s)
  untimed-Turns timer s c none_c shut t =
      Yields-if (timer == 0) _ _ s (λ no_timer. yields (refl, t, shut))
        λ has_timer.
          Yields-bind _ (Yields-of_Within (Keeps-del_timer (λ env. env ≡ s.env) timer s refl))
            λ _ s₁ same. yields (
              refl,
              Turns-same os one {held = held} {held' = held} {env = s₁.env}
                  {env' = record s₁.env {
                    users = put_user s₁.env.users u (record c { timer = 0 });
                  }}
                  (λ v. (
                    put_same s₁.env u (record c { timer = 0 })
                        (none_c ∙ sym (ap (λ env. (env.users u).sockfd) same ∙ shut)) v,
                    omega arith,
                  ))
                  (subst (Turns os one f Lost held) (sym same) t),
              ap (λ d. d.sockfd) (put_user_self s₁.env.users u (record c { timer = 0 })) ∙ none_c,
            )

  pub close_conn-Turns :
      (s : State (Env K))
      → Resting os one f Lost held s.env u
      → Yields (Closes s) (close_conn os u s)
  unfolding close_conn removefd
  close_conn-Turns s r = elim (Option-cases (s.env.users u).sockfd) [
    | inl shut ↦ rw (close_conn-closed os s u shut) (yields (inl (refl, r.turned, shut)))
    | inr (fd, open_fd) ↦
        let open_u : (s.env.users u).sockfd ≡ some u =
          open_fd ∙ ap some (r.turned.own u fd open_fd) in
        elim (Option-cases (os.epoll_del s.env.kernel u)) [
          | inl refused ↦ rw (close_conn, open_u, removefd, refused) (yields (inr (refl, refl)))
          | inr (k, gone) ↦
              rw (close_conn, open_u, removefd, gone)
                (Yields-mono
                  (untimed-Turns (s.env.users u).timer (record s { env = without s.env k u })
                    (record (s.env.users u) { sockfd = none }) refl
                    (ap (λ d. d.sockfd) (put_user_self s.env.users u _))
                    (without-Turns s.env k gone r))
                  λ b s' p. inl p)
        ]
  ]

  pub close_repeatedly-Turns :
      (i : ℕ) (s : State (Env K))
      → Resting os one f Lost held s.env u
      → Yields (Closes s) (close_repeatedly os (suc i) u s)
  unfolding close_repeatedly
  close_repeatedly-Turns i s r = Yields-bind _ (close_conn-Turns s r) λ b s' p. elim p [
    | inl (closed, t, shut) ↦
        rw (closed, close_repeatedly-closed os i s' u shut) (yields (inl (refl, t, shut)))
    | inr (stays, same) ↦ rw stays (yields (inr (refl, same)))
  ]
