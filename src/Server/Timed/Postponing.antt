-- ===== src/Server/Timed/Postponing.antt =====
-- `Read`, `Write` and the postponing of a timer in the loop of webserver/src/main.cpp keep every
-- open connection's timer.
use my_tcp_cs.Base.{
  ℕ, ◌≤◌, ◌≡◌, refl, sym, ◌∙◌, ap, subst, inl, inr, some, List, ◌∷◌, ◌++◌, All, All-middle,
  Bool-cases, ltb, ◌==◌, arith, length, length-append,
}
use my_tcp_cs.Timer.{adjust_timer}
use my_tcp_cs.Timer.Memory.{State, ◌>>◌, set_expire}
use my_tcp_cs.Timer.Queue.{Entry, IsSorted, insert}
use my_tcp_cs.Timer.Chain.{IsList}
use my_tcp_cs.Timer.Steps
use my_tcp_cs.Timer.Steps.{Returns, returns}
use my_tcp_cs.Timer.Postpone.{set_expire-adjust_timer, All-without}
use my_tcp_cs.Http.Types.{HttpConn}
use my_tcp_cs.Server.{Env, put_user}
use my_tcp_cs.Server.Loop.{append_task}
use my_tcp_cs.Server.Timed.{deadline, Timed, SameUsers, Timed-env}
use my_tcp_cs.ThreadPool.{default_requests}
use my_tcp_cs.Server.Timed.Sockets.{SameSocket}
use my_tcp_cs.Server.Timed.Entries.{In, In-split, In-without, In-insert, In-insert_self, All-insert}
use my_tcp_cs.Server.Timed.Events.{sooner-All}

module _ {K : Type 0} where
  -- A connection is put back with its descriptor and timer.
  pub put-SameUsers :
      (env : Env K) (u : ℕ) (c : HttpConn) (k : K) (tasks : List ℕ)
      → SameSocket (env.users u) c
      → SameUsers env (record env { kernel = k; users = put_user env.users u c; tasks = tasks })
  unfolding put_user
  put-SameUsers env u c k tasks same v = elim (Bool-cases (v == u)) [
    | inl here ↦
        let is_u : v ≡ u = ground (arith, here) in
        rw (put_user, here)
          (
            same.0 ∙ ap (λ w. (env.users w).sockfd) (sym is_u),
            same.1 ∙ ap (λ w. (env.users w).timer) (sym is_u),
          )
    | inr other ↦ rw (put_user, other) (refl, refl)
  ]

  pub append_task-Timed :
      (now u : ℕ) (s : State (Env K))
      → Timed now s
      → Returns (λ _ s'. Timed now s') (append_task u s)
  unfolding append_task
  append_task-Timed now u s t = elim (Bool-cases (ltb default_requests (length s.env.tasks))) [
    | inl full ↦ rw (append_task, full) (returns t)
    | inr room ↦ rw (append_task, room) (returns (Timed-env now s _ (λ v. (refl, refl)) t))
  ]

  -- The timer `e` of an open connection is put off.
  postponed-Timed :
      (now now' : ℕ) (s s' : State (Env K)) (t : Timed now s) (e : Entry) (xs ys : List Entry)
      → now ≤ now'
      → t.entries ≡ xs ++ e ∷ ys
      → IsList s' (insert (record e { expire = deadline now' }) (xs ++ ys))
      → IsSorted (insert (record e { expire = deadline now' }) (xs ++ ys))
      → s'.env ≡ s.env
      → Timed now' s'
  postponed-Timed now now' s s' t e xs ys h split l sorted same =
      let e' : Entry = record e { expire = deadline now' } in
      record {
        entries = insert e' (xs ++ ys);
        list = l;
        sorted = sorted;
        recent =
            All-insert (λ f. f.expire ≤ deadline now') e' (xs ++ ys) (omega arith)
              (All-without _ xs e ys (
                subst (All (λ f. f.expire ≤ deadline now')) split
                  (sooner-All now now' t.entries h t.recent)));
        timers = λ u g open_g.
            let (f, i, at, of) =
              t.timers u g (ap (λ env. (env.users u).sockfd) (sym same) ∙ open_g) in
            let here = ap (λ env. (env.users u).timer) (sym same) in
            elim (In-without xs e ys (subst (In f) split i)) [
              | inl is_e ↦ (
                e',
                In-insert_self e' (xs ++ ys),
                ap (λ x. x.addr) (sym is_e) ∙ at ∙ here,
                ap (λ x. x.user_data) (sym is_e) ∙ of,
              )
              | inr j ↦ (f, In-insert e' (xs ++ ys) j, at ∙ here, of)
            ];
      }

  pub postpone-Timed :
      (now now' fuel u fd : ℕ) (s : State (Env K)) (t : Timed now s)
      → now ≤ now'
      → (s.env.users u).sockfd ≡ some fd
      → length t.entries ≤ fuel
      → Returns
          (λ _ s'. Timed now' s')
          ((set_expire (s.env.users u).timer (deadline now')
              >> adjust_timer fuel (s.env.users u).timer)
            s)
  postpone-Timed now now' fuel u fd s t h open_fd rounds =
      let (e, i, at, of) = t.timers u fd open_fd in
      let (xs, ys, split) = In-split e t.entries i in
      let recent =
        All-middle (λ f. f.expire ≤ deadline now) xs e ys
          (subst (All (λ f. f.expire ≤ deadline now)) split t.recent) in
      rw (← at) (
        Steps.mono
          (set_expire-adjust_timer s e fuel (deadline now') xs ys (subst (IsList s) split t.list)
            (subst IsSorted split t.sorted) (omega (arith, recent, h))
            (omega
              (arith, rounds, ap length split, length-append xs (e ∷ ys), length-append xs ys)))
          λ _ s' r. postponed-Timed now now' s s' t e xs ys h split r.0 r.1 r.2)
