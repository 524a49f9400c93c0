-- ===== src/Server/Turns/Moves.antt =====
-- How a step changes whose turn the connections of webserver/src/http_conn.cpp are.
use my_tcp_cs.Base.{
  ℕ, ◌+◌, ◌≤◌, ◌≡◌, ◌≢◌, sym, ◌∙◌, ap, subst, inl, inr, true, some, Bool-cases, Option-cases, ◌==◌,
  ==-refl, arith,
}
use my_tcp_cs.Server.{Kernel, Env}
use my_tcp_cs.Server.Turns.{Oneshot, slot, hold, Fixed, IsClient, turns, Turns}

module _ {K : Type 0} (os : Kernel K) (one : Oneshot os) where
  module _ {f : Fixed} {Lost : ℕ → Type 0} {held held' : ℕ → ℕ} {env env' : Env K} where
    -- A step that opens and closes no connection, and makes no turn.
    pub Turns-same :
        ((v : ℕ)
          → ((env'.users v).sockfd ≡ (env.users v).sockfd)
            × (turns os one held' env' v ≤ turns os one held env v))
        → Turns os one f Lost held env
        → Turns os one f Lost held' env'
    Turns-same same t = record {
      own = λ v fd e. t.own v fd (sym (same v).0 ∙ e);
      single = λ v c.
          subst (λ o. turns os one held' env' v ≤ slot o) (sym (same v).0)
            (omega (arith, (same v).1, t.single v c));
      lost = λ v l. ((same v).0 ∙ (t.lost v l).0, omega (arith, (same v).1, (t.lost v l).1));
    }

    -- A step for one connection, which is not lost.
    pub Turns-one :
        (u : ℕ)
        → ¬ (Lost u)
        → ((v : ℕ)
            → v ≢ u
            → ((env'.users v).sockfd ≡ (env.users v).sockfd)
              × (turns os one held' env' v ≤ turns os one held env v))
        → ((fd : ℕ) → (env'.users u).sockfd ≡ some fd → fd ≡ u)
        → (IsClient f u → turns os one held' env' u ≤ slot (env'.users u).sockfd)
        → Turns os one f Lost held env
        → Turns os one f Lost held' env'
    Turns-one u here others own one_turn t = record {
      own = λ v fd e. elim (Bool-cases (v == u)) [
        | inl is_u ↦ own_u v fd (ground (arith, is_u)) e
        | inr other ↦ t.own v fd (sym (others v (ground (arith, other))).0 ∙ e)
      ];
      single = λ v c. elim (Bool-cases (v == u)) [
        | inl is_u ↦ single_u v (ground (arith, is_u)) c
        | inr other ↦
            let (same, fewer) = others v (ground (arith, other)) in
            subst (λ o. turns os one held' env' v ≤ slot o) (sym same)
              (omega (arith, fewer, t.single v c))
      ];
      lost = λ v l. elim (Bool-cases (v == u)) [
        | inl is_u ↦ absurd (here (subst Lost (ground (arith, is_u)) l))
        | inr other ↦
            let (same, fewer) = others v (ground (arith, other)) in
            (same ∙ (t.lost v l).0, omega (arith, fewer, (t.lost v l).1))
      ];
    }
      where
        own_u : (v fd : ℕ) → v ≡ u → (env'.users v).sockfd ≡ some fd → fd ≡ v
        own_u v fd e = subst (λ w. (env'.users w).sockfd ≡ some fd → fd ≡ w) (sym e) (own fd)

        single_u :
            (v : ℕ) → v ≡ u → IsClient f v → turns os one held' env' v ≤ slot (env'.users v).sockfd
        single_u v e =
            subst (λ w. IsClient f w → turns os one held' env' w ≤ slot (env'.users w).sockfd)
              (sym e) one_turn

  -- A connection that a thread has the turn on is open, is not lost, and has no other turn.
  pub held_one :
      {f : Fixed} {Lost : ℕ → Type 0} (held : ℕ → ℕ) (env : Env K) (u : ℕ)
      → IsClient f u
      → Turns os one f Lost (hold u held) env
      → (¬ (Lost u)) × ((env.users u).sockfd ≡ some u) × (turns os one held env u ≡ 0)
  held_one held env u c t =
      let same : (u == u) ≡ true = ==-refl u in
      let more : turns os one (hold u held) env u ≡ turns os one held env u + 1 =
        rw same (omega arith) in
      elim (Option-cases (env.users u).sockfd) [
        | inl shut ↦ absurd (
            omega (
              arith,
              more,
              subst (λ o. turns os one (hold u held) env u ≤ slot o) shut (t.single u c),
            ))
        | inr (fd, open_fd) ↦
            let at =
              subst (λ o. turns os one (hold u held) env u ≤ slot o) open_fd (t.single u c) in
            (
              (λ l. absurd (omega (arith, more, (t.lost u l).1))),
              open_fd ∙ ap some (t.own u fd open_fd),
              omega (arith, more, at),
            )
      ]
