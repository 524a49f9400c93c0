-- ===== src/Server/Turns/Commands.antt =====
-- Whose turn a connection is after the commands of webserver/src/http_conn.cpp that change its
-- registration, and after a task is queued.
use my_tcp_cs.Base.{
  ℕ, ◌+◌, ◌≡◌, refl, ◌∙◌, Bool, true, not, Option, [], ◌∷◌, ◌++◌, ltb, ==-refl, ==-ne, arith,
  length,
}
use my_tcp_cs.Timer.Memory.{State}
use my_tcp_cs.Server.{Interest, Kernel, Env, modfd}
use my_tcp_cs.Server.Loop.{append_task}
use my_tcp_cs.ThreadPool.{default_requests}
use my_tcp_cs.Server.Turns.{Oneshot, count, count-append, hold, Fixed, IsClient, Turns}
use my_tcp_cs.Server.Turns.Moves.{Turns-same, Turns-one, held_one}
use my_tcp_cs.Server.Turns.Yields.{Yields, yields, spins, Yields-if, Yields-option}

module _ {K : Type 0} (os : Kernel K) (one : Oneshot os) (f : Fixed) (Lost : ℕ → Type 0) where
  -- The connection `u` is not lost, and neither the queue nor a thread has a turn on it.
  pub record Resting (held : ℕ → ℕ) (env : Env K) (u : ℕ) : Type 0 where
    pub turned : Turns os one f Lost held env
    pub here : ¬ (Lost u)
    pub idle : count u env.tasks + held u ≡ 0

  -- A thread gives its turn up.
  pub release :
      (held : ℕ → ℕ) (env : Env K) (u : ℕ)
      → IsClient f u
      → Turns os one f Lost (hold u held) env
      → Resting held env u
  release held env u c t =
      let (here, _, none_left) = held_one os one held env u c t in
      record {
        turned = Turns-same os one (λ v. (refl, omega arith)) t;
        here = here;
        idle = omega (arith, none_left);
      }

  pub modfd-Turns :
      (held : ℕ → ℕ) (s : State (Env K)) (u : ℕ) (sockfd : Option ℕ) (output : Bool)
      → IsClient f u
      → sockfd ≡ (s.env.users u).sockfd
      → Turns os one f Lost (hold u held) s.env
      → Yields
          (λ _ s'. Resting held s'.env u × ((v : ℕ) → s'.env.users v ≡ s.env.users v))
          (modfd os sockfd output s)
  unfolding modfd
  modfd-Turns held s u sockfd output c at t =
      let (here, open_u, none_left) = held_one os one held s.env u c t in
      let i : Interest = record { input = not output; output = output; oneshot = true } in
      rw (modfd, at ∙ open_u)
        (Yields-option (os.epoll_mod s.env.kernel u i) _ _ s (λ refused. spins)
          λ k granted. yields (
            record {
              turned =
                  Turns-one os one {held = hold u held} {held' = held} u here
                    (λ v ne. (
                      refl,
                      rw (one.changed s.env.kernel k u v i refl granted, ==-ne v u ne)
                          (omega arith),
                    ))
                    (t.own u)
                    (λ _.
                      rw (one.changed s.env.kernel k u u i refl granted, ==-refl u, open_u)
                        (omega (arith, none_left)))
                    t;
              here = here;
              idle = omega (arith, none_left);
            },
            λ v. refl,
          ))

  pub append_task-Turns :
      (held : ℕ → ℕ) (s : State (Env K)) (u : ℕ)
      → Turns os one f Lost (hold u held) s.env
      → Yields (λ _ s'. Turns os one f Lost held s'.env) (append_task u s)
  unfolding append_task
  append_task-Turns held s u t =
      Yields-if (ltb default_requests (length s.env.tasks)) _ _ s
        (λ full. yields (
          Turns-same os one {held = hold u held} {held' = held} {env = s.env} {env' = s.env}
            (λ v. (refl, omega arith)) t))
        λ room. yields (
          Turns-same os one {held = hold u held} {held' = held} {env = s.env}
            {env' = record s.env { tasks = s.env.tasks ++ u ∷ [] }}
            (λ v. (refl, unfold count in omega (arith, count-append v s.env.tasks (u ∷ [])))) t)
