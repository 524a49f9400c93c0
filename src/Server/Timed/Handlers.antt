-- ===== src/Server/Timed/Handlers.antt =====
-- The handlers of the loop of webserver/src/main.cpp keep every open connection's timer.
use my_tcp_cs.Base.{
  ℕ, ◌≤◌, ◌≡◌, refl, sym, ◌∙◌, ap, subst, inl, inr, Bool, true, false, not, Option, some, List,
  done, if◌then◌else◌, Bool-cases, ◌==◌, length,
}
use my_tcp_cs.Timer.{adjust_timer}
use my_tcp_cs.Timer.Memory.{State, null, pure, ◌>>◌, set_expire}
use my_tcp_cs.Timer.Queue.{Entry}
use my_tcp_cs.Timer.Steps
use my_tcp_cs.Timer.Steps.{Returns, returns}
use my_tcp_cs.Http.Types.{HttpConn}
use my_tcp_cs.Server.{Kernel, Env, put_user, lift, close_conn}
use my_tcp_cs.Server.Closing.{put_user_self}
use my_tcp_cs.Server.Loop.{Event, on_input, on_output, append_task}
use my_tcp_cs.Server.Timed.{deadline, Timed, Timed-env, Timed-env_entries, close_conn-Timed}
use my_tcp_cs.Server.Timed.Sockets.{SameSocket, read-SameSocket, write-SameSocket}
use my_tcp_cs.Server.{Interest, modfd}
use my_tcp_cs.Server.Loop.{rearmed}
use my_tcp_cs.Http.Transfer.{read, write, Rearm, keep, for_input, for_output}
use my_tcp_cs.Server.Timed.Events.{Timed-mono}
use my_tcp_cs.Server.Timed.Postponing.{put-SameUsers, append_task-Timed, postpone-Timed}

-- The event is for an open connection, whose `Read` returns, if it is for input.
pub record ForClient {K : Type 0} (now fuel : ℕ) (s : State (Env K)) (e : Event) (es : List Entry)
    : Type 0 where
  pub fd : ℕ
  pub is_open : (s.env.users e.fd).sockfd ≡ some fd
  pub clock : now ≤ e.now
  pub rounds : length es ≤ fuel

module _ {K : Type 0} (os : Kernel K) where
  -- What the handler of input does with the connection's timer `p`.
  touch-Timed :
      (now now' fuel u fd p : ℕ) (s : State (Env K)) (t : Timed now s)
      → now ≤ now'
      → (s.env.users u).sockfd ≡ some fd
      → length t.entries ≤ fuel
      → (s.env.users u).timer ≡ p
      → Returns
          (λ _ s'. Timed now' s')
          ((if p == null then pure tt else (set_expire p (deadline now') >> adjust_timer fuel p)) s)
  touch-Timed now now' fuel u fd p s t h open_fd rounds at = elim (Bool-cases (p == null)) [
    | inl none_there ↦ rw none_there (returns (Timed-mono now now' s h t))
    | inr there ↦ rw there (
        subst
          (λ q.
            Returns (λ _ s'. Timed now' s')
              ((set_expire q (deadline now') >> adjust_timer fuel q) s))
          at (postpone-Timed now now' fuel u fd s t h open_fd rounds))
  ]

  -- The rest of the handler of input, behind `Read`.
  after_read-Timed :
      (now now' fuel u fd p : ℕ) (complete : Bool) (s : State (Env K)) (t : Timed now s)
      → now ≤ now'
      → (s.env.users u).sockfd ≡ some fd
      → length t.entries ≤ fuel
      → (s.env.users u).timer ≡ p
      → Returns
          (λ _ s'. Timed now' s')
          ((if not complete then (close_conn os u >> pure tt) else (do
            if p == null then pure tt else (set_expire p (deadline now') >> adjust_timer fuel p)
            append_task u))
            s)
  after_read-Timed now now' fuel u fd p false s t h open_fd rounds at =
      Steps.bind (close_conn-Timed os now s u t) λ _ s' t'. returns (Timed-mono now now' s' h t')
  after_read-Timed now now' fuel u fd p true s t h open_fd rounds at =
      Steps.bind (touch-Timed now now' fuel u fd p s t h open_fd rounds at)
        λ _ s' t'. append_task-Timed now' u s' t'

  pub on_input-Timed :
      (now fuel : ℕ) (s : State (Env K)) (e : Event) (d : HttpConn) (complete : Bool)
      → (t : Timed now s) → ForClient now fuel s e t.entries
      → read e.eagain (s.env.users e.fd) e.recvs ≡ done (d, complete)
      → Returns (λ _ s'. Timed e.now s') (on_input os fuel e s)
  unfolding on_input lift
  on_input-Timed now fuel s e d complete t c reads =
      let same = read-SameSocket e.eagain (s.env.users e.fd) d e.recvs complete reads in
      let s₁ : State (Env K) = record s {
        env = record s.env { users = put_user s.env.users e.fd d };
      } in
      let (t₁, kept) =
        Timed-env_entries now s s₁.env (put-SameUsers s.env e.fd d s.env.kernel s.env.tasks same)
          t in
      let there : s₁.env.users e.fd ≡ d = put_user_self s.env.users e.fd d in
      rw (on_input, reads)
        (after_read-Timed now e.now fuel e.fd c.fd d.timer complete s₁ t₁ c.clock
          (ap (λ x. x.sockfd) there ∙ same.0 ∙ c.is_open)
          (subst (λ es. length es ≤ fuel) (sym kept) c.rounds) (ap (λ x. x.timer) there))

  -- `Write`'s effect on the registration, with a kernel that grants it.
  rearmed-Timed :
      (now fd : ℕ) (s : State (Env K)) (sockfd : Option ℕ) (r : Rearm)
      → sockfd ≡ some fd
      → ((k : K) (i : Interest) → (k' : K) × (os.epoll_mod k fd i ≡ some k'))
      → (t : Timed now s)
      → Returns
          (λ _ s'. Timed now s' × ((u : ℕ) → s'.env.users u ≡ s.env.users u))
          (rearmed os sockfd r s)
  unfolding rearmed modfd
  rearmed-Timed now fd s sockfd keep open_fd grants t = returns (t, λ u. refl)
  rearmed-Timed now fd s sockfd for_input open_fd grants t =
      rw (rearmed, modfd, open_fd, (grants _ _).1)
        (returns (Timed-env now s _ (λ u. (refl, refl)) t, λ u. refl))
  rearmed-Timed now fd s sockfd for_output open_fd grants t =
      rw (rearmed, modfd, open_fd, (grants _ _).1)
        (returns (Timed-env now s _ (λ u. (refl, refl)) t, λ u. refl))

  pub on_output-Timed :
      (now fuel : ℕ) (s : State (Env K)) (e : Event) (t : Timed now s)
      → (c : ForClient now fuel s e t.entries)
      → ((k : K) (i : Interest) → (k' : K) × (os.epoll_mod k c.fd i ≡ some k'))
      → Returns (λ _ s'. Timed e.now s') (on_output os e s)
  unfolding on_output
  on_output-Timed now fuel s e t c grants =
      let w = write e.eagain (s.env.users e.fd) e.writevs in
      let same = write-SameSocket e.eagain (s.env.users e.fd) e.writevs in
      Steps.bind (rearmed-Timed now c.fd s w.conn.sockfd w.rearm (same.0 ∙ c.is_open) grants t)
        λ _ s₁ p.
          let same₁ : SameSocket (s₁.env.users e.fd) w.conn = (
            same.0 ∙ ap (λ x. x.sockfd) (sym (p.1 e.fd)),
            same.1 ∙ ap (λ x. x.timer) (sym (p.1 e.fd)),
          ) in
          let t₂ =
            Timed-env now s₁ _ (put-SameUsers s₁.env e.fd w.conn s₁.env.kernel s₁.env.tasks same₁)
              p.0 in
          sent_back now e.now e.fd w.result _ c.clock t₂
    where
      sent_back :
          (now now' u : ℕ) (b : Bool) (s' : State (Env K))
          → now ≤ now'
          → Timed now s'
          → Returns
              (λ _ s''. Timed now' s'')
              ((if b then pure tt else (close_conn os u >> pure tt)) s')
      sent_back now now' u true s' h t' = returns (Timed-mono now now' s' h t')
      sent_back now now' u false s' h t' =
          Steps.bind (close_conn-Timed os now s' u t')
            λ _ s'' t''. returns (Timed-mono now now' s'' h t'')
