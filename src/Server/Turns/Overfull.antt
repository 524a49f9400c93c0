-- ===== src/Server/Turns/Overfull.antt =====
-- The handler of input in webserver/src/main.cpp drops the result of `Append`.
use my_tcp_cs.Base.{ℕ, ◌<◌, ◌≡◌, refl, ◌∙◌, ap, true, done, ltb, ◌==◌, arith, length}
use my_tcp_cs.Timer.Memory.{State, null}
use my_tcp_cs.Timer.Keeps.{Keeps-then, Keeps-set_expire, Keeps-adjust_timer}
use my_tcp_cs.Http.Types.{HttpConn}
use my_tcp_cs.Http.Transfer.{read}
use my_tcp_cs.ThreadPool.{default_requests}
use my_tcp_cs.Server.{Kernel, Env, put_user, lift}
use my_tcp_cs.Server.Closing.{put_user_self}
use my_tcp_cs.Server.Loop.{Event, append_task, on_input}
use my_tcp_cs.Server.Timed.Sockets.{read-SameSocket}
use my_tcp_cs.Server.Turns.Yields.{Yields, yields, Yields-bind, Yields-if, Yields-of_Within}

module _ {K : Type 0} (os : Kernel K) where
  -- While the queue is over-full, a connection whose input has been read stays open, is not put
  -- into the queue, and is not registered for another event.
  pub on_input-overfull :
      (fuel : ℕ) (s : State (Env K)) (e : Event) (d : HttpConn)
      → read e.eagain (s.env.users e.fd) e.recvs ≡ done (d, true)
      → default_requests < length s.env.tasks
      → Yields
          (λ _ s'.
            ((s'.env.users e.fd).sockfd ≡ (s.env.users e.fd).sockfd)
            × (s'.env.tasks ≡ s.env.tasks)
            × (s'.env.kernel ≡ s.env.kernel))
          (on_input os fuel e s)
  unfolding on_input lift append_task
  on_input-overfull fuel s e d reads full =
      let env₁ : Env K = record s.env { users = put_user s.env.users e.fd d } in
      let same =
        ap (λ c. c.sockfd) (put_user_self s.env.users e.fd d)
        ∙ (read-SameSocket e.eagain (s.env.users e.fd) d e.recvs true reads).0 in
      let full_test : ltb default_requests (length s.env.tasks) ≡ true = ground (arith, full) in
      rw (on_input, reads)
        (Yields-bind {P = λ _ s'. s'.env ≡ env₁} _
          (Yields-if (d.timer == null) _ _ _ (λ _. yields refl)
            λ _. Yields-of_Within (
              Keeps-then (λ env. env ≡ env₁) _ _ (Keeps-set_expire _ d.timer _)
                (Keeps-adjust_timer _ fuel d.timer) _ refl))
          λ _ s' kept.
            let over : ltb default_requests (length s'.env.tasks) ≡ true =
              ap (λ env. ltb default_requests (length env.tasks)) kept ∙ full_test in
            rw (append_task, over)
              (yields (
                ap (λ env. (env.users e.fd).sockfd) kept ∙ same,
                ap (λ env. env.tasks) kept,
                ap (λ env. env.kernel) kept,
              )))
