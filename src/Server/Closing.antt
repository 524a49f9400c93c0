-- ===== src/Server/Closing.antt =====
-- `CloseConn` takes a connection out of epoll and its timer out of the list; called by `Tick`, it
-- frees the timer that `Tick` still uses.
use my_tcp_cs.Base.{
  ℕ, zero, suc, ◌≤◌, ◌≡◌, ◌≢◌, refl, ◌∙◌, ap, true, none, some, List, [], ◌∷◌, ◌++◌, Bool, ==-refl,
  ==-ne,
}
use my_tcp_cs.Base.Int.{pred_ℤ}
use my_tcp_cs.Timer.{tick}
use my_tcp_cs.Timer.Memory.{State, Run, ok, fault}
use my_tcp_cs.Timer.Queue.{Entry}
use my_tcp_cs.Timer.Chain.{IsList}
use my_tcp_cs.Timer.Steps
use my_tcp_cs.Timer.Steps.{Returns, returns, not_null}
use my_tcp_cs.Timer.Delete.{del_timer-remove}
use my_tcp_cs.Timer.Tick.{tick-fault}
use my_tcp_cs.Server.{Kernel, Env, put_user, removefd, close_conn, close_repeatedly, invoke}

pub put_user_self {ℓ} : {A : Type ℓ} (users : ℕ → A) (u : ℕ) (c : A) → put_user users u c u ≡ c
unfolding put_user
put_user_self users u c = rw (==-refl u)

pub put_user-ne {ℓ} :
    {A : Type ℓ} (users : ℕ → A) (u v : ℕ) (c : A) → v ≢ u → put_user users u c v ≡ users v
unfolding put_user
put_user-ne users u v c ne = rw (==-ne v u ne)

module _ {K : Type 0} (os : Kernel K) where
  -- A connection that is already closed stays so, and nothing else changes.
  pub close_conn-closed :
      (s : State (Env K)) (u : ℕ) → (s.env.users u).sockfd ≡ none → close_conn os u s ≡ ok true s
  unfolding close_conn
  close_conn-closed s u shut = rw shut refl

  -- The connection `u` after `CloseConn`, with the rest of the server.
  pub record Closed (s : State (Env K)) (u fd : ℕ) (k : K) (e : Entry) (es : List Entry)
      (s' : State (Env K)) : Type 0 where
    pub list : IsList s' es
    pub freed : s'.memory e.addr ≡ none
    pub shut : (s'.env.users u).sockfd ≡ none
    pub no_timer : (s'.env.users u).timer ≡ 0
    pub others : (v : ℕ) → v ≢ u → s'.env.users v ≡ s.env.users v
    pub count : s'.env.user_count ≡ pred_ℤ s.env.user_count
    pub kernel : s'.env.kernel ≡ os.close k fd

  -- For an open connection that epoll lets go, and whose timer is in the list, `CloseConn`
  -- succeeds: the descriptor is closed, the timer is out of the list and freed, the number of
  -- users is one less, and no other connection changes.
  pub close_conn-Closed :
      (s : State (Env K)) (u fd : ℕ) (k : K) (e : Entry) (xs ys : List Entry)
      → (s.env.users u).sockfd ≡ some fd
      → os.epoll_del s.env.kernel fd ≡ some k
      → (s.env.users u).timer ≡ e.addr
      → e.addr ≢ 0
      → IsList s (xs ++ e ∷ ys)
      → Returns (λ b s'. (b ≡ true) × Closed s u fd k e (xs ++ ys) s') (close_conn os u s)
  unfolding close_conn removefd
  close_conn-Closed s u fd k e xs ys open_fd gone timer live l =
      rw (open_fd, gone, timer, ==-ne e.addr 0 live)
        (Steps.bind
          (del_timer-remove _ e xs ys
            (record { chain = l.chain; head_first = l.head_first; tail_final = l.tail_final }))
          λ _ s₁ r. returns (
            refl,
            record {
              list = record {
                chain = r.list.chain;
                head_first = r.list.head_first;
                tail_final = r.list.tail_final;
              };
              freed = r.freed;
              shut = ap (λ c. c.sockfd) (put_user_self s₁.env.users u _);
              no_timer = ap (λ c. c.timer) (put_user_self s₁.env.users u _);
              others = λ v ne.
                  put_user-ne s₁.env.users u v _ ne
                  ∙ ap (λ env. env.users v) r.same_env
                  ∙ put_user-ne s.env.users u v _ ne;
              count = ap (λ env. env.user_count) r.same_env;
              kernel = ap (λ env. env.kernel) r.same_env;
            },
          ))

  pub close_repeatedly-closed :
      (i : ℕ) (s : State (Env K)) (u : ℕ)
      → (s.env.users u).sockfd ≡ none
      → close_repeatedly os i u s ≡ ok true s
  unfolding close_repeatedly
  close_repeatedly-closed zero s u shut = refl
  close_repeatedly-closed (suc i) s u shut =
      rw (close_conn-closed s u shut) (close_repeatedly-closed i s u shut)

  -- For an open connection that epoll lets go, and whose timer is in the list, the loop in which
  -- `Process` calls `CloseConn` counts down to 0 from any positive number, and it leaves what one
  -- `CloseConn` leaves.
  pub close_repeatedly-Closed :
      (i : ℕ) (s : State (Env K)) (u fd : ℕ) (k : K) (e : Entry) (xs ys : List Entry)
      → (s.env.users u).sockfd ≡ some fd
      → os.epoll_del s.env.kernel fd ≡ some k
      → (s.env.users u).timer ≡ e.addr
      → e.addr ≢ 0
      → IsList s (xs ++ e ∷ ys)
      → Returns
          (λ b s'. (b ≡ true) × Closed s u fd k e (xs ++ ys) s')
          (close_repeatedly os (suc i) u s)
  unfolding close_repeatedly
  close_repeatedly-Closed i s u fd k e xs ys open_fd gone timer live l =
      Steps.bind (close_conn-Closed s u fd k e xs ys open_fd gone timer live l)
        λ b s' p. rw (p.0, close_repeatedly-closed i s' u p.1.shut) (returns (refl, p.1))

  -- `Tick`, run on a list whose first timer has run out and belongs to an open connection that
  -- epoll lets go, reads freed memory: the callback has `CloseConn` free that timer.
  pub tick-close_conn-fault :
      (fuel cur : ℕ) (s : State (Env K)) (fd : ℕ) (k : K) (e : Entry) (es : List Entry)
      → IsList s (e ∷ es)
      → e.expire ≤ cur
      → (s.env.users e.user_data).sockfd ≡ some fd
      → os.epoll_del s.env.kernel fd ≡ some k
      → (s.env.users e.user_data).timer ≡ e.addr
      → tick (invoke os) (suc fuel) cur s ≡ fault
  tick-close_conn-fault fuel cur s fd k e es l over open_fd gone timer =
      ran _ (close_conn-Closed s e.user_data fd k e [] es open_fd gone timer l.chain.0 l) refl
    where
      ran :
          (r : Run (Env K) Bool)
          → Returns (λ b s'. (b ≡ true) × Closed s e.user_data fd k e es s') r
          → close_conn os e.user_data s ≡ r
          → tick (invoke os) (suc fuel) cur s ≡ fault
      ran r (returns {s = s'} p) q =
          tick-fault (invoke os) fuel cur s s' e es l over (unfold invoke in rw q refl) p.1.freed
