-- ===== src/Earlier/Spinning.antt =====
-- The loop around `CloseConn` in serverbase/webserver/src/main.cpp.
use my_tcp_cs.Base.{ℕ, zero, suc, ◌≡◌, refl, ap, ◌∙◌, true, false, none, some}
use my_tcp_cs.Earlier.{Calls, Env, removefd, close_conn, close_until}

module _ {K : Type 0} (os : Calls K) (u fd : ℕ) (s : Env K)
    (is_open : (s.users u).sockfd ≡ some fd) where
  close_conn-refused : os.epoll_del s.kernel fd ≡ none → close_conn os u s ≡ (s, false)
  unfolding close_conn removefd
  close_conn-refused refused = rw (close_conn, is_open, refused) refl

  -- Where the kernel refuses to take an open connection's descriptor out of epoll, `CloseConn`
  -- leaves everything as it is and the loop around it never ends: no number of rounds is enough.
  pub close_until-spins :
      (fuel : ℕ) → os.epoll_del s.kernel fd ≡ none → close_until os fuel u s ≡ none
  unfolding close_until
  close_until-spins zero refused = refl
  close_until-spins (suc fuel) refused =
      ap (λ r. elim r.1 [ true ↦ some r.0 | false ↦ close_until os fuel u r.0 ])
        (close_conn-refused refused)
      ∙ close_until-spins fuel refused
