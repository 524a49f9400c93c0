-- ===== src/Earlier/Startup.antt =====
-- serverbase/webserver/src/main.cpp before and behind its loop. The set-up of the later server in
-- webserver/src/main.cpp goes on from there.
use my_tcp_cs.Base.{ℕ, ◌≡◌, refl, sym, ◌∙◌, ap, true, false, Option, some, List}
use my_tcp_cs.ThreadPool.Startup.{PoolObject, delete_pool}
use my_tcp_cs.Server.{addfd}
use my_tcp_cs.Server.Startup.{
  Handler, ignored, Host, Result, goes_on, exits, aborts, Setup, after, ◌>>=◌, ◌>>◌, sigpipe, low16,
  Listening, add_sig, port_arg, make_pool, required_true, open_listener, make_pipe, arm_signals,
  start_main, close_any,
}

-- What the loop works with.
pub record Serving : Type 0 where
  pub listenfd : ℕ
  pub epollfd : Option ℕ
  pub pool : PoolObject

module _ {W : Type 0} (h : Host W) where
  -- `AddSig(sig, handler)`, which does not ask for SA_RESTART.
  unfoldable pub add_sig_once : (sig : ℕ) → Handler → Setup W (Unit {0})
  add_sig_once sig handler w = (h.sigaction w sig handler false, goes_on tt)

  -- `main` up to its loop. Port, thread pool and listening socket are made as in the later server.
  unfoldable pub start_serving : (mutex sem : ℕ) → List (List ℕ) → Setup W Serving
  unfolding add_sig_once port_arg make_pool low16 open_listener required_true
  start_serving mutex sem argv = do
    port ← port_arg h argv
    add_sig_once sigpipe ignored
    pool ← make_pool h mutex sem
    listenfd ← open_listener h (low16 (h.atoi port))
    epollfd ← λ w. (let (w', fd) = h.epoll_create w in (w', goes_on fd))
    (λ w. required_true h (addfd h.kernel w listenfd false))
    (λ w. (w, goes_on (record { listenfd = listenfd; epollfd = epollfd; pool = pool })))

  -- `main` behind its loop.
  unfoldable pub stop_serving : (mutex sem : ℕ) → Serving → W → W × PoolObject
  unfolding close_any delete_pool
  stop_serving mutex sem s w =
      delete_pool h.pthreads h.threads mutex sem
        (close_any h (some s.listenfd) (close_any h s.epollfd w)) s.pool

  -- What the later server's `main` does from there: the pipe for signals, their handlers, the
  -- alarm.
  abbrev pub watch_signals : Serving → Setup W Listening
  watch_signals s = do
    pipefd ← make_pipe h
    arm_signals h
    (λ w. (
      w,
      goes_on (record {
        listenfd = s.listenfd;
        epollfd = s.epollfd;
        pipe_out = pipefd.0;
        pipe_in = pipefd.1;
        pool = s.pool;
      }),
    ))

module _ {W : Type 0} where
  after-after :
      {A B C : Type 0} (r : W × Result A) (k : A → Setup W B) (l : B → Setup W C)
      → after (after r k) l ≡ after r (λ a w. after (k a w) l)
  unfolding after
  after-after (w, goes_on a) k l = refl
  after-after (w, exits status) k l = refl
  after-after (w, aborts) k l = refl

  after-cong :
      {A B : Type 0} (r : W × Result A) (k l : A → Setup W B)
      → ((a : A) (w : W) → k a w ≡ l a w)
      → after r k ≡ after r l
  unfolding after
  after-cong (w, goes_on a) k l same = same a w
  after-cong (w, exits status) k l same = refl
  after-cong (w, aborts) k l same = refl

  -- One call in front of two set-ups that agree.
  in_front :
      {A B C : Type 0} (r : W × Result A) (k : A → Setup W B) (l : B → Setup W C)
      (m : A → Setup W C)
      → ((a : A) (w : W) → m a w ≡ after (k a w) l)
      → after r m ≡ after (after r k) l
  in_front r k l m same = after-cong r m _ same ∙ sym (after-after r k l)

module _ {W : Type 0} (h : Host W) where
  -- The later server's `main` behind the handling of SIGPIPE.
  abbrev behind_sigpipe : (mutex sem : ℕ) → (port : List ℕ) → Setup W Listening
  behind_sigpipe mutex sem port = do
    pool ← make_pool h mutex sem
    listenfd ← open_listener h (low16 (h.atoi port))
    epollfd ← λ w. (let (w', fd) = h.epoll_create w in (w', goes_on fd))
    (λ w. required_true h (addfd h.kernel w listenfd false))
    watch_signals h (record { listenfd = listenfd; epollfd = epollfd; pool = pool })

  -- Where SA_RESTART makes no difference for an ignored signal, the later server's `main` sets up
  -- what the earlier one sets up, with the same outcome of each call that can fail, and then the
  -- pipe, the handlers and the alarm.
  pub start_main-start_serving :
      (mutex sem : ℕ) (argv : List (List ℕ)) (w : W)
      → ((w' : W) → h.sigaction w' sigpipe ignored true ≡ h.sigaction w' sigpipe ignored false)
      → start_main h mutex sem argv w ≡ (start_serving h mutex sem argv >>= watch_signals h) w
  unfolding start_main start_serving add_sig after
  start_main-start_serving mutex sem argv w same = in_front (port_arg h argv w) _ _ _ λ port w₁.
      ap (behind_sigpipe mutex sem port) (same w₁)
      ∙ (in_front (make_pool h mutex sem _) _ _ _ λ pool w₂.
          in_front (open_listener h (low16 (h.atoi port)) w₂) _ _ _ λ listenfd w₃.
            in_front (required_true h (addfd h.kernel _ listenfd false)) _ _ _ λ _ w₄. refl)
