-- ===== src/Tests/Earlier.antt =====
-- The theorems on the earlier server at one client.
use mathlib.Core.Option.{some-injective}
use my_tcp_cs.Base.{
  ℕ, ap, sym, ◌∙◌, ◌≡◌, refl, Bool, true, false, none, some, [], ◌∷◌, ◌==◌, if◌then◌else◌, arith,
}
use my_tcp_cs.Base.Int.{pos, pred_ℤ}
use my_tcp_cs.Server.{put_user}
use my_tcp_cs.Earlier.{Calls, Env, Event, accept_failed, serve}
use my_tcp_cs.Earlier.Leaks.{Opens, serve-leaks}

-- The kernel grants every call, and knows which descriptors are open.
abbrev granting_all : Calls (ℕ → Bool)
granting_all = record {
  get_flags = λ k fd. 2;
  set_flags = λ k fd flags. some k;
  epoll_add = λ k fd i. some k;
  epoll_del = λ k fd. some k;
  set_reuse = λ k fd. k;
  close = λ k fd f. if f == fd then false else k f;
}

same_open : (k k' : ℕ → Bool) (fd : ℕ) → some k ≡ some k' → k fd ≡ true → k' fd ≡ true
same_open k k' fd e q = ap (λ g. g fd) (sym (some-injective _ _ e)) ∙ q

granting_all-Opens : Opens granting_all
granting_all-Opens = record {
  is_open = λ k fd. k fd;
  flags_keep = λ k k' f fd flags e q. same_open k k' fd e q;
  add_keeps = λ k k' f fd i e q. same_open k k' fd e q;
  del_keeps = λ k k' f fd e q. same_open k k' fd e q;
  reuse_keeps = λ k f fd q. q;
  close_others = λ k f fd other q. ground (arith, other);
}

abbrev one_client : Env (ℕ → Bool)
one_client = record {
  kernel = λ fd. true;
  users = λ u. record { sockfd = some u; addr = 1 };
  user_count = pos 1;
  tasks = [];
}

-- The client on descriptor 7 hangs up.
abbrev hung_up : Event
hung_up = record { fd = 7; hangup = true; input = false; output = false; accept = accept_failed }

abbrev after_hangup : Env (ℕ → Bool)
after_hangup = record one_client {
  users = put_user one_client.users 7 (record { sockfd = none; addr = 1 });
  user_count = pos 0;
}

serve-leaks_example : granting_all-Opens.is_open after_hangup.kernel 7 ≡ true
unfolding granting_all-Opens pred_ℤ
serve-leaks_example =
    serve-leaks granting_all-Opens 7 3 5 (some (hung_up ∷ []) ∷ []) one_client after_hangup
      (((λ addr e. cc), tt), tt) refl (unfold serve in refl)
