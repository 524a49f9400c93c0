-- ===== src/Server/Turns.antt =====
-- Whose turn a connection of webserver/src/http_conn.cpp is: epoll's, the queue's, the event
-- loop's or a worker's. EPOLLONESHOT and the calls of `Modfd` pass it on.
pub mod Moves
pub mod Yields
pub mod Commands
pub mod Closing
pub mod Handlers
pub mod Accepting
pub mod Runs
pub mod Fairness
pub mod Exclusion
pub mod Overfull
pub mod Reuse
use my_tcp_cs.Base.{
  ℕ, ◌+◌, ◌≤◌, ◌≡◌, ◌≢◌, Bool, true, false, Option, none, some, List, [], ◌∷◌, ◌++◌, ◌==◌,
  if◌then◌else◌, arith,
}
use my_tcp_cs.Http.Types.{HttpConn}
use my_tcp_cs.Server.{Interest, Kernel, Env}

-- What epoll keeps of descriptors that are registered with EPOLLONESHOT. `armed` says that the
-- next event on a descriptor is reported, and `report` is such a report: no other comes until
-- the descriptor is registered again.
pub record Oneshot {K : Type 0} (os : Kernel K) : Type 0 where
  pub armed : K → ℕ → Bool
  pub report : K → ℕ → K
  pub reported : (k : K) (u v : ℕ) → armed (report k u) v ≡ (if v == u then false else armed k v)
  pub added :
      (k k' : K) (u v : ℕ) (i : Interest)
      → i.oneshot ≡ true
      → os.epoll_add k u i ≡ some k'
      → armed k' v ≡ (if v == u then true else armed k v)
  pub changed :
      (k k' : K) (u v : ℕ) (i : Interest)
      → i.oneshot ≡ true
      → os.epoll_mod k u i ≡ some k'
      → armed k' v ≡ (if v == u then true else armed k v)
  pub removed :
      (k k' : K) (u v : ℕ)
      → os.epoll_del k u ≡ some k'
      → armed k' v ≡ (if v == u then false else armed k v)
  pub closed : (k : K) (u v : ℕ) → armed (os.close k u) v ≡ (if v == u then false else armed k v)
  pub unblocked :
      (k k' : K) (u v flags : ℕ) → os.set_flags k u flags ≡ some k' → armed k' v ≡ armed k v
  pub reused : (k : K) (u v : ℕ) → armed (os.set_reuse k u) v ≡ armed k v

abbrev pub bit : Bool → ℕ
bit true = 1
bit false = 0

abbrev pub slot : Option ℕ → ℕ
slot none = 0
slot (some fd) = 1

-- How often `v` stands in a list.
unfoldable pub count : ℕ → List ℕ → ℕ
count v [] = 0
count v (u ∷ us) = bit (v == u) + count v us

pub count-append : (v : ℕ) (us ws : List ℕ) → count v (us ++ ws) ≡ count v us + count v ws
unfolding count
count-append v [] ws = omega arith
count-append v (u ∷ us) ws = omega (arith, count-append v us ws)

-- With the turns that threads hold, that of `u`.
abbrev pub hold : ℕ → (ℕ → ℕ) → ℕ → ℕ
hold u held v = bit (v == u) + held v

-- The descriptors that are not a client's.
pub record Fixed : Type 0 where
  pub listenfd : ℕ
  pub pipefd : ℕ

abbrev pub IsClient : Fixed → ℕ → Type 0
IsClient f u = (u ≢ f.listenfd) × (u ≢ f.pipefd)

module _ {K : Type 0} (os : Kernel K) (one : Oneshot os) where
  -- The turns on `v`: an armed registration, entries of the queue, and those that threads hold.
  abbrev pub turns : (held : ℕ → ℕ) → Env K → ℕ → ℕ
  turns held env v = bit (one.armed env.kernel v) + count v env.tasks + held v

  -- The connection `v` has the descriptor `v`, there is at most one turn on it, and none if it is
  -- closed. Of the connections in `Lost`, each is open and has none.
  pub record Turns (f : Fixed) (Lost : ℕ → Type 0) (held : ℕ → ℕ) (env : Env K) : Type 0 where
    pub own : (v fd : ℕ) → (env.users v).sockfd ≡ some fd → fd ≡ v
    pub single : (v : ℕ) → IsClient f v → turns held env v ≤ slot (env.users v).sockfd
    pub lost : (v : ℕ) → Lost v → ((env.users v).sockfd ≡ some v) × (turns held env v ≡ 0)
