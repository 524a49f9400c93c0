-- ===== src/Server/Turns/Exclusion.antt =====
-- What holds over whole runs of the server of webserver/src/main.cpp: a connection is in one place
-- at a time, and one that is nowhere stays there.
use my_tcp_cs.Base.{ℕ, ◌+◌, ◌≤◌, ◌≡◌, ◌∙◌, refl, sym, ap, subst, none, some, arith}
use mathlib.Core.Option.{none-ne-some}
use my_tcp_cs.Http.Types.{new_conn-closed}
use my_tcp_cs.Server.{Kernel}
use my_tcp_cs.Server.Turns.{Oneshot, bit, slot, count, IsClient, turns}
use my_tcp_cs.Server.Turns.Runs.{World, Setting, Runs, here, next, IsStart, held, Fair}
use my_tcp_cs.Server.Turns.Fairness.{Step-Fair}

module _ {K : Type 0} (os : Kernel K) (one : Oneshot os) (g : Setting) where
  Runs-Fair :
      (Lost : ℕ → Type 0) {w w' : World K}
      → Runs os one g w w'
      → Fair os one g Lost w
      → Fair os one g Lost w'
  Runs-Fair Lost here t = t
  Runs-Fair Lost (next r st) t = Step-Fair os one g Lost st (Runs-Fair Lost r t)

  closed : (w : World K) (b : IsStart os one g w) (v : ℕ) → (w.state.env.users v).sockfd ≡ none
  closed w b v = ap (λ c. c.sockfd) (b.made v) ∙ new_conn-closed (b.memory v)

  IsStart-Fair : (w : World K) → IsStart os one g w → Fair os one g (λ v. ⊥) w
  unfolding count
  IsStart-Fair w b = record {
    own = λ v fd e. absurd (none-ne-some fd (sym (closed w b v) ∙ e));
    single = λ v c.
        rw (b.unarmed v c, b.no_tasks, b.none_reported, b.none_busy, closed w b v) (omega arith);
    lost = λ v l. absurd l;
  }

  -- Over any run of the server from its start in which the handlers of the event loop and the
  -- workers' calls of `Process` return, come one after the other, in any order, and none in the
  -- middle of another, and in which `accept` returns no descriptor that an entry of `users` still
  -- has, a client's connection is behind each of them in at most one place: registered for the next
  -- event, in the queue, in the hands of the event loop or in those of one worker; and in none of
  -- them, if it is closed.
  pub Runs-single :
      (w₀ w : World K) (v : ℕ)
      → IsStart os one g w₀
      → Runs os one g w₀ w
      → IsClient g.fixed v
      → bit (one.armed w.state.env.kernel v)
          + count v w.state.env.tasks
          + (count v w.reported + count v w.busy)
        ≤ slot (w.state.env.users v).sockfd
  Runs-single w₀ w v b r c = (Runs-Fair (λ v. ⊥) r (IsStart-Fair w₀ b)).single v c

  -- Over any run of the server from its start in which the handlers of the event loop and the
  -- workers' calls of `Process` return, come one after the other, in any order, and none in the
  -- middle of another, and in which `accept` returns no descriptor that an entry of `users` still
  -- has: a connection that is open, but not registered for the next event, nor in the queue, nor in
  -- the hands of the event loop or of a worker, stays open and in none of these places, whatever
  -- the server does from then on. It is neither served nor closed.
  pub Runs-forgotten :
      (w₀ w w' : World K) (v fd : ℕ)
      → IsStart os one g w₀
      → Runs os one g w₀ w
      → (w.state.env.users v).sockfd ≡ some fd
      → turns os one (held os one g w) w.state.env v ≡ 0
      → Runs os one g w w'
      → ((w'.state.env.users v).sockfd ≡ some fd)
        × (turns os one (held os one g w') w'.state.env v ≡ 0)
  Runs-forgotten w₀ w w' v fd b r is_open none_left r' =
      let t = Runs-Fair (λ x. ⊥) r (IsStart-Fair w₀ b) in
      let is_v : fd ≡ v = t.own v fd is_open in
      let t' : Fair os one g (λ x. x ≡ v) w = record {
        own = t.own;
        single = t.single;
        lost = λ x same.
            subst
              (λ y.
                ((w.state.env.users y).sockfd ≡ some y)
                × (turns os one (held os one g w) w.state.env y ≡ 0))
              (sym same) (is_open ∙ ap some is_v, none_left);
      } in
      let (still, none_later) = (Runs-Fair (λ x. x ≡ v) r' t').lost v refl in
      (still ∙ ap some (sym is_v), none_later)
