-- ===== src/Server/Timed/Responding.antt =====
-- The answering of webserver/src/http_conn.cpp leaves a connection's descriptor and timer.
use my_tcp_cs.Base.{
  ℕ, ◌+◌, ◌≡◌, refl, subst, Bool, true, false, not, Option, none, some, List, Outcome, done,
  undefined, ◌>>=◌, if◌then◌else◌, length,
}
use my_tcp_cs.Base.Int.{int_of}
use my_tcp_cs.Http.Types.{
  HttpConn, Stat, buffer_at, file_at, HttpCode, line_ok, bad_request, no_resource,
  forbidden_request, file_request, internal_error,
}
use my_tcp_cs.Http.Parse.{Next, again, answer, respond}
use my_tcp_cs.Http.Respond.{
  Files, map_file, do_response, process_request, add_response, add_status_line, add_content,
  add_headers, send_buffer, target_path, title_400, form_400, form_403, title_404, form_404,
  title_500, form_500, error_page, file_page, process_write,
}
use my_tcp_cs.Http.CStrings.{c_string, until_nul}
use my_tcp_cs.Http.Progress.Ending.{
  Ends, ends, breaks, Ends-bind, Ends-if, Ends-option, bind-any, of_Ends,
}
use my_tcp_cs.Server.Timed.Parsing.{Bound, bound, IsBound, Result, Ends-Bound, Ends-process_read}

module _ {fd : Option ℕ} {p : ℕ} where
  Bound-if :
      {X : Type 0} (b : Bool) (l r : HttpConn × X)
      → Bound fd p l
      → Bound fd p r
      → Bound fd p (if b then l else r)
  Bound-if true l r x y = x
  Bound-if false l r x y = y

  Bound-option :
      {A X : Type 0} (o : Option A) (l : HttpConn × X) (r : A → HttpConn × X)
      → Bound fd p l
      → ((a : A) → Bound fd p (r a))
      → Bound fd p {X = X} (elim o [ none ↦ l | some a ↦ r a ])
  Bound-option none l r x y = x
  Bound-option (some a) l r x y = y a

  map_file-Bound :
      (fs : Files) (c : HttpConn) (path : List ℕ) (st : Stat)
      → c.sockfd ≡ fd
      → c.timer ≡ p
      → Bound fd p (map_file fs c path st)
  unfolding map_file
  map_file-Bound fs c path st at of = Bound-if (not st.others_read) _ _ (bound at of) (
      Bound-if st.is_dir _ _ (bound at of) (
        Bound-if (not (fs.can_open path)) _ _ (bound at of)
          (Bound-option (fs.mmap path) _ _ (bound at of) λ bytes. bound at of)))

  Ends-do_response :
      (fs : Files) (c : HttpConn)
      → c.sockfd ≡ fd
      → c.timer ≡ p
      → Ends (Bound fd p) (do_response fs c)
  unfolding do_response
  Ends-do_response fs c at of = Ends-option c.url undefined _ breaks requested
    where
      requested :
          (u : ℕ)
          → Ends (Bound fd p) (do
            target ← c_string c.read_buf u
            let c₁ = record c { real_file = target_path c target }
            path ← until_nul c₁.real_file
            done (elim (fs.stat path) [
              | none ↦ (c₁, no_resource)
              | some st ↦ map_file fs (record c₁ { real_file_stat = st }) path st
            ]))
      requested u = bind-any (c_string c.read_buf u) _ λ target.
          let c₁ : HttpConn = record c { real_file = target_path c target } in
          bind-any (until_nul c₁.real_file) _ λ path. ends (
            Bound-option (fs.stat path) (c₁, no_resource) _ (bound at of)
              λ st. map_file-Bound fs (record c₁ { real_file_stat = st }) path st at of)

  Result-of_Bound : {X : Type 0} (r : HttpConn × X) → Bound fd p r → Result fd p (some r)
  Result-of_Bound (c, x) (bound at of) = (at, of)

  Ends-process_request :
      (fs : Files) (stray : HttpCode) (fuel : ℕ) (c : HttpConn)
      → IsBound fd p c
      → Ends (Result fd p) (process_request fs stray fuel c)
  unfolding process_request
  Ends-process_request fs stray fuel c b =
      Ends-bind _ _ (Ends-process_read stray fuel c line_ok b) answered
    where
      answered :
          (r : Option (HttpConn × Next))
          → Result fd p r
          → Ends (Result fd p) (elim r [
            | none ↦ done none
            | some (c', next) ↦ elim next [
              | again _ ↦ done none
              | answer code ↦ done (some (c', code))
              | respond ↦ (do_response fs c' >>= λ a. done (some a))
            ]
          ])
      answered none q = ends tt
      answered (some (c', again _)) q = ends tt
      answered (some (c', answer code)) q = ends q
      answered (some (c', respond)) q =
          Ends-bind _ _ (Ends-do_response fs c' q.0 q.1) λ a q'. ends (Result-of_Bound a q')

  Ends-add_response :
      (c : HttpConn) (text : List ℕ)
      → c.sockfd ≡ fd
      → c.timer ≡ p
      → Ends (Bound fd p) (add_response c text)
  unfolding add_response
  Ends-add_response c text at of = search (Ends-if, Ends-Bound, breaks)

  -- The same, with whatever is done next.
  add :
      {X : Type 0} (c : HttpConn) (text : List ℕ) (k : HttpConn × Bool → Outcome (HttpConn × X))
      → c.sockfd ≡ fd
      → c.timer ≡ p
      → ((c' : HttpConn) (b : Bool) → c'.sockfd ≡ fd → c'.timer ≡ p → Ends (Bound fd p) (k (c', b)))
      → Ends (Bound fd p) (add_response c text >>= k)
  add c text k at of next = Ends-bind _ _ (Ends-add_response c text at of) λ r q. on_next r q
    where
      on_next : (r : HttpConn × Bool) → Bound fd p r → Ends (Bound fd p) (k r)
      on_next (c', b) (bound at' of') = next c' b at' of'

  Ends-add_headers :
      (stray : Bool) (c : HttpConn) (n : ℕ)
      → c.sockfd ≡ fd
      → c.timer ≡ p
      → Ends (Bound fd p) (add_headers stray c n)
  unfolding add_headers
  Ends-add_headers stray c n at of = add c _ _ at of λ c₁ b₁ at₁ of₁.
      add c₁ _ _ at₁ of₁ λ c₂ b₂ at₂ of₂.
        add c₂ _ _ at₂ of₂
          λ c₃ b₃ at₃ of₃. add c₃ _ _ at₃ of₃ λ c₄ b₄ at₄ of₄. Ends-Bound _ _ at₄ of₄

  sent_whole :
      (c : HttpConn) → c.sockfd ≡ fd → c.timer ≡ p → Ends (Bound fd p) (done (send_buffer c, true))
  unfolding send_buffer
  sent_whole c at of = Ends-Bound _ _ at of

  Ends-error_page :
      (stray : Bool) (c : HttpConn) (status : ℕ) (title form : List ℕ)
      → c.sockfd ≡ fd
      → c.timer ≡ p
      → Ends (Bound fd p) (error_page stray c status title form)
  unfolding error_page add_status_line add_content
  Ends-error_page stray c status title form at of = add c _ _ at of λ c₁ ok₁ at₁ of₁.
      Ends-if (not ok₁) _ _ (Ends-Bound _ _ at₁ of₁)
        (Ends-bind _ _ (Ends-add_headers stray c₁ (length form) at₁ of₁) (headed ok₁))
    where
      headed :
          (ok₁ : Bool) (r : HttpConn × Bool)
          → Bound fd p r
          → Ends (Bound fd p) (
              if not r.1 then done (r.0, false) else (do
                (c₃, ok₃) ← add_response r.0 form
                if not ok₃ then done (c₃, false) else done (send_buffer c₃, true)))
      headed ok₁ (c₂, ok₂) (bound at₂ of₂) = Ends-if (not ok₂) _ _ (Ends-Bound _ _ at₂ of₂) (
          add c₂ form _ at₂ of₂ λ c₃ ok₃ at₃ of₃.
            Ends-if (not ok₃) _ _ (Ends-Bound _ _ at₃ of₃) (sent_whole c₃ at₃ of₃))

  Ends-file_page :
      (stray : Bool) (c : HttpConn)
      → c.sockfd ≡ fd
      → c.timer ≡ p
      → Ends (Bound fd p) (file_page stray c)
  unfolding file_page add_status_line
  Ends-file_page stray c at of = add c _ _ at of λ c₁ ok₁ at₁ of₁.
      Ends-if (not ok₁) _ _ (Ends-Bound _ _ at₁ of₁)
        (Ends-bind _ _ (Ends-add_headers stray c₁ c₁.real_file_stat.size at₁ of₁) headed)
    where
      headed :
          (r : HttpConn × Bool)
          → Bound fd p r
          → Ends (Bound fd p) (
              if not r.1
              then done (r.0, false)
              else done (
                record r.0 {
                  iv0 = record { base = buffer_at 0; len = length r.0.write_buf };
                  iv1 = record { base = file_at 0; len = r.0.real_file_stat.size };
                  iv_count = 2;
                  bytes_to_send = int_of (length r.0.write_buf + r.0.real_file_stat.size);
                },
                true,
              ))
      headed (c₂, ok₂) (bound at₂ of₂) =
          Ends-if (not ok₂) _ _ (Ends-Bound _ _ at₂ of₂) (Ends-Bound _ _ at₂ of₂)

  Ends-process_write :
      (stray : Bool) (c : HttpConn) (code : HttpCode)
      → c.sockfd ≡ fd
      → c.timer ≡ p
      → Ends (Bound fd p) (process_write stray c code)
  unfolding process_write
  Ends-process_write stray c internal_error at of =
      Ends-error_page stray c 500 title_500 form_500 at of
  Ends-process_write stray c bad_request at of =
      Ends-error_page stray c 400 title_400 form_400 at of
  Ends-process_write stray c no_resource at of =
      Ends-error_page stray c 404 title_404 form_404 at of
  Ends-process_write stray c forbidden_request at of =
      Ends-error_page stray c 403 title_404 form_403 at of
  Ends-process_write stray c file_request at of = Ends-file_page stray c at of
  Ends-process_write stray c _ at of = Ends-Bound _ _ at of

pub process_request-IsBound :
    (fs : Files) (stray : HttpCode) (fuel : ℕ) (c c' : HttpConn) (code : HttpCode)
    → process_request fs stray fuel c ≡ done (some (c', code))
    → IsBound c.sockfd c.timer c'
process_request-IsBound fs stray fuel c c' code e =
    of_Ends (some (c', code))
      (subst (Ends (Result c.sockfd c.timer)) e (Ends-process_request fs stray fuel c (refl, refl)))

pub process_write-IsBound :
    (stray : Bool) (c c' : HttpConn) (code : HttpCode) (b : Bool)
    → process_write stray c code ≡ done (c', b)
    → IsBound c.sockfd c.timer c'
process_write-IsBound stray c c' code b e =
    Result-of_Bound (c', b)
      (of_Ends (c', b)
        (subst (Ends (Bound c.sockfd c.timer)) e (Ends-process_write stray c code refl refl)))
