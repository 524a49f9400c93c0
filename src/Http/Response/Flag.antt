-- ===== src/Http/Response/Flag.antt =====
-- `Process_Write` of webserver/src/http_conn.cpp leaves the keep-alive flag alone.
use my_tcp_cs.Base.{ℕ, ◌≡◌, refl, Bool, List, done, not, subst, ◌>>=◌, Outcome}
use my_tcp_cs.Http.Types.{
  HttpConn, HttpCode, no_request, get_request, bad_request, no_resource, forbidden_request,
  file_request, internal_error, closed_connection,
}
use my_tcp_cs.Http.Respond.{
  add_response, add_status_line, add_headers, add_head_content_length, add_content_type, add_linger,
  add_blank_line, add_content, send_buffer, error_page, file_page, process_write, title_400,
  form_400, title_404, form_403, form_404, title_500, form_500,
}
use my_tcp_cs.Http.Progress.Ending.{of_Ends, Ends, ends, breaks, Ends-bind, Ends-if}

abbrev Flagged : Bool → HttpConn × Bool → Type 0
Flagged l r = r.0.linger ≡ l

module _ (l : Bool) where
  ruleset keeps_flag = (Ends-if, ends, breaks)

  keep-bind :
      (o : Outcome (HttpConn × Bool)) (k : HttpConn × Bool → Outcome (HttpConn × Bool))
      → Ends (Flagged l) o
      → ((r : HttpConn × Bool) → r.0.linger ≡ l → Ends (Flagged l) (k r))
      → Ends (Flagged l) (o >>= k)
  keep-bind o k first next = Ends-bind o k first next

  add_response-Ends :
      (c : HttpConn) (text : List ℕ) → c.linger ≡ l → Ends (Flagged l) (add_response c text)
  unfolding add_response
  add_response-Ends c text e = search keeps_flag depth 8

  add_headers-Ends :
      (stray : Bool) (c : HttpConn) (len : ℕ)
      → c.linger ≡ l
      → Ends (Flagged l) (add_headers stray c len)
  unfolding add_headers add_head_content_length add_content_type add_linger add_blank_line
  add_headers-Ends stray c len e = Ends-bind _ _ (add_response-Ends c _ e) λ r₁ e₁.
      Ends-bind _ _ (add_response-Ends r₁.0 _ e₁) λ r₂ e₂.
        Ends-bind _ _ (add_response-Ends r₂.0 _ e₂)
          λ r₃ e₃. Ends-bind _ _ (add_response-Ends r₃.0 _ e₃) λ r₄ e₄. ends e₄

  error_page-Ends :
      (stray : Bool) (c : HttpConn) (status : ℕ) (title form : List ℕ)
      → c.linger ≡ l
      → Ends (Flagged l) (error_page stray c status title form)
  unfolding error_page add_status_line add_content send_buffer
  error_page-Ends stray c status title form e = Ends-bind _ _ (add_response-Ends c _ e) λ r₁ e₁.
      Ends-if (not r₁.1) _ _ (ends e₁) (
        Ends-bind _ _ (add_headers-Ends stray r₁.0 _ e₁) λ r₂ e₂. Ends-if (not r₂.1) _ _ (ends e₂) (
          Ends-bind _ _ (add_response-Ends r₂.0 _ e₂)
            λ r₃ e₃. Ends-if (not r₃.1) _ _ (ends e₃) (ends e₃)))

  file_page-Ends :
      (stray : Bool) (c : HttpConn) → c.linger ≡ l → Ends (Flagged l) (file_page stray c)
  unfolding file_page add_status_line
  file_page-Ends stray c e = Ends-bind _ _ (add_response-Ends c _ e) λ r₁ e₁.
      Ends-if (not r₁.1) _ _ (ends e₁) (
        Ends-bind _ _ (add_headers-Ends stray r₁.0 _ e₁)
          λ r₂ e₂. Ends-if (not r₂.1) _ _ (ends e₂) (ends e₂))

  process_write-Ends :
      (stray : Bool) (c : HttpConn) (code : HttpCode)
      → c.linger ≡ l
      → Ends (Flagged l) (process_write stray c code)
  unfolding process_write
  process_write-Ends stray c internal_error e = error_page-Ends stray c 500 title_500 form_500 e
  process_write-Ends stray c bad_request e = error_page-Ends stray c 400 title_400 form_400 e
  process_write-Ends stray c no_resource e = error_page-Ends stray c 404 title_404 form_404 e
  process_write-Ends stray c forbidden_request e = error_page-Ends stray c 403 title_404 form_403 e
  process_write-Ends stray c file_request e = file_page-Ends stray c e
  process_write-Ends stray c no_request e = ends e
  process_write-Ends stray c get_request e = ends e
  process_write-Ends stray c closed_connection e = ends e

pub process_write-linger :
    (stray : Bool) (c d : HttpConn) (code : HttpCode) (b : Bool)
    → process_write stray c code ≡ done (d, b)
    → d.linger ≡ c.linger
process_write-linger stray c d code b e =
    of_Ends (d, b)
      (subst (Ends (Flagged c.linger)) e (process_write-Ends c.linger stray c code refl))
