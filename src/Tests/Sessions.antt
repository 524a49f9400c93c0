-- ===== src/Tests/Sessions.antt =====
-- A client that asks twice for the same file, the second time without keeping the connection.
use my_tcp_cs.Base.{[], ◌∷◌, take, drop, codes}
use my_tcp_cs.Http.Request.{Request, request_text}
use my_tcp_cs.Http.Session.Pages.{Job}
use my_tcp_cs.Tests.Answers.{page}
use my_tcp_cs.Tests.Whole.{get_a}

-- In two portions.
abbrev first_job : Job
first_job = record {
  request = get_a;
  bytes = page;
  chunks = take 20 (request_text get_a []) ∷ drop 20 (request_text get_a []) ∷ [];
  rest = [];
}

abbrev get_a_once : Request
get_a_once = record get_a { fields = codes "Host: b" ∷ [] }

abbrev second_job : Job
second_job = record {
  request = get_a_once;
  bytes = page;
  chunks = request_text get_a_once [] ∷ [];
  rest = [];
}
