-- ===== src/HttpResponse.antt =====
-- src/HttpResponse.h and src/HttpResponse.cpp: what is sent for a task. The text of a response is a
-- `Response`, not printed; `evb` holds those added to the buffer, and headers are in the order in
-- which they are added.
use Prim.Native.String.{String}
use async_ping.Prelude.{ℕ, ◌&&◌, List, [], ◌∷◌, ◌++◌, ltb, ◌==◌, if◌then◌else◌}
use async_ping.Task.{Task, Response, build_response}

pub record HttpResponse : Type 0 where
  pub request : ℕ
  pub headers : List (String × String)
  pub evb : List Response
  pub response_code : ℕ

-- The constructor that `tryRespEventHandler` calls.
unfoldable pub new_response : ℕ → HttpResponse
new_response req = record {
  request = req;
  headers = ("Content-Type", "text/html") ∷ [];
  evb = [];
  response_code = 200;
}

-- `HttpResponse(req, code)`.
unfoldable pub new_code_response : ℕ → ℕ → HttpResponse
new_code_response req code = record {
  request = req;
  headers = if code == 405 then ("Allow", "POST") ∷ [] else [];
  evb = [];
  response_code = code;
}

-- `HttpResponse(req, content)`.
unfoldable pub new_content_response : ℕ → Response → HttpResponse
new_content_response req content = record {
  request = req;
  headers = ("Content-Type", "text/html") ∷ [];
  evb = content ∷ [];
  response_code = 200;
}

-- `HttpResponse(req, json)`, deprecated: the text that it adds is empty, whatever `json` is.
unfoldable pub new_json_response : ℕ → HttpResponse
new_json_response req = record {
  request = req;
  headers = ("Content-Type", "application/json") ∷ [];
  evb = [];
  response_code = 200;
}

unfoldable pub fill_code : HttpResponse → ℕ → HttpResponse
fill_code r code = record r { response_code = code }

unfoldable pub fill_content : HttpResponse → Response → HttpResponse
fill_content r content = record r { evb = r.evb ++ content ∷ [] }

-- What goes to the client: evhttp_send_reply with the buffer, or evhttp_send_error.
pub data Sent : Type 0 where
  reply : (code : ℕ) (reason : String) (content : List Response) → Sent
  error : (code : ℕ) (reason : String) → Sent

unfoldable pub do_response : HttpResponse → Sent
do_response r =
    if r.response_code == 200
    then reply 200 "OK" r.evb
    else if r.response_code == 405
    then error 405 "Method Not Allowed"
    else if r.response_code == 415
    then error 415 "Unsupported Media Type"
    else error r.response_code "Unknown Error"

-- `Task::fillHttpResponse`.
unfoldable pub fill_http_response : Task → HttpResponse → HttpResponse
unfolding fill_code fill_content
fill_http_response t r =
    if ltb 0 t.pre_error_code && ltb t.pre_error_code 1000
    then fill_code r t.pre_error_code
    else fill_content r (build_response t)
