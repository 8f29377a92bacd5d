-- ===== src/HttpServer/Input.antt =====
-- The body of a request as `recvReqInput` of src/HttpHandler.cpp gives it.
use async_ping.Prelude.{
  ℕ, ◌≡◌, ◌≢◌, refl, false, List, [], ◌∷◌, ◌++◌, arith, All, ap, sym, ◌∙◌, ◌==◌, append_assoc,
  append-nil, Option,
}
use async_ping.HttpServer.{c_string, recv_req_input, recv_json_input}
use async_ping.Task.{Body}

abbrev pub concat : List (List ℕ) → List ℕ
concat [] = []
concat (chunk ∷ chunks) = chunk ++ concat chunks

-- A string without zero bytes is whole as a C string.
c_string-id : (bs : List ℕ) → All (λ b. b ≢ 0) bs → c_string bs ≡ bs
unfolding c_string
c_string-id [] h = refl
c_string-id (b ∷ bs) h =
    let test : (b == 0) ≡ false = ground (arith, h.0) in
    rw test (ap (λ l. b ∷ l) (c_string-id bs h.1))

recv_req_input_from :
    (ret_data : List ℕ) (chunks : List (List ℕ))
    → All (All (λ b. b ≢ 0)) chunks
    → recv_req_input ret_data chunks ≡ ret_data ++ concat chunks
unfolding recv_req_input
recv_req_input_from ret_data [] h = sym (append-nil ret_data)
recv_req_input_from ret_data (chunk ∷ chunks) h =
    recv_req_input_from (ret_data ++ c_string chunk) chunks h.1
    ∙ ap (λ c. (ret_data ++ c) ++ concat chunks) (c_string-id chunk h.0)
    ∙ append_assoc ret_data chunk (concat chunks)

-- A body without zero bytes reaches the parser whole, however the buffer cuts it into chunks.
pub recv_json_input-concat :
    (parse : List ℕ → Option Body) (chunks : List (List ℕ))
    → All (All (λ b. b ≢ 0)) chunks
    → recv_json_input parse chunks ≡ parse (concat chunks)
unfolding recv_json_input
recv_json_input-concat parse chunks h = ap parse (recv_req_input_from [] chunks h)
