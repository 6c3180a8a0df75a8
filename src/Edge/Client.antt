-- ===== src/Edge/Client.antt =====
-- The requests that the agent makes: to the Portainer server (edge/client/portainer_client.go) and to
-- the other agents of its cluster (edge/client/client.go). Sending a request and decoding the JSON of a
-- response are parameters; what JSON encodes is kept as it is.
use agent_portainer.Prelude.{
  ℕ, ◌<◌, ◌≡◌, refl, ap, ◌∙◌, true, not, [], ◌++◌, arith, ltb, if◌then◌else◌, Text, codes, ◌==◌,
  nat_eq, text_eq, itoa, Result, ok, err, ℤ, pos, atoi, atoi-itoa, int_bound, range_error, and_then,
  IntSize,
}
use agent_portainer.Edge.Stack.{StackConfig}

pub record StatusPayload : Type 0 where
  pub error : Text
  pub status : ℕ
  pub endpoint_id : ℤ

-- The value whose JSON is the body of a request.
pub data Payload : Type 0 where
  no_body : Payload
  status_payload : StatusPayload → Payload
  log_file_payload : (file_content : Text) → Payload
  edge_key_payload : (key : Text) → Payload

-- A request; an edge identifier is sent in a header, "" for none.
pub record Request : Type 0 where
  pub method : Text
  pub url : Text
  pub edge_id : Text
  pub body : Payload

pub record Reply : Type 0 where
  pub status_code : ℕ
  pub body : Text

-- The HTTP client, with the decoders of JSON, and the size of an int.
pub record Http : Type 0 where
  pub int_size : IntSize
  pub send : Request → Result Reply
  pub decode_stack_config : Text → Result StackConfig
  pub decode_key : Text → Result Text

pub record PortainerClient : Type 0 where
  pub server_address : Text
  pub endpoint_id : Text
  pub edge_id : Text

-- A response must have this status.
pub expect : ℕ → Text → Result Reply → Result Text
expect code failure (err x) = err x
expect code failure (ok r) = if not (r.status_code == code) then err failure else ok r.body

abbrev pub stack_config_request : PortainerClient → ℕ → Request
stack_config_request c id = record {
  method = codes "GET";
  url =
      c.server_address
      ++ codes "/api/endpoints/"
      ++ c.endpoint_id
      ++ codes "/edge/stacks/"
      ++ itoa id;
  edge_id = c.edge_id;
  body = no_body;
}

pub get_edge_stack_config : Http → PortainerClient → ℕ → Result StackConfig
unfolding expect itoa
get_edge_stack_config http c id =
    and_then
      (expect 200 (codes "GetEdgeStackConfig operation failed")
        (http.send (stack_config_request c id)))
      http.decode_stack_config

abbrev pub stack_status_request : PortainerClient → ℕ → ℕ → Text → ℤ → Request
stack_status_request c id status error endpoint = record {
  method = codes "PUT";
  url = c.server_address ++ codes "/api/edge_stacks/" ++ itoa id ++ codes "/status";
  edge_id = c.edge_id;
  body = status_payload (record { error = error; status = status; endpoint_id = endpoint });
}

abbrev pub done_after : Result Text → Result (Unit {0})
done_after r = and_then r (λ body. ok tt)

-- The endpoint's identifier, a text in the key, must be a number here.
pub set_edge_stack_status : Http → PortainerClient → ℕ → ℕ → Text → Result (Unit {0})
unfolding expect itoa
set_edge_stack_status http c id status error =
    and_then (atoi http.int_size c.endpoint_id) (λ endpoint. done_after (
      expect 200 (codes "SetEdgeStackStatus operation failed")
        (http.send (stack_status_request c id status error endpoint))))

abbrev pub job_log_request : PortainerClient → ℕ → Text → Request
job_log_request c id content = record {
  method = codes "POST";
  url =
      c.server_address
      ++ codes "/api/endpoints/"
      ++ c.endpoint_id
      ++ codes "/edge/jobs/"
      ++ itoa id
      ++ codes "/logs";
  edge_id = c.edge_id;
  body = log_file_payload content;
}

pub send_job_log_file : Http → PortainerClient → ℕ → Text → Result (Unit {0})
unfolding expect itoa
send_job_log_file http c id content = done_after (
    expect 200 (codes "SendJobLogFile operation failed") (http.send (job_log_request c id content)))

abbrev pub key_url : Text → Text
key_url addr = codes "http://" ++ addr ++ codes "/key"

pub get_edge_key : Http → Text → Result Text
unfolding expect
get_edge_key http addr =
    and_then
      (expect 200 (codes "GetEdgeKey operation failed") (
        http.send
          (record { method = codes "GET"; url = key_url addr; edge_id = []; body = no_body })))
      http.decode_key

-- Another status than 204 is only logged.
pub sent : Result Reply → Result (Unit {0})
sent (err x) = err x
sent (ok r) = ok tt

pub set_edge_key : Http → Text → Text → Result (Unit {0})
unfolding sent
set_edge_key http addr key = sent (
    http.send (record {
      method = codes "POST";
      url = key_url addr;
      edge_id = [];
      body = edge_key_payload key;
    }))

-- A client for an endpoint whose identifier is no number reports no status, whatever the server says.
status_unsent :
    (http : Http) (c : PortainerClient) (id status : ℕ) (error x : Text)
    → atoi http.int_size c.endpoint_id ≡ err x
    → set_edge_stack_status http c id status error ≡ err x
unfolding set_edge_stack_status and_then
status_unsent http c id status error x h =
    ap
      (λ r. and_then r (λ endpoint. done_after (
        expect 200 (codes "SetEdgeStackStatus operation failed")
          (http.send (stack_status_request c id status error endpoint)))))
      h

-- The status of a stack is sent for the endpoint's number.
status_sent :
    (http : Http) (c : PortainerClient) (n id status : ℕ) (error : Text) (r : Reply)
    → c.endpoint_id ≡ itoa n
    → n < int_bound http.int_size
    → http.send (stack_status_request c id status error (pos n)) ≡ ok r
    → r.status_code ≡ 200
    → set_edge_stack_status http c id status error ≡ ok tt
unfolding set_edge_stack_status and_then expect
status_sent http c n id status error r e small reply code =
    let below : ltb n (int_bound http.int_size) ≡ true = ground (arith, small) in
    let number : atoi http.int_size c.endpoint_id ≡ ok (pos n) =
      ap (atoi http.int_size) e
      ∙ atoi-itoa http.int_size n
      ∙ ap (λ b. if b then ok (pos n) else err range_error) below in
    rw number (rw reply (rw code refl))
