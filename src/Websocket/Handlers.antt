-- ===== src/Websocket/Handlers.antt =====
-- The handlers of the websockets (http/handler/websocket/attach.go, exec.go, pod.go and hijack.go), on
-- the node that serves the request. What is behind the connections is a parameter.
-- How a request to the Docker engine over a connection to be hijacked ends.
use agent_portainer.Prelude.{
  ℕ, Bool, true, false, not, List, [], ◌++◌, if◌then◌else◌, Text, codes, ◌==◌, nat_eq, text_eq,
  itoa, split, Result, ok, err, and_then,
}

pub data Done : Type 0 where
  persist_eof : Done
  failed : Text → Done
  responded : (status : ℕ) → Done

-- How the streams of a hijacked connection end: the error, and whether it is an unexpected close.
pub record Closed : Type 0 where
  pub reason : Text
  pub unexpected : Bool

-- The request to the engine, with whether it carries the payload for a terminal.
pub record StartRequest : Type 0 where
  pub method : Text
  pub url : Text
  pub with_tty : Bool

-- A process to be started in a container of a pod.
pub record ExecProcess : Type 0 where
  pub token : Text
  pub namespace : Text
  pub pod_name : Text
  pub container_name : Text
  pub command : List Text

pub record Env : Type 0 where
  pub is_hexadecimal : Text → Bool
  pub upgrade : Result (Unit {0})
  pub create_dial : Result (Unit {0})
  pub do_request : StartRequest → Done
  pub closed : Closed
  pub start_exec_process : ExecProcess → Result (Unit {0})

-- The query of a request: the value of a parameter, or the error that it is missing.
abbrev pub Query : Type 0
Query = Text → Result Text

pub data Answer : Type 0 where
  error : (status : ℕ) → (message : Text) → Answer
  streamed : Answer

abbrev pub close_error : Closed → Result (Unit {0})
close_error c = if c.unexpected then err c.reason else ok tt

pub after_request : Done → Closed → Result (Unit {0})
unfolding itoa
after_request persist_eof c = close_error c
after_request (failed x) c = err x
after_request (responded status) c =
    if not (status == 101)
    then err (codes "unable to upgrade to tcp, received " ++ itoa status)
    else close_error c

-- `hijackRequest`.
pub hijack_request : Env → StartRequest → Result (Unit {0})
unfolding after_request
hijack_request env r = after_request (env.do_request r) env.closed

-- `createAttachStartRequest` and `createExecStartRequest`.
abbrev pub create_attach_start_request : Text → StartRequest
create_attach_start_request id = record {
  method = codes "POST";
  url = codes "/containers/" ++ id ++ codes "/attach?stdin=1&stdout=1&stderr=1&stream=1";
  with_tty = false;
}

abbrev pub create_exec_start_request : Text → StartRequest
create_exec_start_request id = record {
  method = codes "POST";
  url = codes "/exec/" ++ id ++ codes "/start";
  with_tty = true;
}

pub hijack_attach_start_operation : Env → Text → Result (Unit {0})
unfolding hijack_request
hijack_attach_start_operation env id =
    and_then env.create_dial (λ _. hijack_request env (create_attach_start_request id))

pub hijack_exec_start_operation : Env → Text → Result (Unit {0})
unfolding hijack_request
hijack_exec_start_operation env id =
    and_then env.create_dial (λ _. hijack_request env (create_exec_start_request id))

-- The connection is upgraded, and then hijacked.
pub upgraded : Result (Unit {0}) → Text → Text → Result (Unit {0}) → Answer
upgraded (err x) not_upgraded not_hijacked r = error 500 not_upgraded
upgraded (ok _) not_upgraded not_hijacked (err x) = error 500 not_hijacked
upgraded (ok _) not_upgraded not_hijacked (ok _) = streamed

abbrev pub not_hexadecimal : Answer
not_hexadecimal = error 400 (codes "Invalid query parameter: id (must be hexadecimal identifier)")

abbrev pub invalid_parameter : Text → Answer
invalid_parameter name = error 400 (codes "Invalid query parameter: " ++ name)

pub attach_to : Env → Result Text → Answer
unfolding upgraded hijack_attach_start_operation
attach_to env (err x) = invalid_parameter (codes "id")
attach_to env (ok id) =
    if not (env.is_hexadecimal id)
    then not_hexadecimal
    else upgraded env.upgrade
        (codes "An error occured during websocket attach operation: unable to upgrade connection")
        (codes "An error occured during websocket attach operation")
        (hijack_attach_start_operation env id)

pub handle_attach_request : Env → Query → Answer
unfolding attach_to
handle_attach_request env query = attach_to env (query (codes "id"))

-- A missing parameter is "" here.
abbrev pub value_or_empty : Result Text → Text
value_or_empty (ok t) = t
value_or_empty (err x) = []

pub exec_in : Env → Text → Answer
unfolding upgraded hijack_exec_start_operation
exec_in env id =
    if id == []
    then invalid_parameter (codes "id")
    else if not (env.is_hexadecimal id)
    then not_hexadecimal
    else upgraded env.upgrade
        (codes "An error occured during websocket exec operation: unable to upgrade connection")
        (codes "An error occured during websocket exec hijack operation")
        (hijack_exec_start_operation env id)

pub handle_exec_request : Env → Query → Answer
unfolding exec_in
handle_exec_request env query = exec_in env (value_or_empty (query (codes "id")))

-- A parameter that must be there.
pub with_parameter : Query → Text → (Text → Answer) → Answer
with_parameter query name f = elim (query name) [
  | err x ↦ invalid_parameter name
  | ok value ↦ f value
]

pub exec_process : Env → ExecProcess → Answer
unfolding upgraded
exec_process env p =
    upgraded env.upgrade (codes "Unable to upgrade the connection")
      (codes "Unable to start exec process inside container") (env.start_exec_process p)

-- `websocketPodExec`, with the token of the request; how the streams end is only logged.
pub websocket_pod_exec : Env → Text → Query → Answer
unfolding with_parameter exec_process
websocket_pod_exec env token query = with_parameter query (codes "namespace") (λ namespace.
    with_parameter query (codes "podName") (λ pod.
      with_parameter query (codes "containerName") (λ container.
        with_parameter query (codes "command") (λ command. exec_process env (record {
          token = token;
          namespace = namespace;
          pod_name = pod;
          container_name = container;
          command = split b' ' command;
        })))))
