-- ===== src/Lib.antt =====
-- The Portainer agent: a service on each node of a Docker, Podman or Kubernetes environment that
-- gives a Portainer server access to the node and, in a cluster, to the other nodes. An Edge
-- agent has no open port: it polls the server, opens a reverse tunnel when the server asks for
-- one, and runs the stacks and the schedules that the server assigns to it.
--
-- The parts and their files:
--  * Prelude: texts, Boolean tests, maps, results, printed and read numbers and Go's string functions.
--  * Base64: base64.RawStdEncoding of Go's standard library.
--  * Agent: the types and constants of agent.go.
--  * Startup: cmd/agent/main.go and os/kubernetes.go, up to the API server. It uses Docker,
--    docker/docker.go, and Edge.Key.
--  * Api: which handler serves a path, http/handler/handler.go, handlerv1.go and handlerv2.go;
--    Api.Routes: the routers of the handlers and the guards in them, the files handler.go in the folders
--    of http/handler/; Api.Server: http/server.go; Api.Handlers: the handlers that pass on the answer of
--    a service.
--  * Security: crypto/ecdsa.go, and the guard of http/security/notary.go in front of the handlers.
--  * Serf: the cluster service, serf/cluster.go: the tags of an agent, the members, the searches.
--  * Volume: paths inside a volume and Volume.Write, writing files, filesystem/filesystem.go;
--    Volume.Browse: http/handler/browse/.
--  * Routing: which node serves a request and what is forwarded,
--    http/handler/docker/docker_operation.go, http/proxy/agentproxy.go, http/proxy/proxy.go and
--    http/handler/websocket/attach.go and exec.go; Routing.Aggregation: http/proxy/cluster.go and
--    http/proxy/response.go; Routing.Aggregation.Race: the goroutines that copy a request, in any order.
--  * Websocket: http/handler/websocket/stream.go; Websocket.Handlers: hijack.go, attach.go, exec.go and
--    pod.go there, on the node that serves a request.
--  * DockerHub: http/handler/dockerhub/dockerhub_status.go.
--  * Deployers: exec/ and http/handler/kubernetes/kubernetes_deploy.go.
--  * Edge.Key: edge/key.go. It uses Base64, and Serf to find and to publish keys.
--  * Edge.Setup: http/handler/key/ and edge/http/edge.go, over Edge.Key.
--  * Edge.Client: edge/client/.
--  * Edge.Stack: edge/stack/stack.go, with UpdateStacksStatus; Edge.Stack.Runner: the worker, Start,
--    Stop and SetEngineStatus.
--  * Edge.Scheduler: edge/scheduler/scheduler.go; Edge.Scheduler.Logs: edge/scheduler/logs.go.
--  * Edge.Poll: edge/poll.go with chisel/client.go; Edge.Poll.Manager: edge/edge.go, its
--    start and its background process. They drive Edge.Scheduler and Edge.Stack by their operations.
--
-- Operations keep the names of the Go functions, in lower case with underscores. A receiver's
-- fields are a record; an operation takes the state and returns it with a result, or is a Method
-- of Prelude/Results.antt. An error is its text. What other code returns, such as the server, the
-- disk, the engine and the libraries, is a record of functions, such as Env, which the statements
-- leave open; some keep the calls made, the latest first.
--
-- A Go string is the list of its bytes. Identifiers, versions, ports and seconds are natural
-- numbers; an int that is read from a text has its sign and the 32 or 64 bits of the target. A Go
-- map is an association list in the order in which it is ranged over, and the statements hold for
-- every order. A pointer to a stack is its key in the map, and each part of the manager that
-- holds the lock is one step. A file that is removed or written is one step; what a failed write
-- leaves is open, also of the key file. Printed numbers, the worker's turns and the chunks of a
-- copy are counted with fuel: n + 1 is enough for the digits of n, as many turns as there are
-- pending stacks for the worker, and one turn more than there are bytes for a copy.
--
-- Not modelled: TLS and the making of certificates, the parsing of the command line, logging,
-- resolving names, listening and response headers, forming and leaving the serf cluster, the
-- Kubernetes client and the reverse proxies of Go's library, what is specific to Windows, and the
-- scheduling of other goroutines. A websocket's two streams, the worker and the polls are taken
-- one at a time.
mod Prelude
mod Base64
pub mod Agent
pub mod Serf
pub mod Security
pub mod Volume
pub mod Routing
pub mod Edge
pub mod Api
pub mod DockerHub
pub mod Docker
pub mod Startup
pub mod Websocket
pub mod Deployers
