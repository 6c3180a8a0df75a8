-- ===== src/Edge/Setup/Once.antt =====
-- That a key is given once (http/handler/key/key_create.go, edge/http/edge.go).
use agent_portainer.Prelude.{nat_eq, text_eq}
