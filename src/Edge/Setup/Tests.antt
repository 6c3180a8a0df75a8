-- ===== src/Edge/Setup/Tests.antt =====
-- Giving a key at concrete inputs (http/handler/key/, edge/http/edge.go).
use agent_portainer.Prelude.{none, Text, codes, nat_eq, text_eq, ok, err}
use agent_portainer.Edge.Key.{Keeper, Env}
use agent_portainer.Edge.Setup.{Starter}

-- The key "http|a|b|1".
abbrev key : Text
key = codes "aHR0cHxhfGJ8MQ"

abbrev env : Env
env = record { write_key_file = λ t. ok tt; torn_key_file = λ f. none; set_tags = λ tags. ok tt }

abbrev empty : Keeper
empty = record { key = none; key_file = none; cluster = none }

-- A manager that does not start.
abbrev start : Starter
start k = err (codes "unable to start")
