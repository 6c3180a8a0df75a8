-- ===== src/Websocket/Tests.antt =====
-- Messages at concrete inputs (http/handler/websocket/stream.go).
use agent_portainer.Prelude.{◌≡◌, refl, true, [], ◌∷◌, ◌++◌, arith, codes, nat_eq, text_eq, length}
use agent_portainer.Websocket.{
  is_valid, valid_after, character, has_tail, keep_after, valid_string, zeros, message_of,
  reader_buffer_size,
}
use agent_portainer.Websocket.Padding.{message_of-padded}

-- The first two of the three bytes of a character, which a read cut off, are left out.
cut_test : valid_string (codes "a" ++ 226 ∷ 130 ∷ []) ≡ codes "a"
unfolding valid_string valid_after keep_after character has_tail
cut_test = refl

euro_test : valid_string (226 ∷ 130 ∷ 172 ∷ []) ≡ 226 ∷ 130 ∷ 172 ∷ []
unfolding valid_string valid_after character has_tail
euro_test = refl

message_of-padded_example :
    (is_valid (message_of (255 ∷ [])) ≡ true)
    × (message_of (codes "ls") ≡ codes "ls" ++ zeros 2046)
    × (length (message_of (codes "ls")) ≡ reader_buffer_size)
unfolding valid_after character has_tail
message_of-padded_example = message_of-padded (255 ∷ []) (codes "ls") refl (omega arith)
