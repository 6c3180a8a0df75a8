-- ===== src/Edge/Key/Format.antt =====
-- The format of the Edge key, both ways (edge/key.go).
use agent_portainer.Prelude.{
  ◌≡◌, sym, ap, ◌∙◌, inl, inr, List, [], ◌∷◌, arith, Text, codes, nat_eq, text_eq, All, All-append,
  split, join, Lacks, split-join, join-split, ok, Result-cases,
}
use agent_portainer.Base64.{encode_to_string, decode_string}
use agent_portainer.Base64.RoundTrip.{IsBytes, decode-encode}
use agent_portainer.Edge.Key.{EdgeKey, parse_edge_key, key_of_parts, encode_key}

abbrev pub parts : EdgeKey → List Text
parts k =
    k.portainer_instance_url ∷ k.tunnel_server_addr ∷ k.tunnel_server_fingerprint ∷ k.endpoint_id
    ∷ []

-- A key whose parts are bytes without the separator.
abbrev pub IsPlain : EdgeKey → Type 0
IsPlain k = All (λ t. IsBytes t × Lacks b'|' t) (parts k)

join-IsBytes : (ts : List Text) → All IsBytes ts → IsBytes (join (codes "|") ts)
unfolding join
join-IsBytes [] h = tt
join-IsBytes (t ∷ []) (h, _) = h
join-IsBytes (t ∷ u ∷ us) (h, hs) = All-append _ t _ h (omega arith, join-IsBytes (u ∷ us) hs)

plain-IsBytes : (k : EdgeKey) → IsPlain k → All IsBytes (parts k)
plain-IsBytes k h = (h.0.0, (h.1.0.0, (h.1.1.0.0, (h.1.1.1.0.0, tt))))

plain-Lacks : (k : EdgeKey) → IsPlain k → All (Lacks b'|') (parts k)
plain-Lacks k h = (h.0.1, (h.1.0.1, (h.1.1.0.1, (h.1.1.1.0.1, tt))))

-- A key whose parts are bytes without `|` is parsed back from its encoding.
pub parse_edge_key-encode_key : (k : EdgeKey) → IsPlain k → parse_edge_key (encode_key k) ≡ ok k
unfolding parse_edge_key encode_key key_of_parts
parse_edge_key-encode_key k h =
    rw
      (
        decode-encode (join (codes "|") (parts k)) (join-IsBytes (parts k) (plain-IsBytes k h)),
        parse_edge_key,
      )
      (rw (split-join b'|' k.portainer_instance_url _ (plain-Lacks k h)))

-- A text is accepted as a key exactly if it decodes to a text of four parts, and the key then spells
-- that text.
key_of_parts_ok : (ts : List Text) {k : EdgeKey} → key_of_parts ts ≡ ok k → ts ≡ parts k
unfolding key_of_parts
key_of_parts_ok (a ∷ b ∷ c ∷ d ∷ []) h = ground arith
key_of_parts_ok [] h = cc
key_of_parts_ok (a ∷ []) h = cc
key_of_parts_ok (a ∷ b ∷ []) h = cc
key_of_parts_ok (a ∷ b ∷ c ∷ []) h = cc
key_of_parts_ok (a ∷ b ∷ c ∷ d ∷ e ∷ f) h = cc

-- The parts of an accepted key, joined, are the decoded text; so `GetKey` of a manager with that key
-- encodes the very bytes that it was given.
pub encode_key-parse_edge_key :
    (text : Text) (k : EdgeKey)
    → parse_edge_key text ≡ ok k
    → (decoded : Text) × (decode_string text ≡ ok decoded)
      × (encode_key k ≡ encode_to_string decoded)
unfolding parse_edge_key encode_key
encode_key-parse_edge_key text k h = elim (Result-cases (decode_string text)) [
  | inl (decoded, e) ↦
      let accepted : key_of_parts (split b'|' decoded) ≡ ok k = rw (e, parse_edge_key) at h in
      (
        decoded,
        e,
        ap encode_to_string (
            ap (join (codes "|")) (sym (key_of_parts_ok (split b'|' decoded) accepted))
            ∙ join-split b'|' decoded),
      )
  | inr (x, e) ↦ cc (rw (e, parse_edge_key) at h)
]
