-- ===== src/Base64/RoundTrip.antt =====
-- Decoding an encoded text gives its bytes back.
use agent_portainer.Prelude.{
  ℕ, ◌+◌, ◌*◌, ◌/◌, ◌%◌, ◌<◌, ◌≡◌, refl, ap, ◌∙◌, some, List, [], ◌∷◌, map, arith, Text, nat_eq,
  text_eq, All, ok,
}
use agent_portainer.Base64.{
  alphabet, decode_char, encode_to_string, decode_chars, unpack, decode_string, strip_line_breaks,
}

abbrev pub IsBytes : Text → Type 0
IsBytes = All (λ c. c < 256)

decode_char-alphabet : (n : ℕ) → n < 64 → decode_char (alphabet n) ≡ some n
unfolding decode_char alphabet
decode_char-alphabet n h = ground arith

strip-alphabet :
    (n : ℕ) (s : Text) → strip_line_breaks (alphabet n ∷ s) ≡ alphabet n ∷ strip_line_breaks s
unfolding strip_line_breaks alphabet
strip-alphabet n s = ground arith

-- The six-bit values that an encoding writes.
pack : Text → List ℕ
pack [] = []
pack (a ∷ []) = a / 4 ∷ (a % 4 * 16) ∷ []
pack (a ∷ b ∷ []) = a / 4 ∷ (a % 4 * 16 + b / 16) ∷ (b % 16 * 4) ∷ []
pack (a ∷ b ∷ c ∷ s) = a / 4 ∷ (a % 4 * 16 + b / 16) ∷ (b % 16 * 4 + c / 64) ∷ (c % 64) ∷ pack s

encode-pack : (t : Text) → encode_to_string t ≡ map alphabet (pack t)
unfolding encode_to_string pack
encode-pack [] = refl
encode-pack (a ∷ []) = refl
encode-pack (a ∷ b ∷ []) = refl
encode-pack (a ∷ b ∷ c ∷ s) = cc (encode-pack s)

strip-map : (vs : List ℕ) → strip_line_breaks (map alphabet vs) ≡ map alphabet vs
strip-map [] = unfold strip_line_breaks in refl
strip-map (v ∷ vs) = strip-alphabet v (map alphabet vs) ∙ ap (λ s. alphabet v ∷ s) (strip-map vs)

decode_chars-map : (vs : List ℕ) → All (λ v. v < 64) vs → decode_chars (map alphabet vs) ≡ some vs
unfolding decode_chars
decode_chars-map [] h = refl
decode_chars-map (v ∷ vs) (h, hs) =
    rw (decode_char-alphabet v h, decode_chars) (rw (decode_chars-map vs hs))

pack_bound : (t : Text) → IsBytes t → All (λ v. v < 64) (pack t)
unfolding pack
pack_bound [] h = tt
pack_bound (a ∷ []) h = omega arith
pack_bound (a ∷ b ∷ []) h = omega arith
pack_bound (a ∷ b ∷ c ∷ s) (ha, (hb, (hc, hs))) =
    (omega arith, (omega arith, (omega arith, (omega arith, pack_bound s hs))))

unpack-pack : (t : Text) → IsBytes t → unpack (pack t) ≡ some t
unfolding unpack pack
unpack-pack [] h = refl
unpack-pack (a ∷ []) h = ground arith
unpack-pack (a ∷ b ∷ []) h = ground arith
unpack-pack (a ∷ b ∷ c ∷ s) h = ground (arith, unpack-pack s)

pub decode-encode : (t : Text) → IsBytes t → decode_string (encode_to_string t) ≡ ok t
unfolding decode_string
decode-encode t h = rw (encode-pack t) (
    rw (strip-map (pack t), decode_string)
      (rw (decode_chars-map (pack t) (pack_bound t h)) (rw (unpack-pack t h))))
