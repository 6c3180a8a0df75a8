-- ===== src/Base64.antt =====
-- `base64.RawStdEncoding` of Go's standard library: what edge/key.go, edge/poll.go,
-- edge/scheduler/scheduler.go and crypto/ecdsa.go call. The decoder skips line breaks and does not
-- look at the bits that the last character has too many. Its error text is kept without the offset.
pub mod RoundTrip
use mathlib.Core.Option
use agent_portainer.Prelude.{
  ℕ, zero, suc, ◌+◌, ◌-◌, ◌*◌, ◌/◌, ◌%◌, ◌≤◌, ◌<◌, ◌≡◌, refl, sym, ap, ◌∙◌, ◌≢◌, ◌↔◌, ◌⊎◌, inl, inr,
  Bool, true, false, not, ◌&&◌, ◌||◌, Option, none, some, List, [], ◌∷◌, ◌++◌, map, arith, ltb, leb,
  if◌then◌else◌, nat_beq, nat_beq_iff, Text, codes, text_beq, text_beq_iff, Equality, ◌==◌, nat_eq,
  text_eq, Bool-cases, Option-cases, length, length-append, All, All-append, lookup, insert, erase,
  has_key, lookup-insert, lookup-erase, has_key-insert, has_key-erase, has_key-lookup, beq_refl,
  itoa, has_prefix, strip_prefix, contains, split_by, split, drop_empty, fields_by, join, Lacks,
  split-join, join-split, Result, ok, err, Method, >>-keeps, >>-eq-ok, ◌>>=◌, ◌>>◌, return, lift,
  get, modify, Result-cases,
}

alphabet : ℕ → ℕ
alphabet n =
    if ltb n 26
    then b'A' + n
    else if ltb n 52
    then b'a' + (n - 26)
    else if ltb n 62
    then b'0' + (n - 52)
    else if n == 62
    then b'+'
    else b'/'

decode_char : ℕ → Option ℕ
decode_char c =
    if leb b'A' c && leb c b'Z'
    then some (c - b'A')
    else if leb b'a' c && leb c b'z'
    then some (c - b'a' + 26)
    else if leb b'0' c && leb c b'9'
    then some (c - b'0' + 52)
    else if c == b'+'
    then some 62
    else if c == b'/'
    then some 63
    else none

-- `EncodeToString`.
unfoldable pub encode_to_string : Text → Text
unfolding alphabet
encode_to_string [] = []
encode_to_string (a ∷ []) = alphabet (a / 4) ∷ alphabet (a % 4 * 16) ∷ []
encode_to_string (a ∷ b ∷ []) =
    alphabet (a / 4) ∷ alphabet (a % 4 * 16 + b / 16) ∷ alphabet (b % 16 * 4) ∷ []
encode_to_string (a ∷ b ∷ c ∷ s) =
    alphabet (a / 4)
    ∷ alphabet (a % 4 * 16 + b / 16)
    ∷ alphabet (b % 16 * 4 + c / 64)
    ∷ alphabet (c % 64)
    ∷ encode_to_string s

strip_line_breaks : Text → Text
strip_line_breaks [] = []
strip_line_breaks (c ∷ s) =
    if c == b'\n' || c == b'\r' then strip_line_breaks s else c ∷ strip_line_breaks s

decode_chars : Text → Option (List ℕ)
unfolding decode_char
decode_chars [] = some []
decode_chars (c ∷ s) = elim (decode_char c) [
  | none ↦ none
  | some v ↦ Option.map (λ vs. v ∷ vs) (decode_chars s)
]

-- The bytes that groups of four six-bit values hold; one value alone in the last group is an error.
unpack : List ℕ → Option Text
unpack [] = some []
unpack (a ∷ []) = none
unpack (a ∷ b ∷ []) = some ((a * 4 + b / 16) ∷ [])
unpack (a ∷ b ∷ c ∷ []) = some ((a * 4 + b / 16) ∷ (b % 16 * 16 + c / 4) ∷ [])
unpack (a ∷ b ∷ c ∷ d ∷ s) =
    Option.map (λ t. (a * 4 + b / 16) ∷ (b % 16 * 16 + c / 4) ∷ (c % 4 * 64 + d) ∷ t) (unpack s)

abbrev pub illegal_data : Text
illegal_data = codes "illegal base64 data"

-- `DecodeString`.
unfoldable pub decode_string : Text → Result Text
unfolding strip_line_breaks decode_chars unpack
decode_string s = elim (decode_chars (strip_line_breaks s)) [
  | none ↦ err illegal_data
  | some vs ↦ elim (unpack vs) [ none ↦ err illegal_data | some t ↦ ok t ]
]

encode_test : encode_to_string (codes "http|a|b|1") ≡ codes "aHR0cHxhfGJ8MQ"
unfolding encode_to_string
encode_test = refl

decode_test : decode_string (codes "aHR0cHxh\nfGJ8MQ") ≡ ok (codes "http|a|b|1")
unfolding decode_string
decode_test = refl
