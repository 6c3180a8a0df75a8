-- ===== src/Websocket.antt =====
-- The streams between a websocket and a container (http/handler/websocket/stream.go) and the handlers
-- that set them up (attach.go, exec.go, pod.go and hijack.go there). Upgrading and hijacking connections,
-- reads and writes are parameters. Decoding UTF-8 is Go's unicode/utf8.
mod Handlers
mod Padding
mod Tests
use agent_portainer.Prelude.{
  ℕ, zero, suc, ◌+◌, ◌-◌, ◌*◌, ◌/◌, ◌%◌, ◌≤◌, ◌<◌, ◌≡◌, refl, sym, ap, ◌∙◌, ◌≢◌, ◌↔◌, ◌⊎◌, inl, inr,
  Bool, true, false, not, ◌&&◌, ◌||◌, Option, none, some, List, [], ◌∷◌, ◌++◌, map, arith, ltb, leb,
  if◌then◌else◌, nat_beq, nat_beq_iff, Text, codes, text_beq, text_beq_iff, Equality, ◌==◌, nat_eq,
  text_eq, Bool-cases, by_test, Option-cases, length, length-append, All, All-append, lookup,
  insert, erase, has_key, lookup-insert, lookup-erase, has_key-insert, has_key-erase,
  has_key-lookup, beq_refl, itoa, itoa-All, has_prefix, strip_prefix, contains, split_by, split,
  drop_empty, fields_by, join, Lacks, split-join, join-split, split_by-skip, split_by-cut,
  split_by-nil, split_by-whole, split_by-append, by_test, Result, ok, err, Method, >>-keeps,
  >>-eq-ok, ◌>>=◌, ◌>>◌, return, lift, get, modify, Result-cases, take, drop, itoa-cons, IsDigit,
  is_digit, ℤ, pos, negsuc, atoi, atoi-itoa, itoa-IsDigit, int_bound, range_error, syntax_error,
  and_then, IfOk, and_then-IfOk,
}

abbrev pub reader_buffer_size : ℕ
reader_buffer_size = 2048

-- How many bytes follow the first one of a character, and the range of the first of them.
pub record Lead : Type 0 where
  pub following : ℕ
  pub low : ℕ
  pub high : ℕ

abbrev pub within : ℕ → ℕ → ℕ → Bool
within low high c = leb low c && leb c high

abbrev pub leads : ℕ → ℕ → ℕ → Option Lead
leads n low high = some (record { following = n; low = low; high = high })

abbrev pub lead : ℕ → Option Lead
lead c =
    if ltb c 128
    then leads 0 0 0
    else if within 194 223 c
    then leads 1 128 191
    else if c == 224
    then leads 2 160 191
    else if c == 237
    then leads 2 128 159
    else if within 225 239 c
    then leads 2 128 191
    else if c == 240
    then leads 3 144 191
    else if within 241 243 c
    then leads 3 128 191
    else if c == 244
    then leads 3 128 143
    else none

-- Whether so many bytes follow, the first one in the range.
pub has_tail : ℕ → ℕ → ℕ → Text → Bool
has_tail zero low high s = true
has_tail (suc n) low high [] = false
has_tail (suc n) low high (c ∷ s) = within low high c && has_tail n 128 191 s

-- The bytes that follow the first one of a character, or none if there is no character.
pub character : Option Lead → Text → Option ℕ
unfolding has_tail
character none s = none
character (some l) s = if has_tail l.following l.low l.high s then some l.following else none

-- `utf8.ValidString`, after so many bytes of a character.
pub valid_after : ℕ → Text → Bool
unfolding character
valid_after n [] = true
valid_after (suc n) (c ∷ s) = valid_after n s
valid_after zero (c ∷ s) = elim (character (lead c) s) [ none ↦ false | some n ↦ valid_after n s ]

abbrev pub is_valid : Text → Bool
is_valid s = valid_after 0 s

-- The loop of `validString`: a byte that begins no character is left out.
pub keep_after : ℕ → Text → Text
unfolding character
keep_after n [] = []
keep_after (suc n) (c ∷ s) = c ∷ keep_after n s
keep_after zero (c ∷ s) = elim (character (lead c) s) [
  | none ↦ keep_after 0 s
  | some n ↦ c ∷ keep_after n s
]

pub valid_string : Text → Text
unfolding valid_after keep_after
valid_string s = if not (is_valid s) then keep_after 0 s else s

abbrev pub zeros : ℕ → Text
zeros zero = []
zeros (suc n) = 0 ∷ zeros n

-- The message for a read: all of the buffer, which is new for each read.
pub message_of : Text → Text
unfolding valid_string
message_of part = valid_string (part ++ zeros (reader_buffer_size - length part))

-- `streamFromReaderToWebsocket` for the reads to come: the messages written and the error that ends the
-- loop, if there is one. A read that returns an error ends it, whatever bytes came with it.
pub stream_from_reader_to_websocket :
    (Text → Result (Unit {0})) → List (Result Text) → List Text × Option Text
unfolding message_of
stream_from_reader_to_websocket write [] = ([], none)
stream_from_reader_to_websocket write (err x ∷ reads) = ([], some x)
stream_from_reader_to_websocket write (ok part ∷ reads) =
    let (messages, end) = stream_from_reader_to_websocket write reads in
    elim (write (message_of part)) [
      | err x ↦ ([], some x)
      | ok _ ↦ (message_of part ∷ messages, end)
    ]

-- `streamFromWebsocketToWriter`.
pub stream_from_websocket_to_writer :
    (Text → Result (Unit {0})) → List (Result Text) → List Text × Option Text
stream_from_websocket_to_writer write [] = ([], none)
stream_from_websocket_to_writer write (err x ∷ reads) = ([], some x)
stream_from_websocket_to_writer write (ok message ∷ reads) =
    let (written, end) = stream_from_websocket_to_writer write reads in
    elim (write message) [ err x ↦ ([], some x) | ok _ ↦ (message ∷ written, end) ]
