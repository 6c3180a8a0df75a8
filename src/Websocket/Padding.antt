-- ===== src/Websocket/Padding.antt =====
-- What is written to a websocket (http/handler/websocket/stream.go).
use agent_portainer.Prelude.{
  ℕ, zero, suc, ◌-◌, ◌≤◌, ◌≡◌, refl, ap, ◌∙◌, inl, inr, true, not, Option, none, some, [], ◌∷◌,
  ◌++◌, arith, Text, nat_eq, text_eq, Bool-cases, by_test, Option-cases, length, length-append,
  by_test,
}
use mathlib.Core.Path.{subst}
use agent_portainer.Websocket.{
  Lead, lead, has_tail, character, valid_after, is_valid, keep_after, valid_string, zeros,
  message_of, reader_buffer_size,
}

-- Keeping the bytes of a character keeps it one.
has_tail-keep_after :
    (n low high : ℕ) (s : Text)
    → has_tail n low high s ≡ true
    → has_tail n low high (keep_after n s) ≡ true
unfolding has_tail keep_after
has_tail-keep_after zero low high s h = refl
has_tail-keep_after (suc n) low high [] h = cc
has_tail-keep_after (suc n) low high (c ∷ s) h = ground (arith, has_tail-keep_after n 128 191 s)

character-keep_after :
    (l : Option Lead) (s : Text) (n : ℕ)
    → character l s ≡ some n
    → character l (keep_after n s) ≡ some n
unfolding character
character-keep_after none s n h = cc
character-keep_after (some l) s n h = elim (Bool-cases (has_tail l.following l.low l.high s)) [
  | inr e ↦ cc (rw e at h)
  | inl e ↦
      let same : l.following ≡ n = cc (rw e at h) in
      subst (λ m. character (some l) (keep_after m s) ≡ some m) same
        (rw (has_tail-keep_after l.following l.low l.high s e) refl)
]

valid_after-keep_after : (n : ℕ) (s : Text) → valid_after n (keep_after n s) ≡ true
unfolding valid_after keep_after
valid_after-keep_after n [] = refl
valid_after-keep_after (suc n) (c ∷ s) = valid_after-keep_after n s
valid_after-keep_after zero (c ∷ s) = elim (Option-cases (character (lead c) s)) [
  | inl e ↦ rw (e, keep_after) (valid_after-keep_after 0 s)
  | inr (n, e) ↦
      rw (e, keep_after)
        (rw (character-keep_after (lead c) s n e, valid_after) (valid_after-keep_after n s))
]

valid_string-is_valid : (s : Text) → is_valid (valid_string s) ≡ true
unfolding valid_string
valid_string-is_valid s =
    by_test (λ t. is_valid t ≡ true) (not (is_valid s)) (λ _. valid_after-keep_after 0 s)
      (λ e. ground arith)

has_tail-append :
    (n low high : ℕ) (s t : Text)
    → has_tail n low high s ≡ true
    → (has_tail n low high (s ++ t) ≡ true) × (n ≤ length s)
unfolding has_tail
has_tail-append zero low high s t h = (refl, omega arith)
has_tail-append (suc n) low high [] t h = cc
has_tail-append (suc n) low high (c ∷ s) t h = ground (arith, has_tail-append n 128 191 s t)

character-append :
    (l : Option Lead) (s t : Text) (n : ℕ)
    → character l s ≡ some n
    → (character l (s ++ t) ≡ some n) × (n ≤ length s)
unfolding character
character-append none s t n h = cc
character-append (some l) s t n h = ground (arith, has_tail-append l.following l.low l.high s t)

valid_after-append :
    (n : ℕ) (s t : Text)
    → n ≤ length s
    → valid_after n s ≡ true
    → is_valid t ≡ true
    → valid_after n (s ++ t) ≡ true
unfolding valid_after
valid_after-append zero [] t h v w = w
valid_after-append (suc n) [] t h v w = absurd (omega arith)
valid_after-append (suc n) (c ∷ s) t h v w = valid_after-append n s t (omega arith) v w
valid_after-append zero (c ∷ s) t h v w = elim (Option-cases (character (lead c) s)) [
  | inl e ↦ cc (rw (e, valid_after) at v)
  | inr (n, e) ↦
      let (whole, short) = character-append (lead c) s t n e in
      rw (whole, valid_after) (valid_after-append n s t short (rw (e, valid_after) at v) w)
]

zeros_valid : (n : ℕ) → is_valid (zeros n) ≡ true
unfolding valid_after character has_tail
zeros_valid zero = refl
zeros_valid (suc n) = zeros_valid n

valid_string_valid : (s : Text) → is_valid s ≡ true → valid_string s ≡ s
unfolding valid_string
valid_string_valid s h = rw h refl

length-zeros : (n : ℕ) → length (zeros n) ≡ n
length-zeros zero = refl
length-zeros (suc n) = omega (arith, length-zeros n)

-- Whatever was read, the message that is written is valid UTF-8; and for valid text that fits into the
-- buffer it is the text with zero bytes behind it, up to the size of the buffer.
pub message_of-padded :
    (any part : Text)
    → is_valid part ≡ true
    → length part ≤ reader_buffer_size
    → (is_valid (message_of any) ≡ true)
      × (message_of part ≡ part ++ zeros (reader_buffer_size - length part))
      × (length (message_of part) ≡ reader_buffer_size)
unfolding message_of
message_of-padded any part valid fits =
    let rest = zeros (reader_buffer_size - length part) in
    let whole : is_valid (part ++ rest) ≡ true =
      valid_after-append 0 part rest (omega arith) valid
        (zeros_valid (reader_buffer_size - length part)) in
    let same = valid_string_valid (part ++ rest) whole in
    let sum = length-append part rest in
    let filled = length-zeros (reader_buffer_size - length part) in
    (
      valid_string-is_valid (any ++ zeros (reader_buffer_size - length any)),
      same,
      ap (λ t. length t) same ∙ omega (arith, sum, filled, fits),
    )
