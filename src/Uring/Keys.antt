-- ===== src/Uring/Keys.antt =====
-- The keys of the ring.
use vibeio.Prelude.{ℕ, ◌-◌, ◌<◌, ◌^◌, ◌≡◌, ◌≢◌, arith}
use vibeio.Uring.{
  encode_completion_key, encode_poll_key, decode_token, decode_key_kind, interrupt_key, timeout_key,
  poll_key_kind, completion_key_kind,
}

-- A key of a token below 2^63 - 1 leads back to the token and to the kind it was made for, and is
-- neither the interruptor's key nor the timeout's.
pub decode-encode :
    (token : ℕ)
    → token < 2 ^ 63 - 1
    → (decode_token (encode_completion_key token) ≡ token)
      × (decode_key_kind (encode_completion_key token) ≡ completion_key_kind)
      × (decode_token (encode_poll_key token) ≡ token)
      × (decode_key_kind (encode_poll_key token) ≡ poll_key_kind)
      × (encode_completion_key token ≢ interrupt_key)
      × (encode_completion_key token ≢ timeout_key)
      × (encode_poll_key token ≢ interrupt_key)
      × (encode_poll_key token ≢ timeout_key)
unfolding encode_completion_key encode_poll_key decode_token decode_key_kind
decode-encode token h = (
  omega arith,
  omega arith,
  omega arith,
  omega arith,
  λ p. omega arith,
  λ p. omega arith,
  λ p. omega arith,
  λ p. omega arith,
)
