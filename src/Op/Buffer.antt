-- ===== src/Op/Buffer.antt =====
-- `CompletionBuffer` of vibeio/src/op/io_util.rs, and the traits `IoBuf` and `IoBufMut` of
-- vibeio/src/io/buf.rs as an interface. An address is not modelled.
use vibeio.Prelude.{ℕ, ◌≡◌, refl, Bool, false, ◌&&◌, if◌then◌else◌}

pub record IoBufMut (B : Type 0) : Type 0 where
  pub buf_len : B → ℕ
  pub buf_capacity : B → ℕ
  pub would_box : B → Bool
  pub set_buf_init : B → ℕ → B

pub data CompletionBuffer (B : Type 0) : Type 0 where
  inline : B → CompletionBuffer B
  boxed : B → CompletionBuffer B

module _ {B : Type 0} where
  unfoldable pub as_ref : CompletionBuffer B → B
  as_ref (inline buf) = buf
  as_ref (boxed buf) = buf

  -- A write through `as_mut`.
  unfoldable pub modify : (B → B) → CompletionBuffer B → CompletionBuffer B
  modify f (inline buf) = inline (f buf)
  modify f (boxed buf) = boxed (f buf)

  unfoldable pub into_inner : CompletionBuffer B → B
  into_inner (inline buf) = buf
  into_inner (boxed buf) = buf

  -- Every buffer stands behind a pointer afterwards.
  unfoldable pub into_stable_box : CompletionBuffer B → CompletionBuffer B
  into_stable_box (inline buf) = boxed buf
  into_stable_box (boxed buf) = boxed buf

  pub as_ref-modify : (f : B → B) (b : CompletionBuffer B) → as_ref (modify f b) ≡ f (as_ref b)
  unfolding as_ref modify
  as_ref-modify f (inline buf) = refl
  as_ref-modify f (boxed buf) = refl

module _ {B : Type 0} ⦃buffer : IoBufMut B⦄ where
  unfoldable pub completion_buffer : B → Bool → CompletionBuffer B
  completion_buffer buf stable = if stable && buffer.would_box buf then boxed buf else inline buf

-- `impl IoBufMut for Vec<u8>`, of which only the sizes are kept.
pub record VecBuf : Type 0 where
  pub len : ℕ
  pub capacity : ℕ

instance abbrev pub vec_buf : IoBufMut VecBuf
vec_buf = record {
  buf_len = λ buf. buf.len;
  buf_capacity = λ buf. buf.capacity;
  would_box = λ buf. false;
  set_buf_init = λ buf n. record buf { len = n };
}
