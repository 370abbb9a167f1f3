-- ===== src/Util.antt =====
-- The growable array of lib/gputop-util.h.
-- Sizes are natural numbers; an element is a list of bytes.
pub mod Elements
mod Examples
use gputop.Base.{
  ℕ, ◌+◌, ◌-◌, ◌*◌, max, Option, none, some, leb, ◌==◌, if◌then◌else◌, replicate, Bytes, resize,
  read, write, scale_1_7, ◌>>=◌, length,
}

-- `struct array`; `bytes` is the allocated block.
pub record Array : Type 0 where
  pub elem_size : ℕ
  pub len : ℕ
  pub size : ℕ
  pub bytes : Bytes

-- What `malloc` and `realloc` leave in new bytes.
module _ (fill : ℕ) where
  -- `array_new`.
  unfoldable pub array_new : ℕ → ℕ → Array
  array_new elem_size alloc_len = record {
    elem_size = elem_size;
    len = 0;
    size = elem_size * alloc_len;
    bytes = replicate (elem_size * alloc_len) fill;
  }

  -- `array_set_len`.
  unfoldable pub array_set_len : Array → ℕ → Array
  array_set_len array len =
      let needed = len * array.elem_size in
      let size = max needed (scale_1_7 array.size) in
      if leb needed array.size
      then record array { len = len }
      else record array { len = len; size = size; bytes = resize fill size array.bytes }

  -- `array_append`; `none` is a copy out of bounds.
  unfoldable pub array_append : Array → Bytes → Option Array
  unfolding array_set_len
  array_append array data0 =
      let array' = array_set_len array (array.len + 1) in
      write array'.bytes (array.elem_size * (array'.len - 1)) data0 >>= λ bytes.
      some (record array' { bytes = bytes })

-- `array_remove_fast`, which moves the last element to `idx`.
unfoldable pub array_remove_fast : Array → ℕ → Option Array
array_remove_fast array idx =
    let len = array.len - 1 in
    if idx == len
    then some (record array { len = len })
    else read array.bytes (len * array.elem_size) array.elem_size >>= λ last.
        write array.bytes (idx * array.elem_size) last >>= λ bytes.
        some (record array { len = len; bytes = bytes })
