-- ===== src/Server/Text.antt =====
-- The growable string of server/gputop-string.c.
-- A C string argument is the list of its bytes before the NUL, and lies outside the string's own
-- block. A `ssize_t` is an `Option ℕ` where the source treats a negative one as "not given".
-- Sizes are plain numbers: a size that wraps could not have been allocated.
pub mod Valid
pub mod Laws
pub mod Edits
pub mod Moves
pub mod Escape
mod Examples
use gputop.Base.{
  scale_1_7, ℕ, ◌+◌, ◌-◌, ◌*◌, ◌/◌, ◌^◌, max, Bool, true, false, ◌||◌, Option, none, some, List, [],
  ◌∷◌, ◌++◌, length, get_or, leb, ltb, ◌==◌, if◌then◌else◌, Bytes, read, write, resize, replicate,
  u64, ◌>>=◌, not,
}

-- `gputop_string_t`; `str` is the allocated block.
pub record Text : Type 0 where
  pub str : Bytes
  pub len : ℕ
  pub allocated_len : ℕ

-- The bytes of a C string, with its NUL.
abbrev pub c_string : Bytes → Bytes
c_string val = val ++ (0 ∷ [])

abbrev pub given_or : Option ℕ → ℕ → ℕ
given_or none n = n
given_or (some len) n = len

-- `gputop_string_truncate`.
unfoldable pub truncate : Text → ℕ → Option Text
truncate string len =
    if leb string.len len
    then some string
    else do str ← write string.str len (0 ∷ []); some (record string { str = str; len = len })

-- `string->str[pos] = 0`.
abbrev end_at : Text → ℕ → Option Text
end_at string pos = write string.str pos (0 ∷ []) >>= λ str. some (record string { str = str })

-- `gputop_string_erase`; `none` for the length is -1. Nothing is done to `len` at the tail.
unfoldable pub erase : Text → ℕ → Option ℕ → Option Text
erase string pos none = if leb string.len pos then some string else end_at string pos
erase string pos (some len) =
    if leb string.len pos
    then some string
    else if leb string.len (pos + len)
    then end_at string pos
    else do
      moved ← read string.str (pos + len) (string.len - (pos + len) + 1)
      str ← write string.str pos moved
      some (record string { str = str; len = string.len - len })

-- `gputop_string_free`: the block, where the caller keeps it.
unfoldable pub free : Text → Bool → Option Bytes
free string free_segment = if free_segment then none else some string.str

-- `gputop_string_printf`; `text` is what `vasprintf` made, `none` if it failed.
unfoldable pub printf : Text → Option Bytes → Option Text
printf string none = none
printf string (some text) =
    some (record { str = c_string text; len = length text; allocated_len = length text + 1 })

-- What `malloc` and `realloc` leave in new bytes.
module _ (fill : ℕ) where
  -- `GROW_IF_NECESSARY`.
  unfoldable pub grow_if_necessary : Text → ℕ → Text
  grow_if_necessary s l =
      let grown = scale_1_7 (s.allocated_len + l + 16) in
      if leb s.allocated_len (s.len + l)
      then record s { str = resize fill grown s.str; allocated_len = grown }
      else s

  -- `gputop_string_new_len`; `init` may be NULL.
  unfoldable pub new_len : Option Bytes → Option ℕ → Option Text
  new_len none len = do
    str ← write (replicate 16 fill) 0 (0 ∷ [])
    some (record { str = str; len = 0; allocated_len = 16 })
  new_len (some init) len = do
    let n = given_or len (length init)
    let allocated = max (n + 1) 16
    bytes ← read (c_string init) 0 n
    str ← write (replicate allocated fill) 0 bytes
    str' ← write str n (0 ∷ [])
    some (record { str = str'; len = n; allocated_len = allocated })

  -- `gputop_string_new`.
  abbrev pub new : Option Bytes → Option Text
  new init = new_len init none

  -- `gputop_string_sized_new`.
  unfoldable pub sized_new : ℕ → Option Text
  sized_new default_size = do
    str ← write (replicate default_size fill) 0 (0 ∷ [])
    some (record { str = str; len = 0; allocated_len = default_size })

  -- `gputop_string_append_len`.
  unfoldable pub append_len : Text → Bytes → Option ℕ → Option Text
  unfolding grow_if_necessary
  append_len string0 val len = do
    let n = given_or len (length val)
    let string = grow_if_necessary string0 n
    bytes ← read (c_string val) 0 n
    str ← write string.str string.len bytes
    str' ← write str (string.len + n) (0 ∷ [])
    some (record string { str = str'; len = string.len + n })

  -- `gputop_string_append`.
  abbrev pub append : Text → Bytes → Option Text
  append string val = append_len string val none

  -- `gputop_string_assign`; `same` tells whether `val` is the string's own block.
  unfoldable pub assign : Text → Bytes → Bool → Option Text
  unfolding truncate append_len
  assign string val same =
      if same then some string else do string' ← truncate string 0; append string' val

  -- `gputop_string_append_c`.
  unfoldable pub append_c : Text → ℕ → Option Text
  unfolding grow_if_necessary
  append_c string0 c = do
    let string = grow_if_necessary string0 1
    str ← write string.str string.len (c ∷ [])
    str' ← write str (string.len + 1) (0 ∷ [])
    some (record string { str = str'; len = string.len + 1 })

  -- `gputop_string_prepend`.
  unfoldable pub prepend : Text → Bytes → Option Text
  unfolding grow_if_necessary
  prepend string0 val = do
    let string = grow_if_necessary string0 (length val)
    moved ← read string.str 0 (string.len + 1)
    str ← write string.str (length val) moved
    str' ← write str 0 val
    some (record string { str = str' })

  -- `gputop_string_insert`; the count of the `memmove` is a `size_t` and wraps below 0.
  unfoldable pub insert : Text → ℕ → Bytes → Option Text
  unfolding grow_if_necessary
  insert string0 pos val = do
    let string = grow_if_necessary string0 (length val)
    moved ← read string.str pos (u64 (string.len + 1 + 2 * 2 ^ 64 - pos - length val))
    str ← write string.str (pos + length val) moved
    str' ← write str pos val
    some (record string { str = str' })

  -- `gputop_string_append_printf` and `gputop_string_append_vprintf`; `text` as in `printf`.
  unfoldable pub append_printf : Text → Option Bytes → Option Text
  unfolding append_len
  append_printf string none = none
  append_printf string (some text) = append string text

  -- `gputop_string_set_size`.
  unfoldable pub set_size : Text → ℕ → Option Text
  unfolding grow_if_necessary
  set_size string0 len = do
    let string = grow_if_necessary string0 len
    str ← write string.str len (0 ∷ [])
    some (record string { str = str; len = len })

  -- The `switch` of `gputop_string_append_escaped`.
  unfoldable pub append_escape : Text → ℕ → Option Text
  append_escape str c =
      if c == 0x22
      then append_len str (0x22 ∷ []) (some 2)
      else if c == 0x5c
      then append_len str (0x5c ∷ 0x5c ∷ []) (some 2)
      else if c == 0x08
      then append_len str (0x5c ∷ b'b' ∷ []) (some 2)
      else if c == 0x0c
      then append_len str (0x5c ∷ b'f' ∷ []) (some 2)
      else if c == 0x0a
      then append_len str (0x5c ∷ b'n' ∷ []) (some 2)
      else if c == 0x0d
      then append_len str (0x5c ∷ b'r' ∷ []) (some 2)
      else if c == 0x09
      then append_len str (0x5c ∷ b't' ∷ []) (some 2)
      else append_c str c

  -- `gputop_string_append_escaped`.
  unfoldable pub append_escaped : Text → Bytes → Option Text
  unfolding append_escape
  append_escaped str [] = some str
  append_escaped str (c ∷ cs) = append_escape str c >>= λ str'. append_escaped str' cs
