-- ===== src/Server/Text/Laws.antt =====
-- What the operations of a string do to its contents.
use gputop.Base.{
  ℕ, ◌+◌, ◌≤◌, ◌≡◌, Option, none, some, [], ◌∷◌, ◌++◌, length, Bytes, splice, write, take, arith,
  refl, ap, ◌∙◌, write_lem, read_lem, length-splice, take-splice_before, take-splice_end,
  get_or-splice, length-append, length-take, take_all, take-append_le,
}
use gputop.Server.Text.{Text, grow_if_necessary, c_string, append_len, append, append_c, given_or}
use gputop.Server.Text.Valid.{IsValid, contents, HasRoom, grow_HasRoom}

-- Bytes laid behind the contents, and a NUL behind them.
module _ (s : Text) (bytes : Bytes) (n : ℕ) (size : length bytes ≡ n) (r : HasRoom s n) where
  abbrev pub laid : Bytes
  laid = splice s.str s.len bytes

  abbrev pub closed : Bytes
  closed = splice laid (s.len + n) (0 ∷ [])

  in_block : s.len + length bytes ≤ length s.str
  in_block = omega (arith, r.block, r.room)

  nul_in_block : s.len + n + 1 ≤ length laid
  nul_in_block = omega (arith, length-splice s.str s.len bytes in_block, r.block, r.room)

  pub write-laid : write s.str s.len bytes ≡ some laid
  write-laid = write_lem s.str s.len bytes in_block

  pub write-closed : write laid (s.len + n) (0 ∷ []) ≡ some closed
  write-closed = write_lem laid (s.len + n) (0 ∷ []) nul_in_block

  pub closed-IsValid : IsValid (record s { str = closed; len = s.len + n })
  closed-IsValid = record {
    block =
        length-splice laid (s.len + n) (0 ∷ []) nul_in_block
        ∙ (length-splice s.str s.len bytes in_block ∙ r.block);
    room = r.room;
    terminated =
        get_or-splice laid (s.len + n) (0 ∷ []) nul_in_block (s.len + n) 0 0 (omega arith)
          (omega arith);
  }

  pub contents-closed : take (s.len + n) closed ≡ contents s ++ bytes
  contents-closed =
      take-splice_before laid (s.len + n) (0 ∷ []) nul_in_block (s.len + n) (omega arith)
      ∙ take-splice_end s.str s.len bytes in_block (s.len + n) (omega (arith, size))

-- What an operation that succeeds leaves: a valid string with the contents `b`.
pub record Holds (result : Option Text) (b : Bytes) : Type 0 where
  pub text : Text
  pub returns : result ≡ some text
  pub valid : IsValid text
  pub holds : contents text ≡ b

-- `gputop_string_append_len` of at most the bytes of `val` and its NUL never leaves the block,
-- and appends exactly those bytes to the contents of a valid string.
pub append_len-Holds :
    (fill : ℕ) (s : Text) (val : Bytes) (len : Option ℕ)
    → IsValid s
    → given_or len (length val) ≤ length val + 1
    → Holds
        (append_len fill s val len)
        (contents s ++ take (given_or len (length val)) (c_string val))
unfolding append_len
append_len-Holds fill s val len v fits =
    let n = given_or len (length val) in
    let g = grow_if_necessary fill s n in
    let (room, same_len, same, nul) = grow_HasRoom fill s n v in
    let bytes = take n (c_string val) in
    let size : length bytes ≡ n =
      omega (arith, length-take {0} n (c_string val), length-append {0} val (0 ∷ [])) in
    record {
      text = record g { str = closed g bytes n size room; len = g.len + n };
      returns =
          rw
            (
              read_lem (c_string val) 0 n (omega (arith, length-append {0} val (0 ∷ []))),
              write-laid g bytes n size room,
              write-closed g bytes n size room,
            )
            refl;
      valid = closed-IsValid g bytes n size room;
      holds = contents-closed g bytes n size room ∙ ap (λ t. t ++ bytes) same;
    }

-- `gputop_string_append` never leaves the block of a valid string, and appends the bytes of `val`.
pub append-Holds :
    (fill : ℕ) (s : Text) (val : Bytes) → IsValid s → Holds (append fill s val) (contents s ++ val)
append-Holds fill s val v = rw (all val) at (append_len-Holds fill s val none v (omega arith))
  where
    all : (val : Bytes) → take (length val) (c_string val) ≡ val
    all val =
        take-append_le (length val) val (0 ∷ []) (omega arith)
        ∙ take_all (length val) val (omega arith)

-- `gputop_string_append_c` likewise, for one byte.
pub append_c-Holds :
    (fill : ℕ) (s : Text) (c : ℕ) → IsValid s → Holds (append_c fill s c) (contents s ++ (c ∷ []))
unfolding append_c
append_c-Holds fill s c v =
    let g = grow_if_necessary fill s 1 in
    let (room, same_len, same, nul) = grow_HasRoom fill s 1 v in
    let bytes = c ∷ [] in
    record {
      text = record g { str = closed g bytes 1 refl room; len = g.len + 1 };
      returns = rw (write-laid g bytes 1 refl room, write-closed g bytes 1 refl room) refl;
      valid = closed-IsValid g bytes 1 refl room;
      holds = contents-closed g bytes 1 refl room ∙ ap (λ t. t ++ bytes) same;
    }
