-- ===== src/Server/Text/Moves.antt =====
-- Operations that move the contents: erasing, prepending and inserting.
use gputop.Base.{
  ℕ, ◌+◌, ◌-◌, ◌≤◌, ◌<◌, ◌≡◌, true, false, none, some, [], ◌∷◌, ◌++◌, length, get_or, leb, Bytes,
  splice, take, drop, arith, refl, ap, sym, ◌∙◌, ap₂, drop-take, get_or-take, get_or-drop,
  write_lem, read_lem, read_fault, u64, ◌^◌, ◌*◌, length-splice, drop-splice, get_or-splice,
  length-take, length-drop, take-append_le, take-append_ge, take-take, get_or-append_ge,
  get_or-append_lt,
}
use gputop.Server.Text.{Text, grow_if_necessary, erase, prepend, insert}
use gputop.Server.Text.Edits.{cut, cut_fits, write-cut}
use gputop.Server.Text.Valid.{IsValid, contents, grow_HasRoom, grown_lt}
use gputop.Server.Text.Laws.{Holds}

-- Moving the bytes from `pos + n` on, with the NUL, down to `pos`.
module _ (s : Text) (v : IsValid s) (pos n : ℕ) (inside : pos + n < s.len) where
  abbrev rest : ℕ
  rest = s.len - (pos + n)

  abbrev moved : Bytes
  moved = take (rest + 1) (drop (pos + n) s.str)

  length-moved : length moved ≡ rest + 1
  length-moved = omega (
    arith,
    length-take {0} (rest + 1) (drop (pos + n) s.str),
    length-drop {0} (pos + n) s.str,
    v.block,
    v.room,
  )

  moved_fits : pos + length moved ≤ length s.str
  moved_fits = omega (arith, length-moved, v.block, v.room)

  abbrev closed_up : Text
  closed_up = record s { str = splice s.str pos moved; len = s.len - n }

  closed_up-IsValid : IsValid closed_up
  closed_up-IsValid = record {
    block = length-splice s.str pos moved moved_fits ∙ v.block;
    room = omega (arith, v.room);
    terminated =
        get_or-splice s.str pos moved moved_fits (s.len - n) rest 0 (omega arith)
          (omega (arith, length-moved))
        ∙ (get_or-take (rest + 1) rest (drop (pos + n) s.str) 0 (omega arith)
            ∙ (get_or-drop (pos + n) rest s.len s.str 0 (omega arith) ∙ v.terminated));
  }

  contents-closed_up : contents closed_up ≡ take pos (contents s) ++ drop (pos + n) (contents s)
  contents-closed_up =
      take-append_ge (s.len - n) rest (take pos s.str) (moved ++ drop (pos + length moved) s.str)
        (omega (arith, length-take {0} pos s.str, v.block, v.room))
      ∙ ap₂ ◌++◌ (sym (take-take pos s.len s.str (omega arith))) (
          take-append_le rest moved _ (omega (arith, length-moved))
          ∙ (take-take rest (rest + 1) (drop (pos + n) s.str) (omega arith)
              ∙ sym (drop-take (pos + n) s.len rest s.str (omega arith))))

-- `gputop_string_erase` of `n` bytes that end before the end of a valid string's contents takes
-- exactly those bytes out.
pub erase-Holds :
    (s : Text) (pos n : ℕ)
    → IsValid s
    → pos + n < s.len
    → Holds (erase s pos (some n)) (take pos (contents s) ++ drop (pos + n) (contents s))
unfolding erase
erase-Holds s pos n v inside = record {
  text = closed_up s v pos n inside;
  returns =
      rw
        (
          test s.len pos (omega arith),
          test s.len (pos + n) inside,
          read_lem s.str (pos + n) (s.len - (pos + n) + 1) (omega (arith, v.block, v.room)),
          write_lem s.str pos (moved s v pos n inside) (moved_fits s v pos n inside),
        )
        refl;
  valid = closed_up-IsValid s v pos n inside;
  holds = contents-closed_up s v pos n inside;
}
  where
    test : (a b : ℕ) → b < a → leb a b ≡ false
    test a b h = ground arith

-- Erasing up to or past the end ends the C string at `pos` but leaves `len` as it was, so what
-- is appended later lands behind the NUL.
pub erase_tail_len :
    (s : Text) (pos n : ℕ)
    → IsValid s
    → pos < s.len
    → s.len ≤ pos + n
    → (s' : Text) × (erase s pos (some n) ≡ some s')
      × (s'.len ≡ s.len)
      × (get_or s'.str pos 0 ≡ 0)
      × (erase s pos none ≡ some s')
unfolding erase
erase_tail_len s pos n v inside tail = (
  record s { str = cut s v pos (omega arith) },
  rw (test s.len pos inside, all s.len (pos + n) tail, write-cut s v pos (omega arith)) refl,
  refl,
  get_or-splice s.str pos (0 ∷ []) (cut_fits s v pos (omega arith)) pos 0 0 (omega arith)
      (omega arith),
  rw (test s.len pos inside, write-cut s v pos (omega arith)) refl,
)
  where
    test : (a b : ℕ) → b < a → leb a b ≡ false
    test a b h = ground arith

    all : (a b : ℕ) → a ≤ b → leb a b ≡ true
    all a b h = ground arith

-- `gputop_string_prepend` puts the bytes of `val` and the old contents with their NUL into the
-- block without leaving it, but leaves `len` as it was: short by the length of `val`.
pub prepend_len :
    (fill : ℕ) (s : Text) (val : Bytes)
    → IsValid s
    → (s' : Text) × (prepend fill s val ≡ some s')
      × (take (length val + s.len) s'.str ≡ val ++ contents s)
      × (get_or s'.str (length val + s.len) 0 ≡ 0)
      × (s'.len ≡ s.len)
unfolding prepend
prepend_len fill s val v =
    let n = length val in
    let g = grow_if_necessary fill s n in
    let (room, same_len, same, nul) = grow_HasRoom fill s n v in
    let front = take (g.len + 1) g.str in
    let size : length front ≡ g.len + 1 =
      omega (arith, length-take {0} (g.len + 1) g.str, room.block, room.room) in
    let fits : n + length front ≤ length g.str = omega (arith, size, room.block, room.room) in
    let shifted = splice g.str n front in
    let e : 0 + n ≡ n = omega arith in
    let behind : drop (0 + n) shifted ≡ front ++ drop (n + length front) g.str =
      ap (λ k. drop k shifted) e ∙ drop-splice g.str n front fits in
    (
      record g { str = splice shifted 0 val },
      rw
          (
            read_lem g.str 0 (g.len + 1) (omega (arith, room.block, room.room)),
            write_lem g.str n front fits,
            write_lem shifted 0 val (omega (arith, length-splice g.str n front fits)),
          )
          refl,
      take-append_ge (n + s.len) s.len val _ refl
          ∙ ap (λ t. val ++ t)
              (ap (take s.len) behind
                ∙ (take-append_le s.len front _ (omega (arith, size, same_len))
                    ∙ (take-take s.len (g.len + 1) g.str (omega (arith, same_len))
                        ∙ (ap (λ k. take k g.str) (sym same_len) ∙ same)))),
      get_or-append_ge (n + s.len) s.len val _ 0 refl
          ∙ (ap (λ t. get_or t s.len 0) behind
              ∙ (get_or-append_lt s.len front _ 0 (omega (arith, size, same_len))
                  ∙ (get_or-take (g.len + 1) s.len g.str 0 (omega (arith, same_len)) ∙ nul))),
      same_len,
    )

-- `gputop_string_insert` of more bytes than there are from `pos` to the NUL, in a block of a size
-- that exists, gives the `memmove` a count that wrapped below 0, far out of the block.
pub insert_underflow :
    (fill : ℕ) (s : Text) (pos : ℕ) (val : Bytes)
    → IsValid s
    → pos ≤ s.len
    → s.len + 1 < pos + length val
    → s.allocated_len + length val < 2 ^ 61
    → insert fill s pos val ≡ none
unfolding insert
insert_underflow fill s pos val v inside over small =
    let g = grow_if_necessary fill s (length val) in
    let (room, same_len, same, nul) = grow_HasRoom fill s (length val) v in
    rw
      (
        same_len,
        read_fault g.str pos (u64 (s.len + 1 + 2 * 2 ^ 64 - pos - length val))
            (omega (arith, room.block, v.room, grown_lt fill s (length val))),
      )
      refl
