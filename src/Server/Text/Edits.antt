-- ===== src/Server/Text/Edits.antt =====
-- New, truncated and assigned strings.
use mathlib.Core.Path.{subst}
use gputop.Base.{
  ℕ, ◌+◌, ◌≤◌, ◌≡◌, inl, inr, false, some, [], ◌∷◌, ◌++◌, max, length, leb, Bytes, splice, write,
  take, arith, refl, ap, sym, ◌∙◌, write_lem, read_lem, length-splice, take-splice_before,
  get_or-splice, Bool-cases, length-append, length-take, take_all, take-append_le, replicate,
  length-replicate, take-take,
}
use gputop.Server.Text.{Text, c_string, new_len, new, truncate, assign}
use gputop.Server.Text.Valid.{IsValid, contents, HasRoom}
use gputop.Server.Text.Laws.{Holds, append-Holds, closed-IsValid, contents-closed, write-laid}

-- Cutting a string at `len` within its contents.
module _ (s : Text) (v : IsValid s) (len : ℕ) (inside : len ≤ s.len) where
  abbrev pub cut : Bytes
  cut = splice s.str len (0 ∷ [])

  pub cut_fits : len + 1 ≤ length s.str
  cut_fits = omega (arith, v.block, v.room)

  pub write-cut : write s.str len (0 ∷ []) ≡ some cut
  write-cut = write_lem s.str len (0 ∷ []) cut_fits

  cut-IsValid : IsValid (record s { str = cut; len = len })
  cut-IsValid = record {
    block = length-splice s.str len (0 ∷ []) cut_fits ∙ v.block;
    room = omega (arith, v.room);
    terminated = get_or-splice s.str len (0 ∷ []) cut_fits len 0 0 (omega arith) (omega arith);
  }

  contents-cut : take len cut ≡ take len (contents s)
  contents-cut =
      take-splice_before s.str len (0 ∷ []) cut_fits len (omega arith)
      ∙ sym (take-take len s.len s.str inside)

-- `gputop_string_truncate` leaves the first `len` bytes of the contents, or all of them.
pub truncate-Holds :
    (s : Text) (len : ℕ) → IsValid s → Holds (truncate s len) (take len (contents s))
unfolding truncate
truncate-Holds s len v = elim (Bool-cases (leb s.len len)) [
  | inl all ↦ rw all (record {
    text = s;
    returns = refl;
    valid = v;
    holds = sym (take_all len (contents s) (ground (arith, length-take {0} s.len s.str)));
  })
  | inr some_left ↦
      let inside : len ≤ s.len = ground arith in
      rw some_left (record {
        text = record s { str = cut s v len inside; len = len };
        returns = rw (write-cut s v len inside) refl;
        valid = cut-IsValid s v len inside;
        holds = contents-cut s v len inside;
      })
]

-- `gputop_string_assign` replaces the contents by `val`, unless it is given its own block.
pub assign-Holds :
    (fill : ℕ) (s : Text) (val : Bytes) → IsValid s → Holds (assign fill s val false) val
unfolding assign
assign-Holds fill s val v =
    let cleared = truncate-Holds s 0 v in
    let filled = append-Holds fill cleared.text val cleared.valid in
    record {
      text = filled.text;
      returns = rw cleared.returns filled.returns;
      valid = filled.valid;
      holds = filled.holds ∙ ap (λ t. t ++ val) cleared.holds;
    }

abbrev fresh : ℕ → ℕ → Text
fresh fill n = record { str = replicate n fill; len = 0; allocated_len = n }

-- `gputop_string_new` of a C string is a valid string with its bytes.
pub new-Holds : (fill : ℕ) (init : Bytes) → Holds (new fill (some init)) init
unfolding new_len
new-Holds fill init =
    let n = length init in
    let size = max (n + 1) 16 in
    let blank = fresh fill size in
    let room : HasRoom blank n = record {
      block = length-replicate size fill;
      room = omega arith;
    } in
    let e : 0 + n ≡ n = omega arith in
    let body = splice blank.str 0 init in
    record {
      text = record { str = splice body n (0 ∷ []); len = n; allocated_len = size };
      returns =
          rw
            (
              read_lem (c_string init) 0 n (omega (arith, length-append {0} init (0 ∷ []))),
              take-append_le n init (0 ∷ []) (omega arith),
              take_all n init (omega arith),
              write-laid blank init n refl room,
              write_lem body n (0 ∷ []) (
                  omega (
                    arith,
                    length-splice blank.str 0 init (omega (arith, length-replicate {0} size fill)),
                    length-replicate {0} size fill,
                  )),
            )
            refl;
      valid =
          subst (λ k. IsValid (record blank { str = splice body k (0 ∷ []); len = k })) e
            (closed-IsValid blank init n refl room);
      holds =
          subst (λ k. take k (splice body k (0 ∷ [])) ≡ init) e
            (contents-closed blank init n refl room);
    }
