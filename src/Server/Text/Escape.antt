-- ===== src/Server/Text/Escape.antt =====
-- `gputop_string_append_escaped`: what it appends can be read back.
use mathlib.Core.Option
use mathlib.Core.List.{append_assoc, append-nil}
use gputop.Base.{
  ℕ, ◌≡◌, ◌≢◌, Bool, true, false, ◌||◌, Option, none, some, [], ◌∷◌, ◌++◌, ◌==◌, if◌then◌else◌,
  Bytes, arith, refl, ap, sym, ◌∙◌, ◌>>=◌, All,
}
use gputop.Server.Text.{Text, append_len, append_escape, append_escaped}
use gputop.Server.Text.Valid.{IsValid, contents}
use gputop.Server.Text.Laws.{Holds, append_len-Holds, append_c-Holds}

-- The bytes that the `switch` appends for `c`.
pub escape : ℕ → Bytes
escape c =
    if c == 0x22
    then 0x22 ∷ 0 ∷ []
    else if c == 0x5c
    then 0x5c ∷ 0x5c ∷ []
    else if c == 0x08
    then 0x5c ∷ b'b' ∷ []
    else if c == 0x0c
    then 0x5c ∷ b'f' ∷ []
    else if c == 0x0a
    then 0x5c ∷ b'n' ∷ []
    else if c == 0x0d
    then 0x5c ∷ b'r' ∷ []
    else if c == 0x09
    then 0x5c ∷ b't' ∷ []
    else c ∷ []

pub escape_all : Bytes → Bytes
escape_all [] = []
escape_all (c ∷ cs) = escape c ++ escape_all cs

-- The byte that a reader takes for a backslash and `d`.
pub escaped_byte : ℕ → Option ℕ
escaped_byte d =
    if d == 0x5c
    then some 0x5c
    else if d == b'b'
    then some 0x08
    else if d == b'f'
    then some 0x0c
    else if d == b'n'
    then some 0x0a
    else if d == b'r'
    then some 0x0d
    else if d == b't'
    then some 0x09
    else none

-- A reader of escaped text; `none` on a quote, a NUL or an unknown escape.
pub unescape : Bytes → Option Bytes
unescape [] = some []
unescape (c ∷ []) = if (c == 0x5c) || (c == 0x22) || (c == 0) then none else some (c ∷ [])
unescape (c ∷ d ∷ cs) =
    let escaped = (escaped_byte d >>= λ b. Option.map (λ r. b ∷ r) (unescape cs)) in
    let plain = Option.map (λ r. c ∷ r) (unescape (d ∷ cs)) in
    if c == 0x5c then escaped else if (c == 0x22) || (c == 0) then none else plain

-- One escaped byte is read back, whatever follows it.
unescape-escape :
    (c : ℕ) (rest : Bytes)
    → c ≢ 0x22
    → c ≢ 0
    → unescape (escape c ++ rest) ≡ Option.map (λ r. c ∷ r) (unescape rest)
unfolding unescape escape escaped_byte
unescape-escape c [] h k = ground arith
unescape-escape c (d ∷ rest) h k = ground arith

abbrev pub Escapable : ℕ → Type 0
Escapable c = (c ≢ 0x22) × (c ≢ 0)

unescape-escape_all : (cs : Bytes) → All Escapable cs → unescape (escape_all cs) ≡ some cs
unfolding escape_all
unescape-escape_all [] h = unfold unescape in refl
unescape-escape_all (c ∷ cs) h =
    unescape-escape c (escape_all cs) h.0.0 h.0.1
    ∙ ap (Option.map (λ r. c ∷ r)) (unescape-escape_all cs h.1)

-- A test picks the call and the bytes alike.
pick :
    (b : Bool) (x y : Option Text) (c p q : Bytes)
    → Holds x (c ++ p)
    → Holds y (c ++ q)
    → Holds (if b then x else y) (c ++ (if b then p else q))
pick true x y c p q h k = h
pick false x y c p q h k = k

append_escape-Holds :
    (fill : ℕ) (s : Text) (c : ℕ)
    → IsValid s
    → Holds (append_escape fill s c) (contents s ++ escape c)
unfolding append_escape escape
append_escape-Holds fill s c v =
    pick (c == 0x22) _ _ _ _ _ (append_len-Holds fill s (0x22 ∷ []) (some 2) v (omega arith)) (
      pick (c == 0x5c) _ _ _ _ _ (two 0x5c) (
        pick (c == 0x08) _ _ _ _ _ (two b'b') (
          pick (c == 0x0c) _ _ _ _ _ (two b'f') (
            pick (c == 0x0a) _ _ _ _ _ (two b'n') (
              pick (c == 0x0d) _ _ _ _ _ (two b'r')
                (pick (c == 0x09) _ _ _ _ _ (two b't') (append_c-Holds fill s c v)))))))
  where
    two :
        (d : ℕ) → Holds (append_len fill s (0x5c ∷ d ∷ []) (some 2)) (contents s ++ (0x5c ∷ d ∷ []))
    two d = append_len-Holds fill s (0x5c ∷ d ∷ []) (some 2) v (omega arith)

-- `gputop_string_append_escaped` never leaves the block of a valid string, and appends the
-- escaped form of every byte in order.
append_escaped-Holds :
    (fill : ℕ) (cs : Bytes) (s : Text)
    → IsValid s
    → Holds (append_escaped fill s cs) (contents s ++ escape_all cs)
unfolding append_escaped escape_all
append_escaped-Holds fill [] s v = record {
  text = s;
  returns = refl;
  valid = v;
  holds = sym (append-nil (contents s));
}
append_escaped-Holds fill (c ∷ cs) s v =
    let first = append_escape-Holds fill s c v in
    let rest = append_escaped-Holds fill cs first.text first.valid in
    record {
      text = rest.text;
      returns = rw first.returns rest.returns;
      valid = rest.valid;
      holds =
          rest.holds
          ∙ (ap (λ t. t ++ escape_all cs) first.holds
              ∙ append_assoc (contents s) (escape c) (escape_all cs));
    }

-- For bytes without a quote, `gputop_string_append_escaped` on a valid string never leaves the
-- block, keeps the string valid and appends an encoding that a reader of the escapes turns back
-- into those bytes.
pub append_escaped-unescape :
    (fill : ℕ) (cs : Bytes) (s : Text)
    → IsValid s
    → All Escapable cs
    → (e : Bytes) × (unescape e ≡ some cs) × Holds (append_escaped fill s cs) (contents s ++ e)
append_escaped-unescape fill cs s v h =
    (escape_all cs, unescape-escape_all cs h, append_escaped-Holds fill cs s v)

-- A quote is not escaped: on a valid string it is appended as itself and a NUL, before the
-- escaped form of the bytes behind it.
pub append_escaped_quote :
    (fill : ℕ) (cs : Bytes) (s : Text)
    → IsValid s
    → Holds (append_escaped fill s (0x22 ∷ cs)) (contents s ++ (0x22 ∷ 0 ∷ escape_all cs))
append_escaped_quote fill cs s v =
    unfold escape_all escape in append_escaped-Holds fill (0x22 ∷ cs) s v
