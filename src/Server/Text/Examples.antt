-- ===== src/Server/Text/Examples.antt =====
-- The theorems on strings at concrete inputs, and tests.
use gputop.Base.{◌≡◌, some, [], ◌∷◌, ◌++◌, Bytes, arith, refl, take}
use gputop.Server.Text.{Text, append_len, append_escaped, c_string}
use gputop.Server.Text.Valid.{IsValid, contents}
use gputop.Server.Text.Laws.{Holds, append_len-Holds}
use gputop.Server.Text.Escape.{unescape, append_escaped-unescape}

-- "abcd" in a block of 8 bytes.
abbrev abcd : Text
abcd = record { str = b'a' ∷ b'b' ∷ b'c' ∷ b'd' ∷ 0 ∷ 9 ∷ 9 ∷ 9 ∷ []; len = 4; allocated_len = 8 }

abcd-IsValid : IsValid abcd
abcd-IsValid = record { block = refl; room = omega arith; terminated = refl }

abbrev wxyz : Bytes
wxyz = b'w' ∷ b'x' ∷ b'y' ∷ b'z' ∷ []

append_len-Holds_example :
    Holds (append_len 0 abcd wxyz (some 2)) (contents abcd ++ take 2 (c_string wxyz))
append_len-Holds_example = append_len-Holds 0 abcd wxyz (some 2) abcd-IsValid (omega arith)

append_escaped-unescape_example :
    (e : Bytes) × (unescape e ≡ some (b'a' ∷ 10 ∷ []))
    × Holds (append_escaped 0 abcd (b'a' ∷ 10 ∷ [])) (contents abcd ++ e)
append_escaped-unescape_example =
    append_escaped-unescape 0 (b'a' ∷ 10 ∷ []) abcd abcd-IsValid (grind arith)
