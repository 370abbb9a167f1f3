-- ===== src/Server/Text/Valid.antt =====
-- The invariant of a string, and what growing keeps.
use gputop.Base.{
  scale_1_7, ◌≤◌, ◌*◌, ℕ, ◌+◌, ◌<◌, ◌≡◌, inl, inr, length, get_or, leb, Bytes, take, arith, refl,
  ◌∙◌, length-resize, take-resize, get_or-resize, Bool-cases,
}
use gputop.Server.Text.{Text, grow_if_necessary}

-- The block has its allocated size, and holds `len` bytes and a NUL.
pub record IsValid (s : Text) : Type 0 where
  pub block : length s.str ≡ s.allocated_len
  pub room : s.len < s.allocated_len
  pub terminated : get_or s.str s.len 0 ≡ 0

abbrev pub contents : Text → Bytes
contents s = take s.len s.str

-- The block has its allocated size and room for `n` bytes more and a NUL.
pub record HasRoom (s : Text) (n : ℕ) : Type 0 where
  pub block : length s.str ≡ s.allocated_len
  pub room : s.len + n < s.allocated_len

pub grow_HasRoom :
    (fill : ℕ) (s : Text) (n : ℕ)
    → IsValid s
    → HasRoom (grow_if_necessary fill s n) n
      × ((grow_if_necessary fill s n).len ≡ s.len)
      × (contents (grow_if_necessary fill s n) ≡ contents s)
      × (get_or (grow_if_necessary fill s n).str s.len 0 ≡ 0)
unfolding grow_if_necessary
grow_HasRoom fill s n v = elim (Bool-cases (leb s.allocated_len (s.len + n))) [
  | inl grows ↦ rw grows (
    record {
      block = length-resize fill grown s.str (omega (arith, v.block, v.room));
      room = omega (arith, v.room);
    },
    refl,
    take-resize fill grown s.len s.str (omega (arith, v.block)) (omega (arith, v.block, v.room)),
    get_or-resize fill grown s.len 0 s.str (omega (arith, v.block)) (omega (arith, v.block, v.room))
        ∙ v.terminated,
  )
  | inr fits ↦ rw fits (record { block = v.block; room = ground arith }, refl, refl, v.terminated)
]
  where
    grown : ℕ
    grown = scale_1_7 (s.allocated_len + n + 16)

pub grown_lt :
    (fill : ℕ) (s : Text) (n : ℕ)
    → (grow_if_necessary fill s n).allocated_len ≤ 2 * (s.allocated_len + n + 16)
unfolding grow_if_necessary
grown_lt fill s n = ground arith
