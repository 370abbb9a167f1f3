-- ===== src/Server/Topology/Faults.antt =====
-- When the loops over `subslices_mask` fail.
use mathlib.Core.Path.{subst}
use native.Mathlib.Nat.{mul-zero, mul-le-mul_right}
use gputop.Base.{
  ℕ, zero, suc, ◌+◌, ◌*◌, ◌≤◌, ◌<◌, ◌≡◌, ◌⊎◌, ◌↔◌, refl, ap, arith, Option, none, some, List,
  length, replicate, ltb, ◌>>=◌, Bool-cases, ltb→lt, inl, inr,
}
use gputop.Server.Topology.{for_range, put, byte_of, fill_subslices}
use gputop.Client.Topology.{bytes_for}
use gputop.Server.Topology.Written.{
  for_range-none, Written, write_byte, write_byte-Written, bytes-Written, start-Written, next_slice,
  fill_subslices-Written,
}

module _ (ss_mask : ℕ) where
  write_byte-shift : (stride s : ℕ) (mask : List ℕ) → write_byte stride ss_mask s 4 mask ≡ none
  unfolding byte_of
  write_byte-shift stride s mask = refl

  write_byte-behind :
      (stride s ss : ℕ) (mask : List ℕ)
      → length mask ≡ 16
      → 16 ≤ s * stride + ss
      → write_byte stride ss_mask s ss mask ≡ none
  unfolding byte_of put
  write_byte-behind stride s ss mask size out = ground (arith, size, out)

  -- The first slice fails at the fifth byte.
  shift_fails :
      (slices stride : ℕ)
      → 0 < slices
      → 4 < stride
      → for_range slices 0 (λ s. for_range stride 0 (write_byte stride ss_mask s)) (replicate 16 0)
        ≡ none
  unfolding for_range
  shift_fails zero stride some_slice wide = absurd (omega arith)
  shift_fails (suc slices) stride some_slice wide =
      ap (λ m. m >>= for_range slices 1 (λ s. for_range stride 0 (write_byte stride ss_mask s)))
        (for_range-none (write_byte stride ss_mask 0)
          (λ ss. Written stride ss_mask (0 * stride + ss)) stride 0 4 (replicate 16 0) (omega arith)
          (omega arith)
          (λ ss mask l w.
            write_byte-Written stride ss_mask 0 ss mask (omega arith) l (omega arith) w)
          (λ mask w. write_byte-shift stride 0 mask)
          (start-Written stride ss_mask (0 * stride + 0) (omega arith)))

  -- With `q * stride + r` the first byte behind the mask, the slice `q` fails.
  bounds_fail :
      (slices stride q r : ℕ)
      → stride ≤ 4
      → r < stride
      → q * stride + r ≡ 16
      → q < slices
      → for_range slices 0 (λ s. for_range stride 0 (write_byte stride ss_mask s)) (replicate 16 0)
        ≡ none
  bounds_fail slices stride q r small here at h =
      for_range-none (λ s. for_range stride 0 (write_byte stride ss_mask s))
        (λ s. Written stride ss_mask (s * stride)) slices 0 q (replicate 16 0) (omega arith)
        (omega arith)
        (λ s mask l w.
          bytes-Written stride ss_mask stride s ((s + 1) * stride) mask (omega arith) small
            (next_slice stride ss_mask s q l (omega arith)) (omega arith) w)
        (λ mask w.
          for_range-none (write_byte stride ss_mask q)
            (λ ss. Written stride ss_mask (q * stride + ss)) stride 0 r mask (omega arith)
            (omega arith)
            (λ ss mask l w.
              write_byte-Written stride ss_mask q ss mask (omega arith) (omega arith) (omega arith)
                w)
            (λ mask w. write_byte-behind stride q r mask w.size (omega arith))
            (subst (λ k. Written stride ss_mask k mask) {x = q * stride} {y = q * stride + 0}
              (omega arith) w))
        (start-Written stride ss_mask (0 * stride) (omega arith))

-- The first byte behind the mask.
behind :
    (stride : ℕ)
    → 0 < stride
    → stride ≤ 4
    → (q : ℕ) × (r : ℕ) × (r < stride) × (q * stride + r ≡ 16)
behind zero pos small = absurd (omega arith)
behind (suc zero) pos small = (16, 0, omega arith, refl)
behind (suc (suc zero)) pos small = (8, 0, omega arith, refl)
behind (suc (suc (suc zero))) pos small = (5, 1, omega arith, refl)
behind (suc (suc (suc (suc zero)))) pos small = (4, 0, omega arith, refl)
behind (suc (suc (suc (suc (suc n))))) pos small = absurd (omega arith)

-- Enough slices reach that byte.
reaches :
    (slices stride q r : ℕ) → r < stride → q * stride + r ≡ 16 → 16 < slices * stride → q < slices
reaches slices stride q r here at out = elim (Bool-cases (ltb q slices)) [
  | inl before ↦ ltb→lt q slices before
  | inr rest ↦
      let few : slices ≤ q = ground (arith, rest) in
      absurd (omega (arith, mul-le-mul_right stride few))
]

fails :
    (slices ss_mask : ℕ)
    → 0 < slices
    → (4 < bytes_for ss_mask) ⊎ (16 < slices * bytes_for ss_mask)
    → fill_subslices slices ss_mask ≡ none
unfolding fill_subslices
fails slices ss_mask some_slice (inl wide) =
    shift_fails ss_mask slices (bytes_for ss_mask) some_slice wide
fails slices ss_mask some_slice (inr out) =
    let stride = bytes_for ss_mask in
    elim (Bool-cases (ltb 4 stride)) [
      | inl wide ↦ shift_fails ss_mask slices stride some_slice (ltb→lt 4 stride wide)
      | inr rest ↦
          let small : stride ≤ 4 = ground (arith, rest) in
          let pos : 0 < stride = elim (Bool-cases (ltb 0 stride)) [
            | inl some_byte ↦ ltb→lt 0 stride some_byte
            | inr none_left ↦
                let e : stride ≡ 0 = ground (arith, none_left) in
                absurd (omega (arith, out, ap (λ b. slices * b) e, mul-zero slices))
          ] in
          let b = behind stride pos small in
          bounds_fail ss_mask slices stride b.0 b.1 small b.2 b.3
            (reaches slices stride b.0 b.1 b.2 b.3 out)
    ]

wide_iff : (ss_mask : ℕ) → (32 < ss_mask) ↔ (4 < bytes_for ss_mask)
unfolding bytes_for
wide_iff ss_mask = (λ h. omega (arith, h), λ h. omega (arith, h))

no_slice : (ss_mask : ℕ) → fill_subslices 0 ss_mask ≡ some (replicate 16 0)
unfolding fill_subslices for_range
no_slice ss_mask = refl

some-none : {A B : Type 0} {m : Option A} {a : A} → m ≡ some a → m ≡ none → B
some-none h e = absurd (cc (h, e))

why :
    (slices ss_mask : ℕ)
    → fill_subslices slices ss_mask ≡ none
    → (0 < slices) × ((32 < ss_mask) ⊎ (16 < slices * bytes_for ss_mask))
why zero ss_mask failed = some-none (no_slice ss_mask) failed
why (suc n) ss_mask failed =
    let stride = bytes_for ss_mask in
    (
      omega arith,
      elim (Bool-cases (ltb 4 stride)) [
        | inl wide ↦ inl ((wide_iff ss_mask).1 (ltb→lt 4 stride wide))
        | inr rest ↦ elim (Bool-cases (ltb 16 (suc n * stride))) [
          | inl out ↦ inr (ltb→lt 16 (suc n * stride) out)
          | inr fits ↦
              let small : stride ≤ 4 = ground (arith, rest) in
              let inside : suc n * stride ≤ 16 = ground (arith, fits) in
              some-none (fill_subslices-Written stride ss_mask (suc n) refl small inside).runs
                failed
        ]
      ],
    )

-- Filling the masks of the subslices fails exactly when there is a slice and the mask of subslices is
-- above 32, so that its bytes are more than a word has, or the bytes of all slices are more than
-- the 16 there are.
pub fill_subslices_fault_iff :
    (slices ss_mask : ℕ)
    → (fill_subslices slices ss_mask ≡ none)
      ↔ ((0 < slices) × ((32 < ss_mask) ⊎ (16 < slices * bytes_for ss_mask)))
fill_subslices_fault_iff slices ss_mask = (
  why slices ss_mask,
  λ h.
      fails slices ss_mask h.0
        (elim h.1 [ inl wide ↦ inl ((wide_iff ss_mask).0 wide) | inr out ↦ inr out ]),
)
