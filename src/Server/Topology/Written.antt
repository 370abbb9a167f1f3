-- ===== src/Server/Topology/Written.antt =====
-- The bytes that the loops over `subslices_mask` write.
use mathlib.Core.Path.{subst}
use native.Mathlib.Nat.{mod-eq_of_lt, mul-le-mul_right, mul-add-mod_self_right}
use gputop.Base.{
  ℕ, zero, suc, ◌+◌, ◌*◌, ◌/◌, ◌%◌, ◌^◌, ◌≤◌, ◌<◌, ◌≡◌, ◌≢◌, refl, sym, ap, ◌∙◌, arith, Option,
  false, none, List, length, get_or, set, replicate, ltb, if◌then◌else◌, length-set,
  get_or-set_self, get_or-set_ne, ◌>>=◌, Ensures, Ensures-bind, Ensures-of, ◌==◌, ==_iff,
  Bool-cases, ltb→lt, lt→ltb, inl, inr,
}
use gputop.Server.Topology.{for_range, put, byte_of, fill_subslices}
use gputop.Client.Topology.{bytes_for}

module _ {S : Type 0} (step : ℕ → S → Option S) (P : ℕ → S → Type 0) where
  -- A loop whose rounds keep an invariant returns.
  pub for_range-Ensures :
      (rounds lo hi : ℕ) (s : S)
      → hi ≡ lo + rounds
      → ((k : ℕ) (s : S) → lo ≤ k → k < hi → P k s → Ensures (step k s) (P (k + 1)))
      → P lo s
      → Ensures (for_range rounds lo step s) (P hi)
  unfolding for_range
  for_range-Ensures zero lo hi s e keeps h =
      Ensures-of s refl (subst (λ k. P k s) {x = lo} {y = hi} (omega arith) h)
  for_range-Ensures (suc rounds) lo hi s e keeps h =
      Ensures-bind (keeps lo s (omega arith) (omega arith) h) (λ s' h'.
        for_range-Ensures rounds (lo + 1) hi s' (omega arith) (λ k m l u. keeps k m (omega arith) u)
          h')

  -- One that fails in a round does not.
  pub for_range-none :
      (rounds lo bad : ℕ) (s : S)
      → lo ≤ bad
      → bad < lo + rounds
      → ((k : ℕ) (s : S) → k < bad → P k s → Ensures (step k s) (P (k + 1)))
      → ((s : S) → P bad s → step bad s ≡ none)
      → P lo s
      → for_range rounds lo step s ≡ none
  unfolding for_range
  for_range-none zero lo bad s l u keeps fails h = absurd (omega arith)
  for_range-none (suc rounds) lo bad s l u keeps fails h = elim (Bool-cases (ltb lo bad)) [
    | inl before ↦
        let first = keeps lo s (ltb→lt lo bad before) h in
        ap (λ m. m >>= for_range rounds (lo + 1) step) first.runs
        ∙ for_range-none rounds (lo + 1) bad first.result (ground (arith, before)) (omega arith)
            keeps fails first.holds
    | inr reached ↦
        let here : lo ≡ bad = ground (arith, reached, l) in
        ap (λ m. m >>= for_range rounds (lo + 1) step)
          (subst (λ k. (P k s → step k s ≡ none)) (sym here) (fails s) h)
  ]

-- The first `k` bytes are those of `ss_mask`, over and over; the others are 0.
pub record Written (stride ss_mask k : ℕ) (mask : List ℕ) : Type 0 where
  pub size : length mask ≡ 16
  pub bytes :
      (i : ℕ) → get_or mask i 0 ≡ (if ltb i k then ss_mask / 2 ^ (i % stride * 8) % 256 else 0)

pub get_or-replicate : (n i z : ℕ) → get_or (replicate n z) i z ≡ z
get_or-replicate zero i z = refl
get_or-replicate (suc n) zero z = refl
get_or-replicate (suc n) (suc i) z = get_or-replicate n i z

-- The body of the inner loop.
abbrev pub write_byte : ℕ → ℕ → ℕ → ℕ → List ℕ → Option (List ℕ)
write_byte stride ss_mask s ss mask =
    byte_of 32 ss_mask ss >>= λ byte. put (s * stride + ss) byte mask

module _ (stride ss_mask : ℕ) where
  place : (s ss : ℕ) → ss < stride → (s * stride + ss) % stride ≡ ss
  place s ss h = mul-add-mod_self_right s stride ss ∙ mod-eq_of_lt h

  pub write_byte-Written :
      (s ss : ℕ) (mask : List ℕ)
      → ss < stride
      → ss < 4
      → s * stride + ss < 16
      → Written stride ss_mask (s * stride + ss) mask
      → Ensures
          (write_byte stride ss_mask s ss mask)
          (Written stride ss_mask (s * stride + (ss + 1)))
  unfolding byte_of put
  write_byte-Written s ss mask h small inside w =
      let k = s * stride + ss in
      let byte = ss_mask / 2 ^ (ss * 8) % 256 in
      Ensures-of (set mask k byte) (ground (arith, w.size)) (record {
        size = length-set mask k byte ∙ w.size;
        bytes = λ i. elim (Bool-cases (k == i)) [
          | inl here ↦
              let e : k ≡ i = (==_iff k i).0 here in
              let at : i % stride ≡ ss = ap (λ j. j % stride) (sym e) ∙ place s ss h in
              let new = lt→ltb i (s * stride + (ss + 1)) (omega (arith, e)) in
              subst (λ j. get_or (set mask k byte) j 0 ≡ byte) e
                (get_or-set_self mask k byte 0 (omega (arith, w.size)))
              ∙ sym (rw (new, at) refl)
          | inr other ↦
              let ne : k ≢ i = λ e. ground (arith, other, e) in
              let same : ltb i k ≡ ltb i (s * stride + (ss + 1)) = ground (arith, other) in
              get_or-set_ne mask k i byte 0 ne ∙ w.bytes i ∙ rw same refl
        ];
      })

  -- `n` bytes of a slice.
  pub bytes-Written :
      (n s hi : ℕ) (mask : List ℕ)
      → n ≤ stride
      → n ≤ 4
      → s * stride + n ≤ 16
      → hi ≡ s * stride + n
      → Written stride ss_mask (s * stride) mask
      → Ensures (for_range n 0 (write_byte stride ss_mask s) mask) (Written stride ss_mask hi)
  bytes-Written n s hi mask few small inside e w =
      let run =
        for_range-Ensures (write_byte stride ss_mask s)
          (λ ss. Written stride ss_mask (s * stride + ss)) n 0 n mask (omega arith)
          (λ ss mask l u w.
            write_byte-Written s ss mask (omega arith) (omega arith) (omega arith) w)
          (subst (λ k. Written stride ss_mask k mask) {x = s * stride} {y = s * stride + 0}
            (omega arith) w) in
      subst
        (λ k. Ensures (for_range n 0 (write_byte stride ss_mask s) mask) (Written stride ss_mask k))
        (sym e) run

  pub start-Written : (k : ℕ) → k ≡ 0 → Written stride ss_mask k (replicate 16 0)
  start-Written k e = record {
    size = refl;
    bytes = λ i.
        let off : ltb i k ≡ false = ground (arith, e) in
        get_or-replicate 16 i 0 ∙ sym (rw off refl);
  }

  pub next_slice : (s slices : ℕ) → s < slices → slices * stride ≤ 16 → s * stride + stride ≤ 16
  next_slice s slices h fits = omega (arith, mul-le-mul_right stride h)

  -- All slices of a mask of at most four bytes that fit.
  pub fill_subslices-Written :
      (slices : ℕ)
      → bytes_for ss_mask ≡ stride
      → stride ≤ 4
      → slices * stride ≤ 16
      → Ensures (fill_subslices slices ss_mask) (Written stride ss_mask (slices * stride))
  unfolding fill_subslices
  fill_subslices-Written slices e small inside =
      subst
        (λ b.
          Ensures
            (for_range slices 0 (λ s. for_range b 0 (write_byte b ss_mask s)) (replicate 16 0))
            (Written stride ss_mask (slices * stride)))
        (sym e)
        (for_range-Ensures (λ s. for_range stride 0 (write_byte stride ss_mask s))
          (λ s. Written stride ss_mask (s * stride)) slices 0 slices (replicate 16 0) (omega arith)
          (λ s mask l u w.
            bytes-Written stride s ((s + 1) * stride) mask (omega arith) small
              (next_slice s slices u inside) (omega arith) w)
          (start-Written (0 * stride) (omega arith)))
