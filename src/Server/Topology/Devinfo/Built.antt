-- ===== src/Server/Topology/Devinfo/Built.antt =====
-- What the loops of `devinfo_build_topology` keep.
use mathlib.Core.Path.{subst}
use native.Mathlib.Nat.{mul-le-mul}
use gputop.Base.{
  ℕ, zero, suc, ◌+◌, ◌-◌, ◌*◌, ◌/◌, ◌%◌, ◌^◌, ◌≤◌, ◌<◌, ◌≡◌, refl, sym, ap, ap₂, ◌∙◌, arith, List,
  some, length, get_or, set, ◌==◌, u8, bit_or, length-set, get_or-set_self, get_or-set_ne,
  Bool-cases, inl, inr, ==_iff, ◌>>=◌, Ensures, Ensures-some, Ensures-of, Ensures-bind,
  Ensures-mono,
}
use gputop.Oa.Device.{DevTopology}
use gputop.Client.Topology.{bytes_for, popcount}
use gputop.Client.Topology.Counts.{ones_in}
use gputop.Server.Topology.{put, byte_of}
use gputop.Server.Topology.Written.{for_range-Ensures}
use gputop.Server.Topology.Whole.{inside, put-length}
use gputop.Server.Topology.Devinfo.{or_bit, build_subslice, build_slice}

-- The sum of the numbers of subslices of `n` slices from `s` on.
unfoldable pub subslices_of : (ℕ → ℕ) → ℕ → ℕ → ℕ
subslices_of num_subslices s zero = 0
subslices_of num_subslices s (suc n) = num_subslices s + subslices_of num_subslices (s + 1) n

-- The lowest `k` bits.
unfoldable pub low : ℕ → ℕ
low k = 2 ^ k - 1

next_bit : (k : ℕ) → k < 8 → u8 (bit_or (low k) (2 ^ k)) ≡ low (k + 1)
unfolding low
next_bit zero h = refl
next_bit (suc zero) h = refl
next_bit (suc (suc zero)) h = refl
next_bit (suc (suc (suc zero))) h = refl
next_bit (suc (suc (suc (suc zero)))) h = refl
next_bit (suc (suc (suc (suc (suc zero))))) h = refl
next_bit (suc (suc (suc (suc (suc (suc zero)))))) h = refl
next_bit (suc (suc (suc (suc (suc (suc (suc zero))))))) h = refl
next_bit (suc (suc (suc (suc (suc (suc (suc (suc k)))))))) h = absurd (omega arith)

popcount-low : (k : ℕ) → k ≤ 8 → popcount (low k) ≡ k
unfolding low popcount
popcount-low zero h = refl
popcount-low (suc zero) h = refl
popcount-low (suc (suc zero)) h = refl
popcount-low (suc (suc (suc zero))) h = refl
popcount-low (suc (suc (suc (suc zero)))) h = refl
popcount-low (suc (suc (suc (suc (suc zero))))) h = refl
popcount-low (suc (suc (suc (suc (suc (suc zero)))))) h = refl
popcount-low (suc (suc (suc (suc (suc (suc (suc zero))))))) h = refl
popcount-low (suc (suc (suc (suc (suc (suc (suc (suc zero)))))))) h = refl
popcount-low (suc (suc (suc (suc (suc (suc (suc (suc (suc k))))))))) h = absurd (omega arith)

or_bit-set :
    (i bit size : ℕ) (mask : List ℕ)
    → bit < 32
    → length mask ≡ size
    → i < size
    → or_bit i bit mask ≡ some (set mask i (u8 (bit_or (get_or mask i 0) (2 ^ bit))))
unfolding or_bit put
or_bit-set i bit size mask h e l = ground (arith, h, e, l)

write_eu :
    (word eug i : ℕ) (mask : List ℕ)
    → eug < 8
    → i < 256
    → length mask ≡ 256
    → Ensures (byte_of 64 word eug >>= λ byte. put i byte mask) (λ mask'. length mask' ≡ 256)
unfolding byte_of
write_eu word eug i mask small h size =
    let byte = word / 2 ^ (eug * 8) % 256 in
    let shifted : byte_of 64 word eug ≡ some byte = ground (arith, small) in
    let written = put-length i byte mask size h in
    Ensures-of written.result (ap (λ b. b >>= λ byte. put i byte mask) shifted ∙ written.runs)
      written.holds

-- A device that the masks have room for.
pub record IsSmall (slices : ℕ) (num_subslices : ℕ → ℕ) : Type 0 where
  pub few : slices ≤ 16
  pub narrow : num_subslices 0 ≤ 8
  pub widest : (s : ℕ) → s < slices → num_subslices s ≤ num_subslices 0

module _ (slices : ℕ) (num_subslices : ℕ → ℕ) where
  -- What the loops keep, with `ss` subslices of slice `s` behind them.
  pub record Built (s ss : ℕ) (t : DevTopology) : Type 0 where
    pub slices_kept : t.max_slices ≡ slices
    pub subslices_kept : t.max_subslices ≡ num_subslices 0
    pub stride_kept : bytes_for t.max_eus_per_subslice ≤ 2
    pub slices_size : length t.slices_mask ≡ 4
    pub subslices_size : length t.subslices_mask ≡ 16
    pub eus_size : length t.eus_mask ≡ 256
    pub before : (i : ℕ) → i < s → get_or t.subslices_mask i 0 ≡ low (num_subslices i)
    pub here : get_or t.subslices_mask s 0 ≡ low ss
    pub after : (i : ℕ) → s < i → get_or t.subslices_mask i 0 ≡ 0

  module _ (d : IsSmall slices num_subslices) where
    room : (stride : ℕ) → stride ≤ 2 → slices * (stride * num_subslices 0) ≤ 256
    room zero h = omega arith
    room (suc zero) h = omega (arith, mul-le-mul d.few d.narrow)
    room (suc (suc zero)) h = omega (arith, mul-le-mul d.few d.narrow)
    room (suc (suc (suc n))) h = absurd (omega arith)

    build_subslice-Built :
        (s ss : ℕ) (t : DevTopology)
        → s < slices
        → ss < num_subslices s
        → Built s ss t
        → Ensures (build_subslice s ss t) (Built s (ss + 1))
    unfolding build_subslice
    build_subslice-Built s ss t l u b =
        let stride = bytes_for t.max_eus_per_subslice in
        let wide = d.widest s l in
        let fits : slices * (stride * t.max_subslices) ≤ 256 =
          subst (λ m. slices * (stride * m) ≤ 256) (sym b.subslices_kept)
            (room stride b.stride_kept) in
        let word = 2 ^ t.max_eus_per_subslice - 1 in
        let eus =
          for_range-Ensures
            (λ eug mask. byte_of 64 word eug >>= λ byte.
              put (s * (stride * t.max_subslices) + ss * stride + eug) byte mask)
            (λ eug mask. length mask ≡ 256) stride 0 stride t.eus_mask (omega arith)
            (λ eug mask l' u' size.
              write_eu word eug (s * (stride * t.max_subslices) + ss * stride + eug) mask
                (omega (arith, b.stride_kept))
                (inside slices t.max_subslices stride s ss eug l
                  (omega (arith, wide, b.subslices_kept)) u' fits)
                size)
            b.eus_size in
        let mask' = set t.subslices_mask s (low (ss + 1)) in
        let bit : or_bit s ss t.subslices_mask ≡ some mask' =
          or_bit-set s ss 16 t.subslices_mask (omega (arith, u, wide, d.narrow)) b.subslices_size
            (omega (arith, l, d.few))
          ∙ ap (λ v. some (set t.subslices_mask s (u8 (bit_or v (2 ^ ss))))) b.here
          ∙ ap (λ v. some (set t.subslices_mask s v))
              (next_bit ss (omega (arith, u, wide, d.narrow))) in
        Ensures-bind (Ensures-of {P = λ m. m ≡ mask'} mask' bit refl) (λ mask e.
          Ensures-bind eus (λ eus_mask size.
            Ensures-some (record t { subslices_mask = mask; eus_mask = eus_mask })
              (subst (λ m. Built s (ss + 1) (record t { subslices_mask = m; eus_mask = eus_mask }))
                (sym e)
                (record {
                  slices_kept = b.slices_kept;
                  subslices_kept = b.subslices_kept;
                  stride_kept = b.stride_kept;
                  slices_size = b.slices_size;
                  subslices_size = length-set t.subslices_mask s (low (ss + 1)) ∙ b.subslices_size;
                  eus_size = size;
                  before = λ i h.
                      get_or-set_ne t.subslices_mask s i (low (ss + 1)) 0 (λ e. omega (arith, e, h))
                      ∙ b.before i h;
                  here =
                      get_or-set_self t.subslices_mask s (low (ss + 1)) 0
                        (omega (arith, b.subslices_size, l, d.few));
                  after = λ i h.
                      get_or-set_ne t.subslices_mask s i (low (ss + 1)) 0 (λ e. omega (arith, e, h))
                      ∙ b.after i h;
                }))))

    next_slice : (s : ℕ) (t : DevTopology) → Built s (num_subslices s) t → Built (s + 1) 0 t
    unfolding low
    next_slice s t b = record {
      slices_kept = b.slices_kept;
      subslices_kept = b.subslices_kept;
      stride_kept = b.stride_kept;
      slices_size = b.slices_size;
      subslices_size = b.subslices_size;
      eus_size = b.eus_size;
      before = λ i h. elim (Bool-cases (i == s)) [
        | inl same ↦
            subst (λ k. get_or t.subslices_mask k 0 ≡ low (num_subslices k))
              (sym ((==_iff i s).0 same)) b.here
        | inr other ↦ b.before i (ground (arith, other, h))
      ];
      here = b.after (s + 1) (omega arith);
      after = λ i h. b.after i (omega (arith, h));
    }

    pub build_slice-Built :
        (s : ℕ) (t : DevTopology)
        → s < slices
        → Built s 0 t
        → Ensures (build_slice num_subslices s t) (Built (s + 1) 0)
    unfolding build_slice
    build_slice-Built s t l b =
        let mask' = set t.slices_mask 0 (u8 (bit_or (get_or t.slices_mask 0 0) (2 ^ s))) in
        let bit : or_bit 0 s t.slices_mask ≡ some mask' =
          or_bit-set 0 s 4 t.slices_mask (omega (arith, l, d.few)) b.slices_size (omega arith) in
        Ensures-bind
          (Ensures-of {P = λ m. length m ≡ 4} mask' bit (
            length-set t.slices_mask 0 (u8 (bit_or (get_or t.slices_mask 0 0) (2 ^ s)))
            ∙ b.slices_size))
          (λ mask size.
            Ensures-mono
              (for_range-Ensures (build_subslice s) (Built s) (num_subslices s) 0 (num_subslices s)
                (record t { slices_mask = mask }) (omega arith)
                (λ ss t l' u b. build_subslice-Built s ss t l u b)
                (record {
                  slices_kept = b.slices_kept;
                  subslices_kept = b.subslices_kept;
                  stride_kept = b.stride_kept;
                  slices_size = size;
                  subslices_size = b.subslices_size;
                  eus_size = b.eus_size;
                  before = b.before;
                  here = b.here;
                  after = b.after;
                }))
              (next_slice s))

    -- The ones of the first bytes.
    pub ones_in-Built :
        (t : DevTopology) (n s : ℕ)
        → Built slices 0 t
        → s + n ≤ slices
        → ones_in t.subslices_mask s n ≡ subslices_of num_subslices s n
    unfolding ones_in subslices_of
    ones_in-Built t zero s b h = refl
    ones_in-Built t (suc n) s b h =
        let wide = d.widest s (omega arith) in
        ap₂ ◌+◌
          (ap popcount (b.before s (omega arith))
            ∙ popcount-low (num_subslices s) (omega (arith, wide, d.narrow)))
          (ones_in-Built t n (s + 1) b (omega arith))
