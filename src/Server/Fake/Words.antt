-- ===== src/Server/Fake/Words.antt =====
-- What a fake report holds, by the layout of the hardware counters.
use gputop.Base.{
  ℕ, zero, suc, ◌+◌, ◌-◌, ◌*◌, ◌/◌, ◌%◌, ◌^◌, ◌≤◌, ◌<◌, ◌≡◌, refl, ap, ◌∙◌, arith, List, ◌∷◌, ◌++◌,
  get_or, replicate, ltb, ◌==◌, if◌then◌else◌, u32, u64, Bool-cases, inl, inr,
}
use gputop.Oa.Report.{word, byte_at}
use gputop.Oa.Accumulator.Slots.{a32u40_value}
use gputop.Server.Fake.{fake_report}

get_or-row :
    (n v : ℕ) (rest : List ℕ) (i : ℕ)
    → get_or (replicate n v ++ rest) i 0 ≡ (if ltb i n then v else get_or rest (i - n) 0)
get_or-row zero v rest i =
    let e : i ≡ i - 0 = omega arith in ap (λ k. get_or rest k 0) e ∙ ground arith
get_or-row (suc n) v rest zero = ground arith
get_or-row (suc n) v rest (suc i) =
    let e : suc i - suc n ≡ i - n = omega arith in ground (arith, get_or-row n v rest i, e)

get_or-last : (n v i : ℕ) → get_or (replicate n v) i 0 ≡ (if ltb i n then v else 0)
get_or-last zero v i = ground arith
get_or-last (suc n) v zero = ground arith
get_or-last (suc n) v (suc i) = ground (arith, get_or-last n v i)

get_or-four :
    (a b c d : ℕ) (xs : List ℕ) (i : ℕ)
    → 4 ≤ i
    → get_or (a ∷ b ∷ c ∷ d ∷ xs) i 0 ≡ get_or xs (i - 4) 0
get_or-four a b c d xs zero h = absurd (omega arith)
get_or-four a b c d xs (suc zero) h = absurd (omega arith)
get_or-four a b c d xs (suc (suc zero)) h = absurd (omega arith)
get_or-four a b c d xs (suc (suc (suc zero))) h = absurd (omega arith)
get_or-four a b c d xs (suc (suc (suc (suc i)))) h = ap (λ k. get_or xs k 0) (omega arith)

-- The rows of the report, one after the other.
rows :
    (i low high last : ℕ)
    → 4 ≤ i
    → (if ltb (i - 4) 32
        then low
        else if ltb (i - 4 - 32) 4
        then low
        else if ltb (i - 4 - 32 - 4) 8
        then high
        else if ltb (i - 4 - 32 - 4 - 8) 16
        then last
        else 0)
      ≡ (if ltb i 40 then low else if ltb i 48 then high else if ltb i 64 then last else 0)
rows i low high last h = ground arith

-- The counter of the report, and the word of four equal high bytes.
abbrev pub counter : ℕ → ℕ → ℕ
counter n_eus clocks = u64 (clocks * n_eus)

abbrev high_bytes : ℕ → ℕ
high_bytes c = c / 2 ^ 32 % 256 * 0x0101_0101

word-fake :
    (n_eus ctx timestamp clocks i : ℕ)
    → 4 ≤ i
    → word (fake_report n_eus ctx timestamp clocks) i ≡ (
        if ltb i 40
        then u32 (counter n_eus clocks)
        else if ltb i 48
        then high_bytes (counter n_eus clocks)
        else if ltb i 64
        then u32 (clocks * 2)
        else 0)
unfolding fake_report
word-fake n_eus ctx timestamp clocks i h =
    let c = counter n_eus clocks in
    let low = u32 c in
    let high = high_bytes c in
    let last = replicate 16 (u32 (clocks * 2)) in
    get_or-four (2 ^ 19) timestamp ctx clocks
      (replicate 32 low ++ (replicate 4 low ++ (replicate 8 high ++ last))) i h
    ∙ get_or-row 32 low (replicate 4 low ++ (replicate 8 high ++ last)) (i - 4)
    ∙ ap (λ x. if ltb (i - 4) 32 then low else x)
        (get_or-row 4 low (replicate 8 high ++ last) (i - 4 - 32)
          ∙ ap (λ x. if ltb (i - 4 - 32) 4 then low else x)
              (get_or-row 8 high last (i - 4 - 32 - 4)
                ∙ ap (λ x. if ltb (i - 4 - 32 - 4) 8 then high else x)
                    (get_or-last 16 (u32 (clocks * 2)) (i - 4 - 32 - 4 - 8))))
    ∙ rows i low high (u32 (clocks * 2)) h

same_bytes : (m k : ℕ) → m < 256 → k < 4 → m * 0x0101_0101 / 2 ^ (8 * k) % 256 ≡ m
same_bytes m zero h l = omega arith
same_bytes m (suc zero) h l = omega arith
same_bytes m (suc (suc zero)) h l = omega arith
same_bytes m (suc (suc (suc zero))) h l = omega arith
same_bytes m (suc (suc (suc (suc k)))) h l = absurd (omega arith)

-- A byte of `counter_40_msb`.
byte_at-fake :
    (n_eus ctx timestamp clocks k : ℕ)
    → 160 ≤ k
    → k < 192
    → byte_at (fake_report n_eus ctx timestamp clocks) k ≡ counter n_eus clocks / 2 ^ 32 % 256
unfolding byte_at
byte_at-fake n_eus ctx timestamp clocks k h l =
    let w : word (fake_report n_eus ctx timestamp clocks) (k / 4)
        ≡ high_bytes (counter n_eus clocks) =
      word-fake n_eus ctx timestamp clocks (k / 4) (omega arith) ∙ ground (arith, h, l) in
    ap (λ x. x / 2 ^ (8 * (k % 4)) % 256) w
    ∙ same_bytes (counter n_eus clocks / 2 ^ 32 % 256) (k % 4) (omega arith) (omega arith)

fake_heads :
    (n_eus ctx timestamp clocks : ℕ)
    → (word (fake_report n_eus ctx timestamp clocks) 1 ≡ timestamp)
      × (word (fake_report n_eus ctx timestamp clocks) 3 ≡ clocks)
unfolding fake_report
fake_heads n_eus ctx timestamp clocks = (refl, refl)

-- The counters of a report, where the product fits into 40 bits.
pub fake_value :
    (n_eus ctx timestamp clocks j : ℕ)
    → clocks * n_eus < 2 ^ 40
    → a32u40_value (fake_report n_eus ctx timestamp clocks) j ≡ (
        if j == 0
        then timestamp
        else if j == 1
        then clocks
        else if ltb j 34
        then clocks * n_eus
        else if ltb j 38
        then u32 (clocks * n_eus)
        else if ltb j 54
        then u32 (clocks * 2)
        else 0)
unfolding a32u40_value
fake_value n_eus ctx timestamp clocks j fits =
    let c : counter n_eus clocks ≡ clocks * n_eus = omega (arith, fits) in
    let w : (i : ℕ) → 4 ≤ i → _ = word-fake n_eus ctx timestamp clocks in
    let heads = fake_heads n_eus ctx timestamp clocks in
    elim (Bool-cases (ltb j 2)) [
      | inl low ↦ ground (arith, low, heads)
      | inr high ↦ elim (Bool-cases (ltb j 34)) [
        | inl a ↦
            let byte =
              byte_at-fake n_eus ctx timestamp clocks (158 + j) (ground (arith, high))
                (ground (arith, a)) in
            let low : word (fake_report n_eus ctx timestamp clocks) (j + 2)
                ≡ u32 (counter n_eus clocks) =
              w (j + 2) (ground (arith, high)) ∙ ground (arith, a) in
            ground (arith, a, high, byte, low, c)
        | inr other ↦
            let below = w (j + 2) (ground (arith, other)) in
            let above = w (j + 10) (ground (arith, other)) in ground (arith, other, below, above, c)
      ]
    ]
