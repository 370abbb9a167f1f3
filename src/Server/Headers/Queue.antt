-- ===== src/Server/Headers/Queue.antt =====
-- The offsets as a queue of bounded length.
use native.Mathlib.Nat.{mod-lt, mod-eq_of_lt}
use gputop.Base.{
  ℕ, zero, suc, ◌+◌, ◌-◌, ◌%◌, ◌^◌, ◌≤◌, ◌<◌, ◌≡◌, ◌≢◌, refl, sym, ap, ap₂, ◌∙◌, arith, Bool, false,
  Option, none, some, List, [], ◌∷◌, ◌++◌, length, drop, get_or, set, ltb, ◌==◌, if◌then◌else◌, u32,
  sub32, Bool-cases, inl, inr, get_or-set_self, get_or-set_ne, length-set, ◌>>=◌, ◌||◌, Ensures,
  Ensures-of,
}
use gputop.Server.Flush.Ring.{mod_sum}
use gputop.Server.Headers.{HeaderBuf, add_record, skip_eaten}

-- The `n` offsets from `t` on.
unfoldable pub entries : List ℕ → ℕ → ℕ → ℕ → List ℕ
entries offsets len t zero = []
entries offsets len t (suc n) = get_or offsets (t % len) 0 ∷ entries offsets len (suc t) n

abbrev pub queue : HeaderBuf → List ℕ
queue buf = entries buf.offsets buf.len buf.tail (buf.head - buf.tail)

pub record IsQueue (buf : HeaderBuf) : Type 0 where
  pub positive : 0 < buf.len
  pub small : buf.len < 2 ^ 32
  pub whole : length buf.offsets ≡ buf.len
  pub order : buf.tail ≤ buf.head
  pub bounded : buf.head - buf.tail ≤ buf.len
  pub going : buf.full ≡ false

-- What a new offset does to a queue of at most `len` offsets: the oldest gives way.
abbrev pub push : ℕ → List ℕ → ℕ → List ℕ
push len q offset = (if length q == len then drop 1 q else q) ++ (offset ∷ [])

pub length-entries : (offsets : List ℕ) (len t n : ℕ) → length (entries offsets len t n) ≡ n
unfolding entries
length-entries offsets len t zero = refl
length-entries offsets len t (suc n) = ap suc (length-entries offsets len (suc t) n)

-- Places that are less than a round apart are different.
apart : (len t d : ℕ) → 0 < len → 0 < d → d < len → (t + d) % len ≢ t % len
apart len t d pos h l e =
    let sum = mod_sum len d t (t + d) 0 pos (omega arith) in
    let self : d % len ≡ d = mod-eq_of_lt l in
    elim sum [
      | inl same ↦ omega (arith, same, self, e, h)
      | inr round ↦ omega (arith, round, self, e, l)
    ]

entries-set :
    (offsets : List ℕ) (len t n k x : ℕ)
    → 0 < len
    → n + k < len
    → entries (set offsets ((t + (n + k)) % len) x) len t n ≡ entries offsets len t n
unfolding entries
entries-set offsets len t zero k x pos h = refl
entries-set offsets len t (suc n) k x pos h =
    let e : t + (suc n + k) ≡ suc t + (n + k) = omega arith in
    ap₂ ◌∷◌
      (get_or-set_ne offsets ((t + (suc n + k)) % len) (t % len) x 0
        (apart len t (suc n + k) pos (omega arith) h))
      (ap (λ p. entries (set offsets (p % len) x) len (suc t) n) e
        ∙ entries-set offsets len (suc t) n k x pos (omega arith))

entries-snoc :
    (offsets : List ℕ) (len t n : ℕ)
    → entries offsets len t (suc n)
      ≡ entries offsets len t n ++ (get_or offsets ((t + n) % len) 0 ∷ [])
unfolding entries
entries-snoc offsets len t zero =
    let e : t ≡ t + 0 = omega arith in ap (λ k. get_or offsets (k % len) 0 ∷ []) e
entries-snoc offsets len t (suc n) =
    let e : suc t + n ≡ t + suc n = omega arith in
    ap (λ l. get_or offsets (t % len) 0 ∷ l)
      (entries-snoc offsets len (suc t) n
        ∙ ap (λ k. entries offsets len (suc t) n ++ (get_or offsets (k % len) 0 ∷ [])) e)

-- A new offset behind `n` others.
snoc_set :
    (offsets : List ℕ) (len t n h x : ℕ)
    → n < len
    → length offsets ≡ len
    → h ≡ t + n
    → entries (set offsets (h % len) x) len t (suc n) ≡ entries offsets len t n ++ (x ∷ [])
snoc_set offsets len t n h x l whole e =
    let pos : 0 < len = omega arith in
    let place : h ≡ t + (n + 0) = omega arith in
    let self = get_or-set_self offsets (h % len) x 0 (omega (arith, mod-lt h pos, whole)) in
    entries-snoc (set offsets (h % len) x) len t n
    ∙ ap₂ (λ q y. q ++ (y ∷ []))
        (ap (λ k. entries (set offsets (k % len) x) len t n) place
          ∙ entries-set offsets len t n 0 x pos (omega arith))
        (ap (λ k. get_or (set offsets (h % len) x) (k % len) 0) (sym e) ∙ self)

-- The buffer after a new offset.
abbrev added : HeaderBuf → ℕ → Bool → ℕ → ℕ → HeaderBuf
added buf perf_offset full tail head = record buf {
  full = full;
  tail = tail;
  offsets = set buf.offsets (buf.head % buf.len) perf_offset;
  head = head;
}

-- The queue with one place more, or with its oldest offset gone.
added-queue :
    (buf : HeaderBuf) (x : ℕ)
    → IsQueue buf
    → let tail = if buf.head - buf.tail == buf.len then suc buf.tail else buf.tail in
      queue (added buf x false tail (suc buf.head)) ≡ push buf.len (queue buf) x
unfolding entries
added-queue buf x v =
    let n = buf.head - buf.tail in
    let offsets' = set buf.offsets (buf.head % buf.len) x in
    let l = length-entries buf.offsets buf.len buf.tail n in
    let by : Bool → List ℕ = λ b. (if b then drop 1 (queue buf) else queue buf) ++ (x ∷ []) in
    let at : Bool → List ℕ = λ b.
      let tail = if b then suc buf.tail else buf.tail in
      entries offsets' buf.len tail (suc buf.head - tail) in
    let answer : at (n == buf.len) ≡ by (n == buf.len) = elim (Bool-cases (n == buf.len)) [
      | inl full ↦
          let m = n - 1 in
          let count : suc buf.head - suc buf.tail ≡ suc m = ground (arith, full, v.positive) in
          let old : n ≡ suc m = omega (arith, count) in
          ap at full
          ∙ ap (entries offsets' buf.len (suc buf.tail)) count
          ∙ snoc_set buf.offsets buf.len (suc buf.tail) m buf.head x
              (ground (arith, full, v.positive)) v.whole (omega (arith, old, v.order))
          ∙ ap (λ q. drop 1 q ++ (x ∷ [])) (ap (entries buf.offsets buf.len buf.tail) (sym old))
          ∙ sym (ap by full)
      | inr room ↦
          let count : suc buf.head - buf.tail ≡ suc n = omega (arith, v.order) in
          ap at room
          ∙ ap (entries offsets' buf.len buf.tail) count
          ∙ snoc_set buf.offsets buf.len buf.tail n buf.head x (ground (arith, room, v.bounded))
              v.whole (omega (arith, v.order))
          ∙ sym (ap by room)
    ] in
    answer ∙ ap (λ k. by (k == buf.len)) (sym l)

-- A record that does not cross the end of the ring is a push.
pub add_record-push :
    (buffer_size perf_offset size : ℕ) (buf : HeaderBuf)
    → IsQueue buf
    → buf.head + 1 < 2 ^ 32
    → perf_offset + size ≤ buffer_size
    → Ensures (add_record buffer_size perf_offset size buf) (λ buf'.
      IsQueue buf'
      × (queue buf' ≡ push buf.len (queue buf) perf_offset)
      × (buf'.len ≡ buf.len)
      × (buf'.head ≡ suc buf.head))
unfolding add_record
add_record-push buffer_size perf_offset size buf v fits inside =
    let tail = if buf.head - buf.tail == buf.len then suc buf.tail else buf.tail in
    let room = if sub32 buf.head buf.tail == buf.len then u32 (buf.tail + 1) else buf.tail in
    let end = perf_offset + size in
    let same : room ≡ tail = ground (arith, v.order, v.bounded, v.small, fits) in
    let some_place : (buf.len == 0) ≡ false = ground (arith, v.positive) in
    let whole : (buf.full || ltb buffer_size end) ≡ false = ground (arith, v.going, inside) in
    let head : u32 (buf.head + 1) ≡ suc buf.head = omega (arith, fits) in
    let step : Bool → Option HeaderBuf = λ full.
      (if buf.len == 0
        then none
        else if full
        then skip_eaten buf.len buffer_size perf_offset end buf room
        else some room)
      >>= λ t. some (added buf perf_offset full t (u32 (buf.head + 1))) in
    Ensures-of (added buf perf_offset false tail (suc buf.head))
      (ap step whole
        ∙ ap
            (λ b. (if b then none else some room) >>= λ t.
              some (added buf perf_offset false t (u32 (buf.head + 1))))
            some_place
        ∙ ap₂ (λ t h. some (added buf perf_offset false t h)) same head)
      (
        record {
          positive = v.positive;
          small = v.small;
          whole = length-set buf.offsets (buf.head % buf.len) perf_offset ∙ v.whole;
          order = ground (arith, v.order, v.bounded, v.positive);
          bounded = ground (arith, v.order, v.bounded, v.positive);
          going = refl;
        },
        added-queue buf perf_offset v,
        refl,
        refl,
      )
