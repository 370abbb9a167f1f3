-- ===== src/Util/Elements.antt =====
-- What the operations of the array do to its elements.
use native.Mathlib.Nat.{mul-le-mul_right}
use gputop.Base.{
  false, ==_iff, ℕ, zero, suc, ◌+◌, ◌-◌, ◌*◌, ◌≤◌, ◌<◌, ◌≡◌, refl, ap, ap₂, sym, ◌∙◌, Bool-cases,
  inl, inr, some, leb, ltb, [], ◌∷◌, ◌++◌, Bytes, length, take, drop, read, write_lem, read_lem,
  splice, length-splice, take-splice_end, take-splice_before, drop-splice, take-append_le, take_all,
  drop-take, drop-append_ge, length-resize, take-resize, length-take, length-drop, arith,
  if◌then◌else◌, ◌==◌,
}
use gputop.Util.{Array, array_set_len, array_append, array_remove_fast}

-- The elements fit the block.
pub record IsValid (a : Array) : Type 0 where
  pub block : length a.bytes ≡ a.size
  pub fits : a.len * a.elem_size ≤ a.size

-- The bytes of all elements.
abbrev pub elements : Array → Bytes
elements a = take (a.len * a.elem_size) a.bytes

module _ (fill : ℕ) where
  set_len_lem :
      (a : Array) (len : ℕ)
      → IsValid a
      → a.len ≤ len
      → IsValid (array_set_len fill a len)
        × (take (a.len * a.elem_size) (array_set_len fill a len).bytes ≡ elements a)
        × ((array_set_len fill a len).len ≡ len)
        × ((array_set_len fill a len).elem_size ≡ a.elem_size)
  unfolding array_set_len
  set_len_lem a len v h = elim (Bool-cases (leb (len * a.elem_size) a.size)) [
    | inl room ↦ rw room (record { block = v.block; fits = ground arith }, refl, refl, refl)
    | inr full ↦
        let more : a.size < len * a.elem_size = ground arith in
        rw full (
          record {
            block = length-resize fill _ a.bytes (omega (arith, v.block));
            fits = omega arith;
          },
          take-resize fill _ (a.len * a.elem_size) a.bytes (omega (arith, v.block))
              (omega (arith, v.block, v.fits)),
          refl,
          refl,
        )
  ]

  -- `array_append` never leaves the block of a valid array, and puts the element behind the others.
  pub array_append_lem :
      (a : Array) (elem : Bytes)
      → IsValid a
      → length elem ≡ a.elem_size
      → (b : Array) × (array_append fill a elem ≡ some b)
        × IsValid b
        × (elements b ≡ elements a ++ elem)
        × (b.len ≡ a.len + 1)
  unfolding array_append
  array_append_lem a elem v whole =
      let g = set_len_lem a (a.len + 1) v (omega arith) in
      let off = a.elem_size * (array.len - 1) in
      let at : off ≡ a.len * a.elem_size =
        ap (λ n. a.elem_size * (n - 1)) g.2
        ∙ ap (λ n. a.elem_size * n) {x = a.len + 1 - 1} {y = a.len} (omega arith)
        ∙ omega arith in
      let need : array.len * array.elem_size ≡ a.len * a.elem_size + a.elem_size =
        ap₂ (λ n e. n * e) g.2 g.3 ∙ omega arith in
      let room : off + length elem ≤ length array.bytes =
        omega (arith, at, need, whole, g.0.block, g.0.fits) in
      (
        record array { bytes = splice array.bytes off elem },
        rw (write_lem array.bytes off elem room) refl,
        record { block = length-splice array.bytes off elem room ∙ g.0.block; fits = g.0.fits },
        take-splice_end array.bytes off elem room (array.len * array.elem_size)
              (omega (arith, need, at, whole))
            ∙ ap (λ n. take n array.bytes ++ elem) at
            ∙ ap (λ xs. xs ++ elem) g.1,
        g.2,
      )
    where
      array : Array
      array = array_set_len fill a (a.len + 1)

-- The bytes of the element at an index.
abbrev pub element : Array → ℕ → Bytes
element a i = take a.elem_size (drop (i * a.elem_size) a.bytes)

drop-drop : (n m : ℕ) (xs : Bytes) → drop m (drop n xs) ≡ drop (n + m) xs
drop-drop zero m xs = ap (λ k. drop k xs) (omega arith)
drop-drop (suc n) zero [] = ap (λ k. drop k []) {x = suc n} {y = suc n + zero} (omega arith)
drop-drop (suc n) (suc m) [] =
    ap (λ k. drop k []) {x = suc (n + suc m)} {y = suc n + suc m} (omega arith)
drop-drop (suc n) m (x ∷ xs) =
    drop-drop n m xs ∙ ap (λ k. drop k (x ∷ xs)) {x = suc (n + m)} {y = suc n + m} (omega arith)

fewer_bytes : (n m e : ℕ) → n ≤ m → n * e ≤ m * e
fewer_bytes n m e h = mul-le-mul_right e h

-- The start of the next element.
next_element : (i e : ℕ) → (i + 1) * e ≡ i * e + e
next_element i e = omega arith

module _ (mem : Bytes) (off : ℕ) (bytes : Bytes) (fits : off + length bytes ≤ length mem) where
  read-splice_at : take (length bytes) (drop off (splice mem off bytes)) ≡ bytes
  read-splice_at =
      ap (take (length bytes)) (drop-splice mem off bytes fits)
      ∙ take-append_le (length bytes) bytes _ (omega arith)
      ∙ take_all (length bytes) bytes (omega arith)

  read-splice_before :
      (k n : ℕ) → k + n ≤ off → take n (drop k (splice mem off bytes)) ≡ take n (drop k mem)
  read-splice_before k n h =
      sym (drop-take k (k + n) n (splice mem off bytes) refl)
      ∙ ap (drop k) (take-splice_before mem off bytes fits (k + n) h)
      ∙ drop-take k (k + n) n mem refl

  drop-splice_after : (k : ℕ) → off + length bytes ≤ k → drop k (splice mem off bytes) ≡ drop k mem
  drop-splice_after k h =
      drop-append_ge k (k - off) (take off mem) _ (omega (arith, length-take off mem))
      ∙ drop-append_ge (k - off) (k - (off + length bytes)) bytes _ (omega arith)
      ∙ drop-drop (off + length bytes) (k - (off + length bytes)) mem
      ∙ ap (λ n. drop n mem) (omega arith)

-- `array_remove_fast` of an element never leaves the block of a valid array. It leaves one element
-- less: the last one stands at the index of the removed one, the others stay where they were.
pub array_remove_fast_lem :
    (a : Array) (idx : ℕ)
    → IsValid a
    → idx < a.len
    → (b : Array) × (array_remove_fast a idx ≡ some b)
      × IsValid b
      × (b.len ≡ a.len - 1)
      × ((j : ℕ)
          → j < b.len
          → element b j ≡ (if j == idx then element a (a.len - 1) else element a j))
unfolding array_remove_fast
array_remove_fast_lem a idx v inside = elim (Bool-cases (idx == a.len - 1)) [
  | inl same ↦
      let last : idx ≡ a.len - 1 = ground arith in
      (
        record a { len = a.len - 1 },
        rw same refl,
        record {
          block = v.block;
          fits = omega (arith, v.fits, fewer_bytes (a.len - 1) a.len a.elem_size (omega arith));
        },
        refl,
        λ j h. let other : (j == idx) ≡ false = ground arith in rw other refl,
      )
  | inr other ↦
      let before : idx + 1 ≤ a.len - 1 = ground arith in
      let whole : a.len * a.elem_size ≡ (a.len - 1) * a.elem_size + a.elem_size =
        ap (λ n. n * a.elem_size) {x = a.len} {y = a.len - 1 + 1} (omega arith)
        ∙ next_element (a.len - 1) a.elem_size in
      let inner : read a.bytes ((a.len - 1) * a.elem_size) a.elem_size ≡ some moved =
        read_lem a.bytes _ a.elem_size (omega (arith, v.fits, v.block, whole)) in
      let size : length moved ≡ a.elem_size = omega (
        arith,
        v.fits,
        v.block,
        whole,
        length-take a.elem_size (drop ((a.len - 1) * a.elem_size) a.bytes),
        length-drop ((a.len - 1) * a.elem_size) a.bytes,
      ) in
      let room : idx * a.elem_size + length moved ≤ length a.bytes = omega (
        arith,
        size,
        v.fits,
        v.block,
        whole,
        next_element idx a.elem_size,
        mul-le-mul_right a.elem_size before,
      ) in
      (
        record a { len = a.len - 1; bytes = splice a.bytes (idx * a.elem_size) moved },
        rw (other, inner, write_lem a.bytes (idx * a.elem_size) moved room) refl,
        record {
          block = length-splice a.bytes _ moved room ∙ v.block;
          fits = omega (arith, v.fits, fewer_bytes (a.len - 1) a.len a.elem_size (omega arith));
        },
        refl,
        λ j h. elim (Bool-cases (j == idx)) [
          | inl here ↦
              let at : j ≡ idx = (==_iff j idx).0 here in
              rw (here, at)
                (ap
                    (λ n.
                      take n (drop (idx * a.elem_size) (splice a.bytes (idx * a.elem_size) moved)))
                    (sym size)
                  ∙ read-splice_at a.bytes (idx * a.elem_size) moved room)
          | inr away ↦ rw away elim (Bool-cases (ltb j idx)) [
            | inl low ↦
                let below : j + 1 ≤ idx = ground arith in
                read-splice_before a.bytes (idx * a.elem_size) moved room (j * a.elem_size)
                  a.elem_size
                  (omega (arith, next_element j a.elem_size, mul-le-mul_right a.elem_size below))
            | inr high ↦
                let above : idx + 1 ≤ j = ground arith in
                ap (take a.elem_size) (
                  drop-splice_after a.bytes (idx * a.elem_size) moved room (j * a.elem_size) (
                    omega (
                      arith,
                      size,
                      next_element idx a.elem_size,
                      mul-le-mul_right a.elem_size above,
                    )))
          ]
        ],
      )
]
  where
    moved : Bytes
    moved = element a (a.len - 1)
