-- ===== src/Memory.antt =====
-- `memcpy` between arrays of 32-bit words, with offsets and sizes in bytes, as the driver passes
-- them. Every offset and size that it passes is a multiple of 4.
use eva_driver.Prelude.{
  ℕ, ◌+◌, ◌-◌, ◌*◌, ◌/◌, ◌≤◌, ◌<◌, ◌≡◌, ap, ◌&&◌, ◌∙◌, refl, ◌⊎◌, inl, inr, Option, none, some,
  List, [], ◌∷◌, ◌++◌, arith,
}
use eva_driver.Prelude.Tests.{leb, Bool-cases, if◌then◌else◌}
use eva_driver.Prelude.Lists.{
  length, get_or, take, drop, length-append, length-take, length-drop, get_or-append_left,
  get_or-append_right, get_or-take, get_or-drop,
}

-- `src` written over the words of `dst` from index `at` on.
pub splice : List ℕ → ℕ → List ℕ → List ℕ
splice dst at src = take at dst ++ (src ++ drop (at + length src) dst)

-- `count` words from index `at` on.
pub slice : List ℕ → ℕ → ℕ → List ℕ
slice src at count = take count (drop at src)

-- `memcpy(dst + d, src + s, size)`: `none` is an access outside `dst` or `src`.
unfoldable pub memcpy : List ℕ → ℕ → List ℕ → ℕ → ℕ → Option (List ℕ)
unfolding splice slice
memcpy dst d src s size =
    if leb (d + size) (length dst * 4) && leb (s + size) (length src * 4)
    then some (splice dst (d / 4) (slice src (s / 4) (size / 4)))
    else none

pub memcpy_inside :
    (dst : List ℕ) (d : ℕ) (src : List ℕ) (s size : ℕ)
    → d + size ≤ length dst * 4
    → s + size ≤ length src * 4
    → memcpy dst d src s size ≡ some (splice dst (d / 4) (slice src (s / 4) (size / 4)))
unfolding memcpy
memcpy_inside dst d src s size hd hs = ground (arith)

-- The same in whole words.
pub memcpy_words :
    (dst : List ℕ) (d : ℕ) (src : List ℕ) (s k : ℕ)
    → d + k ≤ length dst
    → s + k ≤ length src
    → memcpy dst (d * 4) src (s * 4) (k * 4) ≡ some (splice dst d (slice src s k))
memcpy_words dst d src s k hd hs =
    let e : d * 4 / 4 ≡ d = omega arith in
    let f : s * 4 / 4 ≡ s = omega arith in
    let g : k * 4 / 4 ≡ k = omega arith in
    rw (memcpy_inside dst (d * 4) src (s * 4) (k * 4) (omega arith) (omega arith), e, f, g)

pub slice_all : (src : List ℕ) → slice src 0 (length src) ≡ src
unfolding slice
slice_all [] = refl
slice_all (x ∷ src) = ap (◌∷◌ x) (slice_all src)

pub length-slice :
    (src : List ℕ) (at count : ℕ) → at + count ≤ length src → length (slice src at count) ≡ count
unfolding slice
length-slice src at count h = omega (arith, length-take count (drop at src), length-drop at src)

pub get_or-slice :
    (src : List ℕ) (at count i : ℕ)
    → i < count
    → get_or (slice src at count) i 0 ≡ get_or src (at + i) 0
unfolding slice
get_or-slice src at count i h = get_or-take count (drop at src) i 0 h ∙ get_or-drop at src i 0

pub length-splice :
    (dst : List ℕ) (at : ℕ) (src : List ℕ)
    → at + length src ≤ length dst
    → length (splice dst at src) ≡ length dst
unfolding splice
length-splice dst at src h = omega (
  arith,
  length-append (take at dst) (src ++ drop (at + length src) dst),
  length-append src (drop (at + length src) dst),
  length-take at dst,
  length-drop (at + length src) dst,
)

pub memcpy_outside :
    (dst : List ℕ) (d : ℕ) (src : List ℕ) (s size : ℕ)
    → length dst * 4 < d + size
    → memcpy dst d src s size ≡ none
unfolding memcpy
memcpy_outside dst d src s size h = ground arith

-- A copy that succeeds leaves the array as long as it was.
pub length-memcpy :
    (dst : List ℕ) (d : ℕ) (src : List ℕ) (s size : ℕ) {out : List ℕ}
    → memcpy dst d src s size ≡ some out
    → length out ≡ length dst
unfolding memcpy
length-memcpy dst d src s size {out} e =
    elim (Bool-cases (leb (d + size) (length dst * 4) && leb (s + size) (length src * 4))) [
      | inl inside ↦
          let k : (d + size ≤ length dst * 4) × (s + size ≤ length src * 4) = ground arith in
          let l : length (slice src (s / 4) (size / 4)) ≡ size / 4 =
            length-slice src (s / 4) (size / 4) (omega arith) in
          let q : splice dst (d / 4) (slice src (s / 4) (size / 4)) ≡ out = ground arith in
          rw (← q) (length-splice dst (d / 4) (slice src (s / 4) (size / 4)) (omega arith))
      | inr outside ↦ absurd (ground arith)
    ]

module _ (dst : List ℕ) (at : ℕ) (src : List ℕ) (i : ℕ) (fits : at + length src ≤ length dst) where
  pub get_or-splice_before : i < at → get_or (splice dst at src) i 0 ≡ get_or dst i 0
  unfolding splice
  get_or-splice_before h =
      get_or-append_left (take at dst) _ i 0 (omega (arith, length-take at dst))
      ∙ get_or-take at dst i 0 h

  pub get_or-splice_inside :
      at ≤ i → i < at + length src → get_or (splice dst at src) i 0 ≡ get_or src (i - at) 0
  unfolding splice
  get_or-splice_inside h k =
      let e : length (take at dst) ≡ at = omega (arith, length-take at dst) in
      get_or-append_right (take at dst) _ i 0 (omega (arith, e))
      ∙ rw e (get_or-append_left src _ (i - at) 0 (omega arith))

  pub get_or-splice_after : at + length src ≤ i → get_or (splice dst at src) i 0 ≡ get_or dst i 0
  unfolding splice
  get_or-splice_after h =
      let e : length (take at dst) ≡ at = omega (arith, length-take at dst) in
      let k : at + length src + (i - at - length src) ≡ i = omega arith in
      get_or-append_right (take at dst) _ i 0 (omega (arith, e))
      ∙ rw e (
          get_or-append_right src _ (i - at) 0 (omega arith)
          ∙ get_or-drop (at + length src) dst (i - at - length src) 0
          ∙ ap (λ j. get_or dst j 0) k)

  pub get_or-splice_outside :
      (i < at) ⊎ (at + length src ≤ i) → get_or (splice dst at src) i 0 ≡ get_or dst i 0
  get_or-splice_outside (inl h) = get_or-splice_before h
  get_or-splice_outside (inr h) = get_or-splice_after h
