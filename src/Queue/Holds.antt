-- ===== src/Queue/Holds.antt =====
-- What the words between the read and the write index of an HFI queue are, going round the end.
use eva_driver.Prelude.{
  ℕ, ◌+◌, ◌-◌, ◌*◌, ◌^◌, ◌≤◌, ◌<◌, ◌≡◌, ◌∙◌, sym, ap, List, ◌++◌, arith, dec_lt,
}
use eva_driver.Prelude.Tests.{ltb, if◌then◌else◌}
use eva_driver.Prelude.Lists.{
  length, get_or, length-append, get_or-append_left, get_or-append_right,
}
use eva_driver.Prelude.Words.{shl2}
use eva_driver.Memory.{
  splice, slice, length-slice, length-splice, get_or-slice, get_or-splice_outside,
  get_or-splice_inside,
}

abbrev pub wrap : ℕ → ℕ → ℕ
wrap size i = if ltb i size then i else i - size

-- The `length stream` words that start at the read index `r` are `stream`, and the write index
-- `w` is just behind them. A queue is never filled to the last word.
pub record Holds (words : List ℕ) (size r w : ℕ) (stream : List ℕ) : Type 0 where
  pub fits : length words ≡ size
  pub read_in : r < size
  pub room : length stream < size
  pub write_in : w ≡ wrap size (r + length stream)
  pub cells : (i : ℕ) → i < length stream → get_or words (wrap size (r + i)) 0 ≡ get_or stream i 0

pub write-lt-size : {words stream : List ℕ} {size r w : ℕ} → Holds words size r w stream → w < size
write-lt-size h = ground (arith, h.write_in, h.read_in, h.room)

pub shl2_words : (k : ℕ) → k < 2 ^ 30 → shl2 k ≡ k * 4
shl2_words k h = omega arith

module _ (words : List ℕ) (size r w : ℕ) (stream packet : List ℕ) (h : Holds words size r w stream)
    (fit : length stream + length packet < size) where
  -- A memory that keeps the stream's cells and has the packet behind them holds both.
  extend-Holds :
      (words' : List ℕ)
      → length words' ≡ length words
      → ((i : ℕ)
          → i < length stream
          → get_or words' (wrap size (r + i)) 0 ≡ get_or words (wrap size (r + i)) 0)
      → ((i : ℕ)
          → i < length packet
          → get_or words' (wrap size (r + (length stream + i))) 0 ≡ get_or packet i 0)
      → Holds words' size r (wrap size (w + length packet)) (stream ++ packet)
  extend-Holds words' same old new = record {
    fits = same ∙ h.fits;
    read_in = h.read_in;
    room = omega (arith, length-append stream packet);
    write_in = ground (arith, h.write_in, h.read_in, length-append stream packet);
    cells = cells;
  }
    where
      cells :
          (i : ℕ)
          → i < length (stream ++ packet)
          → get_or words' (wrap size (r + i)) 0 ≡ get_or (stream ++ packet) i 0
      cells i below = elim (dec_lt i (length stream)) [
        | yes k ↦ old i k ∙ h.cells i k ∙ sym (get_or-append_left stream packet i 0 k)
        | no k ↦
            let e : length stream + (i - length stream) ≡ i = omega arith in
            rw e at (new (i - length stream) (omega (arith, length-append stream packet)))
            ∙ sym (get_or-append_right stream packet i 0 (omega arith))
      ]

  -- The one-piece copy overwrites no word of the stream.
  pub splice-Holds :
      w + length packet < size
      → Holds (splice words w packet) size r (wrap size (w + length packet)) (stream ++ packet)
  splice-Holds one =
      extend-Holds (splice words w packet) (length-splice words w packet (omega (arith, h.fits)))
        (λ i k.
          get_or-splice_outside words w packet (wrap size (r + i)) (omega (arith, h.fits))
            (ground (arith, h.write_in, h.read_in)))
        (λ i k.
          let e : wrap size (r + (length stream + i)) ≡ w + i = ground (arith, h.write_in) in
          let f : w + i - w ≡ i = omega arith in
          rw e (
            get_or-splice_inside words w packet (w + i) (omega (arith, h.fits)) (omega arith)
              (omega arith)
            ∙ ap (λ j. get_or packet j 0) f))

  -- Nor does the copy round the end, of `front` words and then of the rest.
  pub splice_round-Holds :
      (front over : ℕ)
      → w + front ≡ size
      → front + over ≡ length packet
      → Holds
          (splice (splice words w (slice packet 0 front)) 0 (slice packet front over))
          size
          r
          (wrap size (w + length packet))
          (stream ++ packet)
  splice_round-Holds front over ef eo = extend-Holds words'' lengths old new
    where
      words' : List ℕ
      words' = splice words w (slice packet 0 front)

      words'' : List ℕ
      words'' = splice words' 0 (slice packet front over)

      sizes :
          (length (slice packet 0 front) ≡ front)
          × (length (slice packet front over) ≡ over)
          × (length words' ≡ size)
      sizes =
          let a : length (slice packet 0 front) ≡ front =
            length-slice packet 0 front (omega arith) in
          (
            a,
            length-slice packet front over (omega arith),
            length-splice words w (slice packet 0 front) (omega (arith, h.fits, a)) ∙ h.fits,
          )

      lengths : length words'' ≡ length words
      lengths =
          length-splice words' 0 (slice packet front over) (omega (arith, sizes))
          ∙ sizes.2
          ∙ sym h.fits

      old :
          (i : ℕ)
          → i < length stream
          → get_or words'' (wrap size (r + i)) 0 ≡ get_or words (wrap size (r + i)) 0
      old i k =
          get_or-splice_outside words' 0 (slice packet front over) (wrap size (r + i))
            (omega (arith, sizes)) (ground (arith, h.write_in, h.read_in, sizes))
          ∙ get_or-splice_outside words w (slice packet 0 front) (wrap size (r + i))
              (omega (arith, sizes, h.fits)) (ground (arith, h.write_in, h.read_in, sizes))

      in_front :
          (i : ℕ)
          → i < front
          → get_or words'' (wrap size (r + (length stream + i))) 0 ≡ get_or packet i 0
      in_front i k =
          let e : wrap size (r + (length stream + i)) ≡ w + i = ground (arith, h.write_in) in
          let f : w + i - w ≡ i = omega arith in
          rw e (
            get_or-splice_outside words' 0 (slice packet front over) (w + i) (omega (arith, sizes))
              (ground (arith, h.write_in, h.read_in, sizes))
            ∙ get_or-splice_inside words w (slice packet 0 front) (w + i)
                (omega (arith, sizes, h.fits)) (omega arith) (omega (arith, sizes))
            ∙ rw f (get_or-slice packet 0 front i k ∙ ap (λ j. get_or packet j 0) (omega arith)))

      behind :
          (i : ℕ)
          → i < length packet
          → front ≤ i
          → get_or words'' (wrap size (r + (length stream + i))) 0 ≡ get_or packet i 0
      behind i k l =
          let e : wrap size (r + (length stream + i)) ≡ i - front =
            ground (arith, h.write_in, h.read_in) in
          let f : front + (i - front) ≡ i = omega arith in
          rw e (
            get_or-splice_inside words' 0 (slice packet front over) (i - front)
              (omega (arith, sizes)) (omega arith) (omega (arith, sizes))
            ∙ ap (λ j. get_or (slice packet front over) j 0) (omega arith)
            ∙ get_or-slice packet front over (i - front) (omega arith)
            ∙ ap (λ j. get_or packet j 0) f)

      new :
          (i : ℕ)
          → i < length packet
          → get_or words'' (wrap size (r + (length stream + i))) 0 ≡ get_or packet i 0
      new i k = elim (dec_lt i front) [ yes l ↦ in_front i l | no l ↦ behind i k (omega arith) ]
