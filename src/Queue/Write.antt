-- ===== src/Queue/Write.antt =====
-- The copy of `__write_queue` on a queue in order.
use eva_driver.Prelude.{ℕ, ◌+◌, ◌-◌, ◌^◌, ◌≤◌, ◌<◌, ◌≡◌, some, List, ◌++◌, arith, dec_lt}
use eva_driver.Prelude.Tests.{ltb-true, ltb-false}
use eva_driver.Prelude.Lists.{length}
use eva_driver.Prelude.Words.{add32, sub32}
use eva_driver.Memory.{splice, slice, memcpy_words, slice_all, length-splice, length-slice}
use eva_driver.Queue.{copy_in}
use eva_driver.Queue.Holds.{
  Holds, wrap, shl2_words, splice-Holds, splice_round-Holds, write-lt-size,
}

module _ (words : List ℕ) (size r w : ℕ) (stream packet : List ℕ) (h : Holds words size r w stream)
    (small : size ≤ 2 ^ 29) (fit : length stream + length packet < size) where
  copy_in_one :
      w + length packet < size
      → copy_in words size packet w (length packet)
        ≡ some (w + length packet, splice words w packet)
  unfolding copy_in
  copy_in_one one =
      let e : add32 w (length packet) ≡ w + length packet = omega arith in
      rw (
        e,
        ltb-true _ _ one,
        shl2_words w (omega arith),
        shl2_words (length packet) (omega arith),
        memcpy_words words w packet 0 (length packet) (omega (arith, h.fits)) (omega arith),
        slice_all,
      )

  copy_in_round :
      (over : ℕ)
      → w + length packet ≡ size + over
      → copy_in words size packet w (length packet)
        ≡ some (
          over,
          splice (splice words w (slice packet 0 (size - w))) 0 (slice packet (size - w) over),
        )
  unfolding copy_in
  copy_in_round over e =
      let d : w < size = write-lt-size h in
      let a : add32 w (length packet) ≡ w + length packet = omega arith in
      let b : sub32 (w + length packet) size ≡ over = omega arith in
      let c : sub32 (length packet) over ≡ size - w = omega arith in
      let l : length (slice packet 0 (size - w)) ≡ size - w =
        length-slice packet 0 (size - w) (omega arith) in
      let m : length (splice words w (slice packet 0 (size - w))) ≡ length words =
        length-splice words w (slice packet 0 (size - w)) (omega (arith, h.fits)) in
      rw (
        a,
        ltb-false (w + length packet) size (omega arith),
        b,
        c,
        shl2_words w (omega arith),
        shl2_words (size - w) (omega arith),
        shl2_words over (omega arith),
        memcpy_words words w packet 0 (size - w) (omega (arith, h.fits)) (omega arith),
        memcpy_words (splice words w (slice packet 0 (size - w))) 0 packet (size - w) over
            (omega (arith, h.fits)) (omega arith),
      )

  -- The copy succeeds, and leaves the packet behind the stream.
  pub copy_in-Holds :
      (words' : List ℕ) × (copy_in words size packet w (length packet)
        ≡ some (wrap size (w + length packet), words'))
      × Holds words' size r (wrap size (w + length packet)) (stream ++ packet)
  copy_in-Holds = elim (dec_lt (w + length packet) size) [
    | yes one ↦ (
      splice words w packet,
      rw (ltb-true _ _ one) (copy_in_one one),
      splice-Holds words size r w stream packet h fit one,
    )
    | no round ↦
        let d : w < size = write-lt-size h in
        (
          splice (splice words w (slice packet 0 (size - w))) 0
              (slice packet (size - w) (w + length packet - size)),
          rw (ltb-false (w + length packet) size (omega arith))
              (copy_in_round (w + length packet - size) (omega arith)),
          splice_round-Holds words size r w stream packet h fit (size - w)
              (w + length packet - size) (omega arith) (omega arith),
        )
  ]
