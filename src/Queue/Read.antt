-- ===== src/Queue/Read.antt =====
-- The copy of `__read_queue` on a queue in order.
use eva_driver.Prelude.{
  ℕ, ◌+◌, ◌-◌, ◌^◌, ◌≤◌, ◌<◌, ◌≡◌, ◌∙◌, sym, ap, inl, inr, some, List, ◌++◌, arith, dec_lt,
}
use eva_driver.Prelude.Tests.{ltb-true, ltb-false}
use eva_driver.Prelude.Lists.{
  length, get_or, drop, list_ext, length-append, length-drop, get_or-append_left,
  get_or-append_right, get_or-drop,
}
use eva_driver.Prelude.Words.{add32, sub32}
use eva_driver.Memory.{
  splice, slice, memcpy_words, length-splice, length-slice, get_or-slice, get_or-splice_inside,
  get_or-splice_outside,
}
use eva_driver.Queue.{copy_out}
use eva_driver.Queue.Holds.{Holds, wrap, shl2_words}

module _ (words : List ℕ) (size r w : ℕ) (packet rest buffer : List ℕ)
    (h : Holds words size r w (packet ++ rest)) (small : size ≤ 2 ^ 29)
    (large : length packet ≤ length buffer) where
  -- What the reader's buffer holds afterwards: the packet, and its own words behind it.
  overlay-packet :
      (out : List ℕ)
      → length out ≡ length buffer
      → ((i : ℕ) → i < length packet → get_or out i 0 ≡ get_or words (wrap size (r + i)) 0)
      → ((i : ℕ) → length packet ≤ i → get_or out i 0 ≡ get_or buffer i 0)
      → out ≡ packet ++ drop (length packet) buffer
  overlay-packet out same front back =
      list_ext out (packet ++ drop (length packet) buffer) 0
        (omega (
          arith,
          same,
          length-append packet (drop (length packet) buffer),
          length-drop (length packet) buffer,
        ))
        at
    where
      at :
          (i : ℕ)
          → i < length out
          → get_or out i 0 ≡ get_or (packet ++ drop (length packet) buffer) i 0
      at i k = elim (dec_lt i (length packet)) [
        | yes l ↦
            front i l
            ∙ h.cells i (omega (arith, length-append packet rest))
            ∙ get_or-append_left packet rest i 0 l
            ∙ sym (get_or-append_left packet (drop (length packet) buffer) i 0 l)
        | no l ↦
            let e : length packet + (i - length packet) ≡ i = omega arith in
            back i (omega arith)
            ∙ ap (λ j. get_or buffer j 0) (sym e)
            ∙ sym (get_or-drop (length packet) buffer (i - length packet) 0)
            ∙ sym (get_or-append_right packet (drop (length packet) buffer) i 0 (omega arith))
      ]

  copy_out_one :
      r + length packet < size
      → copy_out words size buffer r (length packet)
        ≡ some (r + length packet, splice buffer 0 (slice words r (length packet)))
  unfolding copy_out
  copy_out_one one =
      let e : add32 r (length packet) ≡ r + length packet = omega arith in
      rw (
        e,
        ltb-true _ _ one,
        shl2_words r (omega arith),
        shl2_words (length packet) (omega arith),
        memcpy_words buffer 0 words r (length packet) (omega arith) (omega (arith, h.fits)),
      )

  copy_out_round :
      (over : ℕ)
      → r + length packet ≡ size + over
      → copy_out words size buffer r (length packet)
        ≡ some (
          over,
          splice (splice buffer 0 (slice words r (size - r))) (size - r) (slice words 0 over),
        )
  unfolding copy_out
  copy_out_round over e =
      let q : length packet < size = omega (arith, h.room, length-append packet rest) in
      let d : r < size = h.read_in in
      let a : add32 r (length packet) ≡ r + length packet = omega arith in
      let b : sub32 (r + length packet) size ≡ over = omega arith in
      let c : sub32 (length packet) over ≡ size - r = omega arith in
      let l : length (slice words r (size - r)) ≡ size - r =
        length-slice words r (size - r) (omega (arith, h.fits)) in
      let m : length (splice buffer 0 (slice words r (size - r))) ≡ length buffer =
        length-splice buffer 0 (slice words r (size - r)) (omega arith) in
      rw (
        a,
        ltb-false (r + length packet) size (omega arith),
        b,
        c,
        shl2_words r (omega arith),
        shl2_words (size - r) (omega arith),
        shl2_words over (omega arith),
        memcpy_words buffer 0 words r (size - r) (omega arith) (omega (arith, h.fits)),
        memcpy_words (splice buffer 0 (slice words r (size - r))) (size - r) words 0 over
            (omega arith) (omega (arith, h.fits)),
      )

  overlay_one :
      r + length packet < size
      → splice buffer 0 (slice words r (length packet)) ≡ packet ++ drop (length packet) buffer
  overlay_one one =
      let l : length (slice words r (length packet)) ≡ length packet =
        length-slice words r (length packet) (omega (arith, h.fits)) in
      overlay-packet (splice buffer 0 (slice words r (length packet)))
        (length-splice buffer 0 (slice words r (length packet)) (omega arith))
        (λ i k.
          let e : wrap size (r + i) ≡ r + i = ground arith in
          let f : i - 0 ≡ i = omega arith in
          get_or-splice_inside buffer 0 (slice words r (length packet)) i (omega arith)
            (omega arith) (omega arith)
          ∙ rw (f, e) (get_or-slice words r (length packet) i k))
        (λ i k.
          get_or-splice_outside buffer 0 (slice words r (length packet)) i (omega arith)
            (inr (omega arith)))

  overlay_round :
      (over : ℕ)
      → r + length packet ≡ size + over
      → splice (splice buffer 0 (slice words r (size - r))) (size - r) (slice words 0 over)
        ≡ packet ++ drop (length packet) buffer
  overlay_round over e = overlay-packet out same front back
    where
      first : List ℕ
      first = slice words r (size - r)

      out : List ℕ
      out = splice (splice buffer 0 first) (size - r) (slice words 0 over)

      sizes :
          (length packet < size)
          × (r < size)
          × (length first ≡ size - r)
          × (length (slice words 0 over) ≡ over)
          × (length (splice buffer 0 first) ≡ length buffer)
      sizes =
          let q : length packet < size = omega (arith, h.room, length-append packet rest) in
          let d : r < size = h.read_in in
          let l : length first ≡ size - r =
            length-slice words r (size - r) (omega (arith, h.fits)) in
          (
            q,
            d,
            l,
            length-slice words 0 over (omega (arith, h.fits)),
            length-splice buffer 0 first (omega arith),
          )

      same : length out ≡ length buffer
      same =
          length-splice (splice buffer 0 first) (size - r) (slice words 0 over)
            (omega (arith, sizes))
          ∙ sizes.4

      before : (i : ℕ) → i < size - r → get_or out i 0 ≡ get_or words (wrap size (r + i)) 0
      before i k =
          let f : wrap size (r + i) ≡ r + i = ground arith in
          let g : i - 0 ≡ i = omega arith in
          get_or-splice_outside (splice buffer 0 first) (size - r) (slice words 0 over) i
            (omega (arith, sizes)) (inl k)
          ∙ get_or-splice_inside buffer 0 first i (omega (arith, sizes)) (omega arith)
              (omega (arith, sizes))
          ∙ rw (g, f) (get_or-slice words r (size - r) i k)

      behind :
          (i : ℕ)
          → i < length packet
          → size - r ≤ i
          → get_or out i 0 ≡ get_or words (wrap size (r + i)) 0
      behind i k l =
          let f : wrap size (r + i) ≡ 0 + (i - (size - r)) = ground (arith, sizes) in
          get_or-splice_inside (splice buffer 0 first) (size - r) (slice words 0 over) i
            (omega (arith, sizes)) l (omega (arith, sizes))
          ∙ rw f (get_or-slice words 0 over (i - (size - r)) (omega (arith, sizes)))

      front : (i : ℕ) → i < length packet → get_or out i 0 ≡ get_or words (wrap size (r + i)) 0
      front i k = elim (dec_lt i (size - r)) [
        | yes l ↦ before i l
        | no l ↦ behind i k (omega arith)
      ]

      back : (i : ℕ) → length packet ≤ i → get_or out i 0 ≡ get_or buffer i 0
      back i k =
          get_or-splice_outside (splice buffer 0 first) (size - r) (slice words 0 over) i
            (omega (arith, sizes)) (inr (omega (arith, sizes)))
          ∙ get_or-splice_outside buffer 0 first i (omega (arith, sizes))
              (inr (omega (arith, sizes)))

  -- The copy succeeds and is the packet.
  pub copy_out-packet :
      copy_out words size buffer r (length packet)
      ≡ some (wrap size (r + length packet), packet ++ drop (length packet) buffer)
  copy_out-packet = elim (dec_lt (r + length packet) size) [
    | yes one ↦ rw (ltb-true _ _ one, copy_out_one one, overlay_one one)
    | no round ↦ rw (
      ltb-false (r + length packet) size (omega arith),
      copy_out_round (r + length packet - size) (omega arith),
      overlay_round (r + length packet - size) (omega arith),
    )
  ]

  -- Behind it the queue holds the rest.
  pub rest-Holds : Holds words size (wrap size (r + length packet)) w rest
  rest-Holds = record {
    fits = h.fits;
    read_in = ground (arith, h.read_in, h.room, length-append packet rest);
    room = omega (arith, h.room, length-append packet rest);
    write_in = ground (arith, h.write_in, h.read_in, h.room, length-append packet rest);
    cells = λ i k.
        let e : wrap size (wrap size (r + length packet) + i)
            ≡ wrap size (r + (length packet + i)) =
          ground (arith, h.read_in, h.room, length-append packet rest) in
        let f : length packet + i - length packet ≡ i = omega arith in
        rw e (
          h.cells (length packet + i) (omega (arith, length-append packet rest))
          ∙ get_or-append_right packet rest (length packet + i) 0 (omega arith)
          ∙ ap (λ j. get_or rest j 0) f);
  }
