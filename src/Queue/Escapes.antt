-- ===== src/Queue/Escapes.antt =====
-- Where the writer stays inside the queue and the packet, and where it does not, by what the
-- firmware wrote to the header.
use eva_driver.Prelude.{
  ℕ, ◌+◌, ◌-◌, ◌*◌, ◌/◌, ◌^◌, ◌≤◌, ◌<◌, ◌≡◌, ◌≢◌, inl, inr, false, ◌||◌, Option, none, List, arith,
  dec_lt,
}
use eva_driver.Prelude.Tests.{
  leb, ltb, ◌==◌, ltb-true, ltb-false, leb-false, Bool-cases, Option-cases,
}
use eva_driver.Prelude.Lists.{length, get_or}
use eva_driver.Prelude.Words.{add32, sub32, shl2}
use eva_driver.Memory.{
  memcpy, splice, slice, memcpy_words, memcpy_outside, length-memcpy, length-splice, length-slice,
}
use eva_driver.Queue.{QueueHeader, copy_in, empty_space, write_at}
use eva_driver.Queue.Holds.{shl2_words}
use eva_driver.Queue.Bounds.{bind-ne-none}

-- The writer's copies, with a write index of at most the queue's size.
copy_in-inside :
    (words : List ℕ) (size : ℕ) (packet : List ℕ) (w n : ℕ)
    → length words ≡ size
    → size ≤ 2 ^ 29
    → n ≤ size
    → n ≤ length packet
    → w ≤ size
    → copy_in words size packet w n ≢ none
unfolding copy_in
copy_in-inside words size packet w n e small fits large inside = elim (dec_lt (w + n) size) [
  | yes one ↦
      rw
        (
          a,
          ltb-true _ _ one,
          shl2_words w (omega arith),
          shl2_words n (omega arith),
          memcpy_words words w packet 0 n (omega arith) (omega arith),
        )
        (λ q. cc)
  | no round ↦
      let b : sub32 (w + n) size ≡ w + n - size = omega arith in
      let c : sub32 n (w + n - size) ≡ size - w = omega arith in
      let l : length (slice packet 0 (size - w)) ≡ size - w =
        length-slice packet 0 (size - w) (omega arith) in
      let m : length (splice words w (slice packet 0 (size - w))) ≡ length words =
        length-splice words w (slice packet 0 (size - w)) (omega arith) in
      rw
        (
          a,
          ltb-false (w + n) size (omega arith),
          b,
          c,
          shl2_words w (omega arith),
          shl2_words (size - w) (omega arith),
          shl2_words (w + n - size) (omega arith),
          memcpy_words words w packet 0 (size - w) (omega arith) (omega arith),
          memcpy_words (splice words w (slice packet 0 (size - w))) 0 packet (size - w)
              (w + n - size) (omega arith) (omega arith),
        )
        (λ q. cc)
]
  where
    a : add32 w n ≡ w + n
    a = omega arith

-- `__write_queue` reads nothing outside the packet and writes nothing outside the queue, whatever
-- the header holds, as long as the write index is below 2^30.
pub write_at-inside :
    (words : List ℕ) (mem_size : ℕ) (h : QueueHeader) (packet : List ℕ)
    → length words * 4 ≡ mem_size
    → mem_size ≤ 2 ^ 31
    → get_or packet 0 0 / 4 ≤ length packet
    → h.write_idx < 2 ^ 30
    → write_at words mem_size h packet ≢ none
unfolding write_at
write_at-inside words mem_size h packet fits small large below =
    elim (Bool-cases (n == 0 || ltb (mem_size / 4) n)) [
      | inl bad ↦ rw bad (λ q. cc)
      | inr good ↦ elim (Bool-cases (leb (empty_space h (mem_size / 4)) n)) [
        | inl full ↦ rw (good, full) (λ q. cc)
        | inr room ↦ elim (Bool-cases (ltb mem_size (shl2 h.write_idx))) [
          | inl beyond ↦ rw (good, room, beyond) (λ q. cc)
          | inr within ↦
              let k : (n ≤ mem_size / 4) × (shl2 h.write_idx ≤ mem_size) = ground arith in
              rw (good, room, within)
                (bind-ne-none _ _
                  (copy_in-inside words (mem_size / 4) packet h.write_idx n (omega arith)
                    (omega arith) (omega arith) large (omega arith))
                  (λ a q. cc))
        ]
      ]
    ]
  where
    n : ℕ
    n = get_or packet 0 0 / 4

copy_in_escapes :
    (words : List ℕ) (size : ℕ) (packet : List ℕ) (w n k : ℕ)
    → length words ≡ size
    → size ≤ 2 ^ 29
    → w ≡ 2 ^ 30 + k
    → 0 < n
    → k + n < size
    → copy_in words size packet w n ≡ none
unfolding copy_in
copy_in_escapes words size packet w n k fits small e some_word short =
    rw (a, ltb-false (w + n) size (omega arith), b)
      (elim (Option-cases front) [
        | inl q ↦ rw q
        | inr (words', q) ↦
            let l : length words' ≡ length words =
              length-memcpy words (shl2 w) packet 0 (shl2 (sub32 n (w + n - size))) q in
            rw (
              q,
              memcpy_outside words' 0 packet (shl2 (sub32 n (w + n - size))) (shl2 (w + n - size))
                  (omega arith),
            )
      ])
  where
    a : add32 w n ≡ w + n
    a = omega arith

    b : sub32 (w + n) size ≡ w + n - size
    b = omega arith

    front : Option (List ℕ)
    front = memcpy words (shl2 w) packet 0 (shl2 (sub32 n (w + n - size)))

-- A write index from 2^30 on passes the checks of `__write_queue` if its shifted value does, and
-- the copy then leaves the queue or the packet: the shift by 2 drops the index's two top bits, and
-- the size of the second copy wraps.
pub write_at-escapes :
    (words : List ℕ) (mem_size : ℕ) (h : QueueHeader) (packet : List ℕ) (k : ℕ)
    → length words * 4 ≡ mem_size
    → mem_size ≤ 2 ^ 31
    → h.write_idx ≡ 2 ^ 30 + k
    → 0 < get_or packet 0 0 / 4
    → k + get_or packet 0 0 / 4 < mem_size / 4
    → get_or packet 0 0 / 4 < empty_space h (mem_size / 4)
    → write_at words mem_size h packet ≡ none
unfolding write_at
write_at-escapes words mem_size h packet k fits small e some_word short room = rw (
  good,
  leb-false (empty_space h (mem_size / 4)) (get_or packet 0 0 / 4) room,
  ltb-false mem_size (shl2 h.write_idx) (omega arith),
  copy_in_escapes words (mem_size / 4) packet h.write_idx (get_or packet 0 0 / 4) k (omega arith)
      (omega arith) e some_word short,
)
  where
    good : (get_or packet 0 0 / 4 == 0 || ltb (mem_size / 4) (get_or packet 0 0 / 4)) ≡ false
    good = ground arith
