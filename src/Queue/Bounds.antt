-- ===== src/Queue/Bounds.antt =====
-- The reader stays inside the queue and the packet, whatever the firmware wrote to the header.
use eva_driver.Prelude.{
  ℕ, ◌+◌, ◌-◌, ◌*◌, ◌/◌, ◌^◌, ◌≤◌, ◌<◌, ◌≡◌, ◌≢◌, refl, inl, inr, ◌&&◌, Option, none, some, List,
  arith, dec_lt,
}
use eva_driver.Prelude.Tests.{leb, ltb, ltb-true, ltb-false, Bool-cases}
use eva_driver.Prelude.Lists.{length, get_or, get_elem?, All, All-get_elem?, get_elem?-eq-get_or}
use eva_driver.Prelude.Words.{u32_mod, add32, sub32, shl2}
use eva_driver.Memory.{splice, slice, memcpy_words, length-splice, length-slice}
use eva_driver.Queue.{
  QueueHeader, Peer, huge_pkt_size, ◌>>=◌, copy_out, fetch, take_packet, read_at,
}
use eva_driver.Queue.Holds.{shl2_words}

-- The reader's copies, from an index inside the queue and of at most the largest packet.
copy_out-inside :
    (words : List ℕ) (size : ℕ) (buffer : List ℕ) (r n : ℕ)
    → length words ≡ size
    → size ≤ 2 ^ 29
    → n ≤ size
    → n ≤ length buffer
    → r < size
    → copy_out words size buffer r n ≢ none
unfolding copy_out
copy_out-inside words size buffer r n e small fits large inside = elim (dec_lt (r + n) size) [
  | yes one ↦
      rw
        (
          a,
          ltb-true _ _ one,
          shl2_words r (omega arith),
          shl2_words n (omega arith),
          memcpy_words buffer 0 words r n (omega arith) (omega arith),
        )
        (λ q. cc)
  | no round ↦
      let b : sub32 (r + n) size ≡ r + n - size = omega arith in
      let c : sub32 n (r + n - size) ≡ size - r = omega arith in
      let l : length (slice words r (size - r)) ≡ size - r =
        length-slice words r (size - r) (omega arith) in
      let m : length (splice buffer 0 (slice words r (size - r))) ≡ length buffer =
        length-splice buffer 0 (slice words r (size - r)) (omega arith) in
      rw
        (
          a,
          ltb-false (r + n) size (omega arith),
          b,
          c,
          shl2_words r (omega arith),
          shl2_words (size - r) (omega arith),
          shl2_words (r + n - size) (omega arith),
          memcpy_words buffer 0 words r (size - r) (omega arith) (omega arith),
          memcpy_words (splice buffer 0 (slice words r (size - r))) (size - r) words 0
              (r + n - size) (omega arith) (omega arith),
        )
        (λ q. cc)
]
  where
    a : add32 r n ≡ r + n
    a = omega arith

pub bind-ne-none :
    {A B : Type 0} (o : Option A) (f : A → Option B)
    → o ≢ none
    → ((a : A) → f a ≢ none)
    → (o >>= f) ≢ none
bind-ne-none none f h k = λ e. h refl
bind-ne-none (some a) f h k = k a

module _ (words : List ℕ) (mem_size : ℕ) (buffer : List ℕ) (fits : length words * 4 ≡ mem_size)
    (small : mem_size ≤ 2 ^ 31) (enough : huge_pkt_size ≤ mem_size)
    (large : huge_pkt_size ≤ length buffer * 4) (u32s : All (λ x. x < u32_mod) words) where
  take_packet-inside :
      (h : QueueHeader) (write_idx last bytes : ℕ)
      → h.read_idx < u32_mod
      → shl2 h.read_idx + 4 ≤ mem_size
      → bytes < u32_mod
      → take_packet words mem_size h write_idx last buffer bytes ≢ none
  unfolding take_packet
  take_packet-inside h write_idx last bytes u32 k b =
      elim (Bool-cases (leb (shl2 (bytes / 4)) huge_pkt_size && leb h.read_idx (mem_size / 4))) [
        | inl good ↦
            let m : (shl2 (bytes / 4) ≤ huge_pkt_size) × (h.read_idx ≤ mem_size / 4) =
              ground arith in
            rw good (
              bind-ne-none _ _
                (copy_out-inside words (mem_size / 4) buffer h.read_idx (bytes / 4) (omega arith)
                  (omega arith) (omega arith) (omega arith) (omega arith))
                (λ a q. cc))
        | inr bad ↦ rw bad (λ q. cc)
      ]

  fetch-inside :
      (h : QueueHeader) (write_idx last : ℕ) (flag : Option ℕ)
      → h.read_idx < u32_mod
      → fetch words mem_size h write_idx last flag buffer ≢ none
  unfolding fetch
  fetch-inside h write_idx last flag u32 = elim (Bool-cases (ltb mem_size (shl2 h.read_idx + 4))) [
    | inl outside ↦ rw outside (λ q. cc)
    | inr inside ↦
        let k : shl2 h.read_idx + 4 ≤ mem_size = ground arith in
        let i : shl2 h.read_idx / 4 < length words = omega arith in
        let e : get_elem? words (shl2 h.read_idx / 4)
            ≡ some (get_or words (shl2 h.read_idx / 4) 0) =
          get_elem?-eq-get_or words (shl2 h.read_idx / 4) 0 i in
        rw (inside, e)
          (ground (
            arith,
            take_packet-inside h write_idx last (get_or words (shl2 h.read_idx / 4) 0) u32 k
                (All-get_elem? (λ x. x < u32_mod) words (shl2 h.read_idx / 4) u32s e),
          ))
  ]

  -- `__read_queue` reads nothing outside the queue and writes nothing outside a buffer of
  -- CVP_IFACEQ_VAR_HUGE_PKT_SIZE bytes, whatever the header and the queue's words hold and whatever
  -- the firmware does to the write index meanwhile, if the queue is no smaller than that buffer.
  pub read_at-inside :
      (h : QueueHeader) (peer : Peer)
      → h.read_idx < u32_mod
      → read_at words mem_size h peer buffer ≢ none
  unfolding read_at
  read_at-inside h peer u32 = ground (
    arith,
    fetch-inside (record h { rx_req = 0 }) h.write_idx peer.last (some 0) u32,
    fetch-inside h h.write_idx peer.last none u32,
  )
