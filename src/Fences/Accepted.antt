-- ===== src/Fences/Accepted.antt =====
-- What a packet does to the queue (`cvp_enqueue_pkt` of
-- msm/eva/msm_cvp.c).
use eva_driver.Prelude.{
  ℕ, ◌+◌, ◌-◌, ◌<◌, ◌≡◌, ◌≢◌, refl, ap, Bool, true, false, ◌||◌, ◌⊎◌, inl, inr, [], ◌∷◌, ◌++◌,
  arith, ℕ_discrete,
}
use eva_driver.Prelude.Tests.{ltb, ◌==◌, Bool-cases}
use eva_driver.Prelude.Lists.{length}
use eva_driver.Prelude.Errno.{Rc, Errno, success, failed, hfi_error, einval, ebusy}
use eva_driver.Session.{is_success}
use eva_driver.Messages.{max_hfi_pkt_size}
use eva_driver.Fences.{FenceCommand, FenceQueue, op_draining}
use eva_driver.Fences.Synx.{SynxDriver}
use eva_driver.Fences.Enqueue.{
  Packet, Setting, MapType, Mapping, Enqueued, populate_fences, undo, after_fences, enqueue_pkt,
  map_rc, mapped_kdata,
}
use eva_driver.Fences.Populated.{
  NoFences, Refusal, Fenced, unfenced, refused, queued, Populates, is_success-eq, not_success,
  populate_fences-Populates,
}

-- The packet behind the mapping of its buffers.
abbrev pub mapped : MapType → Mapping → Packet → Packet
mapped t m p = record p { kdata = mapped_kdata t m }

abbrev pub IsLong : Packet → Type 0
IsLong p = (max_hfi_pkt_size < p.offset) ⊎ (max_hfi_pkt_size < length p.bufs)

-- A packet that is let into the queue: it is not too long, the queue is open, and its buffers are
-- mapped.
pub record IsTaken (t : MapType) (m : Mapping) (p : Packet) (q : FenceQueue) : Type 0 where
  pub short : ¬ IsLong p
  pub is_open : q.mode ≢ op_draining
  pub is_mapped : map_rc t m ≡ success

-- How `cvp_enqueue_pkt` ends.
pub data EnqueueEnd (k : SynxDriver) (w : Setting) (t : MapType) (m : Mapping) (p : Packet)
    (q : FenceQueue) : Enqueued → Type 0 where
  rejected :
      (rc : Rc)
      → ((rc ≡ failed einval) × IsLong p)
        ⊎ ((rc ≡ failed ebusy) × (¬ IsLong p) × (q.mode ≡ op_draining))
        ⊎ ((rc ≡ map_rc t m) × (¬ IsLong p) × (q.mode ≢ op_draining) × (rc ≢ success))
      → EnqueueEnd k w t m p q (record { rc = rc; unmapped = false; queue = q })
  unsent :
      (rc : Rc)
      → IsTaken t m p q
      → NoFences w (mapped t m p)
      → w.session_send ≡ rc
      → rc ≢ success
      → EnqueueEnd k w t m p q (undo t m rc q)
  undone :
      (e : Errno) (done : Bool)
      → IsTaken t m p q
      → Refusal k w (mapped t m p) (failed e) done
      → EnqueueEnd k w t m p q (undo t m (failed e) q)
  sent :
      IsTaken t m p q
      → NoFences w (mapped t m p)
      → w.session_send ≡ success
      → EnqueueEnd k w t m p q (record { rc = success; unmapped = false; queue = q })
  positive :
      (n : ℕ) (done : Bool)
      → IsTaken t m p q
      → Refusal k w (mapped t m p) (hfi_error n) done
      → EnqueueEnd k w t m p q (record { rc = success; unmapped = false; queue = q })
  fenced :
      (f : FenceCommand) (n : ℕ) (done : Bool)
      → IsTaken t m p q
      → 0 < n
      → Fenced k w (mapped t m p) n done f
      → EnqueueEnd k w t m p q (record {
        rc = success;
        unmapped = false;
        queue = record q { wait_list = q.wait_list ++ (f ∷ []) };
      })

-- A sender leaves the queue.
abbrev leaves : Enqueued → Enqueued
leaves r = record r { queue = record (r.queue) { send_count = r.queue.send_count - 1 } }

abbrev enters : FenceQueue → FenceQueue
enters q = record q { send_count = q.send_count + 1 }

back : (q : FenceQueue) → record q { send_count = q.send_count + 1 - 1 } ≡ q
back q =
    let e : q.send_count + 1 - 1 ≡ q.send_count = omega arith in
    let counted : ℕ → FenceQueue = λ n. record q { send_count = n } in ap counted e

leaves-undo :
    (t : MapType) (m : Mapping) (rc : Rc) (q : FenceQueue)
    → leaves (undo t m rc (enters q)) ≡ undo t m rc q
unfolding undo
leaves-undo MapType.map_persist m rc q = ap (λ x. undo MapType.map_persist m rc x) (back q)
leaves-undo MapType.unmap_persist m rc q = ap (λ x. undo MapType.unmap_persist m rc x) (back q)
leaves-undo MapType.map_frame m rc q = ap (λ x. undo MapType.map_frame m rc x) (back q)

module _ (k : SynxDriver) (w : Setting) (t : MapType) (m : Mapping) (p : Packet) (q : FenceQueue)
    (taken : IsTaken t m p q) where
  after_fences-EnqueueEnd :
      (p' : Packet) {rc : Rc} {n : ℕ} {done : Bool} {q' : FenceQueue}
      → Populates k w (mapped t m p) (enters q) rc n done q'
      → EnqueueEnd k w t m p q (
          leaves (
            after_fences t m w.session_send
              (record { rc = rc; fence_count = n; sent = done; packet = p'; queue = q' })))
  unfolding after_fences
  after_fences-EnqueueEnd p' (unfenced none') = elim (Bool-cases (is_success w.session_send)) [
    | inl s ↦ rw (s, back q) (sent taken none' (is_success-eq w.session_send s))
    | inr s ↦
        rw (s, leaves-undo t m w.session_send q)
          (unsent w.session_send taken none' refl (not_success w.session_send s))
  ]
  after_fences-EnqueueEnd p' (refused success done c r) = absurd (c refl)
  after_fences-EnqueueEnd p' (refused (failed e) done c r) =
      rw (leaves-undo t m (failed e) q) (undone e done taken r)
  after_fences-EnqueueEnd p' (refused (hfi_error n) done c r) =
      rw (back q) (positive n done taken r)
  after_fences-EnqueueEnd p' (queued f n done pos x) =
      let z : (n == 0) ≡ false = ground (arith, pos) in
      rw (z, back (record q { wait_list = q.wait_list ++ (f ∷ []) })) (fenced f n done taken pos x)

  mapped-EnqueueEnd :
      EnqueueEnd k w t m p q
        (leaves (after_fences t m w.session_send (populate_fences k w (mapped t m p) (enters q))))
  mapped-EnqueueEnd =
      let r = populate_fences k w (mapped t m p) (enters q) in
      after_fences-EnqueueEnd r.packet (populate_fences-Populates k w (mapped t m p) (enters q))

or-true : (a b : Bool) → (a || b) ≡ true → (a ≡ true) ⊎ (b ≡ true)
or-true true b h = inl refl
or-true false b h = inr h

ltb-lt : (a b : ℕ) → ltb a b ≡ true → a < b
ltb-lt a b h = ground arith

too_long :
    (p : Packet)
    → (ltb max_hfi_pkt_size p.offset || ltb max_hfi_pkt_size (length p.bufs)) ≡ true
    → (max_hfi_pkt_size < p.offset) ⊎ (max_hfi_pkt_size < length p.bufs)
too_long p h =
    elim (or-true (ltb max_hfi_pkt_size p.offset) (ltb max_hfi_pkt_size (length p.bufs)) h) [
      | inl a ↦ inl (ltb-lt max_hfi_pkt_size p.offset a)
      | inr b ↦ inr (ltb-lt max_hfi_pkt_size (length p.bufs) b)
    ]

in_limits :
    (p : Packet)
    → (ltb max_hfi_pkt_size p.offset || ltb max_hfi_pkt_size (length p.bufs)) ≡ false
    → ¬ IsLong p
in_limits p h (inl a) = absurd (ground (arith, h, a))
in_limits p h (inr a) = absurd (ground (arith, h, a))

-- Each packet ends in one of these ways, and each only where it is due. It is rejected, and nothing
-- changed, where it is too long (-EINVAL), else the queue is closed (-EBUSY), else its buffers cannot
-- be mapped. Another one has no fences and is sent, or has fences and is one more command at the end
-- of the queue. Where the sending of a packet without fences fails, or the fences are refused with a
-- negative code, it leaves the queue as it was; it is undone, which unmaps a frame, and for
-- persistent buffers unmaps nothing and turns the code into -EINVAL. Fences are refused where the
-- packet is shorter than its header, memory is short, the kind of fences is unknown, more than 64
-- are there, one cannot be imported, or the sending fails. Such a refusal with a number above 0 is
-- taken for a success.
pub enqueue_pkt-EnqueueEnd :
    (k : SynxDriver) (w : Setting) (t : MapType) (m : Mapping) (p : Packet) (q : FenceQueue)
    → EnqueueEnd k w t m p q (enqueue_pkt k w t m p q)
unfolding enqueue_pkt
enqueue_pkt-EnqueueEnd k w t m p q =
    elim (Bool-cases (ltb max_hfi_pkt_size p.offset || ltb max_hfi_pkt_size (length p.bufs))) [
      | inl a ↦ rw a (rejected (failed einval) (inl (refl, too_long p a)))
      | inr a ↦ elim (ℕ_discrete q.mode op_draining) [
        | Dec.yes d ↦
            let b : (q.mode == op_draining) ≡ true = ground (arith, d) in
            simp (a, b) (rejected (failed ebusy) (inr (inl (refl, in_limits p a, d))))
        | Dec.no d ↦
            let b : (q.mode == op_draining) ≡ false = ground (arith, d) in
            elim (Bool-cases (is_success (map_rc t m))) [
              | inr c ↦
                  let bad = not_success (map_rc t m) c in
                  simp (a, b, c) (rejected (map_rc t m) (inr (inr (refl, in_limits p a, d, bad))))
              | inl c ↦
                  let taken : IsTaken t m p q = record {
                    short = in_limits p a;
                    is_open = d;
                    is_mapped = is_success-eq (map_rc t m) c;
                  } in
                  simp (a, b, c) (mapped-EnqueueEnd k w t m p q taken)
            ]
      ]
    ]
