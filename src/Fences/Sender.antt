-- ===== src/Fences/Sender.antt =====
-- A packet of a client as a sender of the queue (`cvp_enqueue_pkt` of msm/eva/msm_cvp.c).
use eva_driver.Prelude.{
  ℕ, ◌+◌, ◌-◌, ◌≡◌, refl, sym, ap, ap₂, ◌∙◌, ◌<◌, ◌≢◌, ◌⊎◌, inl, inr, Bool, false, List, [], ◌∷◌,
  ◌++◌, arith,
}
use eva_driver.Prelude.Tests.{◌==◌}
use eva_driver.Prelude.Errno.{Rc, success, failed, hfi_error, einval, ebusy}
use eva_driver.Fences.{FenceCommand, FenceQueue, op_draining}
use eva_driver.Fences.Synx.{SynxDriver}
use eva_driver.Fences.Enqueue.{
  Packet, Setting, MapType, Mapping, Enqueued, map_rc, undo, enqueue_pkt,
}
use eva_driver.Fences.Populated.{Fenced}
use eva_driver.Fences.Apart.{HasFences, NoFences-apart, Refusal-apart}
use eva_driver.Fences.Accepted.{
  mapped, IsLong, IsTaken, EnqueueEnd, rejected, unsent, undone, sent, positive, fenced,
  enqueue_pkt-EnqueueEnd,
}
use eva_driver.Fences.Steps.{Event, enter, append, leave, Log, act, run}

-- What the sender of a packet does to the queue. A packet that is let in and has fences: the sender
-- enters, puts the command of the fences into the queue, and leaves. Another one: nothing.
pub data SenderRun (k : SynxDriver) (w : Setting) (t : MapType) (m : Mapping) (p : Packet)
    (q : FenceQueue) : List Event → Type 0 where
  nothing : ¬ (IsTaken t m p q × HasFences k w (mapped t m p)) → SenderRun k w t m p q []
  one :
      (f : FenceCommand) (n : ℕ) (done : Bool)
      → IsTaken t m p q
      → 0 < n
      → Fenced k w (mapped t m p) n done f
      → SenderRun k w t m p q (enter ∷ append f ∷ leave ∷ [])

-- A queue, and the number of senders, behind a run of the packet's sender.
abbrev pub RunsAs : SynxDriver → Setting → MapType → Mapping → Packet → Log → FenceQueue → Type 0
RunsAs k w t m p l q =
    (es : List Event) × SenderRun k w t m p l.queue es
    × ((run k es l).queue ≡ q)
    × ((run k es l).inside ≡ l.inside)

undo-queue : (t : MapType) (m : Mapping) (rc : Rc) (q : FenceQueue) → (undo t m rc q).queue ≡ q
unfolding undo
undo-queue MapType.map_persist m rc q = refl
undo-queue MapType.unmap_persist m rc q = refl
undo-queue MapType.map_frame m rc q = refl

-- The log with one more sender in the queue.
abbrev entered : Log → Log
entered l = record l {
  queue = record (l.queue) { send_count = l.queue.send_count + 1 };
  inside = l.inside + 1;
}

enter_lem :
    (k : SynxDriver) (l : Log) → (l.queue.mode == op_draining) ≡ false → act k enter l ≡ entered l
unfolding act
enter_lem k l b = simp (act, b) refl

-- The log with one more command.
abbrev given : FenceCommand → Log → Log
given f l = record l {
  queue = record (l.queue) { wait_list = l.queue.wait_list ++ (f ∷ []) };
  accepted = l.accepted ++ (f ∷ []);
}

append_lem :
    (k : SynxDriver) (f : FenceCommand) (l : Log)
    → (l.inside == 0) ≡ false
    → act k (append f) l ≡ given f l
unfolding act
append_lem k f l z = rw z refl

leave_lem : (k : SynxDriver) (l : Log) → act k leave (entered l) ≡ l
unfolding act
leave_lem k l =
    let z : (l.inside + 1 == 0) ≡ false = ground arith in
    let e : l.queue.send_count + 1 - 1 ≡ l.queue.send_count = omega arith in
    let i : l.inside + 1 - 1 ≡ l.inside = omega arith in
    let log : ℕ → ℕ → Log =
      λ n o. record l { queue = record (l.queue) { send_count = n }; inside = o } in
    rw z (ap₂ log e i)

module _ (k : SynxDriver) (w : Setting) (t : MapType) (m : Mapping) (p : Packet) (l : Log) where
  untouched :
      {q : FenceQueue}
      → ¬ (IsTaken t m p l.queue × HasFences k w (mapped t m p))
      → l.queue ≡ q
      → RunsAs k w t m p l q
  unfolding run
  untouched n e = ([], nothing n, e, refl)

  appended :
      (f : FenceCommand) (n : ℕ) (done : Bool)
      → IsTaken t m p l.queue
      → 0 < n
      → Fenced k w (mapped t m p) n done f
      → RunsAs k w t m p l (record (l.queue) { wait_list = l.queue.wait_list ++ (f ∷ []) })
  unfolding run
  appended f n done g pos x =
      let o = g.is_open in
      let z : (l.inside + 1 == 0) ≡ false = ground arith in
      let e : run k (enter ∷ append f ∷ leave ∷ []) l ≡ given f l =
        ap (λ x. act k leave (act k (append f) x)) (enter_lem k l (ground (arith, o)))
        ∙ ap (act k leave) (append_lem k f (entered l) z)
        ∙ leave_lem k (given f l) in
      (
        enter ∷ append f ∷ leave ∷ [],
        one f n done g pos x,
        ap (λ x. x.queue) e,
        ap (λ x. x.inside) e,
      )

  rejected-apart :
      {rc : Rc}
      → ((rc ≡ failed einval) × IsLong p)
        ⊎ ((rc ≡ failed ebusy) × (¬ IsLong p) × (l.queue.mode ≡ op_draining))
        ⊎ ((rc ≡ map_rc t m) × (¬ IsLong p) × (l.queue.mode ≢ op_draining) × (rc ≢ success))
      → ¬ IsTaken t m p l.queue
  rejected-apart (inl (e, long)) g = let h = g.short in h long
  rejected-apart (inr (inl (e, s, d))) g = let h = g.is_open in h d
  rejected-apart (inr (inr (e, s, o, bad))) g = bad (e ∙ g.is_mapped)

  end-runs : {r : Enqueued} → EnqueueEnd k w t m p l.queue r → RunsAs k w t m p l r.queue
  end-runs (rejected rc h) = untouched (λ (g, x). rejected-apart h g) refl
  end-runs (unsent rc g a b c) =
      untouched (λ (g', x). NoFences-apart k w (mapped t m p) a x) (sym (undo-queue t m rc l.queue))
  end-runs (undone e done g a) =
      untouched (λ (g', x). Refusal-apart k w (mapped t m p) (failed e) done (λ q. absurd (cc)) a x)
        (sym (undo-queue t m (failed e) l.queue))
  end-runs (sent g a b) = untouched (λ (g', x). NoFences-apart k w (mapped t m p) a x) refl
  end-runs (positive n done g a) =
      untouched
        (λ (g', x). Refusal-apart k w (mapped t m p) (hfi_error n) done (λ q. absurd (cc)) a x) refl
  end-runs (fenced f n done g pos x) = appended f n done g pos x

-- Whatever becomes of a packet, the queue is then the one behind a run of the packet's sender, as the
-- sequences of events have it. If the packet is let in, which needs an open queue, and has fences that
-- are not refused, the sender enters, puts the command of the fences at the end, and leaves; else it
-- does nothing.
pub enqueue_pkt-runs :
    (k : SynxDriver) (w : Setting) (t : MapType) (m : Mapping) (p : Packet) (l : Log)
    → RunsAs k w t m p l (enqueue_pkt k w t m p l.queue).queue
enqueue_pkt-runs k w t m p l = end-runs k w t m p l (enqueue_pkt-EnqueueEnd k w t m p l.queue)
