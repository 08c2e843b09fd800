-- ===== src/Fences/Flushed.antt =====
-- What the flush of a session leaves on each of its branches (msm/eva/msm_cvp.c).
use eva_driver.Prelude.{
  ℕ, zero, suc, max, ◌<◌, ◌≡◌, refl, Bool, true, false, ◌⊎◌, inl, inr, List, [], ◌∷◌, arith,
}
use eva_driver.Prelude.Tests.{Bool-cases}
use eva_driver.Prelude.Lists.{length}
use eva_driver.Prelude.Errno.{Rc, success, failed, einval, etimedout, econnreset}
use eva_driver.Session.{is_success}
use eva_driver.Fences.{FenceCommand, FenceQueue, op_normal, clean_fence_queue, kernel_commands}
use eva_driver.Fences.Flush.{
  Others, look, max_looks, drain_fence_sched_list, FlushWorld, Flushed, flush_exit, flush_cleaned,
  session_flush_all,
}

-- The looks end with success just where the last one finds nothing scheduled.
pub look_lem :
    (n : ℕ) (late : Rc) (os : Others) (q : FenceQueue)
    → let r = look n late os q in
      ((r.0 ≡ success) × (length r.1.sched_list ≡ 0)) ⊎ ((r.0 ≡ late) × (0 < length r.1.sched_list))
unfolding look
look_lem zero late os q = ground arith
look_lem (suc n) late [] q = ground (arith, look_lem n late [] q)
look_lem (suc n) late (o ∷ os) q = ground (arith, look_lem n late os (o q))

drain_lem :
    (timeout : ℕ) (os : Others) (q : FenceQueue)
    → let r = drain_fence_sched_list timeout os q in
      ((r.0 ≡ success) × (length r.1.sched_list ≡ 0)) ⊎ (r.0 ≡ failed etimedout)
unfolding drain_fence_sched_list
drain_lem timeout os q =
    elim (look_lem (max 1 (max_looks (length q.sched_list) timeout)) (failed etimedout) os q) [
      | inl h ↦ inl h
      | inr h ↦ inr h.0
    ]

-- How a flush ends.
pub data FlushEnd (w : FlushWorld) (q : FenceQueue) : Flushed → Type 0 where
  refused :
      (rc : Rc)
      → ((rc ≡ failed einval) × ((w.has_inst ≡ false) ⊎ (w.has_core ≡ false)))
        ⊎ ((rc ≡ failed econnreset) × (w.valid ≡ false))
      → FlushEnd w q (record { rc = rc; told = false; freed = []; queue = q })
  busy :
      w.idle ≡ false
      → FlushEnd w q (record {
        rc = failed etimedout;
        told = false;
        freed = [];
        queue = record q { mode = op_normal };
      })
  unflushed :
      (q' : FenceQueue)
      → w.idle ≡ true
      → is_success w.session_flush ≡ false
      → q'.mode ≡ op_normal
      → FlushEnd w q (record {
        rc = w.session_flush;
        told = false;
        freed = kernel_commands q.wait_list;
        queue = q';
      })
  unanswered :
      (q' : FenceQueue)
      → w.idle ≡ true
      → is_success w.session_flush ≡ true
      → is_success w.receipt ≡ false
      → q'.mode ≡ op_normal
      → FlushEnd w q
          (record { rc = w.receipt; told = true; freed = kernel_commands q.wait_list; queue = q' })
  stuck :
      (q' : FenceQueue)
      → w.idle ≡ true
      → is_success w.session_flush ≡ true
      → is_success w.receipt ≡ true
      → q'.mode ≡ op_normal
      → FlushEnd w q (record {
        rc = failed etimedout;
        told = true;
        freed = kernel_commands q.wait_list;
        queue = q';
      })
  flushed :
      (q' : FenceQueue)
      → w.idle ≡ true
      → is_success w.session_flush ≡ true
      → is_success w.receipt ≡ true
      → q'.mode ≡ op_normal
      → length q'.sched_list ≡ 0
      → FlushEnd w q
          (record { rc = success; told = true; freed = kernel_commands q.wait_list; queue = q' })

failed_exit :
    (w : FlushWorld) (rc : Rc) (told : Bool) (freed : List FenceCommand) (q : FenceQueue)
    → is_success rc ≡ false
    → flush_exit w rc told freed q
      ≡ record { rc = rc; told = told; freed = freed; queue = record q { mode = op_normal } }
unfolding flush_exit
failed_exit w rc told freed q e = rw e refl

drained_exit :
    (w : FlushWorld) (told : Bool) (freed : List FenceCommand) (rc : Rc) (q : FenceQueue)
    → is_success rc ≡ true
    → let r = drain_fence_sched_list w.timeout w.others q in
      flush_exit w rc told freed q
      ≡ record { rc = r.0; told = told; freed = freed; queue = record (r.1) { mode = op_normal } }
unfolding flush_exit
drained_exit w told freed rc q e = rw e refl

answered_end :
    (w : FlushWorld) (q : FenceQueue)
    → w.idle ≡ true
    → is_success w.session_flush ≡ true
    → (q' : FenceQueue)
    → FlushEnd w q (flush_exit w w.receipt true (kernel_commands q.wait_list) q')
answered_end w q i s q' = elim (Bool-cases (is_success w.receipt)) [
  | inr e ↦
      rw (failed_exit w w.receipt true (kernel_commands q.wait_list) q' e)
        (unanswered (record q' { mode = op_normal }) i s e refl)
  | inl e ↦
      let r = drain_fence_sched_list w.timeout w.others q' in
      rw (drained_exit w true (kernel_commands q.wait_list) w.receipt q' e)
        (elim (drain_lem w.timeout w.others q') [
          | inl (ok, z) ↦ rw ok (flushed (record (r.1) { mode = op_normal }) i s e refl z)
          | inr late ↦ rw late (stuck (record (r.1) { mode = op_normal }) i s e refl)
        ])
]

cleaned_end :
    (w : FlushWorld) (q : FenceQueue) (idle : Bool)
    → w.idle ≡ idle
    → FlushEnd w q (flush_cleaned w (clean_fence_queue idle w.cancel q))
unfolding flush_cleaned clean_fence_queue flush_exit
cleaned_end w q false i = busy i
cleaned_end w q true i = elim (Bool-cases (is_success w.session_flush)) [
  | inl e ↦ rw e (answered_end w q i e (w.meanwhile (clean_fence_queue true w.cancel q).queue))
  | inr e ↦
      let q' = w.meanwhile (clean_fence_queue true w.cancel q).queue in
      rw e (unflushed (record q' { mode = op_normal }) i e refl)
]

-- A flush that is refused leaves the queue alone. Any other leaves it open. It succeeds only if the
-- senders finished in time, the firmware was told and answered, and at the end nothing is scheduled;
-- and it frees the waiting commands with kernel fences just if the senders finished in time.
pub session_flush_all-FlushEnd :
    (w : FlushWorld) (q : FenceQueue) → FlushEnd w q (session_flush_all w q)
unfolding session_flush_all
session_flush_all-FlushEnd w q = elim (Bool-cases w.has_inst) [
  | inr e ↦ simp e (refused (failed einval) (inl (refl, inl e)))
  | inl e ↦ elim (Bool-cases w.has_core) [
    | inr f ↦ simp (e, f) (refused (failed einval) (inl (refl, inr f)))
    | inl f ↦ elim (Bool-cases w.valid) [
      | inr g ↦ simp (e, f, g) (refused (failed econnreset) (inr (refl, g)))
      | inl g ↦ simp (e, f, g) (cleaned_end w q w.idle refl)
    ]
  ]
]
