-- ===== src/Fences/Flush.antt =====
-- The flush of a session, and the cleaning of its queues at its end (`cvp_drain_fence_sched_list`,
-- `cvp_clean_session_queues` and `cvp_session_flush_all` of msm/eva/msm_cvp.c). Each look at the
-- queue is followed by what the other threads do to it before the next one.
use eva_driver.Prelude.{
  ℕ, zero, suc, max, ◌*◌, ◌/◌, ◌%◌, ◌^◌, Bool, true, false, not, ◌||◌, List, [], ◌∷◌,
}
use eva_driver.Prelude.Tests.{ltb, ◌==◌, if◌then◌else◌}
use eva_driver.Prelude.Lists.{length}
use eva_driver.Prelude.Errno.{Rc, success, failed, einval, ebusy, etimedout, econnreset}
use eva_driver.Session.{is_success}
use eva_driver.Messages.{queue_active, queue_start}
use eva_driver.Fences.{FenceCommand, FenceQueue, Cleaned, op_normal, clean_fence_queue}

-- What the other threads do to the queue between two looks, one after another.
abbrev pub Others : Type 0
Others = List (FenceQueue → FenceQueue)

-- Looks at the scheduled commands until there are none, at most one more than the number; `late` is the code after the last. Where nothing is listed, the others do nothing.
unfoldable pub look : ℕ → Rc → Others → FenceQueue → Rc × FenceQueue
look zero late os q = if length q.sched_list == 0 then (success, q) else (late, q)
look (suc n) late [] q =
    let rest = look n late [] q in if length q.sched_list == 0 then (success, q) else rest
look (suc n) late (o ∷ os) q =
    let rest = look n late os (o q) in if length q.sched_list == 0 then (success, q) else rest

-- `max_count`, an `int`: the time in which all scheduled commands must be answered, in the number of
-- looks. A negative number lets one look happen.
pub max_looks : ℕ → ℕ → ℕ
max_looks count timeout =
    let n = count * 1000 * timeout % 2 ^ 64 / 100 % 2 ^ 32 in if ltb n (2 ^ 31) then n else 0

-- `cvp_drain_fence_sched_list`, for the milliseconds that the firmware has for an answer. Its test
-- of the list is the first look; behind it there is at least one more.
unfoldable pub drain_fence_sched_list : ℕ → Others → FenceQueue → Rc × FenceQueue
unfolding look max_looks
drain_fence_sched_list timeout os q =
    look (max 1 (max_looks (length q.sched_list) timeout)) (failed etimedout) os q

-- `cvp_clean_session_queues`: the code, whether the queue was cleaned, and the queue. It is given
-- whether the senders finish in time, `SYNX_STATE_SIGNALED_CANCEL`, and what the others do while the
-- fence threads are stopped and behind that.
pub clean_session_queues :
    Bool → ℕ → (FenceQueue → FenceQueue) → Others → FenceQueue → Rc × Bool × FenceQueue
unfolding clean_fence_queue look
clean_session_queues idle cancel stop os q =
    let cleans = q.state == queue_start || q.state == queue_active in
    let q' = if cleans then (clean_fence_queue idle cancel q).queue else q in
    let r = look 100 (failed ebusy) os (stop q') in (r.0, cleans, r.1)

-- What `cvp_session_flush_all` meets: whether there are an instance and a core, whether the instance
-- is still there, and whether the senders finish in time; the codes of the device layer and of the
-- wait for the firmware; what the other threads do meanwhile, and while the scheduled commands are
-- waited for; the time that the firmware has, and `SYNX_STATE_SIGNALED_CANCEL`.
pub record FlushWorld : Type 0 where
  pub has_inst : Bool
  pub has_core : Bool
  pub valid : Bool
  pub idle : Bool
  pub session_flush : Rc
  pub receipt : Rc
  pub meanwhile : FenceQueue → FenceQueue
  pub others : Others
  pub timeout : ℕ
  pub cancel : ℕ

-- What it leaves: the code, whether the firmware was told to flush, the commands that are freed, and
-- the queue.
pub record Flushed : Type 0 where
  pub rc : Rc
  pub told : Bool
  pub freed : List FenceCommand
  pub queue : FenceQueue

-- The label `exit`.
unfoldable pub flush_exit : FlushWorld → Rc → Bool → List FenceCommand → FenceQueue → Flushed
unfolding drain_fence_sched_list
flush_exit w rc told freed q =
    let r = if is_success rc then drain_fence_sched_list w.timeout w.others q else (rc, q) in
    record { rc = r.0; told = told; freed = freed; queue = record (r.1) { mode = op_normal } }

-- What `cvp_session_flush_all` does behind the cleaning of the queue.
unfoldable pub flush_cleaned : FlushWorld → Cleaned → Flushed
unfolding flush_exit
flush_cleaned w c =
    if not (is_success c.rc)
    then flush_exit w c.rc false c.freed c.queue
    else if not (is_success w.session_flush)
    then flush_exit w w.session_flush false c.freed (w.meanwhile c.queue)
    else flush_exit w w.receipt true c.freed (w.meanwhile c.queue)

-- `cvp_session_flush_all`.
unfoldable pub session_flush_all : FlushWorld → FenceQueue → Flushed
unfolding flush_cleaned clean_fence_queue
session_flush_all w q =
    if not w.has_inst
    then record { rc = failed einval; told = false; freed = []; queue = q }
    else if not w.has_core
    then record { rc = failed einval; told = false; freed = []; queue = q }
    else if not w.valid
    then record { rc = failed econnreset; told = false; freed = []; queue = q }
    else flush_cleaned w (clean_fence_queue w.idle w.cancel q)
