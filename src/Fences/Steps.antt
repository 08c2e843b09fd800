-- ===== src/Fences/Steps.antt =====
-- What senders, fence threads and flushes do to the queue of a session, one after another
-- (msm/eva/msm_cvp.c).
use eva_driver.Prelude.{ℕ, ◌+◌, ◌-◌, Option, none, some, List, [], ◌∷◌, ◌++◌}
use eva_driver.Prelude.Tests.{◌==◌, if◌then◌else◌}
use eva_driver.Prelude.Lists.{get_elem?}
use eva_driver.Fences.{
  FenceCommand, FenceQueue, Replies, op_normal, op_draining, fence_wait, fence_proc, fence_done,
  clean_fence_queue,
}
use eva_driver.Fences.Synx.{SynxDriver}
use eva_driver.Fences.Enqueue.{enter_queue, leave_queue}

-- A sender enters, puts its command into the queue, and leaves; a fence thread takes a command, and
-- is done with the one at a position among the scheduled ones; a flush closes the queue, cleans it
-- behind the senders, and opens it again.
pub data Event : Type 0 where
  enter : Event
  append : FenceCommand → Event
  leave : Event
  take_command : Event
  finish : ℕ → Replies → Event
  close : Event
  clean : Event
  reopen : Event

-- The queue, how many senders are in it, the commands that it was given, those that are gone, in the order in which they went,
-- and the outputs that were signalled.
pub record Log : Type 0 where
  pub queue : FenceQueue
  pub inside : ℕ
  pub accepted : List FenceCommand
  pub gone : List FenceCommand
  pub signaled : List (ℕ × ℕ)

-- The scheduled command at a position, processed.
unfoldable pub finished : SynxDriver → ℕ → Replies → Option FenceCommand → Log → Log
finished k i r none l = l
finished k i r (some f) l =
    let p = fence_proc k r f in
    record l {
      queue = (fence_done i p.rc l.queue).1;
      gone = l.gone ++ (f ∷ []);
      signaled = l.signaled ++ p.signaled;
    }

-- One event. One that cannot happen changes nothing.
unfoldable pub act : SynxDriver → Event → Log → Log
unfolding finished
act k enter l = elim (enter_queue l.queue) [
  | none ↦ l
  | some q ↦ record l { queue = q; inside = l.inside + 1 }
]
act k (append f) l = if l.inside == 0 then l else record l {
  queue = record (l.queue) { wait_list = l.queue.wait_list ++ (f ∷ []) };
  accepted = l.accepted ++ (f ∷ []);
}
act k leave l =
    if l.inside == 0 then l else record l { queue = leave_queue l.queue; inside = l.inside - 1 }
act k take_command l = record l { queue = (fence_wait l.queue).2 }
act k (finish i r) l = finished k i r (get_elem? l.queue.sched_list i) l
act k close l = record l { queue = record (l.queue) { mode = op_draining } }
act k clean l =
    let c = clean_fence_queue (l.queue.send_count == 0) k.signaled_cancel l.queue in
    record l {
      queue = c.queue;
      gone = l.gone ++ c.freed;
      signaled = l.signaled ++ c.outputs_signaled;
    }
act k reopen l = record l { queue = record (l.queue) { mode = op_normal } }

unfoldable pub run : SynxDriver → List Event → Log → Log
run k [] l = l
run k (e ∷ es) l = run k es (act k e l)
