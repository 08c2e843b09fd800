-- ===== src/Fences/Quiet.antt =====
-- The queue behind a cleaning, while it is closed (msm/eva/msm_cvp.c).
use eva_driver.Prelude.{
  ℕ, ◌≡◌, refl, sym, ap, ◌∙◌, true, inl, inr, Option, none, some, List, [], ◌∷◌, arith,
}
use eva_driver.Prelude.Tests.{◌==◌, Bool-cases}
use eva_driver.Prelude.Lists.{get_elem?, All}
use eva_driver.Messages.{queue_start}
use eva_driver.Fences.{
  FenceCommand, FenceQueue, Replies, op_draining, take_first, fence_wait, fence_done,
  clean_fence_queue, kernel_commands, other_commands,
}
use eva_driver.Fences.Synx.{SynxDriver}
use eva_driver.Fences.Steps.{Event, Log, act, run, finished}

-- The counter of the queue is the number of the senders in it.
abbrev pub IsCounted : Log → Type 0
IsCounted l = l.queue.send_count ≡ l.inside

-- The queue is closed, no sender is in it, and no kernel command waits.
pub record IsQuiet (l : Log) : Type 0 where
  pub closed : l.queue.mode ≡ op_draining
  pub nobody : l.inside ≡ 0
  pub no_kernel : kernel_commands l.queue.wait_list ≡ []

-- All events but the opening of the queue.
abbrev pub StaysClosed : Event → Type 0
StaysClosed e = elim e [ Event.reopen ↦ ⊥ | _ ↦ Unit ]

kernel-of-others : (fs : List FenceCommand) → kernel_commands (other_commands fs) ≡ []
unfolding kernel_commands other_commands
kernel-of-others [] = refl
kernel-of-others (f ∷ fs) = elim (Bool-cases f.is_kernel) [
  | inl e ↦ rw e (kernel-of-others fs)
  | inr e ↦ ground (arith, e, kernel-of-others fs)
]

tail-plain :
    (f : FenceCommand) (fs : List FenceCommand)
    → kernel_commands (f ∷ fs) ≡ []
    → kernel_commands fs ≡ []
unfolding kernel_commands
tail-plain f fs h = ground (arith, h)

take_first-kernel :
    (fs : List FenceCommand) (q : FenceQueue)
    → q.wait_list ≡ fs
    → kernel_commands q.wait_list ≡ []
    → kernel_commands (take_first fs q).2.wait_list ≡ []
unfolding take_first
take_first-kernel [] q e h = h
take_first-kernel (f ∷ fs) q e h = tail-plain f fs (ap kernel_commands (sym e) ∙ h)

take_first-same :
    (fs : List FenceCommand) (q : FenceQueue)
    → ((take_first fs q).2.mode ≡ q.mode) × ((take_first fs q).2.send_count ≡ q.send_count)
unfolding take_first
take_first-same [] q = (refl, refl)
take_first-same (f ∷ fs) q = (refl, refl)

finished-IsCounted :
    (k : SynxDriver) (i : ℕ) (r : Replies) (o : Option FenceCommand) (l : Log)
    → IsCounted l
    → IsCounted (finished k i r o l)
unfolding finished fence_done
finished-IsCounted k i r none l c = c
finished-IsCounted k i r (some f) l c = c

act-IsCounted : (k : SynxDriver) (e : Event) (l : Log) → IsCounted l → IsCounted (act k e l)
unfolding act fence_wait clean_fence_queue
act-IsCounted k Event.enter l c = ground (arith, c)
act-IsCounted k (Event.append f) l c = ground (arith, c)
act-IsCounted k Event.leave l c = ground (arith, c)
act-IsCounted k Event.take_command l c = elim (Bool-cases (l.queue.state == queue_start)) [
  | inl e ↦ rw e ((take_first-same l.queue.wait_list l.queue).1 ∙ c)
  | inr e ↦ rw e c
]
act-IsCounted k (Event.finish i r) l c =
    finished-IsCounted k i r (get_elem? l.queue.sched_list i) l c
act-IsCounted k Event.close l c = c
act-IsCounted k Event.clean l c = elim (Bool-cases (l.queue.send_count == 0)) [
  | inl e ↦ rw e c
  | inr e ↦ rw e c
]
act-IsCounted k Event.reopen l c = c

run-IsCounted : (k : SynxDriver) (es : List Event) (l : Log) → IsCounted l → IsCounted (run k es l)
unfolding run
run-IsCounted k [] l c = c
run-IsCounted k (e ∷ es) l c = run-IsCounted k es (act k e l) (act-IsCounted k e l c)

clean-IsQuiet :
    (k : SynxDriver) (l : Log)
    → l.queue.send_count ≡ 0
    → l.inside ≡ 0
    → IsQuiet (act k Event.clean l)
unfolding act clean_fence_queue
clean-IsQuiet k l e i =
    let z : (l.queue.send_count == 0) ≡ true = ground (arith, e) in
    rw z (record { closed = refl; nobody = i; no_kernel = kernel-of-others l.queue.wait_list })

finished-IsQuiet :
    (k : SynxDriver) (i : ℕ) (r : Replies) (o : Option FenceCommand) (l : Log)
    → IsQuiet l
    → IsQuiet (finished k i r o l)
unfolding finished fence_done
finished-IsQuiet k i r none l c = c
finished-IsQuiet k i r (some f) l c = record {
  closed = c.closed;
  nobody = c.nobody;
  no_kernel = c.no_kernel;
}

act-IsQuiet :
    (k : SynxDriver) (e : Event) (l : Log)
    → StaysClosed e
    → IsCounted l
    → IsQuiet l
    → IsQuiet (act k e l)
unfolding act fence_wait
act-IsQuiet k Event.enter l s n c =
    let z : (l.queue.mode == op_draining) ≡ true = ground (arith, c.closed) in simp (act, z) c
act-IsQuiet k (Event.append f) l s n c =
    let z : (l.inside == 0) ≡ true = ground (arith, c.nobody) in rw z c
act-IsQuiet k Event.leave l s n c =
    let z : (l.inside == 0) ≡ true = ground (arith, c.nobody) in rw z c
act-IsQuiet k Event.take_command l s n c = elim (Bool-cases (l.queue.state == queue_start)) [
  | inl e ↦ rw e (record {
    closed = (take_first-same l.queue.wait_list l.queue).0 ∙ c.closed;
    nobody = c.nobody;
    no_kernel = take_first-kernel l.queue.wait_list l.queue refl c.no_kernel;
  })
  | inr e ↦ rw e (record { closed = c.closed; nobody = c.nobody; no_kernel = c.no_kernel })
]
act-IsQuiet k (Event.finish i r) l s n c =
    finished-IsQuiet k i r (get_elem? l.queue.sched_list i) l c
act-IsQuiet k Event.close l s n c = record {
  closed = refl;
  nobody = c.nobody;
  no_kernel = c.no_kernel;
}
act-IsQuiet k Event.clean l s n c = clean-IsQuiet k l (n ∙ c.nobody) c.nobody
act-IsQuiet k Event.reopen l s n c = absurd s

stays-IsQuiet :
    (k : SynxDriver) (es : List Event) (l : Log)
    → All StaysClosed es
    → IsCounted l
    → IsQuiet l
    → IsQuiet (run k es l)
unfolding run
stays-IsQuiet k [] l s n c = c
stays-IsQuiet k (e ∷ es) l s n c =
    stays-IsQuiet k es (act k e l) s.1 (act-IsCounted k e l n) (act-IsQuiet k e l s.0 n c)

-- Whatever senders, fence threads and flushes did before, if a cleaning finds the queue's counter of
-- senders at 0, then whatever they do behind it until the queue is opened again: the queue stays
-- closed, no sender is in it, and no command with kernel fences waits in it. At the start the counter
-- is the number of the senders in the queue.
pub run-IsQuiet :
    (k : SynxDriver) (before after : List Event) (l : Log)
    → IsCounted l
    → (run k before l).queue.send_count ≡ 0
    → All StaysClosed after
    → IsQuiet (run k after (act k Event.clean (run k before l)))
run-IsQuiet k before after l n e s =
    let c = run-IsCounted k before l n in
    stays-IsQuiet k after (act k Event.clean (run k before l)) s
      (act-IsCounted k Event.clean (run k before l) c)
      (clean-IsQuiet k (run k before l) e (sym c ∙ e))
