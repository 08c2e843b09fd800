-- ===== src/Fences/Run.antt =====
-- The fence queue of a session under any sequence of what its senders, its fence threads and its
-- flushes do (msm/eva/msm_cvp.c): no command is lost, and the outputs that each owes are signalled.
use eva_driver.Prelude.{
  ℕ, zero, suc, ◌+◌, ◌≡◌, refl, sym, ap, ap₂, ◌∙◌, Bool, inl, inr, Option, none, some, List, [],
  ◌∷◌, ◌++◌, append_assoc, append-nil, arith,
}
use eva_driver.Prelude.Tests.{◌==◌, if◌then◌else◌, Bool-cases}
use eva_driver.Prelude.Lists.{get_elem?}
use eva_driver.Messages.{queue_start}
use eva_driver.Fences.{
  FenceCommand, FenceQueue, Replies, op_draining, outputs, unlink, take_first, fence_wait,
  fence_proc, fence_done, clean_fence_queue, kernel_commands, other_commands, cancel_outputs,
}
use eva_driver.Fences.Synx.{SynxDriver, cancel_synx}
use eva_driver.Fences.Signals.{handles, owes, handles-append, cancel_synx-fences, fence_proc-owes}
use eva_driver.Fences.Steps.{
  Event, enter, append, leave, take_command, finish, close, clean, reopen, Log, finished, act, run,
}

-- How many commands of a list a test selects.
unfoldable pub count : (FenceCommand → Bool) → List FenceCommand → ℕ
count test [] = 0
count test (f ∷ fs) = if test f then suc (count test fs) else count test fs

-- The outputs that the commands of a list owe.
unfoldable pub all_owed : List FenceCommand → List ℕ
all_owed [] = []
all_owed (f ∷ fs) = owes f ++ all_owed fs

count-append :
    (test : FenceCommand → Bool) (xs ys : List FenceCommand)
    → count test (xs ++ ys) ≡ count test xs + count test ys
unfolding count
count-append test [] ys = omega arith
count-append test (x ∷ xs) ys = ground (arith, count-append test xs ys)

all_owed-append : (xs ys : List FenceCommand) → all_owed (xs ++ ys) ≡ all_owed xs ++ all_owed ys
unfolding all_owed
all_owed-append [] ys = refl
all_owed-append (x ∷ xs) ys =
    ap (λ l. owes x ++ l) (all_owed-append xs ys)
    ∙ sym (append_assoc (owes x) (all_owed xs) (all_owed ys))

all_owed-one : (f : FenceCommand) → all_owed (f ∷ []) ≡ owes f
unfolding all_owed
all_owed-one f = append-nil (owes f)

count-first :
    (test : FenceCommand → Bool) (x : FenceCommand) (fs : List FenceCommand)
    → count test (x ∷ fs) ≡ count test fs + count test (x ∷ [])
unfolding count
count-first test x fs = ground arith

count-unlink :
    (test : FenceCommand → Bool) (fs : List FenceCommand) (i : ℕ) (f : FenceCommand)
    → get_elem? fs i ≡ some f
    → count test fs ≡ count test (unlink i fs) + count test (f ∷ [])
unfolding count unlink
count-unlink test [] i f h = absurd (cc)
count-unlink test (x ∷ fs) zero f h =
    let e : f ≡ x = cc in rw e (ground (arith, count-first test x fs))
count-unlink test (x ∷ fs) (suc i) f h = ground (arith, count-unlink test fs i f h)

count-split :
    (test : FenceCommand → Bool) (fs : List FenceCommand)
    → count test fs ≡ count test (other_commands fs) + count test (kernel_commands fs)
unfolding count other_commands kernel_commands
count-split test [] = refl
count-split test (f ∷ fs) = ground (arith, count-split test fs)

cancel_outputs-owed :
    (fs : List FenceCommand) (state : ℕ)
    → handles (cancel_outputs (kernel_commands fs) state) ≡ all_owed (kernel_commands fs)
unfolding cancel_outputs kernel_commands all_owed handles
cancel_outputs-owed [] state = refl
cancel_outputs-owed (f ∷ fs) state = elim (Bool-cases f.is_kernel) [
  | inr e ↦ rw e (cancel_outputs-owed fs state)
  | inl e ↦ rw e (
      handles-append (cancel_synx (outputs f) state) (cancel_outputs (kernel_commands fs) state)
      ∙ ap₂ ◌++◌ (cancel_synx-fences (outputs f) state) (cancel_outputs-owed fs state)
      ∙ ap (λ l. l ++ all_owed (kernel_commands fs)) (ground (arith, e)))
]

-- No command is lost or doubled: any test selects as many of those that the queue was given as of
-- those that wait, that are scheduled, and that are gone. And the outputs signalled are those that
-- the commands that are gone owe.
pub record IsConserved (l : Log) : Type 0 where
  pub conserved :
      (test : FenceCommand → Bool)
      → count test l.accepted
        ≡ count test l.queue.wait_list + count test l.queue.sched_list + count test l.gone
  pub paid : handles l.signaled ≡ all_owed l.gone

append-IsConserved :
    (k : SynxDriver) (f : FenceCommand) (l : Log) → IsConserved l → IsConserved (act k (append f) l)
unfolding act
append-IsConserved k f l c = elim (Bool-cases (l.inside == 0)) [
  | inl e ↦ rw e c
  | inr e ↦ rw e (record {
    conserved = λ test. omega (
      arith,
      c.conserved test,
      count-append test l.accepted (f ∷ []),
      count-append test l.queue.wait_list (f ∷ []),
    );
    paid = c.paid;
  })
]

take_first-conserved :
    (fs : List FenceCommand) (q : FenceQueue) (test : FenceCommand → Bool)
    → q.wait_list ≡ fs
    → let q' = (take_first fs q).2 in
      count test q.wait_list + count test q.sched_list
      ≡ count test q'.wait_list + count test q'.sched_list
unfolding take_first
take_first-conserved [] q test e = refl
take_first-conserved (f ∷ fs) q test e =
    let w : count test q.wait_list ≡ count test (f ∷ fs) = ap (count test) e in
    omega (arith, w, count-first test f fs, count-append test q.sched_list (f ∷ []))

take-conserved :
    (q : FenceQueue) (test : FenceCommand → Bool)
    → let q' = (fence_wait q).2 in
      count test q.wait_list + count test q.sched_list
      ≡ count test q'.wait_list + count test q'.sched_list
unfolding fence_wait
take-conserved q test = elim (Bool-cases (q.state == queue_start)) [
  | inl e ↦ rw e (take_first-conserved q.wait_list q test refl)
  | inr e ↦ rw e refl
]

finished-IsConserved :
    (k : SynxDriver) (i : ℕ) (r : Replies) (l : Log) (o : Option FenceCommand)
    → get_elem? l.queue.sched_list i ≡ o
    → IsConserved l
    → IsConserved (finished k i r o l)
unfolding finished fence_done
finished-IsConserved k i r l none h c = c
finished-IsConserved k i r l (some f) h c = record {
  conserved = λ test. omega (
    arith,
    c.conserved test,
    count-unlink test l.queue.sched_list i f h,
    count-append test l.gone (f ∷ []),
  );
  paid =
      handles-append l.signaled (fence_proc k r f).signaled
      ∙ ap₂ ◌++◌ c.paid (fence_proc-owes k r f ∙ sym (all_owed-one f))
      ∙ sym (all_owed-append l.gone (f ∷ []));
}

clean-IsConserved : (k : SynxDriver) (l : Log) → IsConserved l → IsConserved (act k clean l)
unfolding act clean_fence_queue
clean-IsConserved k l c = elim (Bool-cases (l.queue.send_count == 0)) [
  | inl e ↦ rw e (record {
    conserved = λ test. omega (
      arith,
      c.conserved test,
      count-split test l.queue.wait_list,
      count-append test l.gone (kernel_commands l.queue.wait_list),
    );
    paid =
        handles-append l.signaled
          (cancel_outputs (kernel_commands l.queue.wait_list) k.signaled_cancel)
        ∙ ap₂ ◌++◌ c.paid (cancel_outputs-owed l.queue.wait_list k.signaled_cancel)
        ∙ sym (all_owed-append l.gone (kernel_commands l.queue.wait_list));
  })
  | inr e ↦
      rw (e, append-nil l.gone, append-nil l.signaled)
        (record { conserved = c.conserved; paid = c.paid })
]

act-IsConserved : (k : SynxDriver) (e : Event) (l : Log) → IsConserved l → IsConserved (act k e l)
unfolding act
act-IsConserved k enter l c = elim (Bool-cases (l.queue.mode == op_draining)) [
  | inl e ↦ simp (act, e) c
  | inr e ↦ simp (act, e) (record { conserved = c.conserved; paid = c.paid })
]
act-IsConserved k (append f) l c = append-IsConserved k f l c
act-IsConserved k leave l c = elim (Bool-cases (l.inside == 0)) [
  | inl e ↦ rw e c
  | inr e ↦ rw e (record { conserved = c.conserved; paid = c.paid })
]
act-IsConserved k take_command l c = record {
  conserved = λ test. omega (arith, c.conserved test, take-conserved l.queue test);
  paid = c.paid;
}
act-IsConserved k (finish i r) l c =
    finished-IsConserved k i r l (get_elem? l.queue.sched_list i) refl c
act-IsConserved k close l c = record { conserved = c.conserved; paid = c.paid }
act-IsConserved k clean l c = clean-IsConserved k l c
act-IsConserved k reopen l c = record { conserved = c.conserved; paid = c.paid }

-- Over any sequence of what senders, fence threads and flushes do, no command is lost or doubled: any
-- test selects as many of those that the queue was given as of those that wait, that are scheduled
-- and that are gone. And the fences signalled for outputs are those that the commands that are gone
-- owe, each once and in their order. Both hold of the state at the end if they hold at the start.
pub run-IsConserved :
    (k : SynxDriver) (es : List Event) (l : Log) → IsConserved l → IsConserved (run k es l)
unfolding run
run-IsConserved k [] l c = c
run-IsConserved k (e ∷ es) l c = run-IsConserved k es (act k e l) (act-IsConserved k e l c)
