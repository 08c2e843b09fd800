-- ===== src/Dsp/Shared.antt =====
-- The memory that the DSP shares (msm/eva/msm_cvp_dsp.c): what the operations on the link ask of the
-- hypervisor.
use eva_driver.Prelude.{
  ℕ, ◌≡◌, refl, Bool, true, false, ◌&&◌, Option, none, some, List, [], ◌∷◌, inl, inr, arith,
}
use eva_driver.Prelude.Tests.{if◌then◌else◌, Bool-cases, Option-cases}
use eva_driver.Prelude.Errno.{Rc}
use eva_driver.Session.{is_success}
use eva_driver.Dsp.{
  Dsp, DspState, invalid, inactive, ScmCall, share, take_back, Exchange, Restart, send_cmd_sync,
  hyp_assign_to_dsp, hyp_assign_from_dsp, rpmsg_probe, rpmsg_remove, shutdown, resend_queue, reinit,
  give_up, reinit_dsp,
}
use eva_driver.Dsp.Suspend.{Suspending, retry_suspend, suspend_dsp}
use eva_driver.Dsp.Thread.{
  Handing, DspCommand, poweron, poweroff, other, Woken, ended, waits, answers, queue_answered,
  send_hfi_queue, dsp_power_on, dsp_power_off, serve_command, thread_round, device_exit,
  takes_queue,
}

-- The calls, the latest first, share one region at a time and take back what was shared: `none` if
-- nothing is shared, else the region.
unfoldable pub Alternate : List ScmCall → Option (ℕ × ℕ) → Type 0
Alternate [] none = Unit
Alternate [] (some r) = ⊥
Alternate (share a s ∷ cs) none = ⊥
Alternate (share a s ∷ cs) (some r) = (r ≡ (a, s)) × Alternate cs none
Alternate (take_back a s ∷ cs) none = Alternate cs (some (a, s))
Alternate (take_back a s ∷ cs) (some r) = ⊥

-- What the link keeps of the shared memory is what the calls have left.
pub data IsShared : Bool → ℕ → ℕ → List ScmCall → Type 0 where
  apart : {cs : List ScmCall} → Alternate cs none → IsShared false 0 0 cs
  together : {a s : ℕ} {cs : List ScmCall} → Alternate cs (some (a, s)) → IsShared true a s cs

abbrev pub Keeps : Dsp → Type 0
Keeps d = IsShared d.hyp_assigned d.addr d.size d.calls

-- A link with these fields.
abbrev link : Bool → DspState → Bool → ℕ → ℕ → List ScmCall → Dsp
link c t h a s cs = record { chan = c; state = t; hyp_assigned = h; addr = a; size = s; calls = cs }

module _ (scm : Rc) (c : Bool) (t : DspState) where
  shared-Keeps :
      (a s : ℕ) (h : Bool) (x y : ℕ) (cs : List ScmCall)
      → IsShared h x y cs
      → Keeps (hyp_assign_to_dsp scm a s (link c t h x y cs)).1
  unfolding hyp_assign_to_dsp Alternate
  shared-Keeps a s true x y cs k = k
  shared-Keeps a s false x y cs (apart e) = elim (Bool-cases (is_success scm)) [
    | inl z ↦ rw z (together (refl, e))
    | inr z ↦ rw z (apart e)
  ]

  taken_back-Keeps :
      (h : Bool) (x y : ℕ) (cs : List ScmCall)
      → IsShared h x y cs
      → Keeps (hyp_assign_from_dsp scm (link c t h x y cs)).1
  unfolding hyp_assign_from_dsp Alternate
  taken_back-Keeps false x y cs k = k
  taken_back-Keeps true x y cs (together e) = elim (Bool-cases (is_success scm)) [
    | inl z ↦ rw z (apart e)
    | inr z ↦ rw z (together e)
  ]

hyp_assign_to_dsp-Keeps :
    (scm : Rc) (a s : ℕ) (d : Dsp) → Keeps d → Keeps (hyp_assign_to_dsp scm a s d).1
hyp_assign_to_dsp-Keeps scm a s d k =
    shared-Keeps scm d.chan d.state a s d.hyp_assigned d.addr d.size d.calls k

hyp_assign_from_dsp-Keeps : (scm : Rc) (d : Dsp) → Keeps d → Keeps (hyp_assign_from_dsp scm d).1
hyp_assign_from_dsp-Keeps scm d k =
    taken_back-Keeps scm d.chan d.state d.hyp_assigned d.addr d.size d.calls k

give_up-Keeps : (scm : Rc) (d : Dsp) → Keeps d → Keeps (give_up scm d)
unfolding give_up
give_up-Keeps scm d k = hyp_assign_from_dsp-Keeps scm (record d { state = invalid }) k

shutdown-Keeps : (x : Exchange) (scm : Rc) (d : Dsp) → Keeps d → Keeps (shutdown x scm d).1
unfolding shutdown
shutdown-Keeps x scm d k =
    let k' = hyp_assign_from_dsp-Keeps scm (record d { state = inactive }) k in
    ground (arith, k, k')

resend_queue-Keeps : (r : Restart) (d : Dsp) → Keeps d → Keeps (resend_queue r d).1
unfolding resend_queue
resend_queue-Keeps r d k = elim (Option-cases r.table) [
  | inl t ↦ rw t k
  | inr ((a, s), t) ↦
      let k' = hyp_assign_to_dsp-Keeps r.assign_scm a s d k in rw t (ground (arith, k, k'))
]

reinit-Keeps : (r : Restart) (d : Dsp) → Keeps d → Keeps (reinit r d).1
unfolding reinit
reinit-Keeps r d k =
    let k' = shutdown-Keeps r.shutdown_x r.shutdown_scm d k in
    let k'' = resend_queue-Keeps r (shutdown r.shutdown_x r.shutdown_scm d).1 k' in
    ground (arith, k, k', k'')

reinit_dsp-Keeps : (r : Restart) (d : Dsp) → Keeps d → Keeps (reinit_dsp r d).1
unfolding reinit_dsp
reinit_dsp-Keeps r d k =
    let k' = reinit-Keeps r d k in
    let k'' = give_up-Keeps r.fail_scm (reinit r d).1 k' in ground (arith, k', k'')

suspend_dsp-Keeps :
    (force : Bool) (s : Suspending) (d : Dsp) → Keeps d → Keeps (suspend_dsp force s d).1
unfolding suspend_dsp retry_suspend
suspend_dsp-Keeps force s d k =
    let k' = reinit_dsp-Keeps s.restart d k in
    let f = give_up-Keeps s.fatal_scm d k in
    let f' = give_up-Keeps s.fatal_scm (reinit_dsp s.restart d).1 k' in ground (arith, k, k', f, f')

queue_answered-Keeps : (s : Handing) (ret : ℕ) (d : Dsp) → Keeps d → Keeps (queue_answered s ret d)
unfolding queue_answered
queue_answered-Keeps s ret d k =
    let k' = reinit_dsp-Keeps s.restart d k in
    let f = give_up-Keeps s.fatal_scm d k in ground (arith, k, k', f)

send_hfi_queue-Keeps : (s : Handing) (d : Dsp) → Keeps d → Keeps (send_hfi_queue s d)
unfolding send_hfi_queue
send_hfi_queue-Keeps s d k =
    elim (Option-cases (if s.device && takes_queue d.state then s.table else none)) [
      | inl t ↦ simp (send_hfi_queue, t) k
      | inr ((a, n), t) ↦
          let k' = hyp_assign_to_dsp-Keeps s.assign_scm a n d k in
          let d' = (hyp_assign_to_dsp s.assign_scm a n d).1 in
          let k'' = queue_answered-Keeps s (send_cmd_sync s.queue_x d').1 d' k' in
          simp (send_hfi_queue, t) (ground (arith, k, k', k''))
    ]

-- What happens to the link: its channel comes or goes, the driver shuts it down, suspends it,
-- reinitialises it or hands the queues over, the DSP's thread runs a round, or the driver is removed.
pub data Event : Type 0 where
  probe exit : Event
  remove : Rc → Event
  stop : Exchange → Rc → Event
  sleep : Bool → Suspending → Event
  restart : Restart → Event
  hand : Handing → Event
  round : Handing → DspCommand → Event

left : Woken → Dsp
left (ended d) = d
left (waits d) = d
left (answers ret d) = d

unfoldable pub happen : Event → Dsp → Dsp
unfolding left
happen probe d = rpmsg_probe d
happen exit d = device_exit d
happen (remove scm) d = rpmsg_remove scm d
happen (stop x scm) d = (shutdown x scm d).1
happen (sleep force s) d = (suspend_dsp force s d).1
happen (restart r) d = (reinit_dsp r d).1
happen (hand s) d = send_hfi_queue s d
happen (round s c) d = left (thread_round s c d)

unfoldable pub run : List Event → Dsp → Dsp
run [] d = d
run (e ∷ es) d = run es (happen e d)

serve_command-Keeps : (c : DspCommand) (d : Dsp) → Keeps d → Keeps (serve_command c d).1
unfolding serve_command dsp_power_on dsp_power_off
serve_command-Keeps (poweron resumed) d k = ground (arith, k)
serve_command-Keeps poweroff d k = k
serve_command-Keeps other d k = k

happen-Keeps : (e : Event) (d : Dsp) → Keeps d → Keeps (happen e d)
unfolding happen left rpmsg_probe rpmsg_remove device_exit thread_round
happen-Keeps probe d k = k
happen-Keeps exit d k = k
happen-Keeps (remove scm) d k = hyp_assign_from_dsp-Keeps scm d k
happen-Keeps (stop x scm) d k = shutdown-Keeps x scm d k
happen-Keeps (sleep force s) d k = suspend_dsp-Keeps force s d k
happen-Keeps (restart r) d k = reinit_dsp-Keeps r d k
happen-Keeps (hand s) d k = send_hfi_queue-Keeps s d k
happen-Keeps (round s c) d k =
    let a = send_hfi_queue-Keeps s d k in
    let b = serve_command-Keeps c d k in ground (arith, k, a, b)

-- Whatever happens to the link, and whatever the hypervisor and the DSP answer, the memory of the
-- queues is shared with the DSP at most once at a time, only a region that was shared is taken back,
-- and the link's address and size are those of the region that is shared, or 0 if none is.
pub run-IsShared :
    (es : List Event) (d : Dsp)
    → IsShared d.hyp_assigned d.addr d.size d.calls
    → IsShared (run es d).hyp_assigned (run es d).addr (run es d).size (run es d).calls
unfolding run
run-IsShared [] d k = k
run-IsShared (e ∷ es) d k = run-IsShared es (happen e d) (happen-Keeps e d k)
