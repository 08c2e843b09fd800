-- ===== src/Dsp/Tasks.antt =====
-- The addresses and the task references of the DSP's sessions (msm/eva/msm_cvp_dsp.c).
use eva_driver.Prelude.{
  ℕ, ◌+◌, ◌*◌, ◌≤◌, ◌<◌, ◌≡◌, refl, true, false, not, ◌||◌, none, some, List, [], ◌∷◌, ap, ◌∙◌, inl,
  inr, arith,
}
use eva_driver.Prelude.Tests.{◌==◌, Bool-cases, Option-cases}
use eva_driver.Prelude.Words.{u32_mod, u64_mod}
use eva_driver.Prelude.Errno.{Rc}
use eva_driver.Session.{is_success}
use eva_driver.Dsp.Nodes.{Node, find_node, has_sess, get_node, driver_register}
use eva_driver.Dsp.Handlers.{
  get_inst_from_dsp, cpu_high, cpu_low, Sessions, Creating, Created, fail_get_session_info,
  open_session, with_entry, sess_create, delete_dsp_session, sess_delete,
}

-- The two words of a reply lead back to the instance, if the core has it and its address needs more
-- than 32 bits, as the kernel's addresses do.
pub get_inst_from_dsp-cpu :
    (inst : ℕ) (insts : List ℕ)
    → u32_mod ≤ inst
    → inst < u64_mod
    → has_sess inst insts ≡ true
    → get_inst_from_dsp (cpu_high inst) (cpu_low inst) insts ≡ some inst
unfolding get_inst_from_dsp
get_inst_from_dsp-cpu inst insts wide small e =
    let whole : cpu_high inst * u32_mod + cpu_low inst ≡ inst = omega arith in
    let z : (cpu_high inst == 0) ≡ false = ground (arith, wide, small) in rw (z, whole, e) refl

-- The references to tasks behind a creation.
abbrev Holds : ℕ → Created → Type 0
Holds tasks c = elim c.reply [ none ↦ c.left.tasks ≡ tasks | some r ↦ c.left.tasks ≡ tasks + 1 ]

open_session-Holds :
    (c : Creating) (h : ℕ) (n : Node) (s : Sessions) → Holds s.tasks (open_session c h n s)
unfolding open_session fail_get_session_info
open_session-Holds c h n s = elim (Option-cases c.opened_inst) [
  | inl e ↦ simp (open_session, e) refl
  | inr (inst, e) ↦ elim (Option-cases c.session_id) [
    | inl i ↦ simp (open_session, e, i) (ground arith)
    | inr (id, i) ↦ simp (open_session, e, i) (ground arith)
  ]
]

with_entry-Holds : (c : Creating) (h : ℕ) (s : Sessions) → Holds s.tasks (with_entry c h s)
unfolding with_entry
with_entry-Holds c h s = elim (Option-cases (find_node h s.frpc.nodes)) [
  | inl e ↦ simp (with_entry, e) refl
  | inr (n, e) ↦
      let held : Sessions = record s { frpc = (get_node h s.frpc).1 } in
      elim (Bool-cases
        (not n.device || not (is_success c.get_pid) || not c.has_pid || not c.has_task)) [
          | inl z ↦ simp (with_entry, e, z) refl
          | inr z ↦ simp (with_entry, e, z) (open_session-Holds c h n held)
        ]
]

sess_create-Holds : (c : Creating) (s : Sessions) → Holds s.tasks (sess_create c s)
unfolding sess_create
sess_create-Holds c s = elim (Bool-cases (c.version == 0)) [
  | inr v ↦ rw v (with_entry-Holds c c.pid_v2 s)
  | inl v ↦ elim (Bool-cases (c.hfi_ver == 1)) [
    | inr w ↦ rw (v, w) (with_entry-Holds c c.pid s)
    | inl w ↦
        let f = (driver_register c.registering c.pid s.frpc).1 in
        elim (Bool-cases (is_success (driver_register c.registering c.pid s.frpc).0)) [
          | inl r ↦ rw (v, w, r) (with_entry-Holds c c.pid (record s { frpc = f }))
          | inr r ↦ rw (v, w, r) refl
        ]
  ]
]

sess_delete_tasks :
    (close : Rc) (high low h : ℕ) (s : Sessions)
    → (sess_delete close high low h s).1.tasks ≡ s.tasks
unfolding sess_delete delete_dsp_session
sess_delete_tasks close high low h s = elim (Option-cases (get_inst_from_dsp high low s.insts)) [
  | inl e ↦ simp (sess_delete, e) refl
  | inr (inst, e) ↦ elim (Option-cases (find_node h s.frpc.nodes)) [
    | inl i ↦ simp (sess_delete, e, i) refl
    | inr (n, i) ↦ simp (sess_delete, delete_dsp_session, e, i) (ground arith)
  ]
]

-- What the DSP asks for: to create a session, or to delete one.
pub data Ask : Type 0 where
  create : Creating → Ask
  delete : Rc → ℕ → ℕ → ℕ → Ask

-- The requests one after another, and how many of them created a session.
unfoldable pub run_asks : List Ask → Sessions → Sessions × ℕ
run_asks [] s = (s, 0)
run_asks (create c ∷ rest) s =
    let made = sess_create c s in
    let later = run_asks rest made.left in
    (later.0, elim made.reply [ none ↦ later.1 | some r ↦ later.1 + 1 ])
run_asks (delete close high low h ∷ rest) s = run_asks rest (sess_delete close high low h s).1

created :
    (tasks : ℕ) (c : Created) (n final : ℕ)
    → Holds tasks c
    → final ≡ c.left.tasks + n
    → final ≡ tasks + elim c.reply [ none ↦ n | some r ↦ n + 1 ]
created tasks c n final h e = elim (Option-cases c.reply) [
  | inl r ↦ let h' = rw r at h in rw r (omega (arith, e, h'))
  | inr (x, r) ↦ let h' = rw r at h in rw r (omega (arith, e, h'))
]

-- Each session that is created holds a reference to its task, and nothing gives it back: behind any
-- sequence of creations and deletions there is one more for every session that was created.
pub run_asks-holds :
    (asks : List Ask) (s : Sessions) → (run_asks asks s).0.tasks ≡ s.tasks + (run_asks asks s).1
unfolding run_asks
run_asks-holds [] s = omega arith
run_asks-holds (create c ∷ rest) s =
    let made = sess_create c s in
    created s.tasks made (run_asks rest made.left).1 (run_asks rest made.left).0.tasks
      (sess_create-Holds c s) (run_asks-holds rest made.left)
run_asks-holds (delete close high low h ∷ rest) s =
    let s' = (sess_delete close high low h s).1 in
    run_asks-holds rest s'
    ∙ ap (λ t. t + (run_asks rest s').1) (sess_delete_tasks close high low h s)
