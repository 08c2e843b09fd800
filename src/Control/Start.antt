-- ===== src/Control/Start.antt =====
-- What a start of a session leaves (`msm_cvp_session_start`, msm/eva/msm_cvp.c).
use eva_driver.Prelude.{ℕ, ◌+◌, ◌≡◌, ◌≢◌, refl, ◌⊎◌, Bool, true, false, List, [], ◌∷◌, arith}
use eva_driver.Prelude.Lists.{length, All}
use eva_driver.Prelude.Errno.{success}
use eva_driver.Control.{
  Control, Thread, running, err_ptr, null, Answers, spawn, fence_thread_start, fence_thread_stop,
  session_start,
}

spawn-keeps :
    (ts : List (Bool × Thread)) (c : Control)
    → let c' = (spawn ts c).1 in
      (c'.state ≡ c.state)
      × (c'.msg_count ≡ c.msg_count)
      × (c'.fthread_nr ≡ c.fthread_nr)
      × (c'.cmd_state ≡ c.cmd_state)
unfolding spawn
spawn-keeps [] c = (refl, refl, refl, refl)
spawn-keeps ((false, t) ∷ ts) c = (refl, refl, refl, refl)
spawn-keeps ((true, null) ∷ ts) c = (refl, refl, refl, refl)
spawn-keeps ((true, err_ptr) ∷ ts) c = spawn-keeps ts (record c { refs = c.refs + 1 })
spawn-keeps ((true, running) ∷ ts) c =
    spawn-keeps ts (record c { refs = c.refs + 1; threads = c.threads + 1 })

fence_thread_start-keeps :
    (a : Answers) (c : Control)
    → let (rc, c') = fence_thread_start a c in
      (c'.state ≡ c.state)
      × (c'.msg_count ≡ c.msg_count)
      × (c'.fthread_nr ≡ c.fthread_nr)
      × (rc ≡ success → c.fthread_nr ≢ 0 → (c'.fence_state ≡ 2) × (c'.cmd_state ≡ 2))
unfolding fence_thread_start
fence_thread_start-keeps a c =
    ground (arith, spawn-keeps a.spawns (record c { refs = c.refs + 1; cmd_state = 2 }))

-- A start that succeeds leaves the session's queue started and empty, and, if the session has fence
-- threads, also the other two; one that fails leaves the session's queue in the state it was in.
pub session_start_lem :
    (a : Answers) (c : Control)
    → let (rc, c') = session_start a c in
      ((rc ≡ success)
        × (c'.state ≡ 2)
        × (c'.msg_count ≡ 0)
        × (c.fthread_nr ≢ 0 → (c'.fence_state ≡ 2) × (c'.cmd_state ≡ 2)))
      ⊎ ((rc ≢ success) × (c'.state ≡ c.state))
unfolding session_start fence_thread_stop
session_start_lem a c = ground (arith, fence_thread_start-keeps a (record c { state = 2 }))

-- The threads that came to run.
pub running_in : List (Bool × Thread) → ℕ
running_in [] = 0
running_in ((valid, running) ∷ ts) = 1 + running_in ts
running_in ((valid, err_ptr) ∷ ts) = running_in ts
running_in ((valid, null) ∷ ts) = running_in ts

-- The session is still valid, and `kthread_run` returns no null pointer, which it never does.
abbrev pub NoNull : Bool × Thread → Type 0
NoNull (valid, t) = (valid ≡ true) × (t ≢ null)

spawn-counts :
    (ts : List (Bool × Thread)) (c : Control)
    → All NoNull ts
    → let (rc, c') = spawn ts c in
      (rc ≡ success) × (c'.refs ≡ c.refs + length ts) × (c'.threads ≡ c.threads + running_in ts)
unfolding spawn running_in
spawn-counts [] c h = (refl, omega arith, omega arith)
spawn-counts ((false, t) ∷ ts) c h = absurd (ground (arith, h.0.0))
spawn-counts ((true, null) ∷ ts) c h = absurd (h.0.1 refl)
spawn-counts ((true, err_ptr) ∷ ts) c h =
    ground (arith, spawn-counts ts (record c { refs = c.refs + 1 }) h.1)
spawn-counts ((true, running) ∷ ts) c h =
    ground (arith, spawn-counts ts (record c { refs = c.refs + 1; threads = c.threads + 1 }) h.1)

-- A fence thread whose `kthread_run` returns an error pointer is not noticed: the start reports
-- success with fewer threads than were asked for, and the reference taken for each thread that is
-- missing stays.
pub fence_thread_start_misses :
    (a : Answers) (c : Control)
    → a.valid ≡ true
    → c.fthread_nr ≢ 0
    → length a.spawns ≡ c.fthread_nr
    → All NoNull a.spawns
    → let (rc, c') = fence_thread_start a c in
      (rc ≡ success)
      × (c'.refs ≡ c.refs + c.fthread_nr)
      × (c'.threads ≡ c.threads + running_in a.spawns)
unfolding fence_thread_start
fence_thread_start_misses a c valid some_threads each h =
    ground (arith, spawn-counts a.spawns (record c { refs = c.refs + 1; cmd_state = 2 }) h)
