-- ===== src/Session/Open.antt =====
-- Opening a session from CORE_INIT_DONE by `msm_cvp_comm_try_state` (msm/eva/msm_cvp_common.c), as
-- `msm_cvp_session_create` of msm/eva/msm_cvp.c does.
use eva_driver.Prelude.{
  ℕ, zero, suc, ◌&&◌, ◌≤◌, ◌<◌, ◌≡◌, ◌≢◌, refl, ◌⊎◌, true, false, some, ◌∷◌, arith,
}
use eva_driver.Prelude.Tests.{◌==◌, if◌then◌else◌}
use eva_driver.Prelude.Errno.{Rc, success, failed, hfi_error, einval}
use eva_driver.Session.{
  Sys, World, completed, is_uninit, change_inst_state, settle, wait_for_receipt, wait_for_state,
  reached, get_flipped_state, core_invalid,
}
use eva_driver.Session.Stages.{session_init, session_init_done}
use eva_driver.Session.Machine.{open_done_handler, open_handler, state_result_check, try_state}

opening : (k desired : ℕ) → k ≡ 3 → desired ≤ 6 → get_flipped_state k desired ≡ some 3
unfolding get_flipped_state
opening k desired e h = ground arith

not_yet :
    (k desired : ℕ) (s : Sys)
    → s.inst.state ≡ k
    → k < 9
    → k ≢ 3
    → k < desired
    → reached desired s ≡ false
unfolding reached get_flipped_state
not_yet k desired s e a b c = ground arith

there : (s : Sys) → s.inst.state ≡ 5 → reached 5 s ≡ true
unfolding reached get_flipped_state
there s e = ground arith

-- From CORE_INIT_DONE the table's entry is that of the session's opening.
try_state-open_handler :
    (w : World) (desired : ℕ) (s : Sys)
    → s.inst.state ≡ 3
    → desired ≤ 6
    → try_state w desired s ≡ some (state_result_check (open_handler w desired 3 s))
unfolding try_state
try_state-open_handler w desired s e h = rw (alive, opening s.inst.state desired e h) refl
  where
    alive : (s.inst.state == core_invalid && is_uninit s.core.state) ≡ false
    alive = ground arith

session_init-fails :
    (w : World) (s : Sys)
    → (w.hfi_session_init ≢ success) ⊎ (w.new_session ≡ false)
    → session_init w 3 s
      ≡ (failed einval, record s { inst = record s.inst { session = w.new_session } })
unfolding session_init
session_init-fails w s fails = ground arith

-- An open that fails in the device layer is reported as a success, unless an earlier command of the
-- session was answered with an error: the session stays in CORE_INIT_DONE, and 0 is returned.
pub try_state-swallows :
    (w : World) (desired : ℕ) (s : Sys)
    → s.inst.state ≡ 3
    → 3 < desired
    → desired ≤ 6
    → (w.hfi_session_init ≢ success) ⊎ (w.new_session ≡ false)
    → s.inst.prev_hfi_error_code ≡ 0
    → try_state w desired s
      ≡ some (success, record s { inst = record s.inst { session = w.new_session } })
unfolding open_handler state_result_check
try_state-swallows w desired s e lo hi fails prev =
    rw (try_state-open_handler w desired s e hi, session_init-fails w s fails, prev) refl

-- The session behind the opening's command.
abbrev sent_from : Sys → Sys
sent_from s = record s {
  inst = record s.inst { session = true; state = 4; visited = 3 ∷ s.inst.visited };
}

session_init-sends :
    (w : World) (s : Sys)
    → s.inst.state ≡ 3
    → w.hfi_session_init ≡ success
    → w.new_session ≡ true
    → session_init w 3 s ≡ (success, sent_from s)
unfolding session_init change_inst_state
session_init-sends w s e ok new = ground arith

-- What `try_state` returns to a client that opens a session.
sent-answered :
    (w : World) (s : Sys) {r : Rc × Sys}
    → s.inst.state ≡ 3
    → w.hfi_session_init ≡ success
    → w.new_session ≡ true
    → open_done_handler w 5 3 (sent_from s) ≡ r
    → try_state w 5 s ≡ some (state_result_check r)
unfolding open_handler
sent-answered w s e ok new q =
    rw
      (
        try_state-open_handler w 5 s e (omega arith),
        session_init-sends w s e ok new,
        not_yet 4 5 (sent_from s) refl (omega arith) (omega arith) (omega arith),
        q,
      )
      refl

answer-good :
    (w : World) (s : Sys)
    → s.inst.state ≡ 4
    → w.session_init_done ≡ completed 0
    → open_done_handler w 5 3 s ≡ (
      success,
      record s {
        inst = record s.inst {
          prev_hfi_error_code = 0;
          hfi_error_code = 0;
          state = 5;
          visited = 4 ∷ s.inst.visited;
        };
      },
    )
unfolding open_done_handler session_init_done wait_for_state wait_for_receipt settle
    change_inst_state reached get_flipped_state
answer-good w s e answer = ground arith

answer-bad :
    (w : World) (n : ℕ) (s : Sys)
    → s.inst.state ≡ 4
    → w.session_init_done ≡ completed (suc n)
    → open_done_handler w 5 3 s ≡ (
      hfi_error (suc n),
      record s { inst = record s.inst { prev_hfi_error_code = suc n; hfi_error_code = 0 } },
    )
unfolding open_done_handler session_init_done wait_for_state wait_for_receipt settle
    change_inst_state
answer-bad w n s e answer = ground arith

checked-bad :
    (n : ℕ) (s : Sys)
    → s.inst.prev_hfi_error_code ≡ suc n
    → state_result_check (hfi_error (suc n), s) ≡ (failed einval, s)
unfolding state_result_check
checked-bad n s e = ground arith

-- A session whose opening was answered with an error.
abbrev refused_by : ℕ → Sys → Sys
refused_by n s = record s {
  inst = record s.inst {
    session = true;
    state = 4;
    visited = 3 ∷ s.inst.visited;
    prev_hfi_error_code = suc n;
    hfi_error_code = 0;
  };
}

-- A session that the device layer has opened and that the firmware answers in time: with no error
-- it is in OPEN_DONE and the code is 0; with an error the code is -EINVAL, the session is left in
-- OPEN, and the error is kept as the previous one.
pub try_state-opens :
    (w : World) (code : ℕ) (s : Sys)
    → s.inst.state ≡ 3
    → w.hfi_session_init ≡ success
    → w.new_session ≡ true
    → w.session_init_done ≡ completed code
    → (s' : Sys) × (try_state w 5 s ≡ some (if code == 0 then success else failed einval, s'))
      × (s'.inst.state ≡ (if code == 0 then 5 else 4))
      × (s'.inst.prev_hfi_error_code ≡ code)
      × (s'.inst.session ≡ true)
unfolding state_result_check
try_state-opens w zero s e ok new answer =
    (_, sent-answered w s e ok new (answer-good w _ refl answer), refl, refl, refl)
try_state-opens w (suc n) s e ok new answer =
    let z : (suc n == 0) ≡ false = ground arith in
    (
      refused_by n s,
      rw
          (
            z,
            sent-answered w s e ok new (answer-bad w n _ refl answer),
            checked-bad n (refused_by n s) refl,
          )
          refl,
      rw z refl,
      refl,
      refl,
    )
