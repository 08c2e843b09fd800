-- ===== src/Session/Good.antt =====
-- The steps of a session (msm/eva/msm_cvp_common.c) where nothing fails.
use eva_driver.Prelude.{
  ℕ, suc, ◌≤◌, ◌<◌, dec_lt, ◌≡◌, ◌≢◌, refl, sym, subst, ◌⊎◌, inl, inr, true, arith,
}
use eva_driver.Prelude.Tests.{leb, leb-true, leb-false}
use eva_driver.Prelude.Errno.{Rc, success}
use eva_driver.Session.{
  Sys, World, Wait, completed, change_inst_state, settle, wait_for_receipt, wait_for_state, reached,
  get_flipped_state,
}
use eva_driver.Session.Stages.{
  init_core, check_core_init, init_core_done, session_init, session_close, deinit_core,
}
use eva_driver.Session.Machine.{go_on, invalid_handler, uninit_handler}

-- Nothing fails: the firmware answers in time and with no error.
pub record IsGood (w : World) : Type 0 where
  pub capabilities : w.alloc_capabilities ≡ true
  pub core_inits : w.hfi_core_init ≡ success
  pub sys_init : w.sys_init_done ≡ true
  pub session_inits : w.hfi_session_init ≡ success
  pub session : w.new_session ≡ true
  pub opens : w.session_init_done ≡ completed 0
  pub session_end : w.hfi_session_end ≡ success
  pub ended : w.session_end_done ≡ completed 0

-- Success, in state `k`.
abbrev pub At : ℕ → Rc × Sys → Type 0
At k r = (r.0 ≡ success) × (r.1.inst.state ≡ k)

-- A session that is being given up from CORE_INIT_DONE is left there or sent to CORE_UNINIT, so
-- the states from CLOSE_DONE on are asked for only of a session that was sent to be opened.
abbrev pub OnTheWay : ℕ → ℕ → Type 0
OnTheWay k desired = (desired ≤ 6) ⊎ (4 ≤ k)

pub reached-leb :
    (k desired : ℕ) (s : Sys)
    → s.inst.state ≡ suc k
    → k < desired
    → desired ≤ 8
    → OnTheWay k desired
    → reached desired s ≡ leb desired (suc k)
unfolding reached get_flipped_state
reached-leb k desired s e lo hi (inl early) = ground arith
reached-leb k desired s e lo hi (inr late) = ground arith

pub go_on-At :
    (k desired : ℕ) (r : Rc × Sys) (after : Sys → Rc × Sys)
    → At (suc k) r
    → k < desired
    → desired ≤ 8
    → OnTheWay k desired
    → ((s : Sys) → s.inst.state ≡ suc k → suc k < desired → At desired (after s))
    → At desired (go_on desired r after)
go_on-At k desired (rc, s) after (ok, e) lo hi way h = elim (dec_lt (suc k) desired) [
  | yes more ↦
      rw (ok, reached-leb k desired s e lo hi way, leb-false desired (suc k) more) (h s e more)
  | no done ↦
      rw (ok, reached-leb k desired s e lo hi way, leb-true desired (suc k) (omega arith))
        (refl, omega (arith, e))
]

module _ (w : World) (desired flipped : ℕ) (good : IsGood w) where
  pub uninit_handler-At :
      (s : Sys) → s.inst.state ≡ 7 → desired ≡ 8 → At 8 (uninit_handler w desired flipped s)
  unfolding uninit_handler invalid_handler deinit_core change_inst_state reached get_flipped_state
  uninit_handler-At s e d = ground arith

  pub wait_for_state-At :
      (k : ℕ) (s : Sys)
      → flipped ≤ k
      → s.inst.state ≡ k
      → k ≢ 9
      → At (suc k) (wait_for_state w flipped (suc k) (completed 0) s)
  unfolding wait_for_state wait_for_receipt settle change_inst_state
  wait_for_state-At k s h e n = ground arith

  pub wait-At :
      (k : ℕ) {wait : Wait} (s : Sys)
      → wait ≡ completed 0
      → flipped ≤ k
      → s.inst.state ≡ k
      → k ≢ 9
      → At (suc k) (wait_for_state w flipped (suc k) wait s)
  wait-At k s q h e n =
      subst (λ v. At (suc k) (wait_for_state w flipped (suc k) v s)) (sym q)
        (wait_for_state-At k s h e n)

  pub init_core-At : (s : Sys) → s.inst.state ≡ 1 → At 2 (init_core w s)
  unfolding init_core change_inst_state
  init_core-At s e = ground (arith, good.capabilities, good.core_inits)

  pub init_core_done-At : (s : Sys) → s.inst.state ≡ 2 → At 3 (init_core_done w s)
  unfolding init_core_done check_core_init change_inst_state
  init_core_done-At s e = ground (arith, good.sys_init)

  pub session_init-At : (s : Sys) → flipped ≤ 3 → s.inst.state ≡ 3 → At 4 (session_init w flipped s)
  unfolding session_init change_inst_state
  session_init-At s h e = ground (arith, good.session_inits, good.session)

  pub session_close-At :
      (s : Sys) → flipped ≤ 5 → s.inst.state ≡ 5 → At 6 (session_close w flipped s)
  unfolding session_close change_inst_state
  session_close-At s h e = ground (arith, good.session_end)
