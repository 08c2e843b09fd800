-- ===== src/Session/Machine.antt =====
-- The handlers of the session's states, their table, and `msm_cvp_comm_try_state`
-- (msm/eva/msm_cvp_common.c).
use eva_driver.Prelude.{ℕ, Bool, true, false, not, ◌&&◌, ◌||◌, Option, none, some}
use eva_driver.Prelude.Tests.{ltb, leb, ◌==◌, if◌then◌else◌}
use eva_driver.Prelude.Lists.{get_elem?}
use mathlib.Core.List.{List, [], ◌∷◌}
use eva_driver.Prelude.Errno.{Rc, success, failed, einval, etimedout}
use eva_driver.Session.{
  Sys, World, is_uninit, is_success, change, core_invalid, core_uninit, open_done, close_done,
  reached, get_flipped_state, wait_for_state,
}
use eva_driver.Session.Stages.{
  init_core, init_core_done, session_init, session_init_done, session_close, session_clean,
  deinit_core,
}

-- The end of each handler: stop on an error or where the desired state is reached, or go on.
abbrev pub go_on : ℕ → Rc × Sys → (Sys → Rc × Sys) → Rc × Sys
go_on desired (rc, s) next = if not (is_success rc) || reached desired s then (rc, s) else next s

module _ (w : World) (desired flipped : ℕ) where
  unfoldable pub invalid_handler : Sys → Rc × Sys
  invalid_handler s =
      let (rc, s') = deinit_core s in
      if not (is_success rc) || reached desired s' then (rc, s') else (failed einval, s')

  unfoldable pub uninit_handler : Sys → Rc × Sys
  unfolding invalid_handler
  uninit_handler s = invalid_handler s

  unfoldable pub close_done_handler : Sys → Rc × Sys
  close_done_handler s =
      go_on desired (wait_for_state w flipped close_done w.session_end_done s)
        (λ s'. uninit_handler (session_clean s'))

  unfoldable pub close_handler : Sys → Rc × Sys
  close_handler s = go_on desired (session_close w flipped s) close_done_handler

  unfoldable pub open_done_handler : Sys → Rc × Sys
  open_done_handler s = go_on desired (session_init_done w flipped s) close_handler

  unfoldable pub open_handler : Sys → Rc × Sys
  open_handler s = go_on desired (session_init w flipped s) open_done_handler

  unfoldable pub init_done_handler : Sys → Rc × Sys
  init_done_handler s = go_on desired (init_core_done w s) open_handler

  unfoldable pub init_handler : Sys → Rc × Sys
  init_handler s = go_on desired (init_core w s) init_done_handler

  unfoldable pub uninit_done_handler : Sys → Rc × Sys
  uninit_done_handler s = init_handler s

  -- `cvp_state_handler`: the table is indexed from 0, and its last entry is null.
  abbrev pub state_handler : List (Sys → Rc × Sys)
  state_handler =
      uninit_done_handler ∷ init_handler ∷ init_done_handler ∷ open_handler ∷ open_done_handler
      ∷ close_handler ∷ close_done_handler ∷ uninit_handler ∷ invalid_handler ∷ []

-- `msm_cvp_comm_kill_session`; `msm_comm_session_abort` returns before it does anything.
unfoldable pub kill_session : Sys → Sys
kill_session s =
    if not s.inst.session
    then s
    else let s' =
        if leb open_done s.inst.state && ltb s.inst.state close_done
        then change core_invalid s
        else s in
      if leb core_uninit s'.inst.state
      then record s' { inst = record s'.inst { event = true } }
      else s'

abbrev pub is_timed_out : Rc → Bool
is_timed_out (failed etimedout) = true
is_timed_out _ = false

-- `msm_cvp_state_result_check`.
unfoldable pub state_result_check : Rc × Sys → Rc × Sys
state_result_check (rc, s) =
    if is_timed_out rc
    then (failed etimedout, if s.inst.state == core_invalid then s else kill_session s)
    else if not (is_success rc) && not (s.inst.prev_hfi_error_code == 0)
    then (failed einval, s)
    else (success, s)

-- `msm_cvp_comm_try_state`; `none` is a call of the table's null entry.
unfoldable pub try_state : World → ℕ → Sys → Option (Rc × Sys)
try_state w desired s =
    if s.inst.state == core_invalid && is_uninit s.core.state
    then some (failed einval, s)
    else elim (get_flipped_state s.inst.state desired) [
      | none ↦ some (failed einval, s)
      | some flipped ↦ elim (get_elem? (state_handler w desired flipped) flipped) [
        | none ↦ none
        | some handler ↦ some (state_result_check (handler s))
      ]
    ]
