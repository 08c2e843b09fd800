-- ===== src/Session/Handled.antt =====
-- The moves that the handlers of a session's states make it take (msm/eva/msm_cvp_common.c).
use eva_driver.Prelude.{ℕ, ◌≤◌, ◌≡◌, ◌≢◌, refl, sym, false, List, ◌∷◌, arith}
use eva_driver.Session.{
  Sys, World, Wait, completed, sys_error, timed_out, is_success, change_inst_state,
  handle_sys_error, handle_session_timeout, settle, wait_for_receipt, wait_for_state,
}
use eva_driver.Session.Stages.{session_init_done, session_clean, deinit_core}
use eva_driver.Session.Machine.{
  invalid_handler, uninit_handler, close_done_handler, close_handler, open_done_handler,
  open_handler, init_done_handler, init_handler,
}
use eva_driver.Session.Steps.{
  init_core-Stepped, init_core_done-Stepped, session_init-Stepped, session_close-Stepped,
  wait_for_state-Stepped, go_on-Moves, Move, Moves, MovesTo, advance, stay, next,
}

module _ (w : World) (desired flipped : ℕ) where
  pub uninit_handler-Moves :
      (s : Sys) → s.inst.state ≡ 7 → MovesTo 7 s.inst.visited (uninit_handler w desired flipped s).1
  unfolding uninit_handler invalid_handler deinit_core change_inst_state
  uninit_handler-Moves s e =
      let f : (uninit_handler w desired flipped s).1.inst.state ≡ 8 = ground arith in
      let v : 7 ∷ s.inst.visited ≡ (uninit_handler w desired flipped s).1.inst.visited =
        ground arith in
      next (advance 7 (omega arith) f (omega arith)) (stay refl v)

  pub close_done_handler-Moves :
      (s : Sys)
      → flipped ≤ 6
      → s.inst.state ≡ 6
      → MovesTo 6 s.inst.visited (close_done_handler w desired flipped s).1
  unfolding close_done_handler session_clean
  close_done_handler-Moves s h e =
      go_on-Moves 6 desired s.inst.visited _
        (λ s'. uninit_handler w desired flipped (session_clean s')) (omega arith) (omega arith)
        (wait_for_state-Stepped w flipped 6 w.session_end_done s h e (omega arith))
        (λ s' e'. uninit_handler-Moves (session_clean s') e')

  pub close_handler-Moves :
      (s : Sys)
      → flipped ≤ 5
      → s.inst.state ≡ 5
      → MovesTo 5 s.inst.visited (close_handler w desired flipped s).1
  unfolding close_handler
  close_handler-Moves s h e =
      go_on-Moves 5 desired s.inst.visited _ (close_done_handler w desired flipped) (omega arith)
        (omega arith) (session_close-Stepped w flipped s h e)
        (λ s' e'. close_done_handler-Moves s' (omega arith) e')

  pub open_done_handler-Moves :
      (s : Sys)
      → flipped ≤ 4
      → s.inst.state ≡ 4
      → MovesTo 4 s.inst.visited (open_done_handler w desired flipped s).1
  unfolding open_done_handler session_init_done
  open_done_handler-Moves s h e =
      go_on-Moves 4 desired s.inst.visited _ (close_handler w desired flipped) (omega arith)
        (omega arith) (wait_for_state-Stepped w flipped 4 w.session_init_done s h e (omega arith))
        (λ s' e'. close_handler-Moves s' (omega arith) e')

  pub open_handler-Moves :
      (s : Sys)
      → flipped ≤ 3
      → s.inst.state ≡ 3
      → MovesTo 3 s.inst.visited (open_handler w desired flipped s).1
  unfolding open_handler
  open_handler-Moves s h e =
      go_on-Moves 3 desired s.inst.visited _ (open_done_handler w desired flipped) (omega arith)
        (omega arith) (session_init-Stepped w flipped s h e)
        (λ s' e'. open_done_handler-Moves s' (omega arith) e')

  pub init_done_handler-Moves :
      (s : Sys)
      → flipped ≤ 2
      → s.inst.state ≡ 2
      → MovesTo 2 s.inst.visited (init_done_handler w desired flipped s).1
  unfolding init_done_handler
  init_done_handler-Moves s h e =
      go_on-Moves 2 desired s.inst.visited _ (open_handler w desired flipped) (omega arith)
        (omega arith) (init_core_done-Stepped w s e)
        (λ s' e'. open_handler-Moves s' (omega arith) e')

  pub init_handler-Moves :
      (s : Sys)
      → flipped ≤ 1
      → s.inst.state ≡ 1
      → MovesTo 1 s.inst.visited (init_handler w desired flipped s).1
  unfolding init_handler
  init_handler-Moves s h e =
      go_on-Moves 1 desired s.inst.visited _ (init_done_handler w desired flipped) (omega arith)
        (omega arith) (init_core-Stepped w s e)
        (λ s' e'. init_done_handler-Moves s' (omega arith) e')

receipt-invalid :
    (w : World) (wait : Wait) (s : Sys)
    → s.inst.state ≡ 9
    → let (rc, s') = wait_for_receipt w wait s in
      (is_success rc ≡ false) × (s'.inst.state ≡ 9) × (s'.inst.visited ≡ s.inst.visited)
unfolding wait_for_receipt handle_session_timeout settle handle_sys_error change_inst_state
receipt-invalid w (completed code) s e = ground arith
receipt-invalid w (timed_out end) s e = ground arith
receipt-invalid w sys_error s e = ground arith

-- An invalid instance is sent to the handler of a closed session, and stays invalid.
pub close_done_handler-invalid :
    (w : World) (desired : ℕ) (s : Sys)
    → s.inst.state ≡ 9
    → MovesTo 9 s.inst.visited (close_done_handler w desired 6 s).1
unfolding close_done_handler wait_for_state
close_done_handler-invalid w desired s e =
    let (bad, same, v) = receipt-invalid w w.session_end_done s e in
    rw bad (stay (sym same) (sym v))

-- The core is given up, whichever state the instance was in.
pub invalid_handler-Moves :
    (w : World) (desired flipped k : ℕ) (s : Sys)
    → s.inst.state ≡ k
    → k ≢ 9
    → Move k 8
    → MovesTo k s.inst.visited (invalid_handler w desired flipped s).1
unfolding invalid_handler deinit_core change_inst_state
invalid_handler-Moves w desired flipped k s e n a =
    let f : 8 ≡ (invalid_handler w desired flipped s).1.inst.state = ground arith in
    let v : k ∷ s.inst.visited ≡ (invalid_handler w desired flipped s).1.inst.visited =
      ground arith in
    next a (stay f v)

pub Moves-trans : {k l m : ℕ} {a b c : List ℕ} → Moves k a l b → Moves l b m c → Moves k a m c
Moves-trans {k} {m = m} {a} {c = c} (stay e v) n = rw (e, v) n
Moves-trans (next a m) n = next a (Moves-trans m n)
