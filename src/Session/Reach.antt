-- ===== src/Session/Reach.antt =====
-- What `msm_cvp_comm_try_state` (msm/eva/msm_cvp_common.c) reaches if nothing fails.
use eva_driver.Prelude.{
  ℕ, zero, suc, ◌≤◌, ◌<◌, ◌≡◌, ◌≢◌, refl, inl, inr, false, ◌&&◌, none, some, arith,
}
use eva_driver.Prelude.Tests.{Option-cases, ◌==◌}
use eva_driver.Prelude.Lists.{get_elem?}
use eva_driver.Prelude.Errno.{Rc, success}
use eva_driver.Session.{Sys, World, get_flipped_state, core_invalid, is_uninit}
use eva_driver.Session.Stages.{session_init_done, session_clean}
use eva_driver.Session.Moves.{table-ne-none}
use eva_driver.Session.Machine.{
  uninit_handler, close_done_handler, close_handler, open_done_handler, open_handler,
  init_done_handler, init_handler, state_handler, state_result_check, try_state,
}
use eva_driver.Session.Good.{
  IsGood, At, OnTheWay, go_on-At, uninit_handler-At, wait-At, init_core-At, init_core_done-At,
  session_init-At, session_close-At,
}

module _ (w : World) (desired flipped : ℕ) (good : IsGood w) where
  close_done_handler-At :
      (s : Sys)
      → flipped ≤ 6
      → s.inst.state ≡ 6
      → 6 < desired
      → desired ≤ 8
      → At desired (close_done_handler w desired flipped s)
  unfolding close_done_handler session_clean
  close_done_handler-At s h e lo hi =
      go_on-At 6 desired _ (λ s'. uninit_handler w desired flipped (session_clean s'))
        (wait-At w desired flipped good 6 s good.ended h e (omega arith)) lo hi (inr (omega arith))
        (λ s' e' more.
          let d : desired ≡ 8 = omega arith in
          rw d (rw d at (uninit_handler-At w desired flipped good (session_clean s') e' d)))

  close_handler-At :
      (s : Sys)
      → flipped ≤ 5
      → s.inst.state ≡ 5
      → 5 < desired
      → desired ≤ 8
      → At desired (close_handler w desired flipped s)
  unfolding close_handler
  close_handler-At s h e lo hi =
      go_on-At 5 desired _ (close_done_handler w desired flipped)
        (session_close-At w desired flipped good s h e) lo hi (inr (omega arith))
        (λ s' e' more. close_done_handler-At s' (omega arith) e' more hi)

  open_done_handler-At :
      (s : Sys)
      → flipped ≤ 4
      → s.inst.state ≡ 4
      → 4 < desired
      → desired ≤ 8
      → At desired (open_done_handler w desired flipped s)
  unfolding open_done_handler session_init_done
  open_done_handler-At s h e lo hi =
      go_on-At 4 desired _ (close_handler w desired flipped)
        (wait-At w desired flipped good 4 s good.opens h e (omega arith)) lo hi (inr (omega arith))
        (λ s' e' more. close_handler-At s' (omega arith) e' more hi)

  open_handler-At :
      (s : Sys)
      → flipped ≤ 3
      → s.inst.state ≡ 3
      → 3 < desired
      → desired ≤ 6
      → At desired (open_handler w desired flipped s)
  unfolding open_handler
  open_handler-At s h e lo hi =
      go_on-At 3 desired _ (open_done_handler w desired flipped)
        (session_init-At w desired flipped good s h e) lo (omega arith) (inl hi)
        (λ s' e' more. open_done_handler-At s' (omega arith) e' more (omega arith))

  init_done_handler-At :
      (s : Sys)
      → flipped ≤ 2
      → s.inst.state ≡ 2
      → 2 < desired
      → desired ≤ 6
      → At desired (init_done_handler w desired flipped s)
  unfolding init_done_handler
  init_done_handler-At s h e lo hi =
      go_on-At 2 desired _ (open_handler w desired flipped)
        (init_core_done-At w desired flipped good s e) lo (omega arith) (inl hi)
        (λ s' e' more. open_handler-At s' (omega arith) e' more hi)

  init_handler-At :
      (s : Sys)
      → flipped ≤ 1
      → s.inst.state ≡ 1
      → 1 < desired
      → desired ≤ 6
      → At desired (init_handler w desired flipped s)
  unfolding init_handler
  init_handler-At s h e lo hi =
      go_on-At 1 desired _ (init_done_handler w desired flipped)
        (init_core-At w desired flipped good s e) lo (omega arith) (inl hi)
        (λ s' e' more. init_done_handler-At s' (omega arith) e' more hi)

-- What the table's entry for the flipped state does.
table-At :
    (w : World) (desired k f : ℕ) (s : Sys) {handler : Sys → Rc × Sys}
    → IsGood w
    → s.inst.state ≡ k
    → desired ≤ 8
    → OnTheWay k desired
    → k < desired
    → get_flipped_state k desired ≡ some f
    → get_elem? (state_handler w desired f) f ≡ some handler
    → 1 ≤ k
    → At desired (handler s)
unfolding get_flipped_state
table-At w desired zero f s good e hi way less p h lo = absurd (omega arith)
table-At w desired (suc zero) f s {handler} good e hi way less p h lo =
    let ef : f ≡ 1 = ground arith in
    let q : init_handler w desired 1 ≡ handler = cc (rw ef at h) in
    rw (← q) (init_handler-At w desired 1 good s (omega arith) e less (omega (arith, way)))
table-At w desired (suc (suc zero)) f s {handler} good e hi way less p h lo =
    let ef : f ≡ 2 = ground arith in
    let q : init_done_handler w desired 2 ≡ handler = cc (rw ef at h) in
    rw (← q) (init_done_handler-At w desired 2 good s (omega arith) e less (omega (arith, way)))
table-At w desired (suc (suc (suc zero))) f s {handler} good e hi way less p h lo =
    let ef : f ≡ 3 = ground arith in
    let q : open_handler w desired 3 ≡ handler = cc (rw ef at h) in
    rw (← q) (open_handler-At w desired 3 good s (omega arith) e less (omega (arith, way)))
table-At w desired (suc (suc (suc (suc zero)))) f s {handler} good e hi way less p h lo =
    let ef : f ≡ 4 = ground arith in
    let q : open_done_handler w desired 4 ≡ handler = cc (rw ef at h) in
    rw (← q) (open_done_handler-At w desired 4 good s (omega arith) e less (omega (arith, way)))
table-At w desired (suc (suc (suc (suc (suc zero))))) f s {handler} good e hi way less p h lo =
    let ef : f ≡ 5 = ground arith in
    let q : close_handler w desired 5 ≡ handler = cc (rw ef at h) in
    rw (← q) (close_handler-At w desired 5 good s (omega arith) e less (omega (arith, way)))
table-At w desired (suc (suc (suc (suc (suc (suc zero)))))) f s {handler} good e hi way less p h
      lo =
    let ef : f ≡ 6 = ground arith in
    let q : close_done_handler w desired 6 ≡ handler = cc (rw ef at h) in
    rw (← q) (close_done_handler-At w desired 6 good s (omega arith) e less (omega (arith, way)))
table-At w desired (suc (suc (suc (suc (suc (suc (suc zero))))))) f s {handler} good e hi way less p
      h lo =
    let ef : f ≡ 7 = ground arith in
    let d : desired ≡ 8 = omega arith in
    let q : uninit_handler w desired 7 ≡ handler = cc (rw ef at h) in
    rw (← q) (rw d (uninit_handler-At w 8 7 good s e refl))
table-At w desired (suc (suc (suc (suc (suc (suc (suc (suc k)))))))) f s good e hi way less p h lo =
    absurd (omega arith)

flips : (present desired : ℕ) → present ≤ 9 → desired ≤ 9 → get_flipped_state present desired ≢ none
unfolding get_flipped_state
flips present desired a b = ground arith

checked-At :
    (desired : ℕ) (r : Rc × Sys)
    → At desired r
    → (s' : Sys) × (some (state_result_check r) ≡ some (success, s')) × (s'.inst.state ≡ desired)
unfolding state_result_check
checked-At desired (rc, s) (ok, e) = (s, rw ok refl, e)

-- If nothing fails, a session is brought from any state of its life cycle to any later one, and
-- that exactly, with success. The states from CLOSE_DONE on are asked for only of a session that is in
-- OPEN_SENT or later.
pub try_state-reaches :
    (w : World) (desired : ℕ) (s : Sys)
    → IsGood w
    → 1 ≤ s.inst.state
    → s.inst.state < desired
    → desired ≤ 8
    → OnTheWay s.inst.state desired
    → (s' : Sys) × (try_state w desired s ≡ some (success, s')) × (s'.inst.state ≡ desired)
unfolding try_state
try_state-reaches w desired s good lo less hi way =
    elim (Option-cases (get_flipped_state s.inst.state desired)) [
      | inl q ↦ absurd (flips s.inst.state desired (omega arith) (omega arith) q)
      | inr (f, q) ↦ elim (Option-cases (get_elem? (state_handler w desired f) f)) [
        | inl t ↦ absurd (table-ne-none w s.inst.state desired q t)
        | inr (handler, t) ↦
            rw (alive, q, t)
              (checked-At desired (handler s)
                (table-At w desired s.inst.state f s good refl hi way less q t lo))
      ]
    ]
  where
    alive : (s.inst.state == core_invalid && is_uninit s.core.state) ≡ false
    alive = ground arith
