-- ===== src/Session/Steps.antt =====
-- The moves of a session, and what one step of the machine leaves (msm/eva/msm_cvp_common.c).
use eva_driver.Prelude.{
  ℕ, suc, ◌≤◌, ◌≡◌, ◌≢◌, refl, sym, ◌⊎◌, inl, inr, subst, true, false, List, ◌∷◌, arith,
}
use eva_driver.Prelude.Tests.{Bool-cases}
use eva_driver.Prelude.Errno.{Rc}
use eva_driver.Session.{
  Sys, World, Wait, completed, sys_error, timed_out, is_success, change_inst_state,
  handle_sys_error, handle_session_timeout, settle, wait_for_receipt, wait_for_state, reached,
}
use eva_driver.Session.Stages.{
  init_core, check_core_init, init_core_done, session_init, session_close,
}
use eva_driver.Session.Machine.{go_on}

-- One move: to the next state; past the session, where none was opened; to the state CORE_UNINIT
-- once more; or to the invalid state.
pub data Move : ℕ → ℕ → Type 0 where
  advance : (k : ℕ) {l : ℕ} → 1 ≤ k → l ≡ suc k → l ≤ 8 → Move k l
  unopened : {k l : ℕ} → k ≡ 3 → l ≡ 8 → Move k l
  given_up : {k l : ℕ} → k ≡ 8 → l ≡ 8 → Move k l
  broken : (k : ℕ) {l : ℕ} → k ≢ 9 → l ≡ 9 → Move k l

-- The moves from a state, with the states before it, to a state, with those before that: each move
-- leaves one state, which is recorded.
pub data Moves : ℕ → List ℕ → ℕ → List ℕ → Type 0 where
  stay : {k l : ℕ} {past past' : List ℕ} → k ≡ l → past ≡ past' → Moves k past l past'
  next :
      {k l m : ℕ} {past past' : List ℕ}
      → Move k l
      → Moves l (k ∷ past) m past'
      → Moves k past m past'

abbrev pub MovesTo : ℕ → List ℕ → Sys → Type 0
MovesTo k past s = Moves k past s.inst.state s.inst.visited

-- What one step of the machine leaves, started in state `k` behind the states `past`.
unfoldable pub Stepped : ℕ → List ℕ → Rc × Sys → Type 0
Stepped k past (rc, s) =
    ((is_success rc ≡ true) × (s.inst.state ≡ suc k) × (s.inst.visited ≡ k ∷ past))
    ⊎ ((is_success rc ≡ false)
        × (((s.inst.state ≡ k) × (s.inst.visited ≡ past))
            ⊎ ((s.inst.state ≡ 9) × (s.inst.visited ≡ k ∷ past))))

pub init_core-Stepped :
    (w : World) (s : Sys) → s.inst.state ≡ 1 → Stepped 1 s.inst.visited (init_core w s)
unfolding init_core change_inst_state Stepped
init_core-Stepped w s e = ground arith

pub init_core_done-Stepped :
    (w : World) (s : Sys) → s.inst.state ≡ 2 → Stepped 2 s.inst.visited (init_core_done w s)
unfolding init_core_done check_core_init handle_sys_error change_inst_state Stepped
init_core_done-Stepped w s e = ground arith

pub session_init-Stepped :
    (w : World) (flipped : ℕ) (s : Sys)
    → flipped ≤ 3
    → s.inst.state ≡ 3
    → Stepped 3 s.inst.visited (session_init w flipped s)
unfolding session_init change_inst_state Stepped
session_init-Stepped w flipped s h e = ground arith

pub session_close-Stepped :
    (w : World) (flipped : ℕ) (s : Sys)
    → flipped ≤ 5
    → s.inst.state ≡ 5
    → Stepped 5 s.inst.visited (session_close w flipped s)
unfolding session_close change_inst_state Stepped
session_close-Stepped w flipped s h e = ground arith

pub wait_for_state-Stepped :
    (w : World) (flipped k : ℕ) (wait : Wait) (s : Sys)
    → flipped ≤ k
    → s.inst.state ≡ k
    → k ≢ 9
    → Stepped k s.inst.visited (wait_for_state w flipped (suc k) wait s)
unfolding wait_for_state wait_for_receipt handle_session_timeout settle handle_sys_error
    change_inst_state Stepped
wait_for_state-Stepped w flipped k (completed code) s h e n = ground arith
wait_for_state-Stepped w flipped k (timed_out end) s h e n = ground arith
wait_for_state-Stepped w flipped k sys_error s h e n = ground arith

pub Moves-broken :
    (k : ℕ) {past past' : List ℕ} {l : ℕ} → k ≢ 9 → l ≡ 9 → past' ≡ k ∷ past → Moves k past l past'
Moves-broken k n e v = next (broken k n e) (stay refl (sym v))

pub go_on-Moves :
    (k desired : ℕ) (past : List ℕ) (r : Rc × Sys) (after : Sys → Rc × Sys)
    → 1 ≤ k
    → k ≤ 7
    → Stepped k past r
    → ((s : Sys) → s.inst.state ≡ suc k → MovesTo (suc k) s.inst.visited (after s).1)
    → MovesTo k past (go_on desired r after).1
unfolding Stepped
go_on-Moves k desired past (rc, s) after lo hi (inl (ok, e, v)) h =
    elim (Bool-cases (reached desired s)) [
      | inl done ↦ rw (ok, done) (next (advance k lo e (omega arith)) (stay refl (sym v)))
      | inr more ↦
          let m : MovesTo (suc k) (k ∷ past) (after s).1 =
            subst (λ vs. MovesTo (suc k) vs (after s).1) v (h s e) in
          rw (ok, more) (next (advance k lo refl (omega arith)) m)
    ]
go_on-Moves k desired past (rc, s) after lo hi (inr (bad, inl (e, v))) h =
    rw bad (stay (sym e) (sym v))
go_on-Moves k desired past (rc, s) after lo hi (inr (bad, inr (e, v))) h =
    rw bad (Moves-broken k (omega (arith, hi)) e v)
