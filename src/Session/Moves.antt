-- ===== src/Session/Moves.antt =====
-- The moves that `msm_cvp_comm_try_state` can make a session take.
use eva_driver.Prelude.{ℕ, zero, suc, ◌≤◌, ◌≡◌, ◌≢◌, refl, inl, inr, ◌&&◌, none, some, ◌∷◌, arith}
use eva_driver.Prelude.Tests.{ltb, leb, ◌==◌, Bool-cases, Option-cases}
use eva_driver.Prelude.Lists.{get_or, get_elem?, get_elem?-eq-get_or}
use eva_driver.Prelude.Errno.{Rc, failed, einval}
use eva_driver.Session.{
  Sys, World, is_uninit, change_inst_state, get_flipped_state, core_invalid, open_done, close_done,
}
use eva_driver.Session.Machine.{
  invalid_handler, uninit_handler, close_done_handler, close_handler, open_done_handler,
  open_handler, init_done_handler, init_handler, uninit_done_handler, state_handler, kill_session,
  state_result_check, try_state,
}
use eva_driver.Session.Steps.{Moves-broken, Moves, MovesTo, unopened, given_up, stay}
use eva_driver.Session.Handled.{
  uninit_handler-Moves, close_done_handler-Moves, close_handler-Moves, open_done_handler-Moves,
  open_handler-Moves, init_done_handler-Moves, init_handler-Moves, close_done_handler-invalid,
  invalid_handler-Moves, Moves-trans,
}

-- What the table's entry for the flipped state does.
table-Moves :
    (w : World) (desired k f : ℕ) (s : Sys) {handler : Sys → Rc × Sys}
    → s.inst.state ≡ k
    → 1 ≤ k
    → get_flipped_state k desired ≡ some f
    → get_elem? (state_handler w desired f) f ≡ some handler
    → MovesTo k s.inst.visited (handler s).1
unfolding get_flipped_state
table-Moves w desired zero f s e p g h = absurd (omega arith)
table-Moves w desired (suc zero) f s {handler} e p g h =
    let ef : f ≡ 1 = ground arith in
    let q : init_handler w desired 1 ≡ handler = cc (rw ef at h) in
    rw (← q) (init_handler-Moves w desired 1 s (omega arith) e)
table-Moves w desired (suc (suc zero)) f s {handler} e p g h =
    let ef : f ≡ 2 = ground arith in
    let q : init_done_handler w desired 2 ≡ handler = cc (rw ef at h) in
    rw (← q) (init_done_handler-Moves w desired 2 s (omega arith) e)
table-Moves w desired (suc (suc (suc zero))) f s {handler} e p g h =
    elim (Bool-cases (ltb 6 desired)) [
      | inl late ↦
          let ef : f ≡ 8 = ground arith in
          let q : invalid_handler w desired 8 ≡ handler = cc (rw ef at h) in
          rw (← q) (invalid_handler-Moves w desired 8 3 s e (omega arith) (unopened refl refl))
      | inr early ↦
          let ef : f ≡ 3 = ground arith in
          let q : open_handler w desired 3 ≡ handler = cc (rw ef at h) in
          rw (← q) (open_handler-Moves w desired 3 s (omega arith) e)
    ]
table-Moves w desired (suc (suc (suc (suc zero)))) f s {handler} e p g h =
    let ef : f ≡ 4 = ground arith in
    let q : open_done_handler w desired 4 ≡ handler = cc (rw ef at h) in
    rw (← q) (open_done_handler-Moves w desired 4 s (omega arith) e)
table-Moves w desired (suc (suc (suc (suc (suc zero))))) f s {handler} e p g h =
    let ef : f ≡ 5 = ground arith in
    let q : close_handler w desired 5 ≡ handler = cc (rw ef at h) in
    rw (← q) (close_handler-Moves w desired 5 s (omega arith) e)
table-Moves w desired (suc (suc (suc (suc (suc (suc zero)))))) f s {handler} e p g h =
    let ef : f ≡ 6 = ground arith in
    let q : close_done_handler w desired 6 ≡ handler = cc (rw ef at h) in
    rw (← q) (close_done_handler-Moves w desired 6 s (omega arith) e)
table-Moves w desired (suc (suc (suc (suc (suc (suc (suc zero))))))) f s {handler} e p g h =
    let ef : f ≡ 7 = ground arith in
    let q : uninit_handler w desired 7 ≡ handler = cc (rw ef at h) in
    rw (← q) (uninit_handler-Moves w desired 7 s e)
table-Moves w desired (suc (suc (suc (suc (suc (suc (suc (suc zero)))))))) f s {handler} e p g h =
    let ef : f ≡ 8 = ground arith in
    let q : invalid_handler w desired 8 ≡ handler = cc (rw ef at h) in
    rw (← q) (invalid_handler-Moves w desired 8 8 s e (omega arith) (given_up refl refl))
table-Moves w desired (suc (suc (suc (suc (suc (suc (suc (suc (suc zero))))))))) f s {handler} e p g
      h =
    let ef : f ≡ 6 = ground arith in
    let q : close_done_handler w desired 6 ≡ handler = cc (rw ef at h) in
    rw (← q) (close_done_handler-invalid w desired s e)
table-Moves w desired (suc (suc (suc (suc (suc (suc (suc (suc (suc (suc k)))))))))) f s e p g h =
    absurd (ground arith)

kill_session-Moves : (s : Sys) → MovesTo s.inst.state s.inst.visited (kill_session s)
unfolding kill_session change_inst_state
kill_session-Moves s =
    let kept : MovesTo s.inst.state s.inst.visited s = stay refl refl in
    elim (Bool-cases (leb open_done s.inst.state && ltb s.inst.state close_done)) [
      | inr a ↦ ground (arith, a, kept)
      | inl a ↦
          let killed : Moves s.inst.state s.inst.visited 9 (s.inst.state ∷ s.inst.visited) =
            Moves-broken s.inst.state (ground (arith, a)) refl refl in
          ground (arith, a, kept, killed)
    ]

state_result_check-Moves :
    (r : Rc × Sys) → MovesTo r.1.inst.state r.1.inst.visited (state_result_check r).1
unfolding state_result_check
state_result_check-Moves (rc, s) =
    let kept : MovesTo s.inst.state s.inst.visited s = stay refl refl in
    ground (arith, kept, kill_session-Moves s)

flipped-le-8 : (present desired : ℕ) {f : ℕ} → get_flipped_state present desired ≡ some f → f ≤ 8
unfolding get_flipped_state
flipped-le-8 present desired e = ground arith

pub table-ne-none :
    (w : World) (present desired : ℕ) {f : ℕ}
    → get_flipped_state present desired ≡ some f
    → get_elem? (state_handler w desired f) f ≢ none
table-ne-none w present desired {f} q t =
    let e : get_elem? (state_handler w desired f) f
        ≡ some (get_or (state_handler w desired f) f (uninit_done_handler w desired f)) =
      get_elem?-eq-get_or (state_handler w desired f) f _
        (omega (arith, flipped-le-8 present desired q)) in
    cc

-- The table has an entry for every flipped state: the null entry is never called.
pub try_state-ne-none : (w : World) (desired : ℕ) (s : Sys) → try_state w desired s ≢ none
unfolding try_state
try_state-ne-none w desired s =
    elim (Bool-cases (s.inst.state == core_invalid && is_uninit s.core.state)) [
      | inl dead ↦ rw dead (λ q. cc)
      | inr alive ↦ elim (Option-cases (get_flipped_state s.inst.state desired)) [
        | inl q ↦ rw (alive, q) (λ e. cc)
        | inr (f, q) ↦ elim (Option-cases (get_elem? (state_handler w desired f) f)) [
          | inl t ↦ absurd (table-ne-none w s.inst.state desired q t)
          | inr (handler, t) ↦ rw (alive, q, t) (λ e. cc)
        ]
      ]
    ]

-- Whatever the firmware and the device layer answer, each change of the session's state during a
-- call is one move of its life cycle: to the next state; from CORE_INIT_DONE, where no session was
-- opened, or from CORE_UNINIT to CORE_UNINIT; or to the invalid state. The states that the session
-- had during the call are those of the moves, one after another, so that no state between them is
-- skipped; it never goes back, and an invalid session stays invalid. The instance starts in a state of the enumeration, which begins at 1.
pub try_state-Moves :
    (w : World) (desired : ℕ) (s : Sys) (r : Rc × Sys)
    → 1 ≤ s.inst.state
    → try_state w desired s ≡ some r
    → Moves s.inst.state s.inst.visited r.1.inst.state r.1.inst.visited
unfolding try_state
try_state-Moves w desired s r p e =
    elim (Bool-cases (s.inst.state == core_invalid && is_uninit s.core.state)) [
      | inl dead ↦ let q : (failed einval, s) ≡ r = cc (rw dead at e) in rw (← q) (stay refl refl)
      | inr alive ↦ elim (Option-cases (get_flipped_state s.inst.state desired)) [
        | inl n ↦
            let q : (failed einval, s) ≡ r = cc (rw (alive, n) at e) in rw (← q) (stay refl refl)
        | inr (f, q) ↦ elim (Option-cases (get_elem? (state_handler w desired f) f)) [
          | inl t ↦ absurd (table-ne-none w s.inst.state desired q t)
          | inr (handler, t) ↦
              let u : state_result_check (handler s) ≡ r = cc (rw (alive, q, t) at e) in
              rw (← u) (
                Moves-trans (table-Moves w desired s.inst.state f s refl p q t)
                  (state_result_check-Moves (handler s)))
        ]
      ]
    ]
