-- ===== src/Fences/Synx.antt =====
-- The fences of a command, as msm/eva/msm_cvp_synx.c imports, waits for, signals and releases them.
-- The synx driver itself is what it answers. A handle 0 is no fence.
use eva_driver.Prelude.{ℕ, List, [], ◌∷◌, ◌||◌}
use eva_driver.Prelude.Tests.{◌==◌, if◌then◌else◌}
use eva_driver.Prelude.Errno.{Rc, success}
use eva_driver.Session.{is_success}

-- What the synx driver answers: to an import, the code and the new handle; to a wait, the code and
-- the state of the fence; to a signal, the code. The two states are its constants
-- `SYNX_STATE_SIGNALED_SUCCESS` and `SYNX_STATE_SIGNALED_CANCEL`.
pub record SynxDriver : Type 0 where
  pub synx_import : ℕ → Rc × ℕ
  pub synx_wait : ℕ → Rc × ℕ
  pub synx_signal : ℕ → ℕ → Rc
  pub signaled_success : ℕ
  pub signaled_cancel : ℕ

-- `cvp_import_synx_v2`: the code is that of the last import that failed; such a handle stays 0.
unfoldable pub import_synx : SynxDriver → List ℕ → Rc × List ℕ
import_synx k [] = (success, [])
import_synx k (h ∷ hs) =
    let rest = import_synx k hs in
    let got = k.synx_import h in
    if h == 0 then (rest.0, 0 ∷ rest.1) else (
      if is_success rest.0 then got.0 else rest.0,
      (if is_success got.0 then got.1 else 0) ∷ rest.1,
    )

-- `cvp_wait_synx`: the code, and the state stored through `synx_state`.
unfoldable pub wait_synx : SynxDriver → List ℕ → ℕ → Rc × ℕ
wait_synx k [] state = (success, state)
wait_synx k (h ∷ hs) state =
    let got = k.synx_wait h in
    let skip = wait_synx k hs state in
    let on = wait_synx k hs k.signaled_success in
    if h == 0 || is_success got.0
    then skip
    else if got.1 == k.signaled_success
    then on
    else (got.0, k.signaled_cancel)

-- `cvp_signal_synx`: the code of the last signal, and which handles it signals with which states.
-- After one that fails, the others are cancelled.
unfoldable pub signal_synx : SynxDriver → List ℕ → ℕ → Rc → Rc × List (ℕ × ℕ)
signal_synx k [] state rc = (rc, [])
signal_synx k (h ∷ hs) state rc =
    let rc' = k.synx_signal h state in
    let skip = signal_synx k hs state rc in
    let rest = signal_synx k hs (if is_success rc' then state else k.signaled_cancel) rc' in
    if h == 0 then skip else (rest.0, (h, state) ∷ rest.1)

-- `cvp_cancel_synx_impl`, for the handles of the one kind.
unfoldable pub cancel_synx : List ℕ → ℕ → List (ℕ × ℕ)
cancel_synx [] state = []
cancel_synx (h ∷ hs) state =
    let rest = cancel_synx hs state in if h == 0 then rest else (h, state) ∷ rest
