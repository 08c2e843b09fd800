-- ===== src/Session/Create.antt =====
-- `msm_cvp_session_create` of msm/eva/msm_cvp.c, over the session's state machine.
use eva_driver.Prelude.{
  ◌≡◌, ◌≢◌, refl, sym, ◌⊎◌, ◌||◌, inl, inr, Bool, not, true, false, Option, none, some, arith,
}
use eva_driver.Prelude.Tests.{leb, ltb, ◌==◌, if◌then◌else◌}
use eva_driver.Prelude.Errno.{Rc, success, failed, hfi_error, einval, econnreset}
use eva_driver.Session.{Sys, World, is_success, open_done, close_done, core_init_done}
use eva_driver.Session.Machine.{try_state}
use eva_driver.Session.Open.{try_state-swallows}
use eva_driver.Session.Good.{IsGood}
use eva_driver.Session.Reach.{try_state-reaches}

-- What a creation leaves: the code, the state, and whether the session's queue was made active.
pub record Created : Type 0 where
  pub rc : Rc
  pub sys : Sys
  pub active : Bool

-- The label `fail_init`: the session is closed again, and the code is that of the failure.
pub fail_init : Rc → Option (Rc × Sys) → Option Created
fail_init rc none = none
fail_init rc (some (rc1, s)) = some (record { rc = rc; sys = s; active = false })

-- The creation behind the opening; `secure` and `arp` are the answers of
-- `msm_cvp_secure_sess_check` and `cvp_comm_set_arp_buffers`.
pub opened : World → Rc → Rc → Option (Rc × Sys) → Option Created
unfolding fail_init
opened w secure arp none = none
opened w secure arp (some (rc, s)) =
    if not (is_success rc)
    then some (record { rc = rc; sys = s; active = false })
    else if not (is_success secure)
    then some (record { rc = secure; sys = s; active = false })
    else if not (is_success arp)
    then fail_init arp (try_state w close_done s)
    else some (record { rc = success; sys = s; active = true })

-- `msm_cvp_session_create` for an instance with a core.
pub session_create : World → Rc → Rc → Sys → Option Created
unfolding opened
session_create w secure arp s =
    if leb close_done s.inst.state
    then some (record { rc = failed econnreset; sys = s; active = false })
    else if not (s.inst.state == core_init_done) || ltb open_done s.inst.state
    then some (record { rc = failed einval; sys = s; active = false })
    else opened w secure arp (try_state w open_done s)

session_create-opened :
    (w : World) (secure arp : Rc) (s : Sys)
    → s.inst.state ≡ 3
    → session_create w secure arp s ≡ opened w secure arp (try_state w 5 s)
unfolding session_create
session_create-opened w secure arp s e = ground arith

opened-failing :
    (w : World) (arp : Rc) (s5 s7 : Sys)
    → arp ≢ success
    → try_state w 7 s5 ≡ some (success, s7)
    → opened w success arp (some (success, s5))
      ≡ some (record { rc = arp; sys = s7; active = false })
unfolding opened fail_init
opened-failing w success s5 s7 bad q = absurd (bad refl)
opened-failing w (failed e) s5 s7 bad q = rw q refl
opened-failing w (hfi_error n) s5 s7 bad q = rw q refl

opened-good :
    (w : World) (s5 : Sys)
    → opened w success success (some (success, s5))
      ≡ some (record { rc = success; sys = s5; active = true })
unfolding opened
opened-good w s5 = refl

is_success-cases : (rc : Rc) → (rc ≡ success) ⊎ (rc ≢ success)
is_success-cases success = inl refl
is_success-cases (failed e) = inr (λ q. cc)
is_success-cases (hfi_error n) = inr (λ q. cc)

-- Where the firmware answers well, a creation opens the session and makes its queue active; if then
-- the buffers cannot be set, their error is returned, and the session is closed again.
pub session_create_lem :
    (w : World) (arp : Rc) (s : Sys)
    → IsGood w
    → s.inst.state ≡ 3
    → (c : Created) × (session_create w success arp s ≡ some c)
      × (c.rc ≡ arp)
      × (((arp ≡ success) × (c.sys.inst.state ≡ 5) × (c.active ≡ true))
          ⊎ ((arp ≢ success) × (c.sys.inst.state ≡ 7) × (c.active ≡ false)))
session_create_lem w arp s good e =
    let (s5, q5, e5) =
      try_state-reaches w 5 s good (omega arith) (omega arith) (omega arith) (inl (omega arith)) in
    let (s7, q7, e7) =
      try_state-reaches w 7 s5 good (omega arith) (omega arith) (omega arith) (inr (omega arith)) in
    elim (is_success-cases arp) [
      | inl ok ↦ (
        record { rc = success; sys = s5; active = true },
        rw (ok, session_create-opened w success success s e, q5) (opened-good w s5),
        sym ok,
        inl (ok, e5, refl),
      )
      | inr bad ↦ (
        record { rc = arp; sys = s7; active = false },
        rw (session_create-opened w success arp s e, q5) (opened-failing w arp s5 s7 bad q7),
        refl,
        inr (bad, e7, refl),
      )
    ]

-- A session whose opening failed in the device layer is taken for created: the code is 0 and its
-- queue is made active, while it stays in CORE_INIT_DONE, unless an earlier command of it was
-- answered with an error.
pub session_create-swallows :
    (w : World) (s : Sys)
    → s.inst.state ≡ 3
    → (w.hfi_session_init ≢ success) ⊎ (w.new_session ≡ false)
    → s.inst.prev_hfi_error_code ≡ 0
    → (c : Created) × (session_create w success success s ≡ some c)
      × (c.rc ≡ success)
      × (c.active ≡ true)
      × (c.sys.inst.state ≡ 3)
session_create-swallows w s e fails prev =
    let q = try_state-swallows w 5 s e (omega arith) (omega arith) fails prev in
    (
      record {
        rc = success;
        sys = record s { inst = record s.inst { session = w.new_session } };
        active = true;
      },
      rw (session_create-opened w success success s e, q) (opened-good w _),
      refl,
      refl,
      e,
    )
