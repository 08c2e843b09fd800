-- ===== src/Control/Stop.antt =====
-- What the stops of a session leave (`msm_cvp_session_stop`, `msm_cvp_session_flush_stop`,
-- msm/eva/msm_cvp.c).
use eva_driver.Prelude.{◌+◌, ◌-◌, ◌≡◌, ◌≢◌, ap, ◌∙◌, ◌⊎◌, inl, inr, arith}
use eva_driver.Prelude.Errno.{Rc, success, failed, econnreset, euclean}
use eva_driver.Control.{
  Control, Answers, fence_thread_stop, then_rc, stop_thread, session_flush_stop, session_stop,
}

-- The fence queues are stopped, if there are fence threads.
abbrev pub FencesStopped : Control → Type 0
FencesStopped c = (c.fthread_nr ≡ 0) ⊎ ((c.fence_state ≡ 3) × (c.cmd_state ≡ 3))

-- Stopped, with success; not stopped, for a reason that leaves all as it was; or invalid.
abbrev pub Stops : Control → Rc → Control → Type 0
Stops c rc c' =
    ((rc ≡ success) × (c'.state ≡ 3) × ((c.state ≡ 3) ⊎ FencesStopped c'))
    ⊎ ((rc ≡ failed econnreset) × (c' ≡ c))
    ⊎ ((rc ≡ failed euclean) × (c' ≡ c) × (c.msg_count ≢ 0) × (c.state ≢ 4))
    ⊎ ((rc ≢ success) × (c'.state ≡ 4))

same-refs : (c : Control) → record c { refs = c.refs + 1 - 1 } ≡ c
same-refs c = let n : c.refs + 1 - 1 ≡ c.refs = omega arith in λ i. record c { refs = n i }

stop_thread_lem :
    (rc : Rc) (c : Control)
    → let (rc', c') = stop_thread rc c in
      (rc' ≡ rc)
      × (c'.refs ≡ c.refs)
      × (c'.fthread_nr ≡ c.fthread_nr)
      × FencesStopped c'
      × (((rc ≡ success) × (c'.state ≡ 3)) ⊎ ((rc ≢ success) × (c'.state ≡ 4)))
unfolding stop_thread fence_thread_stop
stop_thread_lem rc c = ground arith

flush_stop-Stops :
    (a : Answers) (c : Control)
    → let (rc, c') = session_flush_stop a c in Stops c rc c' × (c'.refs ≡ c.refs)
unfolding session_flush_stop
flush_stop-Stops a c = ground (
  arith,
  same-refs c,
  stop_thread_lem success (record c { refs = c.refs + 1 }),
  stop_thread_lem (then_rc a.flush_all (then_rc a.flush_stop a.flush_stop_done))
      (record c { refs = c.refs + 1 }),
)

put-Stops :
    (c : Control) (rc : Rc) (c' : Control)
    → Stops (record c { refs = c.refs + 1 }) rc c'
    → Stops c rc (record c' { refs = c'.refs - 1 })
put-Stops c rc c' (inl stopped) = inl stopped
put-Stops c rc c' (inr (inl (e, same))) =
    inr (inl (e, ap (λ (d : Control). record d { refs = d.refs - 1 }) same ∙ same-refs c))
put-Stops c rc c' (inr (inr (inl (e, same, some_left, valid)))) = inr (
    inr (
      inl (
        e,
        ap (λ (d : Control). record d { refs = d.refs - 1 }) same ∙ same-refs c,
        some_left,
        valid,
      )))
put-Stops c rc c' (inr (inr (inr broken))) = inr (inr (inr broken))

-- The step of a stop once the session is known to be neither stopped nor in use.
stopping-Stops :
    (rc : Rc) (c : Control)
    → let (rc', c') = stop_thread rc (record c { refs = c.refs + 1 }) in
      Stops c rc' (record c' { refs = c'.refs - 1 }) × (c'.refs - 1 ≡ c.refs)
stopping-Stops rc c = ground (arith, stop_thread_lem rc (record c { refs = c.refs + 1 }))

-- A stop that returns 0 leaves the session's queue stopped, and, unless it was stopped already, the
-- fence queues too. One that fails has changed nothing, since the session was gone or messages
-- waited, or has made the queue invalid. The references that it took are given back.
pub session_stop-Stops :
    (a : Answers) (c : Control)
    → let (rc, c', count) = session_stop a c in Stops c rc c' × (c'.refs ≡ c.refs)
unfolding session_stop
session_stop-Stops a c = ground (
  arith,
  same-refs c,
  stopping-Stops a.session_stop c,
  retried,
  (flush_stop-Stops a (record c { refs = c.refs + 1 })).1,
)
  where
    retried :
        let (rc, c') = session_flush_stop a (record c { refs = c.refs + 1 }) in
        Stops c rc (record c' { refs = c'.refs - 1 })
    retried = put-Stops c _ _ (flush_stop-Stops a (record c { refs = c.refs + 1 })).0
