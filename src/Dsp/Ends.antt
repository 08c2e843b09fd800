-- ===== src/Dsp/Ends.antt =====
-- How a suspension of the DSP ends (msm/eva/msm_cvp_dsp.c).
use eva_driver.Prelude.{
  ℕ, ◌≡◌, ◌≢◌, ◌⊎◌, refl, Bool, true, false, not, ◌&&◌, ◌||◌, inl, inr, none, some, arith,
}
use eva_driver.Prelude.Tests.{if◌then◌else◌, Bool-cases, Option-cases, ◌==◌}
use eva_driver.Prelude.Errno.{Rc, success, failed, einval, ebusy, etimedout, enotsupp}
use eva_driver.Session.{is_success}
use eva_driver.Dsp.{
  Dsp, invalid, suspended, Exchange, send_cmd, send_cmd_sync, give_up, hyp_assign_from_dsp,
  reinit_dsp, is_ready, is_suspended,
}
use eva_driver.Dsp.Suspend.{Suspending, retry_suspend, suspend_dsp}

-- The DSP hears a command and answers it with a code.
abbrev Said : Exchange → Dsp → ℕ → Type 0
Said x d ret = (d.chan ≡ true) × (is_success x.sent ≡ true) × (x.reply ≡ some ret)

-- A command is not answered: it cannot be sent, or no answer comes in time.
pub data Unheard (x : Exchange) (d : Dsp) : Rc → Type 0 where
  no_channel : d.chan ≡ false → Unheard x d (failed einval)
  not_sent : is_success x.sent ≡ false → Unheard x d (failed einval)
  no_reply :
      d.chan ≡ true → is_success x.sent ≡ true → x.reply ≡ none → Unheard x d (failed etimedout)

send_cmd_sync_lem :
    (x : Exchange) (d : Dsp)
    → ((ret : ℕ) × (send_cmd_sync x d ≡ (success, ret)) × Said x d ret)
      ⊎ ((rc : Rc) × (send_cmd_sync x d ≡ (rc, 0)) × (is_success rc ≡ false) × Unheard x d rc)
unfolding send_cmd_sync send_cmd
send_cmd_sync_lem x d = elim (Bool-cases d.chan) [
  | inr c ↦ inr (failed einval, rw c refl, refl, no_channel c)
  | inl c ↦ elim (Bool-cases (is_success x.sent)) [
    | inr u ↦ inr (failed einval, rw (c, u) refl, refl, not_sent u)
    | inl u ↦ elim (Option-cases x.reply) [
      | inl n ↦ inr (failed etimedout, rw (c, u, n) refl, refl, no_reply c u n)
      | inr (ret, e) ↦ inl (ret, rw (c, u, e) refl, (c, u, e))
    ]
  ]
]

-- What does not keep a suspension from being tried: it is forced, there is no session of the DSP,
-- or the DSP sleeps already.
abbrev NotBusy : Bool → Suspending → Dsp → Type 0
NotBusy force s d = (force ≡ true) ⊎ (s.session_exists ≡ false) ⊎ (is_suspended d.state ≡ true)

-- The DSP answers EFATAL, 2, to the first command, and is set up again.
abbrev Restarted : Suspending → Dsp → Type 0
Restarted s d = Said s.first d 2 × (is_success (reinit_dsp s.restart d).0 ≡ true)

-- Why the link is given up, and in which state: the DSP is not available, it cannot be set up again,
-- or it fails once more.
pub data Fatal (s : Suspending) (d : Dsp) : Dsp → Type 0 where
  unavailable : Said s.first d 3 → Fatal s d d
  stays_down :
      Said s.first d 2
      → is_success (reinit_dsp s.restart d).0 ≡ false
      → Fatal s d (reinit_dsp s.restart d).1
  fails_again :
      (ret : ℕ)
      → Restarted s d
      → Said s.second (reinit_dsp s.restart d).1 ret
      → (ret ≡ 2) ⊎ (ret ≡ 3)
      → Fatal s d (reinit_dsp s.restart d).1

-- The ways in which a suspension ends, with the code and what it leaves.
pub data SuspendEnd (force : Bool) (s : Suspending) (d : Dsp) : Rc × Dsp → Type 0 where
  busy :
      force ≡ false
      → s.session_exists ≡ true
      → is_suspended d.state ≡ false
      → SuspendEnd force s d (failed ebusy, d)
  idle : NotBusy force s d → is_ready d.state ≡ false → SuspendEnd force s d (success, d)
  unheard :
      (rc : Rc)
      → NotBusy force s d
      → is_ready d.state ≡ true
      → Unheard s.first d rc
      → SuspendEnd force s d (rc, d)
  asleep :
      (ret : ℕ)
      → NotBusy force s d
      → is_ready d.state ≡ true
      → Said s.first d ret
      → ret ≢ 2
      → ret ≢ 3
      → SuspendEnd force s d (success, record d { state = suspended })
  unheard_again :
      (rc : Rc)
      → NotBusy force s d
      → is_ready d.state ≡ true
      → Restarted s d
      → Unheard s.second (reinit_dsp s.restart d).1 rc
      → SuspendEnd force s d (rc, (reinit_dsp s.restart d).1)
  asleep_again :
      (ret : ℕ)
      → NotBusy force s d
      → is_ready d.state ≡ true
      → Restarted s d
      → Said s.second (reinit_dsp s.restart d).1 ret
      → ret ≢ 2
      → ret ≢ 3
      → SuspendEnd force s d (success, record (reinit_dsp s.restart d).1 { state = suspended })
  lost :
      (from to : Dsp)
      → NotBusy force s d
      → is_ready d.state ≡ true
      → Fatal s d from
      → to.state ≡ invalid
      → (is_success s.fatal_scm ≡ true → to.hyp_assigned ≡ false)
      → (is_success s.fatal_scm ≡ false → to.hyp_assigned ≡ from.hyp_assigned)
      → SuspendEnd force s d (failed enotsupp, to)

give_up_lem :
    (scm : Rc) (d : Dsp)
    → ((give_up scm d).state ≡ invalid)
      × (is_success scm ≡ true → (give_up scm d).hyp_assigned ≡ false)
      × (is_success scm ≡ false → (give_up scm d).hyp_assigned ≡ d.hyp_assigned)
unfolding give_up hyp_assign_from_dsp
give_up_lem scm d = ground arith

module _ (force : Bool) (s : Suspending) (d : Dsp) (b : NotBusy force s d)
    (r : is_ready d.state ≡ true) where
  gives_up :
      (from : Dsp)
      → Fatal s d from
      → SuspendEnd force s d (failed enotsupp, give_up s.fatal_scm from)
  gives_up from f =
      let (i, a, k) = give_up_lem s.fatal_scm from in
      lost from (give_up s.fatal_scm from) b r f i a k

  retry_end : Restarted s d → SuspendEnd force s d (retry_suspend s (reinit_dsp s.restart d).1)
  unfolding retry_suspend
  retry_end e =
      let d' = (reinit_dsp s.restart d).1 in
      elim (send_cmd_sync_lem s.second d') [
        | inr (rc, q, u, h) ↦ rw (q, u) (unheard_again rc b r e h)
        | inl (ret, q, a) ↦ elim (Bool-cases (ret == 3 || ret == 2)) [
          | inl f ↦ rw (q, f) (gives_up d' (fails_again ret e a (ground (arith, f))))
          | inr f ↦ rw (q, f) (asleep_again ret b r e a (ground (arith, f)) (ground (arith, f)))
        ]
      ]

  answered_end :
      (ret : ℕ)
      → Said s.first d ret
      → SuspendEnd force s d (
          if ret == 3
          then (failed enotsupp, give_up s.fatal_scm d)
          else if not (ret == 2)
          then (success, record d { state = suspended })
          else if is_success (reinit_dsp s.restart d).0
          then retry_suspend s (reinit_dsp s.restart d).1
          else (failed enotsupp, give_up s.fatal_scm (reinit_dsp s.restart d).1))
  answered_end ret h = elim (Bool-cases (ret == 3)) [
    | inl a ↦
        let three : ret ≡ 3 = ground (arith, a) in
        rw a (gives_up d (unavailable (h.0, h.1, rw three at h.2)))
    | inr a ↦ elim (Bool-cases (ret == 2)) [
      | inr c ↦ rw (a, c) (asleep ret b r h (ground (arith, c)) (ground (arith, a)))
      | inl c ↦
          let two : ret ≡ 2 = ground (arith, c) in
          let h' : Said s.first d 2 = (h.0, h.1, rw two at h.2) in
          elim (Bool-cases (is_success (reinit_dsp s.restart d).0)) [
            | inl e ↦ rw (a, c, e) (retry_end (h', e))
            | inr e ↦ rw (a, c, e) (gives_up (reinit_dsp s.restart d).1 (stays_down h' e))
          ]
    ]
  ]

-- A suspension ends in one of these ways, and each only where it is due. It is refused with -EBUSY,
-- and nothing changes, exactly if it is not forced, there is a session of the DSP and the DSP does
-- not sleep. Else a DSP that is not ready stays as it is, with 0. A ready one is asked: if the
-- command is not sent the code is -EINVAL, if no answer comes it is -ETIMEDOUT, and nothing changes;
-- if it answers neither EUNAVAILABLE nor EFATAL it is suspended, with 0. After EFATAL it is set up
-- again and asked once more. The link is given up, with -ENOTSUPP, exactly if the first answer is
-- EUNAVAILABLE, the DSP cannot be set up again, or its second answer is one of the two; its memory is
-- then taken back, and stays shared where the hypervisor refuses that.
pub suspend_dsp-SuspendEnd :
    (force : Bool) (s : Suspending) (d : Dsp) → SuspendEnd force s d (suspend_dsp force s d)
unfolding suspend_dsp
suspend_dsp-SuspendEnd force s d =
    elim (Bool-cases (not force && s.session_exists && not (is_suspended d.state))) [
      | inl b ↦ rw b (busy (ground (arith, b)) (ground (arith, b)) (ground (arith, b)))
      | inr b ↦
          let free : NotBusy force s d = ground (arith, b) in
          elim (Bool-cases (is_ready d.state)) [
            | inr r ↦ rw (b, r) (idle free r)
            | inl r ↦ elim (send_cmd_sync_lem s.first d) [
              | inr (rc, q, u, h) ↦ rw (b, r, q, u) (unheard rc free r h)
              | inl (ret, q, h) ↦ rw (b, r, q) (answered_end force s d free r ret h)
            ]
          ]
    ]
