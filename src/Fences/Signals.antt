-- ===== src/Fences/Signals.antt =====
-- Which fences the processing of a command signals, and with which states (`cvp_fence_proc` of
-- msm/eva/msm_cvp.c).
use eva_driver.Prelude.{
  ℕ, ◌≡◌, ◌≢◌, refl, ap, ◌∙◌, ◌⊎◌, inl, inr, Bool, true, false, List, [], ◌∷◌, ◌++◌, arith,
  ℕ_discrete,
}
use eva_driver.Prelude.Tests.{◌==◌, if◌then◌else◌, Bool-cases}
use eva_driver.Prelude.Errno.{Rc, success}
use eva_driver.Session.{is_success}
use eva_driver.Fences.{
  FenceCommand, Replies, FenceProcessed, inputs, outputs, fence_exit, receive_msg, fence_proc,
}
use eva_driver.Fences.Synx.{SynxDriver, wait_synx, signal_synx, cancel_synx}

-- The fences among some handles.
unfoldable pub fences : List ℕ → List ℕ
fences [] = []
fences (h ∷ hs) = if h == 0 then fences hs else h ∷ fences hs

unfoldable pub handles : List (ℕ × ℕ) → List ℕ
handles [] = []
handles ((h, state) ∷ ss) = h ∷ handles ss

-- The fences that a command owes to those that wait for it.
abbrev pub owes : FenceCommand → List ℕ
owes f = if f.is_kernel then fences (outputs f) else []

pub handles-append : (xs ys : List (ℕ × ℕ)) → handles (xs ++ ys) ≡ handles xs ++ handles ys
unfolding handles
handles-append [] ys = refl
handles-append ((h, state) ∷ xs) ys = ap (λ l. h ∷ l) (handles-append xs ys)

pub signal_synx-fences :
    (k : SynxDriver) (hs : List ℕ) (state : ℕ) (rc : Rc)
    → handles (signal_synx k hs state rc).1 ≡ fences hs
unfolding signal_synx fences handles
signal_synx-fences k [] state rc = refl
signal_synx-fences k (h ∷ hs) state rc = elim (Bool-cases (h == 0)) [
  | inl e ↦ rw e (signal_synx-fences k hs state rc)
  | inr e ↦ rw e (
      ap (λ l. h ∷ l)
        (signal_synx-fences k hs
          (if is_success (k.synx_signal h state) then state else k.signaled_cancel)
          (k.synx_signal h state)))
]

pub cancel_synx-fences : (hs : List ℕ) (state : ℕ) → handles (cancel_synx hs state) ≡ fences hs
unfolding cancel_synx fences handles
cancel_synx-fences [] state = refl
cancel_synx-fences (h ∷ hs) state = elim (Bool-cases (h == 0)) [
  | inl e ↦ rw e (cancel_synx-fences hs state)
  | inr e ↦ rw e (ap (λ l. h ∷ l) (cancel_synx-fences hs state))
]

-- A wait that succeeds leaves the state that it was given, where that is success; one that fails
-- leaves the other.
pub wait_synx-state :
    (k : SynxDriver) (hs : List ℕ)
    → let w = wait_synx k hs k.signaled_success in
      ((is_success w.0 ≡ true) × (w.1 ≡ k.signaled_success))
      ⊎ ((is_success w.0 ≡ false) × (w.1 ≡ k.signaled_cancel))
unfolding wait_synx
wait_synx-state k [] = inl (refl, refl)
wait_synx-state k (h ∷ hs) = ground (arith, wait_synx-state k hs)

-- What the processing of a kernel command does, in which of its cases: the state that its outputs
-- are signalled with, and whether it was sent, and unmapped.
pub data Verdict (k : SynxDriver) (r : Replies) (f : FenceCommand) : ℕ → Bool → Bool → Type 0 where
  unready :
      is_success (wait_synx k (inputs f) k.signaled_success).0 ≡ false
      → Verdict k r f k.signaled_cancel false true
  unsent :
      is_success (wait_synx k (inputs f) k.signaled_success).0 ≡ true
      → is_success r.session_send ≡ false
      → Verdict k r f k.signaled_cancel false false
  unanswered :
      is_success (wait_synx k (inputs f) k.signaled_success).0 ≡ true
      → is_success r.session_send ≡ true
      → is_success r.message ≡ false
      → Verdict k r f k.signaled_cancel true false
  erred :
      is_success (wait_synx k (inputs f) k.signaled_success).0 ≡ true
      → is_success r.session_send ≡ true
      → is_success r.message ≡ true
      → r.hfi_err ≢ 0
      → r.hfi_err ≢ 0x100b
      → Verdict k r f k.signaled_cancel true false
  answered :
      is_success (wait_synx k (inputs f) k.signaled_success).0 ≡ true
      → is_success r.session_send ≡ true
      → is_success r.message ≡ true
      → (r.hfi_err ≡ 0) ⊎ (r.hfi_err ≡ 0x100b)
      → Verdict k r f k.signaled_success true false

-- What `fence_exit` leaves for a kernel command.
abbrev pub signals : SynxDriver → FenceCommand → ℕ → Bool → Bool → FenceProcessed
signals k f state sent unmapped = record {
  rc = (signal_synx k (outputs f) state success).0;
  sent = sent;
  unmapped = unmapped;
  signaled = (signal_synx k (outputs f) state success).1;
}

abbrev Judged : SynxDriver → Replies → FenceCommand → FenceProcessed → Type 0
Judged k r f out =
    (state : ℕ) × (sent : Bool) × (unmapped : Bool) × Verdict k r f state sent unmapped
    × (out ≡ signals k f state sent unmapped)

fence_exit-kernel :
    (k : SynxDriver) (f : FenceCommand) (rc : Rc) (state : ℕ) (sent unmapped : Bool)
    → f.is_kernel ≡ true
    → fence_exit k f rc state sent unmapped ≡ signals k f state sent unmapped
unfolding fence_exit
fence_exit-kernel k f rc state sent unmapped e = rw e refl

receive_msg-Verdict :
    (k : SynxDriver) (r : Replies) (f : FenceCommand)
    → f.is_kernel ≡ true
    → is_success (wait_synx k (inputs f) k.signaled_success).0 ≡ true
    → is_success r.session_send ≡ true
    → Judged k r f (receive_msg k r f k.signaled_success true)
unfolding receive_msg
receive_msg-Verdict k r f e w s = elim (Bool-cases (is_success r.message)) [
  | inr m ↦ (
    k.signaled_cancel,
    true,
    false,
    unanswered w s m,
    rw m (fence_exit-kernel k f r.message k.signaled_cancel true false e),
  )
  | inl m ↦ elim (ℕ_discrete r.hfi_err 0x100b) [
    | Dec.yes p ↦ (
      k.signaled_success,
      true,
      false,
      answered w s m (inr p),
      rw (m, p) (fence_exit-kernel k f success k.signaled_success true false e),
    )
    | Dec.no n ↦ elim (ℕ_discrete r.hfi_err 0) [
      | Dec.yes p ↦ (
        k.signaled_success,
        true,
        false,
        answered w s m (inl p),
        rw (m, p) (fence_exit-kernel k f success k.signaled_success true false e),
      )
      | Dec.no z ↦ (k.signaled_cancel, true, false, erred w s m z n, ground (arith, e, m, z, n))
    ]
  ]
]

-- Each kernel command ends in one of these ways, and its outputs are signalled with the state of
-- that one: with success only if its inputs were signalled, it was sent, and the firmware answered
-- without an error or with a corrupt stream. The code is that of the signals alone. The buffers are
-- unmapped only where its inputs were not signalled.
pub fence_proc-Verdict :
    (k : SynxDriver) (r : Replies) (f : FenceCommand)
    → f.is_kernel ≡ true
    → (state : ℕ) × (sent : Bool) × (unmapped : Bool) × Verdict k r f state sent unmapped
      × (fence_proc k r f ≡ signals k f state sent unmapped)
unfolding fence_proc receive_msg
fence_proc-Verdict k r f e = elim (wait_synx-state k (inputs f)) [
  | inr (w, t) ↦ (k.signaled_cancel, false, true, unready w, ground (arith, e, w, t))
  | inl (w, t) ↦ elim (Bool-cases (is_success r.session_send)) [
    | inr s ↦ (k.signaled_cancel, false, false, unsent w s, ground (arith, e, w, s))
    | inl s ↦
        let (state, sent, unmapped, v, p) = receive_msg-Verdict k r f e w s in
        let q : fence_proc k r f ≡ receive_msg k r f k.signaled_success true =
          ground (arith, e, w, s, t) in
        (state, sent, unmapped, v, q ∙ p)
  ]
]

-- Whatever happens to a command, the outputs that it owes are signalled, each once and in order.
pub fence_proc-owes :
    (k : SynxDriver) (r : Replies) (f : FenceCommand) → handles (fence_proc k r f).signaled ≡ owes f
unfolding fence_proc receive_msg fence_exit handles
fence_proc-owes k r f = elim (Bool-cases f.is_kernel) [
  | inl e ↦
      let (state, sent, unmapped, v, p) = fence_proc-Verdict k r f e in
      ap (λ (x : FenceProcessed). handles x.signaled) p
      ∙ signal_synx-fences k (outputs f) state success
      ∙ ground (arith, e)
  | inr e ↦ ground (arith, e)
]
