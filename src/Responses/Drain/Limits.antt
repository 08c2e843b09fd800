-- ===== src/Responses/Drain/Limits.antt =====
-- What holds of the responses whatever the firmware writes (msm/eva/cvp_hfi.c).
use eva_driver.Prelude.{
  ℕ, ◌<◌, ◌≡◌, refl, subst, Bool, true, false, inl, inr, ◌⊎◌, Option, none, some, List, [], ◌∷◌,
  arith,
}
use eva_driver.Prelude.Tests.{Bool-cases, Option-cases}
use eva_driver.Prelude.Lists.{length, All, All-append}
use eva_driver.Prelude.Errno.{Errno}
use eva_driver.Session.{is_success}
use eva_driver.Queue.{QueueInfo, Peer}
use eva_driver.Iface.{msgq_read}
use eva_driver.Responses.{Info, Handled, Clients, World, ok, bad}
use eva_driver.Responses.Dispatch.{process_msg_packet}
use eva_driver.Responses.Drain.{
  HalSession, Loop, drained, max_packets, one_packet, keep, ends, drain, response_handler,
  get_session, with_address, is_session, is_no_resp, is_sys_error,
}

-- A response for the callbacks: if it is one of a session, it has the address that the device's list
-- has for some number.
unfoldable pub IsDeliverable : List HalSession → Info → Type 0
IsDeliverable sessions info =
    (is_no_resp info.response_type ≡ false)
    × (is_session info.response_type ≡ true
        → (id : ℕ) × (s : HalSession) × (get_session id sessions ≡ some s)
          × (info.session_id ≡ s.inst))

pub IsCalm : List Info → Type 0
IsCalm responses = All (λ i. is_sys_error i.response_type ≡ false) responses

pub Limited : List HalSession → Loop → Type 0
Limited sessions l =
    (front : List Info) × (last : Option Info) × (l.responses ≡ keep front last)
    × (length front < max_packets)
    × IsCalm front
    × All (IsDeliverable sessions) l.responses

IsCalm-start : IsCalm []
unfolding IsCalm
IsCalm-start = tt

nothing_done :
    (sessions : List HalSession) (q : QueueInfo) (raw : List ℕ) (c : Clients) (l : Loop)
    → ◌≡◌ {A = Loop} (record { queue = q; raw = raw; clients = c; responses = [] }) l
    → Limited sessions l
unfolding Limited keep
nothing_done sessions q raw c l e =
    subst (Limited sessions) e ([], none, refl, omega arith, IsCalm-start, tt)

with_address-IsDeliverable :
    (sessions : List HalSession) (info out : Info)
    → is_no_resp info.response_type ≡ false
    → with_address sessions info ≡ some out
    → IsDeliverable sessions out
unfolding with_address IsDeliverable
with_address-IsDeliverable sessions info out n e =
    elim (Bool-cases (is_session info.response_type)) [
      | inl y ↦ elim (Option-cases (get_session info.session_id sessions)) [
        | inl q ↦ absurd (ground (arith, e, y, q))
        | inr (s, q) ↦
            let t : record info { session_id = s.inst } ≡ out = ground (arith, e, y, q) in
            subst (IsDeliverable sessions) t (n, λ _. (info.session_id, s, q, refl))
      ]
      | inr z ↦
          let t : info ≡ out = ground (arith, e, z) in
          subst (IsDeliverable sessions) t (n, λ y. absurd (ground (arith, y, z)))
    ]

Handled-cases : (r : Handled) → ((info : Info) × (r ≡ ok info)) ⊎ ((e : Errno) × (r ≡ bad e))
Handled-cases (ok info) = inl (info, refl)
Handled-cases (bad e) = inr (e, refl)

one_packet-IsDeliverable :
    (w : World) (sessions : List HalSession) (raw : List ℕ) (c : Clients) (out : Info)
    → (one_packet w sessions raw c).0 ≡ some out
    → IsDeliverable sessions out
unfolding one_packet
one_packet-IsDeliverable w sessions raw c out e =
    elim (Handled-cases (process_msg_packet w 0 raw c).0) [
      | inr (x, q) ↦ absurd (ground (arith, e, q))
      | inl (info, q) ↦ elim (Bool-cases (is_no_resp info.response_type)) [
        | inl y ↦ absurd (ground (arith, e, q, y))
        | inr n ↦ with_address-IsDeliverable sessions info out n (ground (arith, e, q, n))
      ]
    ]

keep-All :
    (P : Info → Type 0) (responses : List Info) (o : Option Info)
    → All P responses
    → ((info : Info) → o ≡ some info → P info)
    → All P (keep responses o)
unfolding keep
keep-All P responses none a new = a
keep-All P responses (some info) a new = All-append P responses (info ∷ []) a (new info refl, tt)

ends-false :
    (responses : List Info) (o : Option Info)
    → ends responses o ≡ false
    → length responses < max_packets
    → IsCalm responses
    → (length (keep responses o) < max_packets) × IsCalm (keep responses o)
unfolding ends keep IsCalm
ends-false responses none e small calm = (small, calm)
ends-false responses (some info) e small calm = (
  ground (arith, e),
  All-append (λ (i : Info). is_sys_error i.response_type ≡ false) responses (info ∷ []) calm
      (ground (arith, e), tt),
)

drain-Limited :
    (w : World) (sessions : List HalSession) (peers : List Peer) (l l' : Loop)
    → length l.responses < max_packets
    → IsCalm l.responses
    → All (IsDeliverable sessions) l.responses
    → drain w sessions peers l ≡ drained l'
    → Limited sessions l'
unfolding drain Limited
drain-Limited w sessions [] l l' small calm all e = absurd (cc)
drain-Limited w sessions (p ∷ ps) l l' small calm all e =
    elim (Option-cases (msgq_read true p l.raw l.queue)) [
      | inl q ↦ absurd (ground (arith, e, q))
      | inr ((rc, rung, queue, raw), q) ↦ elim (Bool-cases (is_success rc)) [
        | inr n ↦
            let t : record l { queue = queue; raw = raw } ≡ l' = ground (arith, e, q, n) in
            subst (Limited sessions) t (l.responses, none, refl, small, calm, all)
        | inl y ↦
            let r = one_packet w sessions raw l.clients in
            let next : Loop = record {
              queue = queue;
              raw = raw;
              clients = r.1;
              responses = keep l.responses r.0;
            } in
            let all' : All (IsDeliverable sessions) next.responses =
              keep-All (IsDeliverable sessions) l.responses r.0 all
                (one_packet-IsDeliverable w sessions raw l.clients) in
            elim (Bool-cases (ends l.responses r.0)) [
              | inl stop ↦
                  let t : next ≡ l' = ground (arith, e, q, y, stop) in
                  subst (Limited sessions) t (l.responses, r.0, refl, small, calm, all')
              | inr more ↦
                  let t : drain w sessions ps next ≡ drained l' = ground (arith, e, q, y, more) in
                  let (small', calm') = ends-false l.responses r.0 more small calm in
                  drain-Limited w sessions ps next l' small' calm' all' t
            ]
      ]
    ]

-- Whatever the firmware writes into the packets and whenever it moves its write index: if the handler
-- ends without an access outside the queue, then it delivers no more responses than the array holds,
-- none of them behind a system error, and each that is a session's has the address of an instance
-- that the device's list of sessions has.
pub response_handler-Limited :
    (w : World) (sessions : List HalSession) (init : Bool) (peers : List Peer) (q : QueueInfo)
    (raw : List ℕ) (c : Clients) (l : Loop)
    → response_handler w sessions init peers q raw c ≡ drained l
    → Limited sessions l
unfolding response_handler
response_handler-Limited w sessions true peers q raw c l e =
    drain-Limited w sessions peers (record { queue = q; raw = raw; clients = c; responses = [] }) l
      (omega arith) IsCalm-start tt e
response_handler-Limited w sessions false peers q raw c l e =
    nothing_done sessions q raw c l (ground (arith, e))
