-- ===== src/Responses/Drain/Delivered.antt =====
-- Which responses the loop over the message queue delivers (msm/eva/cvp_hfi.c).
use eva_driver.Prelude.{
  ℕ, zero, suc, ◌*◌, ◌≤◌, ◌<◌, ◌≡◌, refl, sym, ◌∙◌, subst, Bool, true, false, inl, inr, Option,
  some, List, [], ◌∷◌, ◌++◌, arith,
}
use eva_driver.Prelude.Tests.{Bool-cases}
use eva_driver.Prelude.Lists.{length, drop, replicate, length-append, length-drop}
use eva_driver.Prelude.Errno.{success, failed, enodata}
use eva_driver.Queue.{QueueInfo, Peer, huge_pkt_size}
use eva_driver.Iface.{msgq_read}
use eva_driver.Iface.Receive.{HoldsMessages, quiet, msgq_read-refines-pop}
use eva_driver.Responses.{Info, Clients, World}
use eva_driver.Responses.Drain.{
  HalSession, Loop, Drained, drained, one_packet, keep, ends, drain, response_handler,
}

-- What is left of the packets, the buffer, the clients and the responses.
pub record Collected : Type 0 where
  pub rest : List (List ℕ)
  pub buffer : List ℕ
  pub clients : Clients
  pub responses : List Info

-- The loop over a list of packets, each in front of what the buffer held before.
unfoldable pub collect :
    World → List HalSession → List (List ℕ) → List ℕ → Clients → List Info → Collected
collect w sessions [] buffer c responses = record {
  rest = [];
  buffer = buffer;
  clients = c;
  responses = responses;
}
collect w sessions (p ∷ ps) buffer c responses =
    let raw = p ++ drop (length p) buffer in
    let r = one_packet w sessions raw c in
    elim (ends responses r.0) [
      | true ↦ record { rest = ps; buffer = raw; clients = r.1; responses = keep responses r.0 }
      | false ↦ collect w sessions ps raw r.1 (keep responses r.0)
    ]

after : World → List HalSession → Loop → QueueInfo → List ℕ → Loop
after w sessions l q raw = record {
  queue = q;
  raw = raw;
  clients = (one_packet w sessions raw l.clients).1;
  responses = keep l.responses (one_packet w sessions raw l.clients).0;
}

-- How the loop ends, compared with the loop over the packets themselves.
abbrev pub Collects : ℕ → Drained → Collected → Type 0
Collects last out k =
    (l : Loop) × (out ≡ drained l)
    × (l.responses ≡ k.responses)
    × (l.clients ≡ k.clients)
    × (l.raw ≡ k.buffer)
    × HoldsMessages l.queue last k.rest

module _ (w : World) (sessions : List HalSession) (p : Peer) (ps : List Peer) (l : Loop) where
  drain-empty :
      (q : QueueInfo)
      → msgq_read true p l.raw l.queue ≡ some (failed enodata, false, q, l.raw)
      → drain w sessions (p ∷ ps) l ≡ drained (record l { queue = q })
  unfolding drain
  drain-empty q e = ground (arith, e)

  drain-packet :
      (rung : Bool) (q : QueueInfo) (raw : List ℕ)
      → msgq_read true p l.raw l.queue ≡ some (success, rung, q, raw)
      → drain w sessions (p ∷ ps) l
        ≡ elim (ends l.responses (one_packet w sessions raw l.clients).0) [
          | true ↦ drained (after w sessions l q raw)
          | false ↦ drain w sessions ps (after w sessions l q raw)
        ]
  unfolding drain after
  drain-packet rung q raw e = ground (arith, e)

length-overlay :
    (p buffer : List ℕ)
    → length p ≤ length buffer
    → length (p ++ drop (length p) buffer) ≡ length buffer
length-overlay p buffer h =
    omega (arith, length-append p (drop (length p) buffer), length-drop (length p) buffer)

Collects-transport :
    {last : ℕ} {out out' : Drained} {k k' : Collected}
    → out ≡ out'
    → k ≡ k'
    → Collects last out' k'
    → Collects last out k
Collects-transport {last} {k} {k'} e f c =
    subst (λ o. Collects last o k) (sym e) (subst (Collects last _) (sym f) c)

module _ (w : World) (sessions : List HalSession) (p : List ℕ) (ps : List (List ℕ))
    (buffer : List ℕ) (c : Clients) (responses : List Info) where
  abbrev raw_of : List ℕ
  raw_of = p ++ drop (length p) buffer

  abbrev kept : Option Info × Clients
  kept = one_packet w sessions raw_of c

  collect-stop :
      ends responses kept.0 ≡ true
      → collect w sessions (p ∷ ps) buffer c responses
        ≡ record { rest = ps; buffer = raw_of; clients = kept.1; responses = keep responses kept.0 }
  unfolding collect
  collect-stop e = ground (arith, e)

  collect-more :
      ends responses kept.0 ≡ false
      → collect w sessions (p ∷ ps) buffer c responses
        ≡ collect w sessions ps raw_of kept.1 (keep responses kept.0)
  unfolding collect
  collect-more e = ground (arith, e)

drain-collects :
    (w : World) (sessions : List HalSession) (last : ℕ) (packets : List (List ℕ)) (n : ℕ) (l : Loop)
    → length packets < n
    → HoldsMessages l.queue last packets
    → huge_pkt_size ≤ length l.raw * 4
    → Collects last
        (drain w sessions (replicate n (quiet last)) l)
        (collect w sessions packets l.raw l.clients l.responses)
unfolding collect after
drain-collects w sessions last packets zero l m h large = absurd (omega (arith, m))
drain-collects w sessions last [] (suc n) l m h large =
    let (q', e, h') = msgq_read-refines-pop l.queue last l.raw [] h large in
    (_, drain-empty w sessions (quiet last) (replicate n (quiet last)) l q' e, refl, refl, refl, h')
drain-collects w sessions last (p ∷ ps) (suc n) l m h large =
    let (q', rung, e, h') = msgq_read-refines-pop l.queue last l.raw (p ∷ ps) h large in
    let raw : List ℕ = p ++ drop (length p) l.raw in
    let d = drain-packet w sessions (quiet last) (replicate n (quiet last)) l rung q' raw e in
    let size : length raw ≡ length l.raw =
      length-overlay p l.raw (omega (arith, h.held.all_packets.0.limited, large)) in
    elim (Bool-cases (ends l.responses (one_packet w sessions raw l.clients).0)) [
      | inl stop ↦
          let d' : drain w sessions (replicate (suc n) (quiet last)) l
              ≡ drained (after w sessions l q' raw) =
            d ∙ ground (arith, stop) in
          Collects-transport d' (collect-stop w sessions p ps l.raw l.clients l.responses stop)
            (after w sessions l q' raw, refl, refl, refl, refl, h')
      | inr more ↦
          let d' : drain w sessions (replicate (suc n) (quiet last)) l
              ≡ drain w sessions (replicate n (quiet last)) (after w sessions l q' raw) =
            d ∙ ground (arith, more) in
          Collects-transport d' (collect-more w sessions p ps l.raw l.clients l.responses more) (
            drain-collects w sessions last ps n (after w sessions l q' raw) (omega (arith, m)) h'
              (omega (arith, size, large)))
    ]

-- If the firmware leaves the message queue alone while the driver works, then the handler ends within
-- one round more than the queue holds packets, and it has dealt with exactly the packets that a loop
-- over that list deals with, in their order and each once, up to a system error or a full array: the
-- responses, the instances and the buffer are those of that loop, and the packets that it leaves are
-- those that are left in the queue, which is in order.
pub response_handler-collects :
    (w : World) (sessions : List HalSession) (last : ℕ) (packets : List (List ℕ)) (n : ℕ)
    (q : QueueInfo) (raw : List ℕ) (c : Clients)
    → length packets < n
    → HoldsMessages q last packets
    → huge_pkt_size ≤ length raw * 4
    → Collects last
        (response_handler w sessions true (replicate n (quiet last)) q raw c)
        (collect w sessions packets raw c [])
unfolding response_handler
response_handler-collects w sessions last packets n q raw c m h large =
    drain-collects w sessions last packets n
      (record { queue = q; raw = raw; clients = c; responses = [] }) m h large
