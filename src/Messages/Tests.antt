-- ===== src/Messages/Tests.antt =====
-- A session's messages, and the theorems about them, at concrete inputs.
use eva_driver.Prelude.{ℕ, ◌+◌, ◌^◌, ◌≡◌, refl, true, some, [], ◌∷◌, ◌++◌, arith}
use eva_driver.Prelude.Errno.{Rc}
use eva_driver.Messages.{
  Message, SessionQueue, Queues, Incoming, msg_pending, find_kdata, wait_pending,
  wait_process_message, after_wait, process_message, process_session_msg, add_message, is_fence,
  Aside,
}
use eva_driver.Messages.Order.{IsCounted, Picks, msg_pending-Picks}
use eva_driver.Messages.Run.{put, get, run, run-fifo, Delivers, process_session_msg_lem}

abbrev message : ℕ → Message
message k = record { kdata = k; body = 16 ∷ k ∷ [] }

abbrev waiting : SessionQueue
waiting = record { state = 2; msg_count = 2; msgs = message 7 ∷ message 600 ∷ [] }

abbrev no_messages : SessionQueue
no_messages = record { state = 2; msg_count = 0; msgs = [] }

abbrev both : Queues
both = record { session_queue = waiting; session_queue_fence = no_messages }

abbrev fence_packet : Incoming
fence_packet = record { size = 64; msg_size = 16; msg = message (2 ^ 63 + 5) }

waiting-IsCounted : IsCounted waiting
waiting-IsCounted = omega arith

no_messages-IsCounted : IsCounted no_messages
no_messages-IsCounted = omega arith

-- The message that is waited for arrives during the wait, and its frame is unmapped.
waited :
    wait_process_message 5 ((λ q. (add_message (message 600) q).1) ∷ []) (some 600) true no_messages
    ≡ record {
      rc = Rc.success;
      out = some (message 600);
      unmapped = some 600;
      aside = Aside.no_call;
      queue = no_messages;
    }
unfolding wait_process_message wait_pending msg_pending find_kdata add_message after_wait
    process_message
waited = refl

msg_pending-Picks_example : Picks (some 600) waiting (msg_pending (some 600) waiting)
msg_pending-Picks_example = msg_pending-Picks (some 600) waiting waiting-IsCounted

run-fifo_example :
    let r = run (get ∷ put (message 1) ∷ get ∷ []) waiting in
    r.received ++ r.queue.msgs ≡ message 7 ∷ message 600 ∷ r.accepted
run-fifo_example =
    run-fifo (get ∷ put (message 1) ∷ get ∷ []) waiting waiting-IsCounted (omega arith)

process_session_msg_lem_example :
    (rc : Rc) × (q : SessionQueue) × Delivers true fence_packet no_messages (rc, q)
    × (process_session_msg true fence_packet (some both)
        ≡ (rc, some (record both { session_queue_fence = q })))
unfolding is_fence
process_session_msg_lem_example =
    process_session_msg_lem true fence_packet both waiting-IsCounted no_messages-IsCounted
