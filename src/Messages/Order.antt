-- ===== src/Messages/Order.antt =====
-- Which message a client gets, which are left, and what the queues' counters say.
use eva_driver.Prelude.{
  ℕ, suc, ◌≤◌, ◌≡◌, ◌≢◌, refl, sym, ap, ◌∙◌, ◌-◌, ◌||◌, ◌⊎◌, inl, inr, Bool, true, false, Option,
  none, some, List, [], ◌∷◌, ◌++◌, arith,
}
use eva_driver.Prelude.Tests.{◌==◌, Bool-cases, Option-cases}
use eva_driver.Prelude.Lists.{length, All, length-append}
use eva_driver.Prelude.Words.{sub32}
use eva_driver.Messages.{
  Message, SessionQueue, Queues, Incoming, find_kdata, without, msg_pending, wait_pending,
  process_message, after_wait, wait_process_message, add_message, process_session_msg,
  max_num_msgs_per_session,
}

-- The counter is the number of messages, and no more than the limit.
pub record IsCounted (q : SessionQueue) : Type 0 where
  pub counted : q.msg_count ≡ length q.msgs
  pub limited : q.msg_count ≤ max_num_msgs_per_session

-- `m` is the first message of the list with that `kdata`, and `rest` is the list without it.
pub record IsFirst (k : ℕ) (ms : List Message) (m : Message) (rest : List Message) : Type 0 where
  pub kdata : m.kdata ≡ k
  pub before : List Message
  pub behind : List Message
  pub whole : ms ≡ before ++ (m ∷ behind)
  pub left : rest ≡ before ++ behind
  pub others : All (λ x. x.kdata ≢ k) before

find_kdata-IsFirst :
    (k : ℕ) (ms : List Message) {m : Message} {rest : List Message}
    → find_kdata k ms ≡ some (m, rest)
    → IsFirst k ms m rest
unfolding find_kdata
find_kdata-IsFirst k [] e = absurd (cc)
find_kdata-IsFirst k (x ∷ xs) {m} {rest} e = elim (Bool-cases (k == x.kdata)) [
  | inl here ↦
      let t : (x ≡ m) × (xs ≡ rest) = ground arith in
      record {
        kdata = ground arith;
        before = [];
        behind = xs;
        whole = ap (λ y. y ∷ xs) t.0;
        left = sym t.1;
        others = tt;
      }
  | inr further ↦ elim (Option-cases (find_kdata k xs)) [
    | inl q ↦ absurd (ground arith)
    | inr ((m', rest'), q) ↦
        let i = find_kdata-IsFirst k xs q in
        let t : (m' ≡ m) × (x ∷ rest' ≡ rest) = ground arith in
        record {
          kdata = ap (λ (y : Message). y.kdata) (sym t.0) ∙ i.kdata;
          before = x ∷ i.before;
          behind = i.behind;
          whole = rw (← t.0) (ap (λ l. x ∷ l) i.whole);
          left = sym t.1 ∙ ap (λ l. x ∷ l) i.left;
          others = (ground arith, i.others);
        }
  ]
]

find_kdata-none : (k : ℕ) (ms : List Message) → find_kdata k ms ≡ none → All (λ x. x.kdata ≢ k) ms
unfolding find_kdata
find_kdata-none k [] e = tt
find_kdata-none k (x ∷ xs) e = elim (Option-cases (find_kdata k xs)) [
  | inl q ↦ (ground arith, find_kdata-none k xs q)
  | inr ((m, rest), q) ↦ absurd (ground arith)
]

pub add_message-IsCounted :
    (m : Message) (q : SessionQueue) → IsCounted q → IsCounted (add_message m q).1
unfolding add_message
add_message-IsCounted m q c = ground (arith, c.counted, c.limited, length-append q.msgs (m ∷ []))

first-length :
    {k : ℕ} {ms : List Message} {m : Message} {rest : List Message}
    → IsFirst k ms m rest
    → length ms ≡ suc (length rest)
first-length {m} i = omega (
  arith,
  ap length i.whole,
  ap length i.left,
  length-append i.before (m ∷ i.behind),
  length-append i.before i.behind,
)

-- The queue takes part: the session is neither new nor being deleted.
abbrev pub IsOpen : SessionQueue → Type 0
IsOpen q = (q.state ≢ 0) × (q.state ≢ 4)

-- `q` after one of its messages was taken.
abbrev pub taken : SessionQueue → List Message → SessionQueue
taken q rest = record q { msgs = rest; msg_count = q.msg_count - 1 }

-- What a test of the wait's condition finds: the queue is closed, and the wait ends with no message;
-- no message fits, and the wait goes on; or the oldest message is taken, or the oldest with the
-- `kdata` that is waited for.
pub data Picks (ktid : Option ℕ) (q : SessionQueue) (out : Bool × Option Message × SessionQueue)
    : Type 0 where
  closed : (q.state ≡ 0) ⊎ (q.state ≡ 4) → out ≡ (true, none, q) → Picks ktid q out
  empty : IsOpen q → q.msgs ≡ [] → out ≡ (false, none, q) → Picks ktid q out
  unmatched :
      (k : ℕ)
      → IsOpen q
      → ktid ≡ some k
      → All (λ x. x.kdata ≢ k) q.msgs
      → out ≡ (false, none, q)
      → Picks ktid q out
  oldest :
      (m : Message) (rest : List Message)
      → IsOpen q
      → ktid ≡ none
      → q.msgs ≡ m ∷ rest
      → out ≡ (true, some m, taken q rest)
      → Picks ktid q out
  matched :
      (k : ℕ) (m : Message) (rest : List Message)
      → IsOpen q
      → ktid ≡ some k
      → IsFirst k q.msgs m rest
      → out ≡ (true, some m, taken q rest)
      → Picks ktid q out

without-taken :
    (q : SessionQueue) (m : Message) (rest ms : List Message)
    → IsCounted q
    → q.msgs ≡ m ∷ ms
    → without q rest ≡ taken q rest
without-taken q m rest ms c e =
    let l : length q.msgs ≡ suc (length ms) = ap length e in
    let n : sub32 q.msg_count 1 ≡ q.msg_count - 1 = omega (arith, c.counted, c.limited) in
    λ i. record q { msgs = rest; msg_count = n i }

open-Picks :
    (ktid : Option ℕ) (q : SessionQueue) (ms : List Message)
    → IsCounted q
    → IsOpen q
    → q.msgs ≡ ms
    → Picks ktid q (msg_pending ktid q)
unfolding msg_pending
open-Picks ktid q [] c o e = empty o e (ground (arith, e))
open-Picks none q (m ∷ rest) c o e =
    oldest m rest o refl e (ground (arith, e, without-taken q m rest rest c e))
open-Picks (some k) q (m ∷ ms) c o e = elim (Option-cases (find_kdata k (m ∷ ms))) [
  | inl none_found ↦
      unmatched k o refl (rw e (find_kdata-none k (m ∷ ms) none_found))
        (ground (arith, e, none_found))
  | inr ((found, rest), q') ↦
      matched k found rest o refl (rw e (find_kdata-IsFirst k (m ∷ ms) q'))
        (ground (arith, e, q', without-taken q m rest ms c e))
]

-- A test of the wait's condition takes the oldest message, or the oldest one with the `kdata` that
-- is waited for, and leaves the others in their order; on a queue that is closed it ends the wait.
pub msg_pending-Picks :
    (ktid : Option ℕ) (q : SessionQueue) → IsCounted q → Picks ktid q (msg_pending ktid q)
unfolding msg_pending
msg_pending-Picks ktid q c = elim (Bool-cases (q.state == 0 || q.state == 4)) [
  | inl shut ↦ closed (ground arith) (ground arith)
  | inr ready ↦ open-Picks ktid q q.msgs c (ground arith) refl
]

pub Picks-IsCounted :
    {ktid : Option ℕ} {q : SessionQueue} {out : Bool × Option Message × SessionQueue}
    → IsCounted q
    → Picks ktid q out
    → IsCounted out.2
Picks-IsCounted c (closed s e) = rw e c
Picks-IsCounted c (empty o n e) = rw e c
Picks-IsCounted c (unmatched k o t n e) = rw e c
Picks-IsCounted c (oldest m rest o t w e) =
    rw e (record {
      counted = omega (arith, ap length w, c.counted);
      limited = omega (arith, c.limited);
    })
Picks-IsCounted c (matched k m rest o t i e) = rw e (record {
  counted = omega (arith, first-length i, c.counted);
  limited = omega (arith, c.limited);
})

-- What other threads do to a queue keeps its counter right.
abbrev pub Counting : (SessionQueue → SessionQueue) → Type 0
Counting f = (q : SessionQueue) → IsCounted q → IsCounted (f q)

wait_pending-IsCounted :
    (others : List (SessionQueue → SessionQueue)) (ktid : Option ℕ) (q : SessionQueue)
    → All Counting others
    → IsCounted q
    → IsCounted (wait_pending others ktid q).1
unfolding wait_pending
wait_pending-IsCounted [] ktid q h c =
    ground (arith, Picks-IsCounted c (msg_pending-Picks ktid q c))
wait_pending-IsCounted (other ∷ others) ktid q h c =
    let d = Picks-IsCounted c (msg_pending-Picks ktid q c) in
    ground (
      arith,
      d,
      wait_pending-IsCounted others ktid (other (msg_pending ktid q).2) h.1
          (h.0 (msg_pending ktid q).2 d),
    )

-- A wait for a message leaves the queue's counter equal to the number of its messages and within
-- the limit, if that holds before and all that other threads do meanwhile keeps it.
pub wait_process_message-IsCounted :
    (inst_state : ℕ) (others : List (SessionQueue → SessionQueue)) (ktid : Option ℕ) (wanted : Bool)
    (q : SessionQueue)
    → All Counting others
    → IsCounted q
    → IsCounted (wait_process_message inst_state others ktid wanted q).queue
unfolding wait_process_message after_wait process_message
wait_process_message-IsCounted inst_state others ktid wanted q h c =
    ground (arith, wait_pending-IsCounted others ktid q h c)

-- Both queues of a session.
abbrev pub BothCounted : Option Queues → Type 0
BothCounted none = Unit
BothCounted (some qs) = IsCounted qs.session_queue × IsCounted qs.session_queue_fence

-- A packet from the firmware, whatever is wrong with it, leaves both queues' counters equal to the
-- number of their messages and within the limit of 128.
pub process_session_msg-IsCounted :
    (memory : Bool) (p : Incoming) (inst : Option Queues)
    → BothCounted inst
    → BothCounted (process_session_msg memory p inst).1
unfolding process_session_msg
process_session_msg-IsCounted memory p none b = ground arith
process_session_msg-IsCounted memory p (some qs) b = ground (
  arith,
  b,
  add_message-IsCounted p.msg qs.session_queue b.0,
  add_message-IsCounted p.msg qs.session_queue_fence b.1,
)
