-- ===== src/Callbacks/Answered.antt =====
-- Which answers of the firmware reach an instance (msm/eva/msm_cvp_common.c).
use eva_driver.Prelude.{
  ℕ, ◌*◌, ◌<◌, ◌≤◌, ◌≡◌, ◌≢◌, refl, sym, ap, ◌∙◌, true, Option, none, some, List, [], ◌∷◌, ◌++◌,
  append_assoc, append-nil, arith,
}
use eva_driver.Prelude.Lists.{All, length, replicate}
use eva_driver.Responses.{Info, Clients, World, sys_error}
use eva_driver.Queue.{QueueInfo, Peer, huge_pkt_size}
use eva_driver.Iface.Receive.{HoldsMessages, quiet}
use eva_driver.Responses.Drain.{HalSession, response_handler}
use eva_driver.Responses.Drain.Delivered.{collect, response_handler-collects}
use eva_driver.Callbacks.{Waiter, Driver, Given, find_waiter}
use eva_driver.Callbacks.Errors.{handle_cmd_response}
use eva_driver.Callbacks.Thread.{IrqThread, work_handler, after_handler, callbacks}
use eva_driver.Callbacks.Told.{place_for, told_place, places, last_code, Told, Live}
use eva_driver.Callbacks.Kept.{Kept, step-Kept}

told_place-append :
    (o : Option ℕ) (xs ps : List ℕ) → (xs ++ told_place o []) ++ ps ≡ xs ++ told_place o ps
told_place-append none xs ps = ap (λ l. l ++ ps) (append-nil xs)
told_place-append (some n) xs ps = append_assoc xs (n ∷ []) ps

Told-more :
    (d : ℕ) (r : Info) (rs : List Info) (i j k : Waiter)
    → Told d (r ∷ []) i j
    → Told d rs j k
    → Told d (r ∷ rs) i k
unfolding places last_code
Told-more d r rs i j k t u = record {
  completed =
      u.completed
      ∙ ap (λ l. l ++ places d rs) t.completed
      ∙ told_place-append (place_for d r) i.completions (places d rs);
  code = u.code ∙ ap (last_code d rs) t.code;
  same_session = u.same_session ∙ t.same_session;
  same_kref = u.same_kref ∙ t.same_kref;
  same_state = u.same_state ∙ t.same_state;
}

-- Whatever the firmware answers, but for a system error: an instance that the core has, with a session
-- and a reference, gets just the completions of the answers with its address, in their order, each
-- at the place of its kind; its code is that of the last of them; and its session, its references
-- and its state stay.
pub callbacks-Told :
    (w : Given) (d : ℕ) (rs : List Info) (c : Driver) (i : Waiter)
    → All (λ (r : Info). r.response_type ≢ sys_error) rs
    → c.device_valid ≡ true
    → Live d c i
    → (j : Waiter) × (find_waiter d (callbacks w rs c).waiters ≡ some j) × Told d rs i j
unfolding callbacks Kept places last_code
callbacks-Told w d [] c i ok v h = (
  i,
  h.found,
  record {
    completed = sym (append-nil i.completions);
    code = refl;
    same_session = refl;
    same_kref = refl;
    same_state = refl;
  },
)
callbacks-Told w d (r ∷ rs) c i ok v h =
    let (j, f, t, v') =
      step-Kept w d c i r.response_type r.device_id r.session_id r.status r.size ok.0 h in
    let h' : Live d (handle_cmd_response w r c) j = record {
      found = f;
      real = h.real;
      has_session = λ e. h.has_session (sym t.same_session ∙ e);
      referenced = λ e. h.referenced (sym t.same_kref ∙ e);
    } in
    let (k, g, u) = callbacks-Told w d rs (handle_cmd_response w r c) j ok.1 (v' ∙ v) h' in
    (k, ground (arith, v, g), Told-more d r rs i j k t u)

woken :
    (t : IrqThread) (g : Given) (w : World) (sessions : List HalSession) (peers : List Peer)
    (q : QueueInfo) (raw : List ℕ) (clients : Clients) (c : Driver)
    → t.has_callback ≡ true
    → t.powered ≡ true
    → c.device_valid ≡ true
    → work_handler t g w sessions true peers q raw clients c
      ≡ after_handler g c (response_handler w sessions true peers q raw clients)
unfolding work_handler
woken t g w sessions peers q raw clients c has up v = ground (arith, has, up, v)

-- The whole way of an answer, from the message queue to those that wait for it. If the firmware
-- leaves the queue alone while the interrupt thread works, the thread ends. Then an instance that the
-- core has, with a session and a reference, got just the completions of the responses that the
-- packets in the queue become, in their order, and the code of the last of them, provided that no
-- system error is among these; its session, its references and its state are as before.
pub work_handler-Told :
    (t : IrqThread) (g : Given) (w : World) (sessions : List HalSession) (last : ℕ)
    (packets : List (List ℕ)) (n : ℕ) (q : QueueInfo) (raw : List ℕ) (clients : Clients)
    (c : Driver) (d : ℕ) (i : Waiter)
    → length packets < n
    → HoldsMessages q last packets
    → huge_pkt_size ≤ length raw * 4
    → t.has_callback ≡ true
    → t.powered ≡ true
    → c.device_valid ≡ true
    → Live d c i
    → All
        (λ (r : Info). r.response_type ≢ sys_error)
        (collect w sessions packets raw clients []).responses
    → (c' : Driver) × (j : Waiter) × (work_handler t g w sessions true
          (replicate n (quiet last))
          q
          raw
          clients
          c
        ≡ some c')
      × (find_waiter d c'.waiters ≡ some j)
      × Told d (collect w sessions packets raw clients []).responses i j
unfolding after_handler
work_handler-Told t g w sessions last packets n q raw clients c d i m h large has up v live ok =
    let rs = (collect w sessions packets raw clients []).responses in
    let (l, e, same, _, _, _) =
      response_handler-collects w sessions last packets n q raw clients m h large in
    let (j, f, told) = callbacks-Told g d rs c i ok v live in
    (
      callbacks g rs c,
      j,
      woken t g w sessions (replicate n (quiet last)) q raw clients c has up v
          ∙ ap (after_handler g c) e
          ∙ ap (λ l'. some (callbacks g l' c)) same,
      f,
      told,
    )
