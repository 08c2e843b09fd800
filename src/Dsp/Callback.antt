-- ===== src/Dsp/Callback.antt =====
-- The messages of the DSP (msm/eva/msm_cvp_dsp.c): `cvp_dsp_rpmsg_callback`, and what it does to a
-- sequence of messages. The sizes of the structures are arguments.
use eva_driver.Prelude.{
  ℕ, ◌≤◌, ◌<◌, ◌≡◌, ◌≢◌, ◌↔◌, ◌⊎◌, refl, subst, sym, ap, ◌∙◌, not, ◌&&◌, ◌||◌, Option, none, some,
  List, [], ◌∷◌, arith,
}
use eva_driver.Prelude.Tests.{ltb, ◌==◌, if◌then◌else◌}
use eva_driver.Prelude.Lists.{All}

abbrev pub invalid_rpmsg_type : ℕ
invalid_rpmsg_type = 0xBADDFACE

abbrev pub max_cmd : ℕ
max_cmd = 8

-- The sizes of `struct cvp_dsp_rsp_msg`, `cvp_dsp_cmd_header`, `cvp_dsp2cpu_cmd` and
-- `cvp_dsp2cpu_cmd_v2`.
pub record Sizes : Type 0 where
  pub rsp : ℕ
  pub header : ℕ
  pub cmd : ℕ
  pub cmd_v2 : ℕ

-- A message and its length. An answer has the code and the state, a command its version, and both
-- have what else they carry.
pub record RpmsgMessage : Type 0 where
  pub type : ℕ
  pub len : ℕ
  pub ret : ℕ
  pub dsp_state : ℕ
  pub ver : ℕ
  pub payload : ℕ

-- What waits for the thread or for an answer: `pending_dsp2cpu_cmd_header`, the two commands, and
-- `pending_dsp2cpu_rsp`.
pub record Pending : Type 0 where
  pub header_type : ℕ
  pub header_ver : ℕ
  pub cmd : ℕ
  pub cmd_v2 : ℕ
  pub rsp_type : ℕ
  pub rsp_ret : ℕ
  pub rsp_state : ℕ

-- `cvp_dsp_rpmsg_callback`: what waits then, and the completion that is signalled; that with the
-- number 8 wakes the thread.
pub rpmsg_callback : Sizes → RpmsgMessage → Pending → Pending × Option ℕ
rpmsg_callback z m p =
    if ltb m.type max_cmd && m.len == z.rsp
    then (if p.rsp_type == m.type
        then (record p { rsp_ret = m.ret; rsp_state = m.dsp_state }, some m.type)
        else (p, none))
    else if not (ltb m.type 26 && (m.len == z.cmd || m.len == z.cmd_v2))
    then (p, none)
    else if ltb m.len z.header || not (p.header_type == invalid_rpmsg_type)
    then (p, none)
    else let p' = record p { header_type = m.type; header_ver = m.ver } in
      if m.ver == 0 && m.len == z.cmd
      then (record p' { cmd = m.payload }, some max_cmd)
      else if m.ver == 1 && m.len == z.cmd_v2
      then (record p' { cmd_v2 = m.payload }, some max_cmd)
      else (p', none)

-- The thread is done with a command.
pub command_done : Pending → Pending
command_done p = record p { header_type = invalid_rpmsg_type }

-- The messages that come while the thread has nothing to do, and the completions that are signalled.
pub receive : Sizes → List RpmsgMessage → Pending → Pending × List ℕ
receive z [] p = (p, [])
receive z (m ∷ ms) p =
    let (p', c) = rpmsg_callback z m p in
    let (p'', cs) = receive z ms p' in (p'', elim c [ none ↦ cs | some i ↦ i ∷ cs ])

-- A command of the DSP in one of the two forms, which is no answer.
abbrev pub IsCommand : Sizes → RpmsgMessage → Type 0
IsCommand z m =
    (m.type < 26)
    × (m.type < max_cmd → m.len ≢ z.rsp)
    × (z.header ≤ m.len)
    × (((m.ver ≡ 0) × (m.len ≡ z.cmd)) ⊎ ((m.ver ≡ 1) × (m.len ≡ z.cmd_v2)))

-- The thread is woken exactly by a command that has the version of its length, while none waits.
pub rpmsg_callback_lem :
    (z : Sizes) (m : RpmsgMessage) (p : Pending)
    → ((rpmsg_callback z m p).1 ≡ some max_cmd)
      ↔ (IsCommand z m × (p.header_type ≡ invalid_rpmsg_type))
unfolding rpmsg_callback
rpmsg_callback_lem z m p = ground arith

-- A command that waits stays, and the messages that follow wake nobody.
waiting :
    (z : Sizes) (m : RpmsgMessage) (p : Pending)
    → p.header_type ≢ invalid_rpmsg_type
    → ((rpmsg_callback z m p).1 ≢ some max_cmd)
      × ((rpmsg_callback z m p).0.header_type ≡ p.header_type)
unfolding rpmsg_callback
waiting z m p w = ground (arith, w)

not_woken :
    (z : Sizes) (ms : List RpmsgMessage) (p : Pending)
    → p.header_type ≢ invalid_rpmsg_type
    → All (λ i. i ≢ max_cmd) (receive z ms p).1
unfolding receive
not_woken z [] p w = tt
not_woken z (m ∷ ms) p w =
    let (a, same) = waiting z m p w in
    let rest = not_woken z ms (rpmsg_callback z m p).0 (λ e. w (sym same ∙ e)) in
    woken_next (rpmsg_callback z m p).1 _ a rest
  where
    woken_next :
        (c : Option ℕ) (cs : List ℕ)
        → c ≢ some max_cmd
        → All (λ i. i ≢ max_cmd) cs
        → All (λ i. i ≢ max_cmd) (elim c [ none ↦ cs | some i ↦ i ∷ cs ])
    woken_next none cs a rest = rest
    woken_next (some i) cs a rest = ((λ e. a (ap some e)), rest)

mistaken :
    (z : Sizes) (m : RpmsgMessage) (p : Pending)
    → p.header_type ≡ invalid_rpmsg_type
    → m.type < 26
    → (m.type < max_cmd → m.len ≢ z.rsp)
    → z.header ≤ m.len
    → (m.len ≡ z.cmd) ⊎ (m.len ≡ z.cmd_v2)
    → m.ver ≢ 0
    → m.ver ≢ 1
    → rpmsg_callback z m p ≡ (record p { header_type = m.type; header_ver = m.ver }, none)
unfolding rpmsg_callback
mistaken z m p free known no_answer whole long v0 v1 =
    ground (arith, free, known, no_answer, whole, long, v0, v1)

-- A command with the length of one form and the version of neither is taken for one that waits, but
-- the thread is not woken for it: no message that follows wakes the thread either.
pub receive-blocks :
    (z : Sizes) (m : RpmsgMessage) (ms : List RpmsgMessage) (p : Pending)
    → p.header_type ≡ invalid_rpmsg_type
    → m.type < 26
    → (m.type < max_cmd → m.len ≢ z.rsp)
    → z.header ≤ m.len
    → (m.len ≡ z.cmd) ⊎ (m.len ≡ z.cmd_v2)
    → m.ver ≢ 0
    → m.ver ≢ 1
    → All (λ i. i ≢ max_cmd) (receive z (m ∷ ms) p).1
unfolding receive
receive-blocks z m ms p free known no_answer whole long v0 v1 =
    let e = mistaken z m p free known no_answer whole long v0 v1 in
    let p' = record p { header_type = m.type; header_ver = m.ver } in
    subst (λ cs. All (λ i. i ≢ max_cmd) cs) (sym (unheard z m ms p e))
      (not_woken z ms p' (λ q. absurd (omega (arith, q, known))))
  where
    unheard :
        (z : Sizes) (m : RpmsgMessage) (ms : List RpmsgMessage) (p : Pending) {p' : Pending}
        → rpmsg_callback z m p ≡ (p', none)
        → (receive z (m ∷ ms) p).1 ≡ (receive z ms p').1
    unheard z m ms p e = simp (receive, e) refl
