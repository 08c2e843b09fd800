-- ===== src/Packets/Sent.antt =====
-- What the commands of the device layer (msm/eva/cvp_hfi.c) put into the command queue.
use eva_driver.Prelude.{
  ℕ, ◌/◌, ◌+◌, ◌<◌, ◌≤◌, ◌≡◌, refl, ap, ◌||◌, ◌%◌, ◌^◌, Bool, true, false, Option, none, some, List,
  [], ◌∷◌, ◌++◌, arith, inl, inr,
}
use eva_driver.Prelude.Tests.{◌==◌, leb, Bool-cases}
use eva_driver.Prelude.Lists.{length, get_or, set, replicate}
use eva_driver.Prelude.Errno.{Rc, success, failed, einval, enotempty}
use eva_driver.Queue.{QueueHeader}
use eva_driver.Queue.Fifo
use eva_driver.Iface.{Device, cmdq_write}
use eva_driver.Iface.Send.{HoldsCommands, Sends, cmdq_write-refines-push}
use eva_driver.Packets
use eva_driver.Packets.{Made, make, fill, stores}
use eva_driver.Packets.Session
use eva_driver.Packets.Resource
use eva_driver.Packets.Send.{
  send_made, write_made, submit, write_code, code_dropped, sys_set_debug, sys_set_idle_indicator,
  sys_set_coverage, sys_set_power_control, set_ubwc_config, send_sys_init, send_image_version,
  send_prepare_pc, core_trigger_ssr, core_release_resource,
}
use eva_driver.Packets.Send.Sessions.{
  with_kdata, on_device, send_session_cmd, send_session_cmd_ktid, session_set_buffers,
  session_release_buffers, send_session_init, code_invalid,
}
use eva_driver.Queue.Packets.{IsPacket}
use eva_driver.Packets.Layout.{
  Command, debug, idle_indicator, coverage, power_control, ubwc, sys_init, pc_prep, image_version,
  ssr, session_cmd, session_cmd_ktid, set_buffers, release_buffers, start_session, release_cache,
  Fits, layout, spread,
}

-- The command, if memory is granted, the session is one of the device's, and the device has power.
unfoldable pub issue : Command → Device → Option (Rc × Bool × Device)
issue (debug m d) = sys_set_debug true m d success
issue (idle_indicator e) = sys_set_idle_indicator true e success
issue (coverage m) = sys_set_coverage true m success
issue (power_control e) = sys_set_power_control true true e success
issue (ubwc u) = set_ubwc_config (some u) true success
issue (sys_init stack) = send_sys_init stack success
issue (pc_prep stack) = send_prepare_pc stack success
issue image_version = send_image_version true success
issue (ssr t stack) = core_trigger_ssr true t stack success
issue (session_cmd t i stack) = send_session_cmd true t (some i) stack success
issue (session_cmd_ktid t k i stack) =
    send_session_cmd_ktid true t k (on_device (some i)) stack success
issue (set_buffers k iova size i stack) =
    session_set_buffers true true k iova size (on_device (some i)) stack success
issue (release_buffers k i stack) =
    session_release_buffers true true k (on_device (some i)) stack success
issue (start_session i stack) = send_session_init (some i) stack success
issue (release_cache hash32_ptr hdr stack) = core_release_resource hash32_ptr hdr stack success

-- The code where the packet does not fit into the queue: two of the commands drop it, and one has a
-- code of its own.
unfoldable pub refusal : Command → Rc
refusal (coverage m) = success
refusal image_version = success
refusal (start_session i stack) = failed einval
refusal c = failed enotempty

-- What a command must return and leave, given the FIFO after it, if that took the packet.
unfoldable pub Answers :
    Rc → QueueHeader → List (List ℕ) → Option (Rc × Bool × Device) → Option (List (List ℕ)) → Type 0
Answers code h packets out none =
    (dev' : Device) × (out ≡ some (code, false, dev'))
    × HoldsCommands dev' (record h { tx_req = 1 }) packets
Answers code h packets out (some packets') =
    (dev' : Device) × (h' : QueueHeader) × (out ≡ some (success, h.rx_req == 1, dev'))
    × HoldsCommands dev' h' packets'

-- What becomes of the code of the write.
finish : Command → Option (Rc × Bool × Device) → Option (Rc × Bool × Device)
finish (coverage m) out = code_dropped (write_code out)
finish image_version out = code_dropped (write_code out)
finish (start_session i stack) out = code_invalid (write_code out)
finish c out = write_code out

pub write_code-Answers :
    (h : QueueHeader) (packets : List (List ℕ)) (out : Option (Rc × Bool × Device))
    (pushed : Option (List (List ℕ)))
    → Sends h packets out pushed
    → Answers (failed enotempty) h packets (write_code out) pushed
unfolding Answers Sends
write_code-Answers h packets out none (dev', e, held) = (dev', rw e, held)
write_code-Answers h packets out (some ps) (dev', h', e, held, r) = (dev', h', rw e, held)

finish-Answers :
    (c : Command) (h : QueueHeader) (packets : List (List ℕ)) (out : Option (Rc × Bool × Device))
    (pushed : Option (List (List ℕ)))
    → Sends h packets out pushed
    → Answers (refusal c) h packets (finish c out) pushed
unfolding finish refusal Answers Sends
finish-Answers (coverage m) h packets out none (dev', e, held) = (dev', rw e, held)
finish-Answers image_version h packets out none (dev', e, held) = (dev', rw e, held)
finish-Answers (start_session i stack) h packets out none (dev', e, held) = (dev', rw e, held)
finish-Answers (start_session i stack) h packets out (some ps) (dev', h', e, held, r) =
    (dev', h', rw e, held)
finish-Answers (coverage m) h packets out (some ps) (dev', h', e, held, r) = (dev', h', rw e, held)
finish-Answers image_version h packets out (some ps) (dev', h', e, held, r) = (dev', h', rw e, held)
finish-Answers c h packets out pushed s = write_code-Answers h packets out pushed s

-- A packet that is made is written, and nothing else is done.
pub send-made :
    (on_fail : Rc → Rc) (made : Option Made) (packet : List ℕ) (dev : Device)
    → made ≡ some (record { rc = success; pkt = some packet })
    → send_made on_fail success made dev ≡ write_code (cmdq_write success packet dev)
send-made on_fail made packet dev e = rw e (unfold send_made submit in refl)

write-made :
    (made : Option Made) (packet : List ℕ) (dev : Device)
    → made ≡ some (record { rc = success; pkt = some packet })
    → write_made success made dev ≡ write_code (cmdq_write success packet dev)
write-made made packet dev e = rw e (unfold write_made submit in refl)

ubwc_made :
    (u : Packets.UbwcConfig)
    → Packets.sys_ubwc_config u (some (replicate 14 0))
      ≡ some (record { rc = success; pkt = some (layout (ubwc u)) })
unfolding Packets.sys_ubwc_config layout fill stores
ubwc_made u =
    let z : 0 + u.override_bit_info % 32 ≡ u.override_bit_info % 32 = omega arith in
    ap (λ w. some (record { rc = success; pkt = some (set (layout (ubwc u)) 6 w) })) z

abbrev release_fields : (ℕ → ℕ) → Resource.ResourceHdr → List (ℕ × ℕ)
release_fields hash32_ptr hdr =
    Resource.release_resource_fields hash32_ptr hdr ++ ((2, Packets.resource_syscache) ∷ [])

module _ (dev : Device) where
  -- What is written is the packet of the command, and nothing else is done.
  issue_lem : (c : Command) → Fits c → issue c dev ≡ finish c (cmdq_write success (layout c) dev)
  unfolding issue layout Fits finish send_prepare_pc sys_set_debug sys_set_coverage
      sys_set_idle_indicator sys_set_power_control set_ubwc_config Packets.sys_ubwc_config
      send_sys_init send_image_version core_trigger_ssr send_session_cmd send_session_cmd_ktid
      session_set_buffers session_release_buffers with_kdata fill stores send_session_init
      core_release_resource Resource.sys_release_resource
  issue_lem (debug m d) f = elim (Bool-cases (leb m 3)) [
    | inl z ↦ rw z (send-made _ _ _ dev refl)
    | inr z ↦ rw z (send-made _ _ _ dev refl)
  ]
  issue_lem (idle_indicator e) f = write-made _ _ dev refl
  issue_lem (power_control e) f = write-made _ _ dev refl
  issue_lem (coverage m) f = ap code_dropped (send-made _ _ _ dev refl)
  issue_lem image_version f = ap code_dropped (send-made _ _ _ dev refl)
  issue_lem (ubwc u) f = send-made _ _ _ dev (ubwc_made u)
  issue_lem (sys_init stack) f =
      send-made _ _ _ dev (ap (fill success (Packets.sys_init_fields 0)) (spread 3 stack f))
  issue_lem (pc_prep stack) f =
      send-made _ _ _ dev (ap (fill success Packets.sys_pc_prep_fields) (spread 2 stack f))
  issue_lem (ssr t stack) f =
      send-made _ _ _ dev (ap (fill success (Packets.ssr_cmd_fields t)) (spread 3 stack f))
  issue_lem (session_cmd t i stack) f =
      send-made _ _ _ dev (ap (fill success (Session.session_cmd_fields t i)) (spread 3 stack f))
  issue_lem (session_cmd_ktid t k i stack) f =
      send-made _ _ _ dev
        (ap (fill success (Session.session_cmd_ktid_fields t k i)) (spread 11 stack f))
  issue_lem (set_buffers k iova size i stack) (f, a, b) =
      let z : (iova == 0 || size == 0) ≡ false = ground arith in
      rw z (
        send-made _ _ _ dev (
          ap
            (λ s.
              fill success (Session.session_set_buffers_fields iova size i)
                (with_kdata (k % 2 ^ 63) s))
            (spread 21 stack f)))
  issue_lem (release_buffers k i stack) f = send-made _ _ _ dev (
      ap (λ s. fill success (Session.session_release_buffers_fields i) (with_kdata (k % 2 ^ 63) s))
        (spread 14 stack f))
  issue_lem (start_session i stack) f =
      ap code_invalid
        (send-made _ _ _ dev (ap (fill success (Session.session_init_fields i)) (spread 8 stack f)))
  issue_lem (release_cache hash32_ptr hdr stack) (f, e) =
      let z : (hdr.resource_id == 1) ≡ true = ground (arith, e) in
      send-made _ _ _ dev
        (rw z (ap (fill success (release_fields hash32_ptr hdr)) (spread 5 stack f)))

short-IsPacket :
    {n : ℕ} {xs : List ℕ}
    → (get_or xs 0 0 / 4 ≡ length xs)
    → length xs ≡ n
    → 0 < n
    → n < 100
    → IsPacket xs
short-IsPacket e l a b = record {
  sized = e;
  nonempty = omega (arith, l, a);
  limited = omega (arith, l, b);
}

layout-IsPacket : (c : Command) → IsPacket (layout c)
unfolding layout
layout-IsPacket (debug m d) = short-IsPacket refl refl (omega arith) (omega arith)
layout-IsPacket (idle_indicator e) = short-IsPacket refl refl (omega arith) (omega arith)
layout-IsPacket (coverage m) = short-IsPacket refl refl (omega arith) (omega arith)
layout-IsPacket (power_control e) = short-IsPacket refl refl (omega arith) (omega arith)
layout-IsPacket (ubwc u) = short-IsPacket refl refl (omega arith) (omega arith)
layout-IsPacket (sys_init stack) = short-IsPacket refl refl (omega arith) (omega arith)
layout-IsPacket (pc_prep stack) = short-IsPacket refl refl (omega arith) (omega arith)
layout-IsPacket image_version = short-IsPacket refl refl (omega arith) (omega arith)
layout-IsPacket (ssr t stack) = short-IsPacket refl refl (omega arith) (omega arith)
layout-IsPacket (session_cmd t i stack) = short-IsPacket refl refl (omega arith) (omega arith)
layout-IsPacket (session_cmd_ktid t k i stack) =
    short-IsPacket refl refl (omega arith) (omega arith)
layout-IsPacket (set_buffers k iova size i stack) =
    short-IsPacket refl refl (omega arith) (omega arith)
layout-IsPacket (release_buffers k i stack) = short-IsPacket refl refl (omega arith) (omega arith)
layout-IsPacket (start_session i stack) = short-IsPacket refl refl (omega arith) (omega arith)
layout-IsPacket (release_cache hash32_ptr hdr stack) =
    short-IsPacket refl refl (omega arith) (omega arith)

-- Every command of the device layer whose packet has a fixed length puts exactly the packet of its
-- layout into the command queue of a device that is in order and has power: it is appended to the
-- packets there, and the firmware is interrupted exactly if it asked for that. Where it does not fit,
-- the packets of the queue stay as they were, and the code is -ENOTEMPTY, or 0 for the coverage and
-- for the question for the version, or -EINVAL for the start of a session. The resource that is
-- released is the cache, a buffer that is set has an address and a size, memory is granted and the
-- session is one of the device's.
pub issue-Answers :
    (c : Command) (dev : Device) (h : QueueHeader) (packets : List (List ℕ))
    → Fits c
    → dev.valid ≡ true
    → HoldsCommands dev h packets
    → length (layout c) ≤ dev.cmdq.mem_size / 4
    → Answers
        (refusal c)
        h
        packets
        (issue c dev)
        (Fifo.push (dev.cmdq.mem_size / 4) packets (layout c))
issue-Answers c dev h packets f valid held room = rw (issue_lem dev c f) (
    finish-Answers c h packets _ _
      (cmdq_write-refines-push (layout c) dev h packets valid held (layout-IsPacket c) room))
