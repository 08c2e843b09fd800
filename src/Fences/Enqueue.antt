-- ===== src/Fences/Enqueue.antt =====
-- Commands with fences put into the queue, and sent (`cvp_populate_fences` and `cvp_enqueue_pkt` of
-- msm/eva/msm_cvp.c). The mapping of buffers and the device layer answer with values.
use eva_driver.Prelude.{
  ℕ, ◌+◌, ◌-◌, ◌*◌, ◌/◌, ◌%◌, ◌^◌, Bool, true, false, not, ◌&&◌, ◌||◌, Option, none, some, List, [],
  ◌∷◌, ◌++◌,
}
use eva_driver.Prelude.Tests.{ltb, leb, ◌==◌, if◌then◌else◌}
use eva_driver.Prelude.Lists.{length, replicate}
use eva_driver.Prelude.Errno.{Rc, success, failed, hfi_error, einval, enomem, ebusy}
use eva_driver.Session.{is_success}
use eva_driver.Messages.{max_hfi_pkt_size}
use eva_driver.Fences.{FenceCommand, FenceQueue, op_draining}
use eva_driver.Fences.Synx.{SynxDriver, import_synx}

-- The fences of a `struct cvp_buf_type`.
pub record FenceBuf : Type 0 where
  pub fence_type : ℕ
  pub input_handle : ℕ
  pub output_handle : ℕ

-- `MAX_HFI_FENCE_SIZE`.
abbrev pub max_fences : ℕ
max_fences = 64

-- `sizeof(struct cvp_hfi_cmd_session_hdr) / sizeof(u32)`.
abbrev pub cmd_hdr_words : ℕ
cmd_hdr_words = 11

-- `kdata |= FENCE_BIT`.
abbrev pub with_fence_bit : ℕ → ℕ
with_fence_bit kdata = if leb (2 ^ 63) kdata then kdata else kdata + 2 ^ 63

-- The first pass over the buffers, for fences of the SoC: `num_fences` and `output_index`.
pub count_fences : List FenceBuf → ℕ × ℕ
count_fences [] = (0, 0)
count_fences (b ∷ bs) =
    let rest = count_fences bs in
    if b.input_handle == 0 && b.output_handle == 0
    then rest
    else (rest.0 + 1, if b.input_handle == 0 then rest.1 else rest.1 + 1)

-- The first pass for kernel fences: the input handles, and the buffers without them.
pub input_fences : List FenceBuf → List ℕ
input_fences [] = []
input_fences (b ∷ bs) =
    let rest = input_fences bs in if b.input_handle == 0 then rest else b.input_handle ∷ rest

abbrev pub without_input : FenceBuf → FenceBuf
without_input b =
    if b.input_handle == 0
    then b
    else record b { fence_type = b.fence_type - b.fence_type % 2; input_handle = 0 }

-- The second pass: the output handles, and the buffers without them.
pub output_fences : List FenceBuf → List ℕ
output_fences [] = []
output_fences (b ∷ bs) =
    let rest = output_fences bs in if b.output_handle == 0 then rest else b.output_handle ∷ rest

abbrev pub without_output : FenceBuf → FenceBuf
without_output b =
    if b.output_handle == 0
    then b
    else record b { fence_type = b.fence_type - b.fence_type / 2 % 2 * 2; output_handle = 0 }

pub each_without : (FenceBuf → FenceBuf) → List FenceBuf → List FenceBuf
each_without f [] = []
each_without f (b ∷ bs) = f b ∷ each_without f bs

-- A packet: its words in front of the buffers, its `kdata`, and its buffers.
pub record Packet : Type 0 where
  pub offset : ℕ
  pub kdata : ℕ
  pub bufs : List FenceBuf

-- What the driver is set to, and what the kernel and the device layer answer: whether memory is
-- left; `cvp_kernel_fence_enabled`; whether the packet's kind
-- overrides it; and the code of `session_send`.
pub record Setting : Type 0 where
  pub memory : Bool
  pub kernel_fence_enabled : ℕ
  pub override : Bool
  pub session_send : Rc

-- What `cvp_populate_fences` leaves: the code, or if that is 0 the number of fences that it returns;
-- whether the packet is sent; the packet and the queue.
pub record Populated : Type 0 where
  pub rc : Rc
  pub fence_count : ℕ
  pub sent : Bool
  pub packet : Packet
  pub queue : FenceQueue

-- The label `free_exit`, for a code.
abbrev pub no_fences : Rc → Bool → Packet → FenceQueue → Populated
no_fences rc sent p q = record { rc = rc; fence_count = 0; sent = sent; packet = p; queue = q }

-- The label `fence_cmd_queue`.
abbrev pub queue_command : FenceCommand → Bool → Packet → FenceQueue → Populated
queue_command f sent p q = record {
  rc = success;
  fence_count = length f.synx;
  sent = sent;
  packet = p;
  queue = record q { wait_list = q.wait_list ++ (f ∷ []) };
}

-- The label `soc_fence`. The handles of such a command are not kept in it.
unfoldable pub soc_fence : Setting → Packet → FenceQueue → Populated
soc_fence w p q =
    let n = count_fences p.bufs in
    let kdata = with_fence_bit p.kdata in
    let f : FenceCommand = record {
      kdata = kdata;
      is_kernel = false;
      output_index = n.1;
      synx = replicate n.0 0;
    } in
    if n.0 == 0
    then no_fences success false p q
    else if is_success w.session_send
    then queue_command f true (record p { kdata = kdata }) q
    else no_fences w.session_send true (record p { kdata = kdata }) q

-- The label `kernel_fence`.
unfoldable pub kernel_fence : SynxDriver → Setting → Packet → FenceQueue → Populated
kernel_fence k w p q =
    let ins = input_fences p.bufs in
    let outs = output_fences p.bufs in
    let imported = import_synx k (ins ++ outs) in
    let first = record p { bufs = each_without without_input p.bufs } in
    let second = record p {
      bufs = each_without without_output (each_without without_input p.bufs);
    } in
    let f : FenceCommand = record {
      kdata = with_fence_bit p.kdata;
      is_kernel = true;
      output_index = length ins;
      synx = imported.1;
    } in
    if ltb max_fences (length (ins ++ outs))
    then no_fences (failed einval) false first q
    else if length (ins ++ outs) == 0
    then no_fences success false second q
    else if is_success imported.0
    then queue_command f false second q
    else no_fences imported.0 false second q

-- `cvp_populate_fences`.
unfoldable pub populate_fences : SynxDriver → Setting → Packet → FenceQueue → Populated
unfolding soc_fence kernel_fence
populate_fences k w p q =
    if p.offset == 0 || length p.bufs == 0
    then no_fences success false p q
    else if ltb p.offset cmd_hdr_words
    then no_fences (failed einval) false p q
    else if not w.memory
    then no_fences (failed enomem) false p q
    else if w.kernel_fence_enabled == 0
    then soc_fence w p q
    else if w.kernel_fence_enabled == 1
    then kernel_fence k w p q
    else if w.kernel_fence_enabled == 2
    then (if w.override then kernel_fence k w p q else soc_fence w p q)
    else no_fences (failed einval) false p q

-- `enum buf_map_type`.
pub data MapType : Type 0 where
  map_persist unmap_persist map_frame : MapType

-- What the mapping of a packet's buffers answers: whether there is memory for the file descriptors,
-- the code, and the `kdata` that the packet gets.
pub record Mapping : Type 0 where
  pub memory : Bool
  pub rc : Rc
  pub kdata : ℕ

-- `msm_cvp_unmap_user_persist`, which refuses every request.
abbrev pub unmap_user_persist : Rc
unmap_user_persist = failed einval

-- What `cvp_enqueue_pkt` leaves: the code, whether the buffers that it mapped are unmapped, and the
-- queue.
pub record Enqueued : Type 0 where
  pub rc : Rc
  pub unmapped : Bool
  pub queue : FenceQueue

-- A packet that is not taken: the buffers of a frame are unmapped. For persistent buffers the code of
-- their unmapping takes the place of the code at hand.
unfoldable pub undo : MapType → Mapping → Rc → FenceQueue → Enqueued
undo map_persist m rc q = record { rc = unmap_user_persist; unmapped = false; queue = q }
undo unmap_persist m rc q = record { rc = rc; unmapped = false; queue = q }
undo map_frame m rc q = record { rc = rc; unmapped = true; queue = q }

-- What `cvp_enqueue_pkt` does behind `cvp_populate_fences`. A positive code is taken for a number of
-- fences.
unfoldable pub after_fences : MapType → Mapping → Rc → Populated → Enqueued
unfolding undo
after_fences t m sending r = elim r.rc [
  | success ↦
      if r.fence_count == 0
      then (if is_success sending
          then record { rc = success; unmapped = false; queue = r.queue }
          else undo t m sending r.queue)
      else record { rc = success; unmapped = false; queue = r.queue }
  | failed e ↦ undo t m (failed e) r.queue
  | hfi_error n ↦ record { rc = success; unmapped = false; queue = r.queue }
]

-- The mapping itself: whether there is memory for it, and its code.
abbrev pub map_rc : MapType → Mapping → Rc
map_rc t m = elim t [
  | map_persist ↦ if m.memory then m.rc else failed enomem
  | unmap_persist ↦ unmap_user_persist
  | map_frame ↦ m.rc
]

-- The `kdata` of a packet, which the mapping of its buffers sets.
abbrev pub mapped_kdata : MapType → Mapping → ℕ
mapped_kdata t m = elim t [ map_persist ↦ m.kdata | unmap_persist ↦ 0 | map_frame ↦ m.kdata ]

-- How a sender of `cvp_enqueue_pkt` comes into the queue, `none` where that is closed, and leaves it.
abbrev pub enter_queue : FenceQueue → Option FenceQueue
enter_queue q =
    if q.mode == op_draining then none else some (record q { send_count = q.send_count + 1 })

abbrev pub leave_queue : FenceQueue → FenceQueue
leave_queue q = record q { send_count = q.send_count - 1 }

-- `cvp_enqueue_pkt`.
unfoldable pub enqueue_pkt :
    SynxDriver → Setting → MapType → Mapping → Packet → FenceQueue → Enqueued
unfolding populate_fences after_fences
enqueue_pkt k w t m p q =
    if ltb max_hfi_pkt_size p.offset || ltb max_hfi_pkt_size (length p.bufs)
    then record { rc = failed einval; unmapped = false; queue = q }
    else elim (enter_queue q) [
      | none ↦ record { rc = failed ebusy; unmapped = false; queue = q }
      | some entered ↦
          if not (is_success (map_rc t m))
          then record { rc = map_rc t m; unmapped = false; queue = q }
          else (let r =
                after_fences t m w.session_send
                  (populate_fences k w (record p { kdata = mapped_kdata t m }) entered) in
              record r { queue = leave_queue (r.queue) })
    ]
