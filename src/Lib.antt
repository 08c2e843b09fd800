-- ===== src/Lib.antt =====
-- The EVA driver: the kernel driver of a computer vision processor. Clients open sessions on the
-- device, map buffers for it, and send commands; the driver hands these to the processor's firmware
-- over queues in shared memory (HFI), takes the firmware's messages back to the sessions, and votes
-- for the clock rates and the bandwidth that the sessions ask for.
--
-- The parts that are modelled, and their files:
--   Prelude: the libraries' names, numbers and lists of C, machine words, and error codes.
--   Memory: `memcpy` on arrays of 32-bit words, at byte offsets; an access outside is `none`.
--   Queue: the writer and the reader of the HFI queues, `__write_queue` and `__read_queue` of
--     msm/eva/cvp_hfi.c. The header and the queue's words are shared with the firmware, so the
--     bounds are shown for any header. Queue/Fifo is what the two promise.
--   Session: the state machine of a session, `msm_cvp_comm_try_state` of msm/eva/msm_cvp_common.c
--     with its table of handlers (Session/Machine) and every step they take (Session/Stages), and
--     `msm_cvp_session_create` of msm/eva/msm_cvp.c over it (Session/Create). An instance also
--     records the states that it had, which nothing of the code reads.
--   Power: msm/eva/cvp_power.c: the sums over the sessions (Power), the choice of a clock rate
--     and of the bandwidth, and the cycles that are reported (Power/Votes).
--   Messages: `hfi_process_session_cvp_msg` of msm/eva/hfi_response_handler.c, which puts the
--     firmware's messages into a session's queues, and `cvp_msg_pending` and
--     `cvp_wait_process_message` of msm/eva/msm_cvp.c, which hand them to the client.
--   Control: the start, the stop and the flush of a session, its fence threads, and the checks of a
--     command in `msm_cvp_session_process_hfi`, all of msm/eva/msm_cvp.c.
--   DmaCache: the cache of a session's DMA mappings, the buffers of a frame that use them, and the
--     test of a buffer against its mapping, of msm/eva/msm_cvp_buf.c and msm/eva/msm_cvp_buf.h.
--   Instances: the core's list of instances and their references: `cvp_get_inst`,
--     `cvp_get_inst_validate` and `cvp_put_inst` of msm/eva/msm_cvp_common.c.
--   Iface: the device's three queues: their set-up in shared memory, `__hfi_queue_init`, and the
--     way from a command to its queue and from the message queue to a packet,
--     `__iface_cmdq_write` and `__iface_msgq_read` of msm/eva/cvp_hfi.c.
--   Responses: msm/eva/hfi_response_handler.c, which takes the firmware's packets apart (Responses,
--     Responses/Dispatch), and the loop over the message queue, `__response_handler` of
--     msm/eva/cvp_hfi.c (Responses/Drain).
--   Fences: the commands of a session that wait for fences: their way into the queue and out of it,
--     `cvp_enqueue_pkt` and `cvp_populate_fences` (Fences/Enqueue), `cvp_fence_wait` and
--     `cvp_fence_proc` (Fences) of msm/eva/msm_cvp.c over msm/eva/msm_cvp_synx.c (Fences/Synx), and
--     the flush, `cvp_session_flush_all` (Fences/Flush).
--   Callbacks: what becomes of the responses: `cvp_handle_cmd_response` with its handlers of
--     msm/eva/msm_cvp_common.c (Callbacks, Callbacks/Errors), and the interrupt thread,
--     `iris_hfi_core_work_handler` of msm/eva/cvp_hfi.c (Callbacks/Thread).
--   Collapse: the power of the device: `__resume` with `__iris_power_on`, `__power_collapse` with
--     `__suspend`, and the work that repeats it, `iris_hfi_pm_handler`, of msm/eva/cvp_hfi.c.
--   Packets: the packets that the driver builds, msm/eva/hfi_packetization.c (Packets,
--     Packets/Session, Packets/Resource), the functions of msm/eva/cvp_hfi.c that send them
--     (Packets/Send, with those of a session in Packets/Send/Sessions), and the checks of a
--     client's packet against the platform's table, `cvp_create_pkt_cmd_session_send` and the
--     index functions of msm/eva/msm_cvp_platform.c (Packets/Index).
--   Dsp: msm/eva/msm_cvp_dsp.c: the link to the DSP with its states and the memory shared over the
--     hypervisor (Dsp), its suspension (Dsp/Suspend) and its thread (Dsp/Thread), its messages
--     (Dsp/Callback), its processes with their names and sessions (Dsp/Nodes), the commands that
--     create and delete sessions (Dsp/Handlers), and the buffers of a process, those of its clients
--     (Dsp/Buffers) and its own (Dsp/Buffers/Memory).
--
-- How they interact: Iface puts Queue's reader and writer behind the device; Responses reads
-- packets through it until the queue is empty, gives session messages to Messages and the other
-- responses to Callbacks, which wake the waits of Session and Control; Session/Create runs the
-- state machine and makes the session's message queue active; Control starts and stops the queues
-- whose messages Messages keeps; Queue carries the commands that Control lets through and the
-- packets that Messages takes in, and a message that is handed to a client ends its frame, whose
-- mappings DmaCache keeps. The fence threads that Control starts process the commands of Fences,
-- and the flush of Control is that of Fences. Packets makes the commands that Session, Control and
-- Collapse ask for, and writes them through Iface; a suspension of the DSP is what Collapse asks
-- for before it switches the power off.
--
-- Numbers are natural numbers; the 32-bit and 64-bit sums, differences and shifts that can wrap
-- have their wrap-around written out. Loops are recursions on the lists that they go through. The
-- loop over the message queue takes, as a list, what each of its reads sees of the firmware's
-- write index: one entry more than there are packets is enough. A packet is the list of its
-- 32-bit words, in the layout of msm/eva/cvp_hfi_v1.h. A search for an entry of the DSP's
-- processes looks 11 times, as the code does, and each look sees a count of references from a
-- list. What the firmware, the device layer, the kernel and the memory allocator answer are
-- values that the theorems range over. What other threads do to a queue during a wait is a list
-- of changes, each followed by a test of the wait's condition, and between two looks of a flush
-- at its queue; senders, fence threads and flushes that use the fence queue at once are a list of
-- events (Fences/Steps); what the firmware does to a write index during a read is the two values
-- that the read sees.
--
-- Not modelled: memory barriers, locks, traces and log lines; register accesses, except what the
-- reads of the power collapse answer; the resources of the device layer; persistent buffers and
-- the lists of frames; the synx driver; of the DSP the power request, the configuration, the
-- start and the stop of its sessions and the registration with FastRPC; the packets of
-- msm/eva/cvp_hfi_v2.h; the device tree, the platforms' tables and the debugging aids. The size
-- word of a packet is one value, though the reader loads it twice.
pub mod Prelude
pub mod Memory
pub mod Queue
pub mod Session
pub mod Power
pub mod Messages
pub mod Control
pub mod DmaCache
pub mod Instances
pub mod Iface
pub mod Responses
pub mod Fences
pub mod Callbacks
pub mod Collapse
pub mod Packets
pub mod Dsp
