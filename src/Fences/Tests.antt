-- ===== src/Fences/Tests.antt =====
-- The fence queue, and the theorems about it, at concrete inputs.
use eva_driver.Prelude.{ℕ, ◌+◌, ◌≡◌, refl, Bool, true, false, List, [], ◌∷◌}
use eva_driver.Prelude.Tests.{◌==◌, if◌then◌else◌}
use eva_driver.Prelude.Errno.{success, failed, eio}
use eva_driver.Fences.{
  FenceCommand, FenceQueue, Replies, op_normal, fence_proc, receive_msg, fence_exit, fence_wait,
  take_first, fence_done, unlink, clean_fence_queue, kernel_commands, other_commands,
  cancel_outputs,
}
use eva_driver.Fences.Synx.{SynxDriver, wait_synx, signal_synx, cancel_synx}
use eva_driver.Fences.Enqueue.{FenceBuf, Packet, Setting, MapType, Mapping, enqueue_pkt}
use eva_driver.Fences.Accepted.{EnqueueEnd, enqueue_pkt-EnqueueEnd}
use eva_driver.Fences.Signals.{Verdict, handles, signals, fence_proc-Verdict}
use eva_driver.Fences.Steps.{Event, Log, finished, act, run}
use eva_driver.Fences.Run.{IsConserved, count, all_owed, run-IsConserved}
use eva_driver.Fences.Quiet.{IsQuiet, run-IsQuiet}
use eva_driver.Fences.Sender.{RunsAs, enqueue_pkt-runs}
use eva_driver.Fences.Flush.{FlushWorld, session_flush_all}
use eva_driver.Fences.Flushed.{FlushEnd, session_flush_all-FlushEnd}

-- A synx driver whose fences are all there and signalled, but for the fence 13.
abbrev synx : SynxDriver
synx = record {
  synx_import = λ h. (success, h + 100);
  synx_wait = λ h. (if h == 13 then failed eio else success, 3);
  synx_signal = λ h state. success;
  signaled_success = 2;
  signaled_cancel = 4;
}

abbrev command : FenceCommand
command = record { kdata = 9; is_kernel = true; output_index = 1; synx = 5 ∷ 6 ∷ 0 ∷ 7 ∷ [] }

abbrev soc : FenceCommand
soc = record { kdata = 10; is_kernel = false; output_index = 1; synx = 0 ∷ 0 ∷ [] }

abbrev unsignaled : FenceCommand
unsignaled = record command { synx = 13 ∷ 6 ∷ [] }

abbrev replies : Replies
replies = record { session_send = success; message = success; hfi_err = 0 }

abbrev no_commands : FenceQueue
no_commands = record {
  state = 2;
  mode = op_normal;
  wait_list = [];
  sched_list = [];
  send_count = 0;
}

abbrev start : Log
start = record { queue = no_commands; inside = 0; accepted = []; gone = []; signaled = [] }

abbrev events : List Event
events =
    Event.enter
    ∷ Event.append command
    ∷ Event.append soc
    ∷ Event.append unsignaled
    ∷ Event.take_command
    ∷ Event.finish 0 replies
    ∷ Event.close
    ∷ Event.leave
    ∷ Event.clean
    ∷ []

abbrev buf : FenceBuf
buf = record { fence_type = 3; input_handle = 21; output_handle = 22 }

abbrev packet : Packet
packet = record { offset = 11; kdata = 0; bufs = buf ∷ [] }

abbrev setting : Setting
setting = record {
  memory = true;
  kernel_fence_enabled = 2;
  override = true;
  session_send = success;
}

abbrev mapping : Mapping
mapping = record { memory = true; rc = success; kdata = 77 }

abbrev flush : FlushWorld
flush = record {
  has_inst = true;
  has_core = true;
  valid = true;
  idle = true;
  session_flush = success;
  receipt = success;
  meanwhile = λ q. q;
  others = (λ q. record q { sched_list = [] }) ∷ [];
  timeout = 1000;
  cancel = 4;
}

-- The command whose input is signalled is done, the one that waits is flushed, and the outputs of
-- both are signalled; that of the SoC is left.
ran :
    let l = run synx events start in
    (l.signaled ≡ (6, 2) ∷ (7, 2) ∷ (6, 4) ∷ [])
    × (l.gone ≡ command ∷ unsignaled ∷ [])
    × (l.queue.wait_list ≡ soc ∷ [])
unfolding run act finished fence_wait take_first fence_proc receive_msg fence_exit fence_done unlink
    clean_fence_queue kernel_commands other_commands cancel_outputs wait_synx signal_synx
    cancel_synx
ran = (refl, refl, refl)

enqueue_pkt-EnqueueEnd_example :
    EnqueueEnd synx setting MapType.map_frame mapping packet no_commands
      (enqueue_pkt synx setting MapType.map_frame mapping packet no_commands)
enqueue_pkt-EnqueueEnd_example =
    enqueue_pkt-EnqueueEnd synx setting MapType.map_frame mapping packet no_commands

fence_proc-Verdict_example :
    (state : ℕ) × (sent : Bool) × (unmapped : Bool) × Verdict synx replies command state sent
      unmapped
    × (fence_proc synx replies command ≡ signals synx command state sent unmapped)
fence_proc-Verdict_example = fence_proc-Verdict synx replies command refl

start-IsConserved : IsConserved start
unfolding count all_owed handles
start-IsConserved = record { conserved = λ test. refl; paid = refl }

run-IsConserved_example : IsConserved (run synx events start)
run-IsConserved_example = run-IsConserved synx events start start-IsConserved

-- What comes before the cleaning: a sender was in the queue, and two commands wait.
abbrev earlier : List Event
earlier = Event.enter ∷ Event.append command ∷ Event.append soc ∷ Event.close ∷ Event.leave ∷ []

abbrev later : List Event
later = Event.enter ∷ Event.append command ∷ Event.take_command ∷ []

run-IsQuiet_example : IsQuiet (run synx later (act synx Event.clean (run synx earlier start)))
unfolding run act
run-IsQuiet_example = run-IsQuiet synx earlier later start refl refl (tt, (tt, (tt, tt)))

enqueue_pkt-runs_example :
    RunsAs synx setting MapType.map_frame mapping packet start
      (enqueue_pkt synx setting MapType.map_frame mapping packet no_commands).queue
enqueue_pkt-runs_example = enqueue_pkt-runs synx setting MapType.map_frame mapping packet start

session_flush_all-FlushEnd_example :
    FlushEnd flush
      (record no_commands { sched_list = command ∷ []; wait_list = unsignaled ∷ [] })
      (session_flush_all flush
        (record no_commands { sched_list = command ∷ []; wait_list = unsignaled ∷ [] }))
session_flush_all-FlushEnd_example =
    session_flush_all-FlushEnd flush
      (record no_commands { sched_list = command ∷ []; wait_list = unsignaled ∷ [] })
