-- ===== src/Dsp/Tests.antt =====
-- The link to the DSP at work.
use eva_driver.Prelude.{
  ℕ, zero, suc, ◌+◌, ◌%◌, ◌≡◌, ◌≢◌, refl, inl, true, false, some, List, [], ◌∷◌, arith,
}
use eva_driver.Prelude.Tests.{if◌then◌else◌}
use eva_driver.Prelude.Lists.{All, length, get_or, replicate}
use eva_driver.Prelude.Words.{u32_mod}
use eva_driver.Prelude.Errno.{success, failed, einval}
use eva_driver.Dsp.{Dsp, probed, ready, suspended, Exchange, Restart}
use eva_driver.Dsp.Suspend.{Suspending, suspend_dsp}
use eva_driver.Dsp.Thread.{Handing}
use eva_driver.Dsp.Shared.{IsShared, apart, Alternate, Event, sleep, hand, stop, run, run-IsShared}
use eva_driver.Dsp.Ends.{SuspendEnd, suspend_dsp-SuspendEnd}
use eva_driver.Dsp.Callback.{
  Sizes, RpmsgMessage, Pending, invalid_rpmsg_type, max_cmd, receive, receive-blocks,
}
use eva_driver.Dsp.Buffers.{
  dsp, Pool, KmdBuf, Mapping, buf_register, map_buf_dsp, is_buf_valid, find_buf, buf_deregister,
  unmap_buf_dsp, remove_buf,
}
use eva_driver.Dsp.Buffers.Memory.{Allocation, clear_bufs, mem_alloc, allocate_dsp_bufs}
use eva_driver.Dsp.Counted.{
  Request, register, deregister, allocate, serve_request, loses, run_requests,
  run_requests-IsCounted, owned, clear_bufs-counts,
}
use eva_driver.Dsp.Nodes.{Registering, Frpc, has_sess}
use eva_driver.Dsp.Named.{IsNamed, count_name, Change, add, get, put, unregister, run_changes}
use eva_driver.Dsp.Processes.{run_changes-IsNamed}
use eva_driver.Dsp.Handlers.{get_inst_from_dsp, cpu_high, cpu_low, Sessions, Creating}
use eva_driver.Dsp.Tasks.{get_inst_from_dsp-cpu, Ask, create, delete, run_asks, run_asks-holds}

abbrev link : Dsp
link = record { chan = true; state = probed; hyp_assigned = false; addr = 0; size = 0; calls = [] }

-- The DSP answers with a code.
abbrev says : ℕ → Exchange
says ret = record { sent = success; reply = some ret }

abbrev restarted : Restart
restarted = record {
  device = true;
  shutdown_x = says 0;
  shutdown_scm = success;
  table = some (4096, 8192);
  assign_scm = success;
  queue_x = says 0;
  fail_scm = success;
}

abbrev handed : Handing
handed = record {
  device = true;
  table = some (4096, 8192);
  assign_scm = success;
  queue_x = says 0;
  fatal_scm = success;
  restart = restarted;
}

-- The DSP fails at first, and sleeps once it has been set up again.
abbrev falls_asleep : Suspending
falls_asleep = record {
  session_exists = false;
  first = says 2;
  restart = restarted;
  second = says 0;
  fatal_scm = success;
}

abbrev events : List Event
events = hand handed ∷ sleep false falls_asleep ∷ stop (says 0) success ∷ []

run-IsShared_example :
    IsShared
      (run events link).hyp_assigned
      (run events link).addr
      (run events link).size
      (run events link).calls
unfolding Alternate
run-IsShared_example = run-IsShared events link (apart tt)

abbrev awake : Dsp
awake = record { chan = true; state = ready; hyp_assigned = false; addr = 0; size = 0; calls = [] }

suspend_dsp-SuspendEnd_example :
    SuspendEnd false falls_asleep awake (suspend_dsp false falls_asleep awake)
suspend_dsp-SuspendEnd_example = suspend_dsp-SuspendEnd false falls_asleep awake

abbrev sizes : Sizes
sizes = record { rsp = 12; header = 16; cmd = 200; cmd_v2 = 260 }

abbrev command : ℕ → RpmsgMessage
command ver = record { type = 10; len = 200; ret = 0; dsp_state = 0; ver = ver; payload = 5 }

abbrev nothing_waits : Pending
nothing_waits = record {
  header_type = invalid_rpmsg_type;
  header_ver = 0;
  cmd = 0;
  cmd_v2 = 0;
  rsp_type = 0;
  rsp_ret = 0;
  rsp_state = 0;
}

receive-blocks_example :
    All (λ i. i ≢ max_cmd) (receive sizes (command 2 ∷ command 0 ∷ []) nothing_waits).1
receive-blocks_example =
    receive-blocks sizes (command 2) (command 0 ∷ []) nothing_waits refl (omega arith)
      (λ l e. absurd (omega (arith, e))) (omega arith) (inl refl) (λ e. absurd (omega (arith, e)))
      (λ e. absurd (omega (arith, e)))

abbrev pool : Pool
pool = record { bufs = []; smem_count = 0; dsp_usage = 0; files = 0; nr_maps = 0 }

abbrev kmd_buf : KmdBuf
kmd_buf = record { fd = 5; size = 100; offset = 0 }

abbrev mapped : Mapping
mapped = record {
  has_task = true;
  file = true;
  dma_size = some 128;
  granted = true;
  smem_granted = true;
  map = success;
  iova = 4096;
  unmap = success;
}

abbrev allocated : Allocation
allocated = record {
  granted = true;
  smem_granted = true;
  alloc = success;
  smem_size = 512;
  iova = 8192;
  map = success;
  v_dsp_addr = 9;
}

abbrev requests : List Request
requests =
    register true mapped kmd_buf
    ∷ allocate allocated 512 0 true
    ∷ deregister true (failed einval) kmd_buf
    ∷ []

-- One buffer is left, and one was lost.
abbrev left_pool : Pool
left_pool = record {
  bufs = record { fd = 9; size = 512; smem_size = 512; iova = 8192; owner = dsp } ∷ [];
  smem_count = 2;
  dsp_usage = 640;
  files = 1;
  nr_maps = 1;
}

requests_served : run_requests requests pool 0 ≡ some (left_pool, 1)
unfolding run_requests serve_request loses buf_register map_buf_dsp is_buf_valid find_buf mem_alloc
    allocate_dsp_bufs buf_deregister unmap_buf_dsp remove_buf
requests_served = refl

run_requests-IsCounted_example : left_pool.smem_count ≡ (length left_pool.bufs + 1) % u32_mod
run_requests-IsCounted_example =
    run_requests-IsCounted requests pool left_pool 0 1 refl requests_served

clear_bufs-counts_example :
    ((clear_bufs left_pool.bufs (replicate 1 success) left_pool).bufs ≡ [])
    × ((clear_bufs left_pool.bufs (replicate 1 success) left_pool).smem_count
        ≡ (owned left_pool.bufs + 1) % u32_mod)
clear_bufs-counts_example = clear_bufs-counts left_pool.bufs 1 1 left_pool (omega arith) refl

-- No process is registered yet, and two names are free.
abbrev processes : Frpc
processes = record { names = false ∷ false ∷ []; nodes = []; smem_leak_count = 0 }

abbrev registering : Registering
registering = record { granted = true; register = success; probed = true; seen = [] }

abbrev changes : List Change
changes =
    eva_driver.Dsp.Named.register registering 7
    ∷ add 7 1
    ∷ get 7
    ∷ put 7
    ∷ unregister (0 ∷ []) [] false 7
    ∷ []

processes-IsNamed : IsNamed processes
unfolding count_name
processes-IsNamed = record { once = free_names; counted = tt }
  where
    free_names : (i : ℕ) → ◌≡◌ {A = ℕ} 0 (if get_or (false ∷ false ∷ []) i false then 1 else 0)
    free_names zero = refl
    free_names (suc zero) = refl
    free_names (suc (suc i)) = refl

run_changes-IsNamed_example : IsNamed (run_changes changes processes)
run_changes-IsNamed_example = run_changes-IsNamed changes processes processes-IsNamed

get_inst_from_dsp-cpu_example :
    get_inst_from_dsp
      (cpu_high 0xffff800012345678)
      (cpu_low 0xffff800012345678)
      (3 ∷ 0xffff800012345678 ∷ [])
    ≡ some 0xffff800012345678
unfolding has_sess
get_inst_from_dsp-cpu_example =
    get_inst_from_dsp-cpu 0xffff800012345678 (3 ∷ 0xffff800012345678 ∷ []) (omega arith)
      (omega arith) refl

abbrev creating : Creating
creating = record {
  version = 0;
  hfi_ver = 1;
  pid = 7;
  pid_v2 = 0;
  registering = registering;
  seen = [];
  unmaps = [];
  get_pid = success;
  has_pid = true;
  has_task = true;
  opened_inst = some 0xffff800012345678;
  props = true;
  create = success;
  session_id = some 3;
}

abbrev no_sessions : Sessions
no_sessions = record { frpc = processes; insts = []; tasks = 0 }

-- A session is created and deleted.
abbrev asks : List Ask
asks = create creating ∷ delete success 0xffff8000 0x12345678 7 ∷ []

run_asks-holds_example : (run_asks asks no_sessions).0.tasks ≡ 0 + (run_asks asks no_sessions).1
run_asks-holds_example = run_asks-holds asks no_sessions
