-- ===== src/Dsp/Handlers.antt =====
-- The sessions that the DSP opens and closes (msm/eva/msm_cvp_dsp.c). An instance is its address.
-- What the kernel, the session layer and the firmware answer is an argument.
use eva_driver.Prelude.{
  ℕ, ◌+◌, ◌*◌, ◌/◌, ◌%◌, Bool, false, not, ◌&&◌, ◌||◌, Option, none, some, List, [], ◌∷◌, ◌++◌,
}
use eva_driver.Prelude.Tests.{◌==◌, if◌then◌else◌}
use eva_driver.Prelude.Words.{u32_mod}
use eva_driver.Prelude.Errno.{Rc}
use eva_driver.Session.{is_success}
use eva_driver.Dsp.Buffers.{minus_one}
use eva_driver.Dsp.Nodes.{
  Node, Frpc, find_node, get_node, put_node, Registering, driver_register, driver_unregister,
  add_sess, has_sess, remove_sess, del_sess,
}

-- `get_inst_from_dsp` on a machine with pointers of 64 bits, given the core's instances of the DSP.
unfoldable pub get_inst_from_dsp : ℕ → ℕ → List ℕ → Option ℕ
get_inst_from_dsp high low insts =
    let inst = high * u32_mod + low in
    if high == 0 then none else if has_sess inst insts then some inst else none

-- The address as the two words of a reply.
abbrev pub cpu_high : ℕ → ℕ
cpu_high inst = inst / u32_mod % u32_mod

abbrev pub cpu_low : ℕ → ℕ
cpu_low inst = inst % u32_mod

-- The processes, the instances of the DSP, and the references to tasks that are held.
pub record Sessions : Type 0 where
  pub frpc : Frpc
  pub insts : List ℕ
  pub tasks : ℕ

-- What creating a session meets: the version of the command and of the interface, the handles in the
-- two forms of the command, the registration and the end of it; the code of asking for the process,
-- whether the process and its task exist, the instance that is opened, whether its properties are
-- taken, the code of its creation, and its number.
pub record Creating : Type 0 where
  pub version : ℕ
  pub hfi_ver : ℕ
  pub pid : ℕ
  pub pid_v2 : ℕ
  pub registering : Registering
  pub seen : List ℕ
  pub unmaps : List Rc
  pub get_pid : Rc
  pub has_pid : Bool
  pub has_task : Bool
  pub opened_inst : Option ℕ
  pub props : Bool
  pub create : Rc
  pub session_id : Option ℕ

-- The code sent back, with the number and the address of the session if it was created.
pub record Created : Type 0 where
  pub ret : ℕ
  pub reply : Option (ℕ × ℕ × ℕ)
  pub left : Sessions

abbrev failing : ℕ → Sessions → Created
failing ret s = record { ret = ret; reply = none; left = s }

-- `fail_get_session_info` and the labels behind it: an instance that is not among the sessions of
-- its entry is not closed. A close is taken to succeed here: its code is not read.
unfoldable pub fail_get_session_info : ℕ → ℕ → Node → Sessions → Created
fail_get_session_info h inst n s =
    if has_sess inst n.sessions
    then failing 0 (record s {
      frpc = put_node h (del_sess h inst s.frpc).1;
      insts = remove_sess inst s.insts;
    })
    else failing 0 (record s { frpc = put_node h s.frpc })

-- From the open on; the task's reference is held by the session, and given back where it fails.
unfoldable pub open_session : Creating → ℕ → Node → Sessions → Created
open_session c h n s = elim c.opened_inst [
  | none ↦ failing 0 (record s { frpc = put_node h s.frpc })
  | some inst ↦
      let begun : Sessions = record s { insts = s.insts ++ (inst ∷ []) } in
      let added : Sessions = record begun { frpc = add_sess h inst s.frpc } in
      let n' : Node = record n { sessions = n.sessions ++ (inst ∷ []) } in
      if not (c.version == 0) && not c.props
      then fail_get_session_info h inst n begun
      else if not (is_success c.create)
      then fail_get_session_info h inst n' added
      else elim c.session_id [
        | none ↦ fail_get_session_info h inst n' added
        | some id ↦ record {
          ret = 0;
          reply = some (id, cpu_high inst, cpu_low inst);
          left = record added { frpc = put_node h added.frpc; tasks = s.tasks + 1 };
        }
      ]
]

-- From the lookup of the entry on.
unfoldable pub with_entry : Creating → ℕ → Sessions → Created
with_entry c h s = elim (find_node h s.frpc.nodes) [
  | none ↦
      failing minus_one (record s { frpc = driver_unregister c.seen c.unmaps false c.pid s.frpc })
  | some n ↦
      let held : Sessions = record s { frpc = (get_node h s.frpc).1 } in
      if not n.device || not (is_success c.get_pid) || not c.has_pid || not c.has_task
      then failing 0 (record s { frpc = put_node h held.frpc })
      else open_session c h n held
]

-- `__dsp_cvp_sess_create`.
unfoldable pub sess_create : Creating → Sessions → Created
sess_create c s =
    if not (c.version == 0)
    then with_entry c c.pid_v2 s
    else if not (c.hfi_ver == 1)
    then with_entry c c.pid s
    else let (rc, f) = driver_register c.registering c.pid s.frpc in
      let s' : Sessions = record s { frpc = f } in
      if is_success rc then with_entry c c.pid s' else failing minus_one s'

-- `delete_dsp_session`, given what the close returns: it returns behind the close, before the task's
-- reference is given back.
unfoldable pub delete_dsp_session : Rc → ℕ → Sessions → Rc × Sessions
delete_dsp_session close inst s =
    (close, if is_success close then record s { insts = remove_sess inst s.insts } else s)

-- `__dsp_cvp_sess_delete`.
unfoldable pub sess_delete : Rc → ℕ → ℕ → ℕ → Sessions → ℕ × Sessions
sess_delete close high low h s = elim (get_inst_from_dsp high low s.insts) [
  | none ↦ (minus_one, s)
  | some inst ↦ elim (find_node h s.frpc.nodes) [
    | none ↦ (minus_one, s)
    | some n ↦
        if has_sess inst n.sessions
        then (
          if is_success close then 0 else minus_one,
          (delete_dsp_session close inst (record s { frpc = (del_sess h inst s.frpc).1 })).1,
        )
        else (0, s)
  ]
]
