-- ===== src/Callbacks/Thread.antt =====
-- The interrupt thread behind the response handler (msm/eva/cvp_hfi.c).
use eva_driver.Prelude.{ℕ, Bool, ◌&&◌, Option, none, some, List, [], ◌∷◌}
use eva_driver.Prelude.Tests.{if◌then◌else◌}
use eva_driver.Queue.{QueueInfo, Peer}
use eva_driver.Responses.{Info, Clients, World}
use eva_driver.Responses.Drain.{
  HalSession, Drained, drained, fault, out_of_rounds, response_handler,
}
use eva_driver.Callbacks.{Driver, Given}
use eva_driver.Callbacks.Errors.{handle_cmd_response}

-- The callbacks of `iris_hfi_core_work_handler`: none behind one that leaves the device in no valid
-- state.
unfoldable pub callbacks : Given → List Info → Driver → Driver
unfolding handle_cmd_response
callbacks w [] c = c
callbacks w (r ∷ rs) c =
    let rest = callbacks w rs (handle_cmd_response w r c) in if c.device_valid then rest else c

-- What the interrupt thread finds: whether there is a callback, and whether the power comes back.
pub record IrqThread : Type 0 where
  pub has_callback : Bool
  pub powered : Bool

-- What the thread does behind the response handler, if that ends in order.
unfoldable pub after_handler : Given → Driver → Drained → Option Driver
unfolding callbacks
after_handler g c (drained l) = some (callbacks g l.responses c)
after_handler g c fault = none
after_handler g c out_of_rounds = none

-- `iris_hfi_core_work_handler`; `none` where the response handler faults or needs more rounds.
unfoldable pub work_handler :
    IrqThread
    → Given
    → World
    → List HalSession
    → Bool
    → List Peer
    → QueueInfo
    → List ℕ
    → Clients
    → Driver
    → Option Driver
unfolding after_handler
work_handler t g w sessions init peers q raw clients c =
    if c.device_valid && t.has_callback && t.powered
    then after_handler g c (response_handler w sessions init peers q raw clients)
    else some c
