-- ===== src/Dsp/Nodes.antt =====
-- The processes of the DSP (msm/eva/msm_cvp_dsp.c): the list of their entries, the names of their
-- drivers, and the registration and its end. An entry is told by its handle. What the kernel
-- answers, and the references that each look at an entry sees, are arguments.
use eva_driver.Prelude.{
  ℕ, zero, suc, ◌+◌, ◌^◌, Bool, true, false, not, ◌&&◌, ◌||◌, Option, none, some, List, [], ◌∷◌,
  ◌++◌,
}
use eva_driver.Prelude.Tests.{ltb, ◌==◌, if◌then◌else◌}
use eva_driver.Prelude.Lists.{set}
use eva_driver.Prelude.Words.{add32, sub32}
use eva_driver.Prelude.Errno.{Rc, success, failed, einval}
use eva_driver.Session.{is_success}
use eva_driver.Dsp.Buffers.{Pool}
use eva_driver.Dsp.Buffers.Memory.{clear_pool}

-- `struct cvp_dsp_fastrpc_driver_entry`: the sessions are the addresses of their instances.
pub record Node : Type 0 where
  pub handle : ℕ
  pub name_idx : ℕ
  pub refcount : ℕ
  pub device : Bool
  pub sessions : List ℕ
  pub session_cnt : ℕ
  pub pool : Pool

-- The part of `struct cvp_dsp_apps` for the processes: which names are in use, and the entries; with
-- the count of leaks that the core keeps.
pub record Frpc : Type 0 where
  pub names : List Bool
  pub nodes : List Node
  pub smem_leak_count : ℕ

unfoldable pub find_node : ℕ → List Node → Option Node
find_node h [] = none
find_node h (n ∷ ns) = let rest = find_node h ns in if n.handle == h then some n else rest

unfoldable pub remove_node : ℕ → List Node → List Node
remove_node h [] = []
remove_node h (n ∷ ns) = let rest = remove_node h ns in if n.handle == h then ns else n ∷ rest

unfoldable pub update_node : ℕ → (Node → Node) → List Node → List Node
update_node h f [] = []
update_node h f (n ∷ ns) =
    let rest = update_node h f ns in if n.handle == h then f n ∷ ns else n ∷ rest

-- The first free name.
unfoldable pub first_free : List Bool → Option ℕ
first_free [] = none
first_free (false ∷ bs) = some 0
first_free (true ∷ bs) = elim (first_free bs) [ none ↦ none | some i ↦ some (suc i) ]

-- Whether one of so many looks finds an entry without references.
unfoldable pub settles : ℕ → List ℕ → Bool
settles zero rs = false
settles (suc n) [] = false
settles (suc n) (zero ∷ rs) = true
settles (suc n) (suc r ∷ rs) = settles n rs

abbrev pub node_looks : ℕ
node_looks = 11

-- `cvp_get_fastrpc_node_with_handle` and `cvp_put_fastrpc_node`.
abbrev pub inc_ref_node : Node → Node
inc_ref_node n = record n { refcount = n.refcount + 1 }

abbrev pub dec_ref_node : Node → Node
dec_ref_node n = if ltb 0 n.refcount then record n { refcount = sub32 n.refcount 1 } else n

unfoldable pub get_node : ℕ → Frpc → Option Node × Frpc
get_node h f = elim (find_node h f.nodes) [
  | none ↦ (none, f)
  | some n ↦ (some (inc_ref_node n), record f { nodes = update_node h inc_ref_node f.nodes })
]

unfoldable pub put_node : ℕ → Frpc → Frpc
put_node h f = record f { nodes = update_node h dec_ref_node f.nodes }

-- `pop_frpc_node_with_handle`: the entry that is taken off the list.
unfoldable pub pop_node : List ℕ → ℕ → Frpc → Option (Node × Frpc)
pop_node seen h f = elim (find_node h f.nodes) [
  | none ↦ none
  | some n ↦
      if settles node_looks seen then some (n, record f { nodes = remove_node h f.nodes }) else none
]

-- `eva_fastrpc_driver_release_name`.
unfoldable pub release_name : Node → Frpc → Frpc
release_name n f = record f { names = set f.names n.name_idx false }

-- What a registration meets: whether memory is granted, the code of the driver's registration,
-- whether the device was probed in time, and the looks at the entry where it fails.
pub record Registering : Type 0 where
  pub granted : Bool
  pub register : Rc
  pub probed : Bool
  pub seen : List ℕ

abbrev no_bufs : Pool
no_bufs = record { bufs = []; smem_count = 0; dsp_usage = 0; files = 0; nr_maps = 0 }

-- The entry of a new process, without the reference of its registration.
abbrev pub new_node : ℕ → ℕ → Bool → Node
new_node h i probed = record {
  handle = h;
  name_idx = i;
  refcount = 0;
  device = probed;
  sessions = [];
  session_cnt = 0;
  pool = no_bufs;
}

-- The list with the entry at its end, and its name in use.
abbrev pub with_node : Node → Frpc → Frpc
with_node n f = record f { names = set f.names n.name_idx true; nodes = f.nodes ++ (n ∷ []) }

-- `fail_fastrpc_driver_register`: the entry is taken off the list and freed, with its name, unless
-- it has references for too long.
unfoldable pub unwind : List ℕ → Node → Frpc → Frpc
unwind seen n f =
    if settles node_looks seen
    then release_name n (record f { nodes = remove_node n.handle f.nodes })
    else f

-- `eva_fastrpc_driver_register`.
unfoldable pub driver_register : Registering → ℕ → Frpc → Rc × Frpc
driver_register r h f = elim (find_node h f.nodes) [
  | some n ↦ (success, f)
  | none ↦ if not r.granted then (failed einval, f) else elim (first_free f.names) [
    | none ↦ (failed einval, f)
    | some i ↦
        let n = new_node h i (is_success r.register && r.probed) in
        if n.device
        then (success, with_node n f)
        else (failed einval, unwind r.seen n (with_node n f))
  ]
]

-- The sessions of an entry are deleted one after another.
unfoldable pub drop_sessions : List ℕ → ℕ → ℕ
drop_sessions [] cnt = cnt
drop_sessions (s ∷ ss) cnt = drop_sessions ss (sub32 cnt 1)

-- The end of `eva_fastrpc_driver_unregister` for an entry that was taken off the list: `atomic_t` is
-- positive below 2 ^ 31.
unfoldable pub close_node : List Rc → Bool → Node → Frpc → Frpc
close_node us force n f =
    let left = (clear_pool us n.pool).smem_count in
    let f' = release_name n f in
    if not (drop_sessions n.sessions n.session_cnt == 0 || force)
    then f
    else if ltb 0 left && ltb left (2 ^ 31)
    then record f' { smem_leak_count = add32 f'.smem_leak_count left }
    else f'

-- `eva_fastrpc_driver_unregister`.
unfoldable pub driver_unregister : List ℕ → List Rc → Bool → ℕ → Frpc → Frpc
driver_unregister seen us force h f = elim (pop_node seen h f) [
  | none ↦ f
  | some (n, f') ↦ close_node us force n f'
]

-- `eva_fastrpc_driver_add_sess`.
unfoldable pub add_sess : ℕ → ℕ → Frpc → Frpc
add_sess h inst f = record f {
  nodes =
      update_node h
        (λ n. record n {
          sessions = n.sessions ++ (inst ∷ []);
          session_cnt = add32 n.session_cnt 1;
        })
        f.nodes;
}

unfoldable pub has_sess : ℕ → List ℕ → Bool
has_sess inst [] = false
has_sess inst (s ∷ ss) = let rest = has_sess inst ss in if s == inst then true else rest

unfoldable pub remove_sess : ℕ → List ℕ → List ℕ
remove_sess inst [] = []
remove_sess inst (s ∷ ss) = let rest = remove_sess inst ss in if s == inst then ss else s ∷ rest

abbrev pub less_sess : ℕ → Node → Node
less_sess inst n =
    if has_sess inst n.sessions
    then record n { sessions = remove_sess inst n.sessions; session_cnt = sub32 n.session_cnt 1 }
    else n

-- `cvp_dsp_del_sess`, and the search of the deletion and of a failed creation.
unfoldable pub del_sess : ℕ → ℕ → Frpc → Rc × Frpc
del_sess h inst f = elim (find_node h f.nodes) [
  | none ↦ (failed einval, f)
  | some n ↦ (success, record f { nodes = update_node h (less_sess inst) f.nodes })
]

-- `cvp_remove_dsp_sessions` over the entries: each is freed with its name, until one has references
-- for too long.
unfoldable pub remove_dsp_sessions : List Node → List (List ℕ) → Frpc → Frpc
remove_dsp_sessions [] seen f = f
remove_dsp_sessions (n ∷ ns) [] f = f
remove_dsp_sessions (n ∷ ns) (rs ∷ seen) f =
    let rest = remove_dsp_sessions ns seen (release_name n (record f { nodes = ns })) in
    if settles node_looks rs then rest else f
