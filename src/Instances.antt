-- ===== src/Instances.antt =====
-- The core's list of instances, and the references to them (msm/eva/msm_cvp_common.c,
-- msm/eva/msm_cvp.c). A pointer is a number, null is 0, and two instances of the list have two
-- addresses. The references do not reach the number at which the kernel's counter stops. The core is
-- not null. Of the destruction of an instance the removal from the list is kept.
mod Entries
mod Holders
mod Lookup
mod Tests
use eva_driver.Prelude.{
  ℕ, zero, suc, ◌+◌, ◌-◌, Bool, true, false, not, ◌&&◌, ◌||◌, Option, none, some, List, [], ◌∷◌,
}
use eva_driver.Prelude.Tests.{ltb, ◌==◌, if◌then◌else◌}

-- `struct msm_cvp_inst`: where it is, its session object, its number and its references.
pub record Instance : Type 0 where
  pub address : ℕ
  pub session : ℕ
  pub sess_id : ℕ
  pub kref : ℕ

-- `struct msm_cvp_core`: the instances, and `sess_idr`, which answers 0 for a number without object.
pub record Instances : Type 0 where
  pub instances : List Instance
  pub sess_idr : ℕ → ℕ

pub find_inst : ℕ → List Instance → Option Instance
find_inst d [] = none
find_inst d (i ∷ is) = elim (d == i.address) [ true ↦ some i | false ↦ find_inst d is ]

-- A change of one instance, in place.
pub update_inst : ℕ → (Instance → Instance) → List Instance → List Instance
update_inst d f [] = []
update_inst d f (i ∷ is) = elim (d == i.address) [
  | true ↦ f i ∷ is
  | false ↦ i ∷ update_inst d f is
]

-- `list_del`, of the instance with that address.
pub remove_inst : ℕ → List Instance → List Instance
remove_inst d [] = []
remove_inst d (i ∷ is) = elim (d == i.address) [
  | true ↦ remove_inst d is
  | false ↦ i ∷ remove_inst d is
]

abbrev pub inc_kref : Instance → Instance
inc_kref i = record i { kref = i.kref + 1 }

abbrev pub dec_kref : Instance → Instance
dec_kref i = record i { kref = i.kref - 1 }

-- `cvp_get_inst`: the instance found, with one more reference.
pub get_inst : ℕ → Instances → Option Instance × Instances
get_inst zero c = (none, c)
get_inst (suc d) c = elim (find_inst (suc d) c.instances) [
  | some i ↦
      if not (i.session == 0) && not (i.kref == 0)
      then (some (inc_kref i), record c { instances = update_inst (suc d) inc_kref c.instances })
      else (none, c)
  | none ↦ (none, c)
]

-- `cvp_put_inst`, and `put_inst_helper` where it puts the last reference. A pointer to an instance
-- that is not in the list does nothing here.
pub put_inst : ℕ → Instances → Instances
put_inst d c = elim (find_inst d c.instances) [
  | some i ↦
      if ltb i.kref 1
      then c
      else if i.kref == 1
      then record c { instances = remove_inst d c.instances }
      else record c { instances = update_inst d dec_kref c.instances }
  | none ↦ c
]

-- `get_sess_from_idr`.
pub get_sess_from_idr : Instances → Instance → ℕ
get_sess_from_idr c i = c.sess_idr i.sess_id

-- `cvp_get_inst_validate`, given which session objects `validate_session` accepts.
pub get_inst_validate : (ℕ → Bool) → ℕ → Instances → Option Instance × Instances
get_inst_validate accepts d c =
    let got = get_inst d c in
    elim got.0 [
      | none ↦ (none, got.1)
      | some i ↦
          let sess = get_sess_from_idr got.1 i in
          if sess == 0 || not (sess == i.session)
          then (none, got.1)
          else if accepts sess
          then (some i, got.1)
          else (none, put_inst d got.1)
    ]
