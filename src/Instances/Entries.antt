-- ===== src/Instances/Entries.antt =====
-- What a change or a removal of one instance leaves of the list.
use eva_driver.Prelude.{ℕ, ◌≡◌, ◌≢◌, refl, ap, inl, inr, none, some, List, [], ◌∷◌, arith}
use eva_driver.Prelude.Tests.{◌==◌, Bool-cases}
use eva_driver.Instances.{Instance, find_inst, update_inst, remove_inst, inc_kref, dec_kref}

pub find_inst-update :
    (d : ℕ) (f : Instance → Instance) (is : List Instance) {i : Instance}
    → ((j : Instance) → (f j).address ≡ j.address)
    → find_inst d is ≡ some i
    → find_inst d (update_inst d f is) ≡ some (f i)
unfolding find_inst update_inst
find_inst-update d f [] keeps e = absurd (cc)
find_inst-update d f (j ∷ js) {i} keeps e = elim (Bool-cases (d == j.address)) [
  | inl here ↦ let q : j ≡ i = ground (arith, here) in ground (arith, here, keeps j, ap f q)
  | inr further ↦
      let q : find_inst d js ≡ some i = ground (arith, further) in
      ground (arith, further, find_inst-update d f js keeps q)
]

pub find_inst-update_other :
    (d e : ℕ) (f : Instance → Instance) (is : List Instance)
    → ((j : Instance) → (f j).address ≡ j.address)
    → d ≢ e
    → find_inst e (update_inst d f is) ≡ find_inst e is
unfolding find_inst update_inst
find_inst-update_other d e f [] keeps ne = refl
find_inst-update_other d e f (j ∷ js) keeps ne =
    ground (arith, keeps j, find_inst-update_other d e f js keeps ne)

pub find_inst-remove : (d : ℕ) (is : List Instance) → find_inst d (remove_inst d is) ≡ none
unfolding find_inst remove_inst
find_inst-remove d [] = refl
find_inst-remove d (j ∷ js) = ground (arith, find_inst-remove d js)

pub find_inst-remove_other :
    (d e : ℕ) (is : List Instance) → d ≢ e → find_inst e (remove_inst d is) ≡ find_inst e is
unfolding find_inst remove_inst
find_inst-remove_other d e [] ne = refl
find_inst-remove_other d e (j ∷ js) ne = ground (arith, find_inst-remove_other d e js ne)

-- The reference that was counted last is not.
dec-inc : (i : Instance) → dec_kref (inc_kref i) ≡ i
dec-inc i = ap (λ k. record i { kref = k }) (omega arith)

pub update-update :
    (d : ℕ) (is : List Instance) → update_inst d dec_kref (update_inst d inc_kref is) ≡ is
unfolding update_inst
update-update d [] = refl
update-update d (j ∷ js) = ground (arith, dec-inc j, update-update d js)
