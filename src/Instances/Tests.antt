-- ===== src/Instances/Tests.antt =====
-- The references to instances, and the theorems about them, at concrete inputs.
use eva_driver.Prelude.{ℕ, ◌+◌, ◌≡◌, ◌↔◌, refl, Bool, none, some, [], ◌∷◌}
use eva_driver.Prelude.Tests.{◌==◌, if◌then◌else◌}
use eva_driver.Instances.{
  Instance, Instances, find_inst, update_inst, get_inst, put_inst, get_inst_validate,
  get_sess_from_idr,
}
use eva_driver.Instances.Lookup.{Outcome, get_inst_validate_lem}
use eva_driver.Instances.Holders.{IsHeld, run, run-lives}
use eva_driver.Instances.Holders.Use.{gets, puts, cleans}

abbrev instance_at : ℕ → ℕ → Instance
instance_at d kref = record { address = d; session = 70 + d; sess_id = d; kref = kref }

-- The session object of instance 2 is not filed under its number.
abbrev registered : Instances
registered = record {
  instances = instance_at 1 1 ∷ instance_at 2 1 ∷ instance_at 3 4 ∷ [];
  sess_idr = λ n. if n == 1 then 71 else if n == 3 then 73 else 0;
}

abbrev accepts : ℕ → Bool
accepts s = s == 71

-- The object of instance 3 is refused, and its reference is put again.
refused : (get_inst_validate accepts 3 registered).1.instances ≡ registered.instances
unfolding get_inst_validate get_inst put_inst find_inst update_inst get_sess_from_idr
refused = refl

registered-IsHeld : IsHeld 1 (0, registered)
unfolding IsHeld find_inst
registered-IsHeld = (instance_at 1 1, refl, refl)

got : (get_inst 3 registered).0 ≡ some (instance_at 3 5)
unfolding get_inst find_inst
got = refl

found : find_inst 2 registered.instances ≡ some (instance_at 2 1)
unfolding find_inst
found = refl

get_inst_validate_lem_example :
    Outcome accepts 2 registered (get_inst_validate accepts 2 registered)
get_inst_validate_lem_example = get_inst_validate_lem accepts 2 registered

-- Two users, one of which comes after the session object is gone.
run-lives_example :
    let s = run 1 (gets 1 ∷ gets 3 ∷ cleans 1 ∷ gets 1 ∷ puts 1 ∷ puts 3 ∷ []) (0, registered) in
    IsHeld 1 s × ((find_inst 1 (put_inst 1 s.1).instances ≡ none) ↔ (s.0 ≡ 0))
run-lives_example =
    run-lives 1 (gets 1 ∷ gets 3 ∷ cleans 1 ∷ gets 1 ∷ puts 1 ∷ puts 3 ∷ []) registered
      registered-IsHeld
