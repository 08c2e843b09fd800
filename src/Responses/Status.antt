-- ===== src/Responses/Status.antt =====
-- The firmware's error codes in the driver's own (`hfi_map_err_status` of
-- msm/eva/hfi_response_handler.c).
use eva_driver.Prelude.{ℕ, Bool, false, ◌||◌, List, [], ◌∷◌}
use eva_driver.Prelude.Tests.{◌==◌, if◌then◌else◌}

one_of : ℕ → List ℕ → Bool
one_of n [] = false
one_of n (x ∷ xs) = n == x || one_of n xs

-- The cases of the switch, by the numbers of the codes: `enum cvp_status` on the right.
unfoldable pub map_err_status : ℕ → ℕ
unfolding one_of
map_err_status n =
    if n == 0
    then 0
    else if n == 1
    then 0x80000009
    else if n == 0x16
    then 0x80000013
    else if one_of n (3 ∷ 2 ∷ 8 ∷ 0x1002 ∷ 0x1004 ∷ 0x1005 ∷ [])
    then 0x80000003
    else if one_of n (4 ∷ 0x1007 ∷ 0x1008 ∷ 0x1009 ∷ 0x100d ∷ [])
    then 0x80000005
    else if n == 5
    then 0x80000007
    else if n == 7
    then 0x90000001
    else if n == 0x1001
    then 0x90000002
    else if n == 0x1003
    then 0x80000003
    else if n == 0x1006
    then 0x80000006
    else 0x80000000
