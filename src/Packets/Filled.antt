-- ===== src/Packets/Filled.antt =====
-- What the stores into a packet leave (msm/eva/hfi_packetization.c).
use eva_driver.Prelude.{ℕ, zero, suc, ◌<◌, ◌≡◌, refl, some, List, [], ◌∷◌, arith}
use eva_driver.Prelude.Tests.{◌==◌, if◌then◌else◌, ltb-true}
use eva_driver.Prelude.Lists.{length, get_or, set, All, length-set}
use eva_driver.Packets.{stores}

-- The word `k` after the assignments, if it was `d`.
abbrev pub latest : ℕ → ℕ → List (ℕ × ℕ) → ℕ
latest k d [] = d
latest k d ((i, v) ∷ rest) = latest k (if i == k then v else d) rest

get_or-set :
    (xs : List ℕ) (i k v : ℕ)
    → k < length xs
    → get_or (set xs i v) k 0 ≡ (if i == k then v else get_or xs k 0)
get_or-set [] i k v h = absurd (omega arith)
get_or-set (x ∷ xs) zero zero v h = refl
get_or-set (x ∷ xs) zero (suc k) v h = ground arith
get_or-set (x ∷ xs) (suc i) zero v h = ground arith
get_or-set (x ∷ xs) (suc i) (suc k) v h = ground (arith, get_or-set xs i k v)

-- What a packet must be for its assignments.
abbrev pub Within : ℕ → List (ℕ × ℕ) → Type 0
Within n fields = All (λ f. f.0 < n) fields

pub stores_lem :
    (buf : List ℕ) (fields : List (ℕ × ℕ))
    → Within (length buf) fields
    → (b : List ℕ) × (stores buf fields ≡ some b)
      × (length b ≡ length buf)
      × ((k : ℕ) → k < length buf → get_or b k 0 ≡ latest k (get_or buf k 0) fields)
unfolding stores
stores_lem buf [] w = (buf, refl, refl, λ k h. refl)
stores_lem buf ((i, v) ∷ rest) w =
    let e = length-set buf i v in
    let (b, s, l, g) = stores_lem (set buf i v) rest (rw e w.1) in
    (
      b,
      rw (ltb-true i (length buf) w.0) s,
      omega (arith, l, e),
      λ k h. rw (get_or-set buf i k v h) at (g k (omega (arith, e))),
    )
