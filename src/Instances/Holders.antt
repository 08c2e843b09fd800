-- ===== src/Instances/Holders.antt =====
-- How long an instance lives (msm/eva/msm_cvp_common.c): its opener has a reference from
-- `msm_cvp_open` to `msm_cvp_close`, and every user of `cvp_get_inst` has one until `cvp_put_inst`.
use eva_driver.Prelude.{
  ℕ, zero, suc, ◌≡◌, ◌≢◌, ◌↔◌, refl, sym, ap, ◌∙◌, subst, true, false, inl, inr, none, some, List,
  [], ◌∷◌, arith,
}
use eva_driver.Prelude.Tests.{◌==◌, Bool-cases, Option-cases}
use eva_driver.Instances.{
  Instance, Instances, find_inst, update_inst, inc_kref, dec_kref, get_inst, put_inst,
}
use eva_driver.Instances.Entries.{
  find_inst-update, find_inst-update_other, find_inst-remove, find_inst-remove_other,
}
use eva_driver.Instances.Lookup.{put_inst-many, put_inst-last, get_inst-some, get_inst-none}

-- What users do, each with an address: get a reference, put one that they have, or, in
-- `msm_cvp_comm_session_clean`, take the session object away.
pub data Use : Type 0 where
  gets puts cleans : ℕ → Use

abbrev clean : Instance → Instance
clean i = record i { session = 0 }

-- A user who has no reference puts none.
put_held : ℕ → ℕ → Instances → ℕ × Instances
put_held d zero c = (zero, c)
put_held d (suc n) c = (n, put_inst d c)

-- One use, where `n` references to the instance at `d` are held.
step : ℕ → Use → ℕ × Instances → ℕ × Instances
step d (gets a) (n, c) = elim (get_inst a c).0 [
  | some i ↦ (elim (a == d) [ true ↦ suc n | false ↦ n ], (get_inst a c).1)
  | none ↦ (n, (get_inst a c).1)
]
step d (puts a) (n, c) = elim (a == d) [ true ↦ put_held d n c | false ↦ (n, put_inst a c) ]
step d (cleans a) (n, c) = (n, record c { instances = update_inst a clean c.instances })

pub run : ℕ → List Use → ℕ × Instances → ℕ × Instances
run d [] s = s
run d (u ∷ us) s = run d us (step d u s)

-- The instance is in the list, with a reference for each user that has one and one for its opener.
unfoldable pub IsHeld : ℕ → ℕ × Instances → Type 0
IsHeld d (n, c) = (i : Instance) × (find_inst d c.instances ≡ some i) × (i.kref ≡ suc n)

update-IsHeld :
    (d n m : ℕ) (c : Instances) (f : Instance → Instance)
    → ((j : Instance) → (f j).address ≡ j.address)
    → ((j : Instance) → j.kref ≡ suc n → (f j).kref ≡ suc m)
    → IsHeld d (n, c)
    → IsHeld d (m, record c { instances = update_inst d f c.instances })
unfolding IsHeld
update-IsHeld d n m c f keeps counts (i, found, held) =
    (f i, find_inst-update d f c.instances keeps found, counts i held)

other-IsHeld :
    (a d n : ℕ) (c : Instances) (f : Instance → Instance)
    → ((j : Instance) → (f j).address ≡ j.address)
    → a ≢ d
    → IsHeld d (n, c)
    → IsHeld d (n, record c { instances = update_inst a f c.instances })
unfolding IsHeld
other-IsHeld a d n c f keeps ne (i, found, held) =
    (i, find_inst-update_other a d f c.instances keeps ne ∙ found, held)

get-IsHeld :
    (d n : ℕ) (c : Instances) {i : Instance}
    → (get_inst d c).0 ≡ some i
    → IsHeld d (n, c)
    → IsHeld d (suc n, (get_inst d c).1)
get-IsHeld d n c e h =
    let (j, found, live, used, same, left) = get_inst-some d c e in
    subst (λ t. IsHeld d (suc n, t)) (sym left)
      (update-IsHeld d n (suc n) c inc_kref (λ k. refl) (λ k q. omega (arith, q)) h)

get_other-IsHeld :
    (a d n : ℕ) (c : Instances) {i : Instance}
    → a ≢ d
    → (get_inst a c).0 ≡ some i
    → IsHeld d (n, c)
    → IsHeld d (n, (get_inst a c).1)
get_other-IsHeld a d n c ne e h =
    let (j, found, live, used, same, left) = get_inst-some a c e in
    subst (λ t. IsHeld d (n, t)) (sym left) (other-IsHeld a d n c inc_kref (λ k. refl) ne h)

put-IsHeld : (d n : ℕ) (c : Instances) → IsHeld d (suc n, c) → IsHeld d (n, put_inst d c)
unfolding IsHeld
put-IsHeld d n c (i, found, held) =
    subst (λ t. IsHeld d (n, t)) (sym (put_inst-many d c found (omega (arith, held))))
      (update-IsHeld d (suc n) n c dec_kref (λ k. refl) (λ k q. omega (arith, q)) (i, found, held))

find_inst-put_other :
    (a d : ℕ) (c : Instances)
    → a ≢ d
    → find_inst d (put_inst a c).instances ≡ find_inst d c.instances
unfolding put_inst
find_inst-put_other a d c ne = ground (
  arith,
  find_inst-update_other a d dec_kref c.instances (λ k. refl) ne,
  find_inst-remove_other a d c.instances ne,
)

put_other-IsHeld :
    (a d n : ℕ) (c : Instances) → a ≢ d → IsHeld d (n, c) → IsHeld d (n, put_inst a c)
unfolding IsHeld
put_other-IsHeld a d n c ne (i, found, held) = (i, find_inst-put_other a d c ne ∙ found, held)

put_held-IsHeld : (d n : ℕ) (c : Instances) → IsHeld d (n, c) → IsHeld d (put_held d n c)
unfolding put_held
put_held-IsHeld d zero c h = h
put_held-IsHeld d (suc n) c h = put-IsHeld d n c h

step-IsHeld : (d : ℕ) (u : Use) (s : ℕ × Instances) → IsHeld d s → IsHeld d (step d u s)
unfolding step put_held
step-IsHeld d (gets a) (n, c) h = elim (Option-cases (get_inst a c).0) [
  | inl q ↦
      let e : step d (gets a) (n, c) ≡ (n, c) = ground (arith, q, get_inst-none a c q) in
      subst (IsHeld d) (sym e) h
  | inr (i, q) ↦ elim (Bool-cases (a == d)) [
    | inl y ↦
        let p : a ≡ d = ground (arith, y) in
        let e : step d (gets a) (n, c) ≡ (suc n, (get_inst a c).1) = ground (arith, q, y) in
        let w : IsHeld a (suc n, (get_inst a c).1) =
          get-IsHeld a n c q (subst (λ b. IsHeld b (n, c)) (sym p) h) in
        subst (IsHeld d) (sym e) (subst (λ b. IsHeld b (suc n, (get_inst a c).1)) p w)
    | inr ne ↦
        let e : step d (gets a) (n, c) ≡ (n, (get_inst a c).1) = ground (arith, q, ne) in
        subst (IsHeld d) (sym e) (get_other-IsHeld a d n c (ground (arith, ne)) q h)
  ]
]
step-IsHeld d (puts a) (n, c) h = elim (Bool-cases (a == d)) [
  | inl y ↦
      let e : step d (puts a) (n, c) ≡ put_held d n c = ground (arith, y) in
      subst (IsHeld d) (sym e) (put_held-IsHeld d n c h)
  | inr ne ↦
      let e : step d (puts a) (n, c) ≡ (n, put_inst a c) = ground (arith, ne) in
      subst (IsHeld d) (sym e) (put_other-IsHeld a d n c (ground (arith, ne)) h)
]
step-IsHeld d (cleans a) (n, c) h = elim (Bool-cases (a == d)) [
  | inl y ↦
      let q : d ≡ a = ground (arith, y) in
      subst (λ b. IsHeld d (n, record c { instances = update_inst b clean c.instances })) q
        (update-IsHeld d n n c clean (λ j. refl) (λ j e. e) h)
  | inr ne ↦ other-IsHeld a d n c clean (λ j. refl) (ground (arith, ne)) h
]

run-IsHeld : (d : ℕ) (us : List Use) (s : ℕ × Instances) → IsHeld d s → IsHeld d (run d us s)
unfolding run
run-IsHeld d [] s h = h
run-IsHeld d (u ∷ us) s h = run-IsHeld d us (step d u s) (step-IsHeld d u s h)

put_inst-gone :
    (d n : ℕ) (c : Instances)
    → IsHeld d (n, c)
    → n ≡ 0
    → find_inst d (put_inst d c).instances ≡ none
unfolding IsHeld
put_inst-gone d n c (i, found, held) last =
    ap (λ t. find_inst d t.instances) (put_inst-last d c found (omega (arith, held, last)))
    ∙ find_inst-remove d c.instances

put_inst-lives :
    (d n : ℕ) (c : Instances)
    → IsHeld d (n, c)
    → find_inst d (put_inst d c).instances ≡ none
    → n ≡ 0
unfolding IsHeld
put_inst-lives d zero c h gone = refl
put_inst-lives d (suc n) c h gone =
    let (i, found, held) = put-IsHeld d n c h in absurd (cc (found, gone))

-- Whatever its users get and put, an opened instance is destroyed by the put of its opener
-- exactly if no user has a reference then, and until then it is in the list, with one reference for
-- each of them and one for the opener.
pub run-lives :
    (d : ℕ) (us : List Use) (c : Instances)
    → IsHeld d (0, c)
    → let s = run d us (0, c) in
      IsHeld d s × ((find_inst d (put_inst d s.1).instances ≡ none) ↔ (s.0 ≡ 0))
run-lives d us c h =
    let s = run d us (0, c) in
    let w = run-IsHeld d us (0, c) h in
    (w, (λ gone. put_inst-lives d s.0 s.1 w gone, λ last. put_inst-gone d s.0 s.1 w last))
