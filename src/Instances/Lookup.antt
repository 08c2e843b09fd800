-- ===== src/Instances/Lookup.antt =====
-- What `cvp_get_inst`, `cvp_get_inst_validate` and `cvp_put_inst` (msm/eva/msm_cvp_common.c) do to
-- the references.
use eva_driver.Prelude.{
  ℕ, zero, suc, ◌+◌, ◌≤◌, ◌≡◌, ◌≢◌, ◌⊎◌, refl, sym, ap, ◌∙◌, subst, Bool, true, false, inl, inr,
  Option, none, some, arith,
}
use eva_driver.Prelude.Tests.{◌==◌, Bool-cases, Option-cases}
use eva_driver.Instances.{
  Instance, Instances, find_inst, update_inst, remove_inst, inc_kref, dec_kref, get_inst, put_inst,
  get_sess_from_idr, get_inst_validate,
}
use eva_driver.Instances.Entries.{find_inst-update, update-update}

-- What a reference that was got says of the list.
pub get_inst-some :
    (d : ℕ) (c : Instances) {i : Instance}
    → (get_inst d c).0 ≡ some i
    → (j : Instance) × (find_inst d c.instances ≡ some j)
      × (j.session ≢ 0)
      × (j.kref ≢ 0)
      × (i ≡ inc_kref j)
      × ((get_inst d c).1 ≡ record c { instances = update_inst d inc_kref c.instances })
unfolding get_inst
get_inst-some zero c e = absurd (cc)
get_inst-some (suc d) c {i} e = elim (Option-cases (find_inst (suc d) c.instances)) [
  | inl n ↦ absurd (ground (arith, n))
  | inr (j, q) ↦ (j, q, ground (arith, q), ground (arith, q), ground (arith, q), ground (arith, q))
]

pub get_inst-none : (d : ℕ) (c : Instances) → (get_inst d c).0 ≡ none → (get_inst d c).1 ≡ c
unfolding get_inst
get_inst-none zero c e = refl
get_inst-none (suc d) c e = ground arith

-- A put of one of several references.
pub put_inst-many :
    (d : ℕ) (c : Instances) {j : Instance}
    → find_inst d c.instances ≡ some j
    → 2 ≤ j.kref
    → put_inst d c ≡ record c { instances = update_inst d dec_kref c.instances }
unfolding put_inst
put_inst-many d c q two = ground (arith, q)

pub put_inst-last :
    (d : ℕ) (c : Instances) {j : Instance}
    → find_inst d c.instances ≡ some j
    → j.kref ≡ 1
    → put_inst d c ≡ record c { instances = remove_inst d c.instances }
unfolding put_inst
put_inst-last d c q one = ground (arith, q)

-- Where a session gets a reference, putting it gives the list back as it was, with every reference
-- and every instance.
pub put_inst-get_inst :
    (d : ℕ) (c : Instances) (i : Instance)
    → (get_inst d c).0 ≡ some i
    → put_inst d (get_inst d c).1 ≡ c
put_inst-get_inst d c i e =
    let (j, found, live, used, same, left) = get_inst-some d c e in
    let more = record c { instances = update_inst d inc_kref c.instances } in
    let now = find_inst-update d inc_kref c.instances (λ k. refl) found in
    let two : 2 ≤ j.kref + 1 = omega (arith, used) in
    ap (put_inst d) left
    ∙ put_inst-many d more now two
    ∙ ap (λ l. record c { instances = l }) (update-update d c.instances)

-- The three ways in which `get_inst_validate` ends.
unfoldable pub Outcome : (ℕ → Bool) → ℕ → Instances → Option Instance × Instances → Type 0
Outcome accepts d c (o, c') =
    ((i : Instance) × (find_inst d c'.instances ≡ some i)
      × (o ≡ some i)
      × (c' ≡ record c { instances = update_inst d inc_kref c.instances })
      × (c.sess_idr i.sess_id ≡ i.session)
      × (accepts i.session ≡ true))
    ⊎ ((o ≡ none) × (c' ≡ c))
    ⊎ ((i : Instance) × (find_inst d c'.instances ≡ some i)
        × (o ≡ none)
        × (c' ≡ record c { instances = update_inst d inc_kref c.instances })
        × (c.sess_idr i.sess_id ≢ i.session))

module _ (accepts : ℕ → Bool) (d : ℕ) (c : Instances) {i : Instance}
    (e : (get_inst d c).0 ≡ some i) where
  abbrev filed : ℕ
  filed = (get_inst d c).1.sess_idr i.sess_id

  validate-mismatch : filed ≢ i.session → get_inst_validate accepts d c ≡ (none, (get_inst d c).1)
  unfolding get_inst_validate get_sess_from_idr
  validate-mismatch ne = ground (arith, e)

  validate-accepted :
      filed ≡ i.session
      → i.session ≢ 0
      → accepts i.session ≡ true
      → get_inst_validate accepts d c ≡ (some i, (get_inst d c).1)
  unfolding get_inst_validate get_sess_from_idr
  validate-accepted same live a = ground (arith, e, ap accepts same)

  validate-refused :
      filed ≡ i.session
      → i.session ≢ 0
      → accepts i.session ≡ false
      → get_inst_validate accepts d c ≡ (none, c)
  unfolding get_inst_validate get_sess_from_idr
  validate-refused same live a = ground (arith, e, ap accepts same, put_inst-get_inst d c i e)

  get-Outcome : Outcome accepts d c (get_inst_validate accepts d c)
  unfolding Outcome
  get-Outcome =
      let (j, found, live, used, same, left) = get_inst-some d c e in
      let counted : Instances = record c { instances = update_inst d inc_kref c.instances } in
      let now : find_inst d counted.instances ≡ some i =
        find_inst-update d inc_kref c.instances (λ k. refl) found ∙ ap some (sym same) in
      let files : filed ≡ c.sess_idr i.sess_id = ap (λ t. t.sess_idr i.sess_id) left in
      let alive : i.session ≢ 0 = λ z. live (ap (λ k. k.session) (sym same) ∙ z) in
      let ends : (o : Option Instance) → (o, (get_inst d c).1) ≡ (o, counted) =
        λ o. ap {B = Option Instance × Instances} (λ t. (o, t)) left in
      elim (Bool-cases (filed == i.session)) [
        | inr n ↦
            let ne : filed ≢ i.session = ground (arith, n) in
            let w : Outcome accepts d c (none, counted) =
              inr (inr (i, now, refl, refl, λ q. ne (files ∙ q))) in
            let e' : get_inst_validate accepts d c ≡ (none, counted) =
              validate-mismatch ne ∙ ends none in
            subst (Outcome accepts d c) (sym e') w
        | inl y ↦
            let eq : filed ≡ i.session = ground (arith, y) in
            elim (Bool-cases (accepts i.session)) [
              | inl a ↦
                  let w : Outcome accepts d c (some i, counted) =
                    inl (i, now, refl, refl, sym files ∙ eq, a) in
                  let e' : get_inst_validate accepts d c ≡ (some i, counted) =
                    validate-accepted eq alive a ∙ ends (some i) in
                  subst (Outcome accepts d c) (sym e') w
              | inr r ↦
                  let w : Outcome accepts d c (none, c) = inr (inl (refl, refl)) in
                  subst (Outcome accepts d c) (sym (validate-refused eq alive r)) w
            ]
      ]

validate-none :
    (accepts : ℕ → Bool) (d : ℕ) (c : Instances)
    → (get_inst d c).0 ≡ none
    → get_inst_validate accepts d c ≡ (none, c)
unfolding get_inst_validate
validate-none accepts d c n = ground (arith, n, get_inst-none d c n)

-- `cvp_get_inst_validate` ends in one of three ways. The instance is returned, with one more
-- reference, and its session object is the one filed under its number and is accepted; or null is
-- returned and no reference changes; or the session object is not the one filed under the number,
-- and then null is returned while the instance has one more reference.
pub get_inst_validate_lem :
    (accepts : ℕ → Bool) (d : ℕ) (c : Instances)
    → Outcome accepts d c (get_inst_validate accepts d c)
unfolding Outcome
get_inst_validate_lem accepts d c = elim (Option-cases (get_inst d c).0) [
  | inl n ↦
      let w : Outcome accepts d c (none, c) = inr (inl (refl, refl)) in
      subst (Outcome accepts d c) (sym (validate-none accepts d c n)) w
  | inr (i, e) ↦ get-Outcome accepts d c e
]

get_inst-live :
    (d : ℕ) (c : Instances) {j : Instance}
    → d ≢ 0
    → find_inst d c.instances ≡ some j
    → j.session ≢ 0
    → j.kref ≢ 0
    → (get_inst d c).0 ≡ some (inc_kref j)
unfolding get_inst
get_inst-live zero c ne q live used = absurd (ne refl)
get_inst-live (suc d) c ne q live used = ground (arith, q)

-- If only its opener has a reference to an instance with a session object, and that object is not the
-- one filed under the session's number, then `cvp_get_inst_validate` returns null, and afterwards the
-- opener's put leaves the instance in the list as it was before: the reference that was taken is put
-- by nobody.
pub get_inst_validate-leaks :
    (accepts : ℕ → Bool) (d : ℕ) (c : Instances) (j : Instance)
    → d ≢ 0
    → find_inst d c.instances ≡ some j
    → j.session ≢ 0
    → j.kref ≡ 1
    → c.sess_idr j.sess_id ≢ j.session
    → ((get_inst_validate accepts d c).0 ≡ none)
      × (find_inst d (put_inst d (get_inst_validate accepts d c).1).instances ≡ some j)
get_inst_validate-leaks accepts d c j ne q live one other =
    let e = get_inst-live d c ne q live (λ z. absurd (omega (arith, z, one))) in
    let (k, found, _, _, _, left) = get_inst-some d c e in
    let files : filed accepts d c e ≡ c.sess_idr j.sess_id = ap (λ t. t.sess_idr j.sess_id) left in
    let r = validate-mismatch accepts d c e (λ p. other (sym files ∙ p)) in
    (
      ap (λ t. t.0) r,
      ap (λ t. find_inst d (put_inst d t.1).instances) r
          ∙ ap (λ t. find_inst d t.instances) (put_inst-get_inst d c (inc_kref j) e)
          ∙ q,
    )
