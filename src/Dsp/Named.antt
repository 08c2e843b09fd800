-- ===== src/Dsp/Named.antt =====
-- The names and the sessions of the processes of the DSP (msm/eva/msm_cvp_dsp.c).
use eva_driver.Prelude.{
  ℕ, zero, suc, ◌+◌, ◌%◌, ◌<◌, ◌≡◌, refl, subst, ap, ◌∙◌, Bool, true, false, some, List, [], ◌∷◌,
  ◌++◌, inl, inr, arith,
}
use eva_driver.Prelude.Tests.{◌==◌, if◌then◌else◌, Bool-cases, Option-cases}
use eva_driver.Prelude.Lists.{length, get_or, set, All, All-append}
use eva_driver.Prelude.Words.{u32_mod, sub32}
use eva_driver.Prelude.Errno.{Rc}
use eva_driver.Dsp.Nodes.{
  Node, Frpc, find_node, remove_node, update_node, first_free, get_node, put_node, release_name,
  Registering, with_node, driver_register, drop_sessions, driver_unregister, add_sess, del_sess,
  remove_dsp_sessions,
}

abbrev hit : ℕ → Node → ℕ
hit i n = if n.name_idx == i then 1 else 0

-- How many entries have the name.
unfoldable pub count_name : ℕ → List Node → ℕ
count_name i [] = 0
count_name i (n ∷ ns) = hit i n + count_name i ns

abbrev pub SessionsCounted : Node → Type 0
SessionsCounted n = n.session_cnt ≡ length n.sessions % u32_mod

-- A name that is in use is that of one entry, any other name is that of none, and each entry counts
-- its sessions.
pub record IsNamed (f : Frpc) : Type 0 where
  pub once : (i : ℕ) → count_name i f.nodes ≡ (if get_or f.names i false then 1 else 0)
  pub counted : All SessionsCounted f.nodes

get_or-set-false :
    (xs : List Bool) (k i : ℕ)
    → get_or (set xs k false) i false ≡ (if k == i then false else get_or xs i false)
get_or-set-false [] k i = ground arith
get_or-set-false (x ∷ xs) zero zero = refl
get_or-set-false (x ∷ xs) zero (suc i) = ground arith
get_or-set-false (x ∷ xs) (suc k) zero = ground arith
get_or-set-false (x ∷ xs) (suc k) (suc i) = ground (arith, get_or-set-false xs k i)

get_or-set-true :
    (xs : List Bool) (k i : ℕ)
    → k < length xs
    → get_or (set xs k true) i false ≡ (if k == i then true else get_or xs i false)
get_or-set-true [] k i h = absurd (omega arith)
get_or-set-true (x ∷ xs) zero zero h = refl
get_or-set-true (x ∷ xs) zero (suc i) h = ground arith
get_or-set-true (x ∷ xs) (suc k) zero h = ground arith
get_or-set-true (x ∷ xs) (suc k) (suc i) h = ground (arith, get_or-set-true xs k i)

first_free_lem :
    (xs : List Bool) {k : ℕ}
    → first_free xs ≡ some k
    → (k < length xs) × (get_or xs k false ≡ false)
unfolding first_free
first_free_lem [] e = absurd (cc)
first_free_lem (false ∷ xs) {k} e =
    let z : 0 ≡ k = cc in
    subst (λ k. (k < suc (length xs)) × (get_or (false ∷ xs) k false ≡ false)) z (omega arith, refl)
first_free_lem (true ∷ xs) {k} e = elim (Option-cases (first_free xs)) [
  | inl f ↦ let e' = rw (first_free, f) at e in absurd (cc)
  | inr (j, f) ↦
      let e' = rw (first_free, f) at e in
      let z : suc j ≡ k = cc in
      subst (λ k. (k < suc (length xs)) × (get_or (true ∷ xs) k false ≡ false)) z
        (let r = first_free_lem xs f in (omega (arith, r.0), r.1))
]

count-append :
    (i : ℕ) (ns : List Node) (n : Node) → count_name i (ns ++ (n ∷ [])) ≡ count_name i ns + hit i n
unfolding count_name
count-append i [] n = omega arith
count-append i (m ∷ ns) n = omega (arith, count-append i ns n)

count-remove :
    (i h : ℕ) (ns : List Node) {n : Node}
    → find_node h ns ≡ some n
    → count_name i ns ≡ count_name i (remove_node h ns) + hit i n
unfolding count_name find_node remove_node
count-remove i h [] e = absurd (cc)
count-remove i h (m ∷ ns) {n} e = elim (Bool-cases (m.handle == h)) [
  | inl z ↦ let q = rw z at e in let e' : m ≡ n = cc in rw z (omega (arith, ap (hit i) e'))
  | inr z ↦ let e' = rw z at e in rw z (omega (arith, count-remove i h ns e'))
]

count-update :
    (i h : ℕ) (g : Node → Node) (ns : List Node)
    → ((n : Node) → (g n).name_idx ≡ n.name_idx)
    → count_name i (update_node h g ns) ≡ count_name i ns
unfolding count_name update_node
count-update i h g [] keep = refl
count-update i h g (n ∷ ns) keep = elim (Bool-cases (n.handle == h)) [
  | inl z ↦ rw (z, keep n) refl
  | inr z ↦ rw z (omega (arith, count-update i h g ns keep))
]

-- The sessions of what is left.
module _ (h : ℕ) where
  All-remove : (ns : List Node) → All SessionsCounted ns → All SessionsCounted (remove_node h ns)
  unfolding remove_node
  All-remove [] a = tt
  All-remove (n ∷ ns) a = elim (Bool-cases (n.handle == h)) [
    | inl z ↦ rw z a.1
    | inr z ↦ rw z (a.0, All-remove ns a.1)
  ]

  pub All-found :
      (ns : List Node) {n : Node}
      → All SessionsCounted ns
      → find_node h ns ≡ some n
      → SessionsCounted n
  unfolding find_node
  All-found [] a e = absurd (cc)
  All-found (m ∷ ns) {n} a e = elim (Bool-cases (m.handle == h)) [
    | inl z ↦ let q = rw z at e in let e' : m ≡ n = cc in subst SessionsCounted e' a.0
    | inr z ↦ All-found ns a.1 (rw z at e)
  ]

  All-update :
      (g : Node → Node) (ns : List Node)
      → ((n : Node) → SessionsCounted n → SessionsCounted (g n))
      → All SessionsCounted ns
      → All SessionsCounted (update_node h g ns)
  unfolding update_node
  All-update g [] keep a = tt
  All-update g (n ∷ ns) keep a = elim (Bool-cases (n.handle == h)) [
    | inl z ↦ rw z (keep n a.0, a.1)
    | inr z ↦ rw z (a.0, All-update g ns keep a.1)
  ]

pub drop_sessions_lem :
    (ss : List ℕ) (cnt : ℕ) → cnt ≡ length ss % u32_mod → drop_sessions ss cnt ≡ 0
unfolding drop_sessions
drop_sessions_lem [] cnt e = omega (arith, e)
drop_sessions_lem (s ∷ ss) cnt e = drop_sessions_lem ss (sub32 cnt 1) (omega (arith, e))

-- What removing an entry and freeing its name leaves.
pub freed-IsNamed :
    (h : ℕ) (n : Node) (f : Frpc)
    → find_node h f.nodes ≡ some n
    → IsNamed f
    → IsNamed (release_name n (record f { nodes = remove_node h f.nodes }))
unfolding release_name
freed-IsNamed h n f e v = record {
  once = λ i.
      let a = count-remove i h f.nodes e in
      let b = get_or-set-false f.names n.name_idx i in
      let c = v.once i in rw b (ground (arith, a, c));
  counted = All-remove h f.nodes v.counted;
}

-- A new entry takes a free name.
taken :
    (n : Node) (f : Frpc) (i : ℕ)
    → get_or f.names n.name_idx false ≡ false
    → count_name i f.nodes ≡ (if get_or f.names i false then 1 else 0)
    → count_name i f.nodes + hit i n
      ≡ (if (if n.name_idx == i then true else get_or f.names i false) then 1 else 0)
taken n f i free c = elim (Bool-cases (n.name_idx == i)) [
  | inl z ↦
      let q : n.name_idx ≡ i = ground (arith, z) in
      let c' = rw (subst (λ k. get_or f.names k false ≡ false) q free) at c in
      rw z (omega (arith, c'))
  | inr z ↦ rw z (omega (arith, c))
]

pub with_node-IsNamed :
    (n : Node) (f : Frpc)
    → first_free f.names ≡ some n.name_idx
    → SessionsCounted n
    → IsNamed f
    → IsNamed (with_node n f)
with_node-IsNamed n f e s v =
    let (inside, free) = first_free_lem f.names e in
    record {
      once = λ i.
          let a = count-append i f.nodes n in
          let b = get_or-set-true f.names n.name_idx i inside in
          rw (a, b) (taken n f i free (v.once i));
      counted = All-append SessionsCounted f.nodes (n ∷ []) v.counted (s, tt);
    }

pub update-IsNamed :
    (h : ℕ) (g : Node → Node) (f : Frpc)
    → ((n : Node) → (g n).name_idx ≡ n.name_idx)
    → ((n : Node) → SessionsCounted n → SessionsCounted (g n))
    → IsNamed f
    → IsNamed (record f { nodes = update_node h g f.nodes })
update-IsNamed h g f keep count v = record {
  once = λ i. count-update i h g f.nodes keep ∙ v.once i;
  counted = All-update h g f.nodes count v.counted;
}

-- What happens to the processes: one registers, or its end is told; a look takes a reference or gives
-- one back; a session is added or found and taken off.
pub data Change : Type 0 where
  register : Registering → ℕ → Change
  unregister : List ℕ → List Rc → Bool → ℕ → Change
  get put : ℕ → Change
  add remove : ℕ → ℕ → Change
  remove_all : List (List ℕ) → Change

unfoldable pub apply_change : Change → Frpc → Frpc
apply_change (register r h) f = (driver_register r h f).1
apply_change (unregister seen us force h) f = driver_unregister seen us force h f
apply_change (get h) f = (get_node h f).1
apply_change (put h) f = put_node h f
apply_change (add h inst) f = add_sess h inst f
apply_change (remove h inst) f = (del_sess h inst f).1
apply_change (remove_all seen) f = remove_dsp_sessions f.nodes seen f

unfoldable pub run_changes : List Change → Frpc → Frpc
run_changes [] f = f
run_changes (c ∷ cs) f = run_changes cs (apply_change c f)
