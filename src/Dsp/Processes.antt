-- ===== src/Dsp/Processes.antt =====
-- What the changes to the list of processes keep (msm/eva/msm_cvp_dsp.c).
use eva_driver.Prelude.{
  ℕ, suc, ◌≡◌, refl, sym, ap, subst, ◌∙◌, Bool, true, false, ◌&&◌, none, some, List, [], ◌∷◌, ◌++◌,
  inl, inr, arith,
}
use eva_driver.Prelude.Tests.{◌==◌, if◌then◌else◌, Bool-cases, Option-cases}
use eva_driver.Prelude.Lists.{length, get_or, All, length-append}
use eva_driver.Prelude.Errno.{Rc}
use eva_driver.Session.{is_success}
use eva_driver.Dsp.Nodes.{
  Node, Frpc, find_node, remove_node, first_free, settles, node_looks, inc_ref_node, dec_ref_node,
  get_node, put_node, pop_node, release_name, Registering, new_node, with_node, unwind,
  driver_register, close_node, driver_unregister, add_sess, has_sess, remove_sess, less_sess,
  del_sess, remove_dsp_sessions,
}
use eva_driver.Dsp.Named.{
  IsNamed, SessionsCounted, Change, register, unregister, get, put, add, remove, remove_all,
  apply_change, run_changes, freed-IsNamed, with_node-IsNamed, update-IsNamed, drop_sessions_lem,
  All-found, count_name,
}

find-append :
    (h : ℕ) (ns : List Node) (n : Node)
    → find_node h ns ≡ none
    → (n.handle == h) ≡ true
    → find_node h (ns ++ (n ∷ [])) ≡ some n
unfolding find_node
find-append h [] n e t = rw t refl
find-append h (m ∷ ns) n e t = elim (Bool-cases (m.handle == h)) [
  | inl z ↦ let e' = rw z at e in absurd (cc)
  | inr z ↦ let e' = rw z at e in rw z (find-append h ns n e' t)
]

unwind-IsNamed :
    (seen : List ℕ) (n : Node) (f : Frpc)
    → find_node n.handle f.nodes ≡ some n
    → IsNamed f
    → IsNamed (unwind seen n f)
unfolding unwind
unwind-IsNamed seen n f e v = elim (Bool-cases (settles node_looks seen)) [
  | inl z ↦ rw z (freed-IsNamed n.handle n f e v)
  | inr z ↦ rw z v
]

register_new :
    (r : Registering) (h i : ℕ) (f : Frpc)
    → find_node h f.nodes ≡ none
    → first_free f.names ≡ some i
    → IsNamed f
    → IsNamed (driver_register r h f).1
unfolding driver_register
register_new r h i f e k v =
    let n = new_node h i (is_success r.register && r.probed) in
    let w = with_node-IsNamed n f k refl v in
    let same : (h == h) ≡ true = ground arith in
    let u = unwind-IsNamed r.seen n (with_node n f) (find-append h f.nodes n e same) w in
    simp (driver_register, e, k) (ground (arith, v, w, u))

register-IsNamed :
    (r : Registering) (h : ℕ) (f : Frpc) → IsNamed f → IsNamed (driver_register r h f).1
unfolding driver_register
register-IsNamed r h f v = elim (Option-cases (find_node h f.nodes)) [
  | inr (n, e) ↦ simp (driver_register, e) v
  | inl e ↦ elim (Option-cases (first_free f.names)) [
    | inl k ↦ simp (driver_register, e, k) (ground (arith, v))
    | inr (i, k) ↦ register_new r h i f e k v
  ]
]

-- An entry that is taken off the list is freed, with its name: its sessions are all deleted.
close_node_lem :
    (us : List Rc) (force : Bool) (n : Node) (f : Frpc)
    → SessionsCounted n
    → ((close_node us force n f).names ≡ (release_name n f).names)
      × ((close_node us force n f).nodes ≡ f.nodes)
unfolding close_node release_name
close_node_lem us force n f s =
    let d = drop_sessions_lem n.sessions n.session_cnt s in ground (arith, d)

names-IsNamed : (f g : Frpc) → f.names ≡ g.names → f.nodes ≡ g.nodes → IsNamed g → IsNamed f
names-IsNamed f g e e' v = record {
  once =
      λ i. ap (count_name i) e' ∙ v.once i ∙ ap (λ ns. if get_or ns i false then 1 else 0) (sym e);
  counted = subst (All SessionsCounted) (sym e') v.counted;
}

unregister-IsNamed :
    (seen : List ℕ) (us : List Rc) (force : Bool) (h : ℕ) (f : Frpc)
    → IsNamed f
    → IsNamed (driver_unregister seen us force h f)
unfolding driver_unregister pop_node release_name
unregister-IsNamed seen us force h f v = elim (Option-cases (find_node h f.nodes)) [
  | inl e ↦ simp (driver_unregister, pop_node, e) v
  | inr (n, e) ↦ elim (Bool-cases (settles node_looks seen)) [
    | inr z ↦ simp (driver_unregister, pop_node, e, z) v
    | inl z ↦
        let f' = record f { nodes = remove_node h f.nodes } in
        let (a, b) = close_node_lem us force n f' (All-found h f.nodes v.counted e) in
        simp (driver_unregister, pop_node, e, z)
          (names-IsNamed (close_node us force n f') (release_name n f') a b
            (freed-IsNamed h n f e v))
  ]
]

length-remove_sess :
    (inst : ℕ) (ss : List ℕ)
    → has_sess inst ss ≡ true
    → length ss ≡ suc (length (remove_sess inst ss))
unfolding has_sess remove_sess
length-remove_sess inst [] e = absurd (cc)
length-remove_sess inst (s ∷ ss) e = elim (Bool-cases (s == inst)) [
  | inl z ↦ rw z refl
  | inr z ↦ let e' = rw z at e in rw z (ap suc (length-remove_sess inst ss e'))
]

less_sess-SessionsCounted :
    (inst : ℕ) (n : Node) → SessionsCounted n → SessionsCounted (less_sess inst n)
less_sess-SessionsCounted inst n c = elim (Bool-cases (has_sess inst n.sessions)) [
  | inl z ↦ let l = length-remove_sess inst n.sessions z in rw z (omega (arith, c, l))
  | inr z ↦ rw z c
]

del_sess-IsNamed : (h inst : ℕ) (f : Frpc) → IsNamed f → IsNamed (del_sess h inst f).1
unfolding del_sess
del_sess-IsNamed h inst f v = elim (Option-cases (find_node h f.nodes)) [
  | inl e ↦ simp (del_sess, e) v
  | inr (n, e) ↦
      simp (del_sess, e)
        (update-IsNamed h (less_sess inst) f (λ n. ground arith) (less_sess-SessionsCounted inst) v)
]

add_sess-IsNamed : (h inst : ℕ) (f : Frpc) → IsNamed f → IsNamed (add_sess h inst f)
unfolding add_sess
add_sess-IsNamed h inst f v =
    update-IsNamed h _ f (λ n. refl) (λ n c. omega (arith, c, length-append n.sessions (inst ∷ [])))
      v

get_node-IsNamed : (h : ℕ) (f : Frpc) → IsNamed f → IsNamed (get_node h f).1
unfolding get_node
get_node-IsNamed h f v = elim (Option-cases (find_node h f.nodes)) [
  | inl e ↦ simp (get_node, e) v
  | inr (n, e) ↦ simp (get_node, e) (update-IsNamed h inc_ref_node f (λ n. refl) (λ n c. c) v)
]

put_node-IsNamed : (h : ℕ) (f : Frpc) → IsNamed f → IsNamed (put_node h f)
unfolding put_node
put_node-IsNamed h f v =
    update-IsNamed h dec_ref_node f (λ n. ground arith) (λ n c. ground (arith, c)) v

head_removed : (n : Node) (ns : List Node) → remove_node n.handle (n ∷ ns) ≡ ns
unfolding remove_node
head_removed n ns = ground arith

head_found : (n : Node) (ns : List Node) → find_node n.handle (n ∷ ns) ≡ some n
unfolding find_node
head_found n ns = ground arith

remove_all-IsNamed :
    (ns : List Node) (seen : List (List ℕ)) (f : Frpc)
    → f.nodes ≡ ns
    → IsNamed f
    → IsNamed (remove_dsp_sessions ns seen f)
unfolding remove_dsp_sessions release_name
remove_all-IsNamed [] seen f e v = v
remove_all-IsNamed (n ∷ ns) [] f e v = v
remove_all-IsNamed (n ∷ ns) (rs ∷ seen) f e v = elim (Bool-cases (settles node_looks rs)) [
  | inr z ↦ rw z v
  | inl z ↦
      let there = ap (find_node n.handle) e ∙ head_found n ns in
      let gone = ap (remove_node n.handle) e ∙ head_removed n ns in
      let w = rw gone at (freed-IsNamed n.handle n f there v) in
      rw z (remove_all-IsNamed ns seen (release_name n (record f { nodes = ns })) refl w)
]

apply_change-IsNamed : (c : Change) (f : Frpc) → IsNamed f → IsNamed (apply_change c f)
unfolding apply_change
apply_change-IsNamed (register r h) f v = register-IsNamed r h f v
apply_change-IsNamed (unregister seen us force h) f v = unregister-IsNamed seen us force h f v
apply_change-IsNamed (get h) f v = get_node-IsNamed h f v
apply_change-IsNamed (put h) f v = put_node-IsNamed h f v
apply_change-IsNamed (add h inst) f v = add_sess-IsNamed h inst f v
apply_change-IsNamed (remove h inst) f v = del_sess-IsNamed h inst f v
apply_change-IsNamed (remove_all seen) f v = remove_all-IsNamed f.nodes seen f refl v

-- Over any sequence of registrations, ends of processes, references, sessions that come and go, and
-- losses of the DSP, a name that is in use is that of exactly one entry, any other name is that of
-- none, and each entry counts its sessions, if it was so at first.
pub run_changes-IsNamed : (cs : List Change) (f : Frpc) → IsNamed f → IsNamed (run_changes cs f)
unfolding run_changes
run_changes-IsNamed [] f v = v
run_changes-IsNamed (c ∷ cs) f v =
    run_changes-IsNamed cs (apply_change c f) (apply_change-IsNamed c f v)
