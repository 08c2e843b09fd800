-- ===== src/Collapse/Safe.antt =====
-- When the device's power is cut, and what a power-on leaves (msm/eva/cvp_hfi.c).
use eva_driver.Prelude.{
  ℕ, zero, suc, ◌<◌, ◌≡◌, refl, sym, ap, ◌∙◌, subst, Bool, true, false, ◌&&◌, ◌⊎◌, inl, inr, some,
  List, [], ◌∷◌, arith,
}
use eva_driver.Prelude.Tests.{Bool-cases}
use eva_driver.Prelude.Lists.{get_elem?}
use eva_driver.Prelude.Errno.{Rc, success, failed, hfi_error}
use eva_driver.Session.{is_success}
use eva_driver.Collapse.{
  PowerDevice, Hardware, Rising, max_tries, poll, power_off, suspend, is_collapsible, collapse_core,
  after_dsp, power_collapse, iris_power_on, half_off, resume,
}

-- One of the first reads shows that the processor waits and is ready.
poll_lem :
    (n : ℕ) (rs : List (Bool × Bool))
    → poll n rs ≡ true
    → (i : ℕ) × (i < n) × (get_elem? rs i ≡ some (true, true))
unfolding poll
poll_lem zero rs h = absurd (cc)
poll_lem (suc n) [] h = absurd (cc)
poll_lem (suc n) ((true, true) ∷ rs) h = (0, omega arith, refl)
poll_lem (suc n) ((true, false) ∷ rs) h =
    let (i, l, e) = poll_lem n rs h in (suc i, omega (arith, l), e)
poll_lem (suc n) ((false, r) ∷ rs) h =
    let (i, l, e) = poll_lem n rs h in (suc i, omega (arith, l), e)

-- The processor waits for an interrupt, and it was ready at once, or it was idle, was told to prepare,
-- and one of the next 150 reads showed it waiting and ready.
abbrev pub IsReady : Hardware → Type 0
IsReady w =
    (w.wfi ≡ true)
    × ((w.pc_ready ≡ true)
        ⊎ ((w.idle ≡ true)
            × (is_success w.prepare_pc ≡ true)
            × (i : ℕ) × (i < max_tries)
            × (get_elem? w.reads i ≡ some (true, true))))

and-true : (a b : Bool) → (a && b) ≡ true → (a ≡ true) × (b ≡ true)
and-true true b h = (refl, h)
and-true false b h = absurd (cc)

is_collapsible-IsReady : (w : Hardware) → is_collapsible w ≡ true → IsReady w
unfolding is_collapsible
is_collapsible-IsReady w h = elim (Bool-cases w.pc_ready) [
  | inl p ↦ (ground (arith, p, h), inl p)
  | inr p ↦
      let polls = poll max_tries w.reads in
      let q : (w.wfi && w.idle && is_success w.prepare_pc && polls) ≡ true = ground (arith, p, h) in
      let (r, e) = and-true (w.wfi && w.idle && is_success w.prepare_pc) polls q in
      let (r', c) = and-true (w.wfi && w.idle) (is_success w.prepare_pc) r in
      let (a, b) = and-true w.wfi w.idle r' in
      let (i, l, g) = poll_lem max_tries w.reads e in (a, inr (b, c, i, l, g))
]

abbrev pub IsOff : PowerDevice → Type 0
IsOff d = (d.power_enabled ≡ false) × (d.buses ≡ false) × (d.controller ≡ false) × (d.core ≡ false)

abbrev pub IsOn : PowerDevice → Type 0
IsOn d = (d.power_enabled ≡ true) × (d.buses ≡ true) × (d.controller ≡ true) × (d.core ≡ true)

suspend-cases :
    (w : Hardware) (d : PowerDevice)
    → let (rc, d') = suspend w d in
      (d' ≡ d) ⊎ (IsOff d' × (rc ≡ success) × (is_success w.tz_suspend ≡ true))
unfolding suspend power_off
suspend-cases w d = elim (Bool-cases d.power_enabled) [
  | inr p ↦ inl (simp p refl)
  | inl p ↦ elim (Bool-cases (is_success w.tz_suspend)) [
    | inr t ↦ inl (simp (p, t) refl)
    | inl t ↦ elim (Bool-cases d.sw_power_collapsible) [
      | inr c ↦ inl (simp (p, t, c) refl)
      | inl c ↦ inr (simp (p, t, c) ((refl, refl, refl, refl), refl, refl))
    ]
  ]
]

collapse_core-cases :
    (w : Hardware) (d : PowerDevice)
    → let (rc, d') = collapse_core w d in
      (d' ≡ d)
      ⊎ (IsOff d' × (rc ≡ success) × (is_success w.tz_suspend ≡ true) × (is_collapsible w ≡ true))
unfolding collapse_core
collapse_core-cases w d = elim (Bool-cases (is_collapsible w)) [
  | inr n ↦ rw n (inl refl)
  | inl go ↦ elim (suspend-cases w d) [
    | inl same ↦ rw go (inl same)
    | inr (off, ok, tz) ↦ rw go (inr (off, ok, tz, refl))
  ]
]

after_dsp-cases :
    (rc : Rc) (go : Rc × PowerDevice) (d : PowerDevice)
    → ((rc ≡ success) × (after_dsp rc go d ≡ go)) ⊎ ((after_dsp rc go d).1 ≡ d)
unfolding after_dsp
after_dsp-cases success go d = inl (refl, refl)
after_dsp-cases (failed e) go d = inr refl
after_dsp-cases (hfi_error n) go d = inr refl

-- A collapse leaves the device as it is, or it cuts its power, which it does only to a device that was
-- powered and in a valid state, whose DSP and secure world agreed, and whose processor waited for an
-- interrupt and was ready: at once, or, being idle and told to prepare, in one of the next 150 reads.
pub power_collapse_lem :
    (w : Hardware) (d : PowerDevice)
    → let (rc, d') = power_collapse w d in
      (d' ≡ d)
      ⊎ (IsOff d'
          × (rc ≡ success)
          × (d.power_enabled ≡ true)
          × (d.valid ≡ true)
          × (w.dsp_suspend ≡ success)
          × (is_success w.tz_suspend ≡ true)
          × IsReady w)
unfolding power_collapse
power_collapse_lem w d = elim (Bool-cases d.power_enabled) [
  | inr p ↦ inl (ground (arith, p))
  | inl p ↦ elim (Bool-cases d.valid) [
    | inr v ↦ inl (ground (arith, p, v))
    | inl v ↦
        let e : power_collapse w d ≡ after_dsp w.dsp_suspend (collapse_core w d) d =
          ground (arith, p, v) in
        elim (after_dsp-cases w.dsp_suspend (collapse_core w d) d) [
          | inr same ↦ inl (ap (λ (x : Rc × PowerDevice). x.1) e ∙ same)
          | inl (dsp, core) ↦
              let f : power_collapse w d ≡ collapse_core w d = e ∙ core in
              elim (collapse_core-cases w d) [
                | inl same ↦ inl (ap (λ (x : Rc × PowerDevice). x.1) f ∙ same)
                | inr (off, ok, tz, go) ↦ inr (
                  subst (λ (x : Rc × PowerDevice). IsOff x.1) (sym f) off,
                  ap (λ (x : Rc × PowerDevice). x.0) f ∙ ok,
                  p,
                  v,
                  dsp,
                  tz,
                  is_collapsible-IsReady w go,
                )
              ]
        ]
  ]
]

-- A resume of a device that is off and may be switched off: it succeeds with everything on and the
-- firmware booted, in a valid state only; or it fails with everything off again; or it fails because
-- the registers or a check of the power fail behind the power-on of the core, and then the core
-- stays on, though the buses and the controller are off and the device counts as off.
pub resume_lem :
    (w : Rising) (d : PowerDevice)
    → d.sw_power_collapsible ≡ true
    → IsOff d
    → let (rc, d') = resume w d in
      ((rc ≡ success) × IsOn d' × (d.valid ≡ true) × (is_success w.boot_firmware ≡ true))
      ⊎ ((is_success rc ≡ false) × IsOff d')
      ⊎ ((is_success rc ≡ false)
          × (d' ≡ half_off d)
          × (is_success w.power_on_core ≡ true)
          × ((is_success w.set_registers ≡ false)
              ⊎ (is_success w.check_core_power_on ≡ false)
              ⊎ (is_success w.check_ctl_power_on ≡ false)))
unfolding resume iris_power_on power_off
resume_lem w d s o = ground (arith, s, o)
