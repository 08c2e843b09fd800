-- ===== src/Callbacks/Broken.antt =====
-- What a system error does to all instances (msm/eva/msm_cvp_common.c).
use eva_driver.Prelude.{
  ℕ, ◌+◌, ◌≡◌, refl, sym, ap, ◌∙◌, subst, true, false, ◌⊎◌, inl, inr, some, List, [], ◌∷◌, ◌++◌,
  arith, ℕ_discrete,
}
use eva_driver.Prelude.Tests.{◌==◌, Bool-cases}
use eva_driver.Session.{is_success, core_invalid}
use eva_driver.Responses.{ResponseType, Info, sys_error}
use eva_driver.Callbacks.{Waiter, Driver, Given, find_waiter, eva_event, session_msgs}
use eva_driver.Callbacks.Errors.{
  break_waiter, break_waiters, error_code, count_error, upto, handle_sys_errors,
  handle_cmd_response,
}
use eva_driver.Callbacks.Thread.{callbacks}

break_waiter-address : (n : ℕ) (i : Waiter) → (break_waiter n i).address ≡ i.address
unfolding break_waiter
break_waiter-address n i = ground arith

find_waiter-break :
    (n d : ℕ) (is : List Waiter) {i : Waiter}
    → find_waiter d is ≡ some i
    → find_waiter d (break_waiters n is) ≡ some (break_waiter n i)
unfolding find_waiter break_waiters
find_waiter-break n d [] e = absurd (cc)
find_waiter-break n d (j ∷ is) {i} e = elim (Bool-cases (d == j.address)) [
  | inl here ↦
      let q : j ≡ i = ground (arith, here) in
      ground (arith, here, break_waiter-address n j, ap (break_waiter n) q)
  | inr further ↦
      let q : find_waiter d is ≡ some i = ground (arith, further) in
      ground (arith, further, break_waiter-address n j, find_waiter-break n d is q)
]

-- An instance before and behind a system error.
abbrev pub Broken : Driver → Waiter → Waiter → Type 0
Broken c i j =
    (j.state ≡ core_invalid)
    × (((i.state ≡ core_invalid) × (j ≡ i))
        ⊎ ((j.completions ≡ i.completions ++ upto session_msgs 0)
            × (j.event ≡ eva_event)
            × (j.session_error_code ≡ error_code 1 (count_error c.error_count))))

break_waiter-Broken :
    (c : Driver) (i : Waiter) → Broken c i (break_waiter (count_error c.error_count) i)
unfolding break_waiter
break_waiter-Broken c i = elim (ℕ_discrete i.state core_invalid) [
  | Dec.yes p ↦
      let e : (i.state == core_invalid) ≡ true = ground (arith, p) in simp e (p, inl (p, refl))
  | Dec.no n ↦
      let e : (i.state == core_invalid) ≡ false = ground (arith, n) in
      simp e (refl, inr (refl, refl, refl))
]

-- The core behind a system error.
abbrev broken : Given → Driver → Driver
broken w c = record c {
  ssr_count = c.ssr_count + 1;
  error_count = count_error c.error_count;
  waiters = break_waiters (count_error c.error_count) c.waiters;
  core_unused = is_success w.core_release;
  device_valid = false;
}

callbacks-stopped :
    (w : Given) (rs : List Info) (c : Driver) → c.device_valid ≡ false → callbacks w rs c ≡ c
unfolding callbacks
callbacks-stopped w [] c v = refl
callbacks-stopped w (r ∷ rs) c v = ground (arith, v)

handle_cmd_response-sys_error :
    (w : Given) (r : Info) (c : Driver)
    → r.response_type ≡ sys_error
    → handle_cmd_response w r c ≡ handle_sys_errors w c
unfolding handle_cmd_response
handle_cmd_response-sys_error w r c t =
    let as_type : ResponseType → Driver =
      λ type. handle_cmd_response w (record r { response_type = type }) c in
    ap as_type t

handle_sys_errors-broken :
    (w : Given) (c : Driver)
    → c.core_unused ≡ false
    → w.has_device ≡ true
    → handle_sys_errors w c ≡ broken w c
unfolding handle_sys_errors
handle_sys_errors-broken w c u has = ground (arith, u, has)

callbacks-broken :
    (w : Given) (r : Info) (rs : List Info) (c : Driver)
    → r.response_type ≡ sys_error
    → c.device_valid ≡ true
    → c.core_unused ≡ false
    → w.has_device ≡ true
    → callbacks w (r ∷ rs) c ≡ broken w c
unfolding callbacks
callbacks-broken w r rs c t v u has =
    let step : handle_cmd_response w r c ≡ broken w c =
      handle_cmd_response-sys_error w r c t ∙ handle_sys_errors-broken w c u has in
    let on : callbacks w (r ∷ rs) c ≡ callbacks w rs (handle_cmd_response w r c) =
      ground (arith, v) in
    on ∙ ap (callbacks w rs) step ∙ callbacks-stopped w rs (broken w c) refl

-- A system error, on a core that is in use and has its device: no response behind it is handled, the
-- core is unused again if it can be released, and every instance is invalid. One that was not before
-- gets every completion of a session, so that nobody waits on, and the event and the code of the
-- error.
pub callbacks-Broken :
    (w : Given) (r : Info) (rs : List Info) (c : Driver) (d : ℕ) (i : Waiter)
    → r.response_type ≡ sys_error
    → c.device_valid ≡ true
    → c.core_unused ≡ false
    → w.has_device ≡ true
    → find_waiter d c.waiters ≡ some i
    → let c' = callbacks w (r ∷ rs) c in
      (c'.device_valid ≡ false)
      × (c'.core_unused ≡ is_success w.core_release)
      × (j : Waiter) × (find_waiter d c'.waiters ≡ some j)
      × Broken c i j
callbacks-Broken w r rs c d i t v u has f =
    subst
      (λ (x : Driver).
        (x.device_valid ≡ false)
        × (x.core_unused ≡ is_success w.core_release)
        × (j : Waiter) × (find_waiter d x.waiters ≡ some j)
        × Broken c i j)
      (sym (callbacks-broken w r rs c t v u has))
      (
        refl,
        refl,
        break_waiter (count_error c.error_count) i,
        find_waiter-break (count_error c.error_count) d c.waiters f,
        break_waiter-Broken c i,
      )
