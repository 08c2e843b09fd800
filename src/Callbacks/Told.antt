-- ===== src/Callbacks/Told.antt =====
-- What answers tell an instance, and how instances are found and changed
-- (msm/eva/msm_cvp_common.c).
use eva_driver.Prelude.{
  ℕ, zero, suc, ◌≡◌, ◌≢◌, refl, ap, inl, inr, Option, none, some, List, [], ◌∷◌, ◌++◌, arith,
}
use eva_driver.Prelude.Tests.{◌==◌, if◌then◌else◌, Bool-cases}
use eva_driver.Responses.{
  ResponseType, Info, session_init_done, session_end_done, session_set_buffer_done,
  session_abort_done, session_start_done, session_stop_done, session_flush_done,
  session_release_buffer_done,
}
use eva_driver.Callbacks.{Waiter, Driver, find_waiter, update_waiter, inst_of, with_inst}

-- The responses that answer a command of a session, and the place of the completion of each.
unfoldable pub answer_place : ResponseType → Option ℕ
answer_place session_init_done = some 1
answer_place session_end_done = some 2
answer_place session_set_buffer_done = some 3
answer_place session_abort_done = some 4
answer_place session_start_done = some 5
answer_place session_stop_done = some 6
answer_place session_flush_done = some 8
answer_place session_release_buffer_done = some 13
answer_place _ = none

-- What a response tells the instance at an address.
abbrev pub place_for : ℕ → Info → Option ℕ
place_for d r = if r.session_id == d then answer_place r.response_type else none

abbrev pub told_place : Option ℕ → List ℕ → List ℕ
told_place none ps = ps
told_place (some n) ps = n ∷ ps

abbrev pub told_code : Option ℕ → ℕ → ℕ → ℕ
told_code none status code = code
told_code (some n) status code = status

-- The completions that some responses signal at an instance, and the code that they leave.
unfoldable pub places : ℕ → List Info → List ℕ
places d [] = []
places d (r ∷ rs) = told_place (place_for d r) (places d rs)

unfoldable pub last_code : ℕ → List Info → ℕ → ℕ
last_code d [] code = code
last_code d (r ∷ rs) code = last_code d rs (told_code (place_for d r) r.status code)

-- An instance before and behind some responses.
pub record Told (d : ℕ) (rs : List Info) (i j : Waiter) : Type 0 where
  pub completed : j.completions ≡ i.completions ++ places d rs
  pub code : j.hfi_error_code ≡ last_code d rs i.hfi_error_code
  pub same_session : j.session ≡ i.session
  pub same_kref : j.kref ≡ i.kref
  pub same_state : j.state ≡ i.state

pub find_waiter-update_self :
    (d : ℕ) (f : Waiter → Waiter) (is : List Waiter) {i : Waiter}
    → ((j : Waiter) → (f j).address ≡ j.address)
    → find_waiter d is ≡ some i
    → find_waiter d (update_waiter d f is) ≡ some (f i)
unfolding find_waiter update_waiter
find_waiter-update_self d f [] keeps e = absurd (cc)
find_waiter-update_self d f (j ∷ is) {i} keeps e = elim (Bool-cases (d == j.address)) [
  | inl here ↦ let q : j ≡ i = ground (arith, here) in ground (arith, here, keeps j, ap f q)
  | inr further ↦
      let q : find_waiter d is ≡ some i = ground (arith, further) in
      ground (arith, further, find_waiter-update_self d f is keeps q)
]

pub find_waiter-update_other :
    (d e : ℕ) (f : Waiter → Waiter) (is : List Waiter)
    → ((j : Waiter) → (f j).address ≡ j.address)
    → d ≢ e
    → find_waiter e (update_waiter d f is) ≡ find_waiter e is
unfolding find_waiter update_waiter
find_waiter-update_other d e f [] keeps ne = refl
find_waiter-update_other d e f (j ∷ is) keeps ne =
    ground (arith, keeps j, find_waiter-update_other d e f is keeps ne)

-- The instance that is there, with its session and a reference.
pub record Live (d : ℕ) (c : Driver) (i : Waiter) : Type 0 where
  pub found : find_waiter d c.waiters ≡ some i
  pub real : d ≢ 0
  pub has_session : i.session ≢ 0
  pub referenced : i.kref ≢ 0

pub inst_of-Live : (d : ℕ) (c : Driver) (i : Waiter) → Live d c i → inst_of d c ≡ some i
unfolding inst_of
inst_of-Live zero c i h = absurd (h.real refl)
inst_of-Live (suc d) c i h = ground (arith, h.found, h.has_session, h.referenced)

pub with_inst_self :
    (d : ℕ) (f : Waiter → Waiter) (c : Driver) (i : Waiter)
    → ((j : Waiter) → (f j).address ≡ j.address)
    → Live d c i
    → find_waiter d (with_inst d f c).waiters ≡ some (f i)
unfolding with_inst
with_inst_self d f c i keeps h =
    ground (arith, inst_of-Live d c i h, find_waiter-update_self d f c.waiters keeps h.found)

pub with_inst_other :
    (d e : ℕ) (f : Waiter → Waiter) (c : Driver)
    → ((j : Waiter) → (f j).address ≡ j.address)
    → d ≢ e
    → find_waiter e (with_inst d f c).waiters ≡ find_waiter e c.waiters
unfolding with_inst
with_inst_other d e f c keeps ne = ground (arith, find_waiter-update_other d e f c.waiters keeps ne)

pub with_inst-valid :
    (d : ℕ) (f : Waiter → Waiter) (c : Driver) → (with_inst d f c).device_valid ≡ c.device_valid
unfolding with_inst
with_inst-valid d f c = ground arith
