-- ===== src/Callbacks/Kept.antt =====
-- What one response leaves of an instance (msm/eva/msm_cvp_common.c).
use eva_driver.Prelude.{
  ℕ, ◌≡◌, ◌≢◌, refl, sym, ap, ◌∙◌, subst, none, some, [], ◌∷◌, ◌++◌, append-nil, arith, ℕ_discrete,
}
use eva_driver.Responses.{
  ResponseType, Info, no_resp, sys_init_done, sys_error, session_init_done, session_end_done,
  session_set_buffer_done, session_abort_done, session_start_done, session_stop_done,
  session_flush_done, session_release_buffer_done, session_dump_notify, session_error,
  response_unused,
}
use eva_driver.Callbacks.{
  Waiter, Driver, Given, hal_number, find_waiter, with_inst, answer_inst,
  signal_session_msg_receipt, handle_session_init_done, handle_session_close, handle_session_ctrl,
  handle_session_set_buf_done, handle_session_release_buf_done, handle_session_dump_notify,
  cvp_dump_event,
}
use eva_driver.Callbacks.Errors.{handle_cmd_response, handle_sys_init_done, record_error}
use eva_driver.Callbacks.Told.{
  answer_place, place_for, told_place, told_code, places, last_code, Told, Live, with_inst_self,
  with_inst_other, with_inst-valid,
}

-- What one response leaves of an instance.
unfoldable pub Kept : ℕ → Info → Waiter → Driver → Driver → Type 0
Kept d r i c c' =
    (j : Waiter) × (find_waiter d c'.waiters ≡ some j)
    × Told d (r ∷ []) i j
    × (c'.device_valid ≡ c.device_valid)

nothing-Told : (d : ℕ) (r : Info) (i : Waiter) → place_for d r ≡ none → Told d (r ∷ []) i i
unfolding places last_code
nothing-Told d r i e = record {
  completed = sym (append-nil i.completions) ∙ ap (λ o. i.completions ++ told_place o []) (sym e);
  code = ap (λ o. told_code o r.status i.hfi_error_code) (sym e);
  same_session = refl;
  same_kref = refl;
  same_state = refl;
}

place_for_other : (d : ℕ) (r : Info) → r.session_id ≢ d → place_for d r ≡ none
place_for_other d r ne = ground (arith, ne)

place_for-none : (d : ℕ) (r : Info) → answer_place r.response_type ≡ none → place_for d r ≡ none
place_for-none d r e = ground (arith, e)

place_for_self :
    (d : ℕ) (r : Info) (n : ℕ)
    → r.session_id ≡ d
    → answer_place r.response_type ≡ some n
    → place_for d r ≡ some n
place_for_self d r n same e = ground (arith, same, e)

-- A change of another instance, or one that tells nothing.
quiet-Kept :
    (d : ℕ) (r : Info) (f : Waiter → Waiter) (c : Driver) (i : Waiter)
    → ((j : Waiter) → (f j).address ≡ j.address)
    → Told d (r ∷ []) i (f i)
    → place_for d r ≡ none
    → Live d c i
    → Kept d r i c (with_inst r.session_id f c)
unfolding Kept
quiet-Kept d r f c i keeps t e h = elim (ℕ_discrete r.session_id d) [
  | Dec.yes p ↦ (
    f i,
    subst (λ x. find_waiter d (with_inst x f c).waiters ≡ some (f i)) (sym p)
        (with_inst_self d f c i keeps h),
    t,
    with_inst-valid r.session_id f c,
  )
  | Dec.no ne ↦ (
    i,
    with_inst_other r.session_id d f c keeps ne ∙ h.found,
    nothing-Told d r i e,
    with_inst-valid r.session_id f c,
  )
]

-- An answer.
answer-Kept :
    (d : ℕ) (r : Info) (cmd n : ℕ) (c : Driver) (i : Waiter)
    → answer_place r.response_type ≡ some n
    → ((j : Waiter)
        → answer_inst cmd r.status j
          ≡ record j { hfi_error_code = r.status; completions = j.completions ++ (n ∷ []) })
    → Live d c i
    → Kept d r i c (with_inst r.session_id (answer_inst cmd r.status) c)
unfolding Kept places last_code
answer-Kept d r cmd n c i e does h =
    let keeps : (j : Waiter) → (answer_inst cmd r.status j).address ≡ j.address =
      λ j. ap (λ (x : Waiter). x.address) (does j) in
    elim (ℕ_discrete r.session_id d) [
      | Dec.yes p ↦
          let q : place_for d r ≡ some n = place_for_self d r n p e in
          (
            record i { hfi_error_code = r.status; completions = i.completions ++ (n ∷ []) },
            subst
                  (λ x.
                    find_waiter d (with_inst x (answer_inst cmd r.status) c).waiters
                    ≡ some (answer_inst cmd r.status i))
                  (sym p) (with_inst_self d (answer_inst cmd r.status) c i keeps h)
                ∙ ap some (does i),
            record {
              completed = ap (λ o. i.completions ++ told_place o []) (sym q);
              code = ap (λ o. told_code o r.status i.hfi_error_code) (sym q);
              same_session = refl;
              same_kref = refl;
              same_state = refl;
            },
            with_inst-valid r.session_id (answer_inst cmd r.status) c,
          )
      | Dec.no ne ↦ (
        i,
        with_inst_other r.session_id d (answer_inst cmd r.status) c keeps ne ∙ h.found,
        nothing-Told d r i (place_for_other d r ne),
        with_inst-valid r.session_id (answer_inst cmd r.status) c,
      )
    ]

same-Kept :
    (d : ℕ) (r : Info) (c c' : Driver) (i : Waiter)
    → answer_place r.response_type ≡ none
    → c'.waiters ≡ c.waiters
    → c'.device_valid ≡ c.device_valid
    → Live d c i
    → Kept d r i c c'
unfolding Kept
same-Kept d r c c' i e w v h =
    (i, ap (find_waiter d) w ∙ h.found, nothing-Told d r i (place_for-none d r e), v)

-- The codes and events that are no answers change nothing that is told.
same-Told :
    (d : ℕ) (r : Info) (i : Waiter) (code event : ℕ)
    → place_for d r ≡ none
    → Told d (r ∷ []) i (record i { session_error_code = code; event = event })
same-Told d r i code event e =
    let t = nothing-Told d r i e in
    record {
      completed = t.completed;
      code = t.code;
      same_session = refl;
      same_kref = refl;
      same_state = refl;
    }

error-Kept :
    (d : ℕ) (r : Info) (c : Driver) (i : Waiter) (n : ℕ)
    → answer_place r.response_type ≡ none
    → Live d c i
    → Kept d r i c (with_inst r.session_id (record_error n) (record c { error_count = n }))
unfolding Kept record_error
error-Kept d r c i n e h =
    quiet-Kept d r (record_error n) (record c { error_count = n }) i (λ j. refl)
      (same-Told d r i _ _ (place_for-none d r e)) (place_for-none d r e)
      (record {
        found = h.found;
        real = h.real;
        has_session = h.has_session;
        referenced = h.referenced;
      })

dump-Kept :
    (d : ℕ) (r : Info) (c : Driver) (i : Waiter)
    → answer_place r.response_type ≡ none
    → Live d c i
    → Kept d r i c (handle_session_dump_notify r c)
unfolding handle_session_dump_notify
dump-Kept d r c i e h =
    quiet-Kept d r (λ j. record j { event = cvp_dump_event }) c i (λ j. refl)
      (same-Told d r i i.session_error_code cvp_dump_event (place_for-none d r e))
      (place_for-none d r e) h

pub step-Kept :
    (w : Given) (d : ℕ) (c : Driver) (i : Waiter) (type : ResponseType)
    (device session status size : ℕ)
    → type ≢ sys_error
    → Live d c i
    → let r : Info = record {
      response_type = type;
      device_id = device;
      session_id = session;
      status = status;
      size = size;
    } in
      Kept d r i c (handle_cmd_response w r c)
unfolding handle_cmd_response hal_number handle_session_init_done handle_session_close
    handle_session_ctrl handle_session_set_buf_done handle_session_release_buf_done
    handle_sys_init_done answer_place answer_inst signal_session_msg_receipt
step-Kept w d c i no_resp device session status size ne h = same-Kept d _ c c i refl refl refl h
step-Kept w d c i sys_init_done device session status size ne h =
    same-Kept d _ c (handle_sys_init_done w c) i refl refl refl h
step-Kept w d c i sys_error device session status size ne h = absurd (ne refl)
step-Kept w d c i session_init_done device session status size ne h =
    answer-Kept d _ 11 1 c i refl (λ j. refl) h
step-Kept w d c i session_end_done device session status size ne h =
    answer-Kept d _ 12 2 c i refl (λ j. refl) h
step-Kept w d c i session_set_buffer_done device session status size ne h =
    answer-Kept d _ 13 3 c i refl (λ j. refl) h
step-Kept w d c i session_abort_done device session status size ne h =
    answer-Kept d _ 14 4 c i refl (λ j. refl) h
step-Kept w d c i session_start_done device session status size ne h =
    answer-Kept d _ 15 5 c i refl (λ j. refl) h
step-Kept w d c i session_stop_done device session status size ne h =
    answer-Kept d _ 16 6 c i refl (λ j. refl) h
step-Kept w d c i session_flush_done device session status size ne h =
    answer-Kept d _ 18 8 c i refl (λ j. refl) h
step-Kept w d c i session_release_buffer_done device session status size ne h =
    answer-Kept d _ 23 13 c i refl (λ j. refl) h
step-Kept w d c i session_dump_notify device session status size ne h = dump-Kept d _ c i refl h
step-Kept w d c i session_error device session status size ne h = error-Kept d _ c i _ refl h
step-Kept w d c i response_unused device session status size ne h =
    same-Kept d _ c c i refl refl refl h
