-- ===== src/Fences/Populated.antt =====
-- What the fences of a packet do to the queue (`cvp_populate_fences` of msm/eva/msm_cvp.c).
use eva_driver.Prelude.{
  ℕ, ◌+◌, ◌≤◌, ◌<◌, ◌≡◌, ◌≢◌, refl, ap, ◌∙◌, Bool, true, false, ◌||◌, ◌⊎◌, inl, inr, List, [], ◌∷◌,
  ◌++◌, arith,
}
use eva_driver.Prelude.Tests.{ltb, ◌==◌, if◌then◌else◌, Bool-cases}
use eva_driver.Prelude.Lists.{length, length-append, length-replicate, replicate}
use eva_driver.Prelude.Errno.{Rc, success, failed, hfi_error, einval, enomem}
use eva_driver.Session.{is_success}
use eva_driver.Fences.{FenceCommand, FenceQueue}
use eva_driver.Fences.Synx.{SynxDriver, import_synx}
use eva_driver.Fences.Enqueue.{
  Packet, Setting, Populated, max_fences, cmd_hdr_words, with_fence_bit, count_fences, input_fences,
  output_fences, soc_fence, kernel_fence, populate_fences, no_fences,
}

-- The command that a packet with kernel fences becomes.
abbrev pub kernel_command : SynxDriver → Packet → FenceCommand
kernel_command k p = record {
  kdata = with_fence_bit p.kdata;
  is_kernel = true;
  output_index = length (input_fences p.bufs);
  synx = (import_synx k (input_fences p.bufs ++ output_fences p.bufs)).1;
}

-- The command that a packet with fences of the SoC becomes.
abbrev pub soc_command : Packet → FenceCommand
soc_command p = record {
  kdata = with_fence_bit p.kdata;
  is_kernel = false;
  output_index = (count_fences p.bufs).1;
  synx = replicate (count_fences p.bufs).0 0;
}

-- A packet that has buffers behind a whole header, with memory for its fences.
abbrev pub Ready : Setting → Packet → Type 0
Ready w p = (p.offset ≢ 0) × (length p.bufs ≢ 0) × (cmd_hdr_words ≤ p.offset) × (w.memory ≡ true)

-- Which of the two kinds of fences the driver is set to.
abbrev pub UsesSoc : Setting → Type 0
UsesSoc w = (w.kernel_fence_enabled ≡ 0) ⊎ ((w.kernel_fence_enabled ≡ 2) × (w.override ≡ false))

abbrev pub UsesKernel : Setting → Type 0
UsesKernel w = (w.kernel_fence_enabled ≡ 1) ⊎ ((w.kernel_fence_enabled ≡ 2) × (w.override ≡ true))

abbrev pub kernel_fences : Packet → ℕ
kernel_fences p = length (input_fences p.bufs) + length (output_fences p.bufs)

-- A packet without fences: it has no buffers, or none with a fence.
pub data NoFences (w : Setting) (p : Packet) : Type 0 where
  no_buffers : (p.offset ≡ 0) ⊎ (length p.bufs ≡ 0) → NoFences w p
  no_soc : Ready w p → UsesSoc w → (count_fences p.bufs).0 ≡ 0 → NoFences w p
  no_kernel : Ready w p → UsesKernel w → kernel_fences p ≡ 0 → NoFences w p

-- Why the fences of a packet are refused, with the code, and whether the packet was sent.
pub data Refusal (k : SynxDriver) (w : Setting) (p : Packet) : Rc → Bool → Type 0 where
  too_short :
      p.offset ≢ 0
      → length p.bufs ≢ 0
      → p.offset < cmd_hdr_words
      → Refusal k w p (failed einval) false
  no_memory :
      p.offset ≢ 0
      → length p.bufs ≢ 0
      → cmd_hdr_words ≤ p.offset
      → w.memory ≡ false
      → Refusal k w p (failed enomem) false
  unknown_kind : Ready w p → 2 < w.kernel_fence_enabled → Refusal k w p (failed einval) false
  too_many :
      Ready w p → UsesKernel w → max_fences < kernel_fences p → Refusal k w p (failed einval) false
  not_imported :
      (rc : Rc)
      → Ready w p
      → UsesKernel w
      → 0 < kernel_fences p
      → kernel_fences p ≤ max_fences
      → (import_synx k (input_fences p.bufs ++ output_fences p.bufs)).0 ≡ rc
      → Refusal k w p rc false
  not_sent :
      (rc : Rc)
      → Ready w p
      → UsesSoc w
      → 0 < (count_fences p.bufs).0
      → w.session_send ≡ rc
      → Refusal k w p rc true

-- The command that a packet with fences becomes, the number of them, and whether the packet is sent:
-- the fences of a kernel command are imported and at most 64, and a packet of the other kind is sent.
pub data Fenced (k : SynxDriver) (w : Setting) (p : Packet) : ℕ → Bool → FenceCommand → Type 0 where
  by_kernel :
      Ready w p
      → UsesKernel w
      → (n : ℕ) → n ≡ kernel_fences p
      → n ≤ max_fences
      → (import_synx k (input_fences p.bufs ++ output_fences p.bufs)).0 ≡ success
      → Fenced k w p n false (kernel_command k p)
  by_soc :
      Ready w p
      → UsesSoc w
      → (n : ℕ) → n ≡ (count_fences p.bufs).0
      → w.session_send ≡ success
      → Fenced k w p n true (soc_command p)

-- What a packet does: it has no fences; it is refused; or its command is the last one of the queue.
pub data Populates (k : SynxDriver) (w : Setting) (p : Packet) (q : FenceQueue)
    : Rc → ℕ → Bool → FenceQueue → Type 0 where
  unfenced : NoFences w p → Populates k w p q success 0 false q
  refused :
      (rc : Rc) (sent : Bool) → rc ≢ success → Refusal k w p rc sent → Populates k w p q rc 0 sent q
  queued :
      (f : FenceCommand) (n : ℕ) (sent : Bool)
      → 0 < n
      → Fenced k w p n sent f
      → Populates k w p q success n sent (record q { wait_list = q.wait_list ++ (f ∷ []) })

abbrev pub PopulatesFor : SynxDriver → Setting → Packet → FenceQueue → Populated → Type 0
PopulatesFor k w p q r = Populates k w p q r.rc r.fence_count r.sent r.queue

pub length-import_synx : (k : SynxDriver) (hs : List ℕ) → length (import_synx k hs).1 ≡ length hs
unfolding import_synx
length-import_synx k [] = refl
length-import_synx k (h ∷ hs) = ground (arith, length-import_synx k hs)

pub is_success-eq : (rc : Rc) → is_success rc ≡ true → rc ≡ success
is_success-eq success h = refl
is_success-eq (failed e) h = absurd (cc)
is_success-eq (hfi_error n) h = absurd (cc)

pub not_success : (rc : Rc) → is_success rc ≡ false → rc ≢ success
not_success rc h e = absurd (let z : is_success rc ≡ true = ap is_success e in cc)

module _ (k : SynxDriver) (w : Setting) (p : Packet) (q : FenceQueue) (ready : Ready w p) where
  soc_fence-Populates : UsesSoc w → PopulatesFor k w p q (soc_fence w p q)
  unfolding soc_fence
  soc_fence-Populates u = elim (Bool-cases ((count_fences p.bufs).0 == 0)) [
    | inl z ↦ rw z (unfenced (no_soc ready u (ground (arith, z))))
    | inr z ↦
        let pos : 0 < (count_fences p.bufs).0 = ground (arith, z) in
        elim (Bool-cases (is_success w.session_send)) [
          | inr s ↦
              rw (z, s)
                (refused w.session_send true (not_success w.session_send s)
                  (not_sent w.session_send ready u pos refl))
          | inl s ↦
              let e : length (soc_command p).synx ≡ (count_fences p.bufs).0 =
                length-replicate {A = ℕ} (count_fences p.bufs).0 0 in
              rw (z, s)
                (queued (soc_command p) (length (soc_command p).synx) true (omega (arith, e, pos))
                  (by_soc ready u (length (soc_command p).synx) e (is_success-eq w.session_send s)))
        ]
  ]

  kernel_fence-Populates : UsesKernel w → PopulatesFor k w p q (kernel_fence k w p q)
  unfolding kernel_fence
  kernel_fence-Populates u =
      let hs = input_fences p.bufs ++ output_fences p.bufs in
      let c : length hs ≡ kernel_fences p =
        length-append (input_fences p.bufs) (output_fences p.bufs) in
      elim (Bool-cases (ltb max_fences (length hs))) [
        | inl m ↦ rw m (
            refused (failed einval) false (λ e. absurd (cc))
              (too_many ready u (ground (arith, m, c))))
        | inr m ↦ elim (Bool-cases (length hs == 0)) [
          | inl z ↦ rw (m, z) (unfenced (no_kernel ready u (ground (arith, z, c))))
          | inr z ↦
              let pos : 0 < kernel_fences p = ground (arith, z, c) in
              let few : kernel_fences p ≤ max_fences = ground (arith, m, c) in
              let l = length-import_synx k hs in
              elim (Bool-cases (is_success (import_synx k hs).0)) [
                | inr s ↦
                    rw (m, z, s)
                      (refused (import_synx k hs).0 false (not_success (import_synx k hs).0 s)
                        (not_imported (import_synx k hs).0 ready u pos few refl))
                | inl s ↦
                    rw (m, z, s)
                      (queued (kernel_command k p) (length (kernel_command k p).synx) false
                        (omega (arith, l, c, pos))
                        (by_kernel ready u (length (kernel_command k p).synx) (l ∙ c)
                          (omega (arith, l, c, few)) (is_success-eq (import_synx k hs).0 s)))
              ]
        ]
      ]

  by_kind : PopulatesFor k w p q (
      if w.kernel_fence_enabled == 0
      then soc_fence w p q
      else if w.kernel_fence_enabled == 1
      then kernel_fence k w p q
      else if w.kernel_fence_enabled == 2
      then (if w.override then kernel_fence k w p q else soc_fence w p q)
      else no_fences (failed einval) false p q)
  by_kind = elim (Bool-cases (w.kernel_fence_enabled == 0)) [
    | inl a ↦ rw a (soc_fence-Populates (inl (ground (arith, a))))
    | inr a ↦ elim (Bool-cases (w.kernel_fence_enabled == 1)) [
      | inl b ↦ rw (a, b) (kernel_fence-Populates (inl (ground (arith, b))))
      | inr b ↦ elim (Bool-cases (w.kernel_fence_enabled == 2)) [
        | inl c ↦
            let two : w.kernel_fence_enabled ≡ 2 = ground (arith, c) in
            elim (Bool-cases w.override) [
              | inl o ↦ simp (a, b, c, o) (kernel_fence-Populates (inr (two, o)))
              | inr o ↦ simp (a, b, c, o) (soc_fence-Populates (inr (two, o)))
            ]
        | inr c ↦
            rw (a, b, c)
              (refused (failed einval) false (λ e. absurd (cc))
                (unknown_kind ready (ground (arith, a, b, c))))
      ]
    ]
  ]

pub populate_fences-Populates :
    (k : SynxDriver) (w : Setting) (p : Packet) (q : FenceQueue)
    → PopulatesFor k w p q (populate_fences k w p q)
unfolding populate_fences
populate_fences-Populates k w p q = elim (Bool-cases (p.offset == 0 || length p.bufs == 0)) [
  | inl a ↦ rw a (unfenced (no_buffers (ground (arith, a))))
  | inr a ↦
      let there : p.offset ≢ 0 = ground (arith, a) in
      let some_bufs : length p.bufs ≢ 0 = ground (arith, a) in
      elim (Bool-cases (ltb p.offset cmd_hdr_words)) [
        | inl b ↦
            rw (a, b)
              (refused (failed einval) false (λ e. absurd (cc))
                (too_short there some_bufs (ground (arith, b))))
        | inr b ↦
            let header : cmd_hdr_words ≤ p.offset = ground (arith, b) in
            elim (Bool-cases w.memory) [
              | inr c ↦
                  simp (a, b, c)
                    (refused (failed enomem) false (λ e. absurd (cc))
                      (no_memory there some_bufs header c))
              | inl c ↦ simp (a, b, c) (by_kind k w p q (there, some_bufs, header, c))
            ]
      ]
]
