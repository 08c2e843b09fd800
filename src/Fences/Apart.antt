-- ===== src/Fences/Apart.antt =====
-- The cases of a packet's fences exclude each other (`cvp_populate_fences` of msm/eva/msm_cvp.c).
use eva_driver.Prelude.{ℕ, ◌<◌, ◌≤◌, ◌≡◌, ◌≢◌, sym, ◌∙◌, Bool, ◌⊎◌, inl, inr, ◌++◌, arith}
use eva_driver.Prelude.Errno.{Rc, success}
use eva_driver.Fences.{FenceCommand}
use eva_driver.Fences.Synx.{SynxDriver, import_synx}
use eva_driver.Fences.Enqueue.{
  Packet, Setting, max_fences, count_fences, input_fences, output_fences,
}
use eva_driver.Fences.Populated.{
  Ready, UsesSoc, UsesKernel, kernel_fences, NoFences, no_buffers, no_soc, no_kernel, Refusal,
  too_short, no_memory, unknown_kind, too_many, not_imported, not_sent, Fenced, by_kernel, by_soc,
}

-- What holds of a packet with fences.
pub record IsFenced (k : SynxDriver) (w : Setting) (p : Packet) : Type 0 where
  pub ready : Ready w p
  pub kind :
      (UsesKernel w
        × (0 < kernel_fences p)
        × (kernel_fences p ≤ max_fences)
        × ((import_synx k (input_fences p.bufs ++ output_fences p.bufs)).0 ≡ success))
      ⊎ (UsesSoc w × (0 < (count_fences p.bufs).0) × (w.session_send ≡ success))

-- A packet with fences has a command for them.
abbrev pub HasFences : SynxDriver → Setting → Packet → Type 0
HasFences k w p = (f : FenceCommand) × (n : ℕ) × (done : Bool) × (0 < n) × Fenced k w p n done f

module _ (k : SynxDriver) (w : Setting) (p : Packet) where
  HasFences-IsFenced : HasFences k w p → IsFenced k w p
  HasFences-IsFenced (f, n, done, pos, by_kernel r u n' e le i) = record {
    ready = r;
    kind = inl (u, omega (arith, pos, e), omega (arith, le, e), i);
  }
  HasFences-IsFenced (f, n, done, pos, by_soc r u n' e s) = record {
    ready = r;
    kind = inr (u, omega (arith, pos, e), s);
  }

  one_kind : UsesSoc w → UsesKernel w → ⊥
  one_kind a b = absurd (ground (arith, a, b))

  soc_only : UsesSoc w → IsFenced k w p → (0 < (count_fences p.bufs).0) × (w.session_send ≡ success)
  soc_only u x = elim x.kind [ inl (v, a, b, c) ↦ absurd (one_kind u v) | inr (v, a, b) ↦ (a, b) ]

  kernel_only :
      UsesKernel w
      → IsFenced k w p
      → (0 < kernel_fences p)
        × (kernel_fences p ≤ max_fences)
        × ((import_synx k (input_fences p.bufs ++ output_fences p.bufs)).0 ≡ success)
  kernel_only u x = elim x.kind [
    | inl (v, a, b, c) ↦ (a, b, c)
    | inr (v, a, b) ↦ absurd (one_kind v u)
  ]

  pub NoFences-apart : NoFences w p → ¬ HasFences k w p
  NoFences-apart (no_buffers h) x =
      let r = (HasFences-IsFenced x).ready in
      let a = r.0 in let b = r.1 in absurd (elim h [ inl e ↦ a e | inr e ↦ b e ])
  NoFences-apart (no_soc r u e) x = absurd (omega (arith, e, (soc_only u (HasFences-IsFenced x)).0))
  NoFences-apart (no_kernel r u e) x =
      absurd (omega (arith, e, (kernel_only u (HasFences-IsFenced x)).0))

  pub Refusal-apart :
      (rc : Rc) (done : Bool) → rc ≢ success → Refusal k w p rc done → ¬ HasFences k w p
  Refusal-apart rc done bad (too_short a b c) x =
      absurd (omega (arith, c, (HasFences-IsFenced x).ready.2))
  Refusal-apart rc done bad (no_memory a b c d) x =
      let m = (HasFences-IsFenced x).ready.3 in absurd (cc)
  Refusal-apart rc done bad (unknown_kind r u) x = absurd (elim (HasFences-IsFenced x).kind [
    | inl (v, a, b, c) ↦ ground (arith, u, v)
    | inr (v, a, b) ↦ ground (arith, u, v)
  ])
  Refusal-apart rc done bad (too_many r u m) x =
      absurd (omega (arith, m, (kernel_only u (HasFences-IsFenced x)).1))
  Refusal-apart rc done bad (not_imported c r u a b i) x =
      absurd (bad (sym i ∙ (kernel_only u (HasFences-IsFenced x)).2))
  Refusal-apart rc done bad (not_sent c r u a i) x =
      absurd (bad (sym i ∙ (soc_only u (HasFences-IsFenced x)).1))
