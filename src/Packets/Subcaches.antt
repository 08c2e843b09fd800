-- ===== src/Packets/Subcaches.antt =====
-- The packet that hands the caches to the firmware (msm/eva/hfi_packetization.c,
-- `__core_set_resource` of msm/eva/cvp_hfi.c).
use eva_driver.Prelude.{
  ℕ, zero, suc, ◌+◌, ◌*◌, ◌/◌, ◌%◌, ◌≤◌, ◌<◌, ◌≡◌, refl, ◌∙◌, true, some, List, [], ◌∷◌, ◌++◌,
  arith, subst, inl, inr, ◌⊎◌,
}
use eva_driver.Prelude.Tests.{ltb, ◌==◌}
use eva_driver.Prelude.Lists.{
  length, get_or, get_elem?, replicate, length-replicate, get_elem?-eq-get_or,
}
use eva_driver.Prelude.Words.{add32, u32_mod}
use eva_driver.Prelude.Errno.{success, enotempty, failed}
use eva_driver.Queue.{QueueHeader, huge_pkt_size}
use eva_driver.Queue.Fifo
use eva_driver.Iface.{Device, cmdq_write}
use eva_driver.Iface.Send.{HoldsCommands, cmdq_write-refines-push}
use eva_driver.Packets.{stores}
use eva_driver.Packets.Resource.{
  ResourceHdr, SyscacheInfo, copy_entries, set_resource_fields, syscache_fields, set_syscache,
  sys_set_resource,
}
use eva_driver.Packets.Send.{core_set_resource, write_code, code_kept}
use eva_driver.Packets.Filled.{stores_lem}
use eva_driver.Queue.Packets.{IsPacket}
use eva_driver.Packets.Sent.{Answers, write_code-Answers, send-made}

-- One round.
copy_entries_step :
    (entries : List (ℕ × ℕ)) (i k : ℕ) (buf : List ℕ) {e : ℕ × ℕ} {b : List ℕ}
    → get_elem? entries i ≡ some e
    → stores buf ((5 + 2 * i, e.0) ∷ (6 + 2 * i, e.1) ∷ []) ≡ some b
    → copy_entries entries i (suc k) buf ≡ copy_entries entries (i + 1) k b
unfolding copy_entries
copy_entries_step entries i k buf f s = simp (copy_entries, f, s) refl

le_cases : (i j : ℕ) → i ≤ j → (i ≡ j) ⊎ (i < j)
le_cases i j h = ground (arith, h)

-- The entries from `i` on lie behind the first words of the packet, which stay.
record Copied (entries : List (ℕ × ℕ)) (i k : ℕ) (buf b : List ℕ) : Type 0 where
  same_length : length b ≡ length buf
  before : (w : ℕ) → w < 5 + 2 * i → get_or b w 0 ≡ get_or buf w 0
  target : (j : ℕ) → i ≤ j → j < i + k → get_or b (5 + 2 * j) 0 ≡ (get_or entries j (0, 0)).0
  number : (j : ℕ) → i ≤ j → j < i + k → get_or b (6 + 2 * j) 0 ≡ (get_or entries j (0, 0)).1

copy_entries_lem :
    (entries : List (ℕ × ℕ)) (i k : ℕ) (buf : List ℕ)
    → i + k ≤ length entries
    → 5 + 2 * (i + k) ≤ length buf
    → (b : List ℕ) × (copy_entries entries i k buf ≡ some b) × Copied entries i k buf b
unfolding copy_entries
copy_entries_lem entries i zero buf inside room = (
  buf,
  refl,
  record {
    same_length = refl;
    before = λ w h. refl;
    target = λ j l h. absurd (omega (arith, l, h));
    number = λ j l h. absurd (omega (arith, l, h));
  },
)
copy_entries_lem entries i (suc k) buf inside room =
    let e = get_or entries i (0, 0) in
    let found = get_elem?-eq-get_or entries i (0, 0) (omega arith) in
    let fields : List (ℕ × ℕ) = (5 + 2 * i, e.0) ∷ (6 + 2 * i, e.1) ∷ [] in
    let (b, s, l, g) = stores_lem buf fields (omega arith) in
    let (b', c, r) = copy_entries_lem entries (i + 1) k b (omega arith) (omega (arith, l)) in
    let first : get_or b' (5 + 2 * i) 0 ≡ e.0 =
      r.before (5 + 2 * i) (omega arith) ∙ g (5 + 2 * i) (omega arith) ∙ ground arith in
    let second : get_or b' (6 + 2 * i) 0 ≡ e.1 =
      r.before (6 + 2 * i) (omega arith) ∙ g (6 + 2 * i) (omega arith) ∙ ground arith in
    (
      b',
      copy_entries_step entries i k buf found s ∙ c,
      record {
        same_length = r.same_length ∙ l;
        before = λ w h. r.before w (omega (arith, h)) ∙ g w (omega (arith, h)) ∙ ground (arith, h);
        target = λ j p h. elim (le_cases i j p) [
          | inl q ↦ subst (λ j. get_or b' (5 + 2 * j) 0 ≡ (get_or entries j (0, 0)).0) q first
          | inr q ↦ r.target j (omega (arith, q)) (omega (arith, h))
        ];
        number = λ j p h. elim (le_cases i j p) [
          | inl q ↦ subst (λ j. get_or b' (6 + 2 * j) 0 ≡ (get_or entries j (0, 0)).1) q second
          | inr q ↦ r.number j (omega (arith, q)) (omega (arith, h))
        ];
      },
    )

set_syscache-stores :
    (hash32_ptr : ℕ → ℕ) (hdr : ResourceHdr) (info : SyscacheInfo) (buf : List ℕ) {b b' : List ℕ}
    → stores buf (set_resource_fields hash32_ptr hdr ++ syscache_fields info) ≡ some b
    → copy_entries info.entries 0 info.num_entries b ≡ some b'
    → set_syscache hash32_ptr hdr info buf ≡ some (record { rc = success; pkt = some b' })
unfolding set_syscache
set_syscache-stores hash32_ptr hdr info buf s c = simp (set_syscache, s, c) refl

-- The packet with the caches: its size, its type, the resource and its kind, and the caches in their
-- order, each with its target and its number.
pub record Carries (resource : ℕ) (info : SyscacheInfo) (packet : List ℕ) : Type 0 where
  pub words : length packet ≡ 5 + 2 * info.num_entries
  pub sized : get_or packet 0 0 ≡ 20 + 8 * info.num_entries
  pub typed : get_or packet 1 0 ≡ 0x10003
  pub handle : get_or packet 2 0 ≡ resource
  pub kind : get_or packet 3 0 ≡ 2
  pub count : get_or packet 4 0 ≡ info.num_entries
  pub target :
      (j : ℕ)
      → j < info.num_entries
      → get_or packet (5 + 2 * j) 0 ≡ (get_or info.entries j (0, 0)).0
  pub number :
      (j : ℕ)
      → j < info.num_entries
      → get_or packet (6 + 2 * j) 0 ≡ (get_or info.entries j (0, 0)).1

Carries-IsPacket :
    {r : ℕ} {info : SyscacheInfo} {packet : List ℕ}
    → Carries r info packet
    → (5 + 2 * info.num_entries) * 4 ≤ huge_pkt_size
    → IsPacket packet
Carries-IsPacket c small = record {
  sized = omega (arith, c.sized, c.words);
  nonempty = omega (arith, c.words);
  limited = omega (arith, c.words, small);
}

-- The buffer is filled exactly.
set_syscache-Carries :
    (hash32_ptr : ℕ → ℕ) (hdr : ResourceHdr) (info : SyscacheInfo) (buf : List ℕ)
    → info.num_entries ≤ length info.entries
    → length buf ≡ 5 + 2 * info.num_entries
    → (5 + 2 * info.num_entries) * 4 ≤ huge_pkt_size
    → (packet : List ℕ) × (set_syscache hash32_ptr hdr info buf
        ≡ some (record { rc = success; pkt = some packet }))
      × Carries (hash32_ptr hdr.resource_handle) info packet
set_syscache-Carries hash32_ptr hdr info buf inside e small =
    let fields = set_resource_fields hash32_ptr hdr ++ syscache_fields info in
    let (b, s, l, g) = stores_lem buf fields (omega (arith, e)) in
    let (b', c, r) =
      copy_entries_lem info.entries 0 info.num_entries b (omega arith) (omega (arith, l, e)) in
    let size : get_or b' 0 0 ≡ add32 20 (8 * info.num_entries % u32_mod) =
      r.before 0 (omega arith) ∙ g 0 (omega (arith, e)) in
    (
      b',
      set_syscache-stores hash32_ptr hdr info buf s c,
      record {
        words = r.same_length ∙ l ∙ e;
        sized = omega (arith, size, small);
        typed = r.before 1 (omega arith) ∙ g 1 (omega (arith, e));
        handle = r.before 2 (omega arith) ∙ g 2 (omega (arith, e));
        kind = r.before 3 (omega arith) ∙ g 3 (omega (arith, e));
        count = r.before 4 (omega arith) ∙ g 4 (omega (arith, e));
        target = λ j h. r.target j (omega arith) (omega (arith, h));
        number = λ j h. r.number j (omega arith) (omega (arith, h));
      },
    )

core_set_resource-writes :
    (hash32_ptr : ℕ → ℕ) (hdr : ResourceHdr) (info : SyscacheInfo) (dev : Device) {packet : List ℕ}
    → hdr.resource_id ≡ 1
    → 0 < info.num_entries
    → (5 + 2 * info.num_entries) * 4 ≤ huge_pkt_size
    → set_syscache hash32_ptr hdr info (replicate (5 + 2 * info.num_entries) 0)
      ≡ some (record { rc = success; pkt = some packet })
    → core_set_resource hash32_ptr true hdr info success dev
      ≡ write_code (cmdq_write success packet dev)
unfolding core_set_resource sys_set_resource
core_set_resource-writes hash32_ptr hdr info dev {packet} one many small e =
    let t : (hdr.resource_id == 1) ≡ true = ground (arith, one) in
    let m : ltb 0 info.num_entries ≡ true = ground (arith, many) in
    let n : (20 + 8 * info.num_entries) % u32_mod / 4 ≡ 5 + 2 * info.num_entries =
      omega (arith, small) in
    rw (t, m, n) (send-made code_kept _ packet dev e)

-- The packet that hands at least one cache to the firmware, and no more than a packet can hold,
-- carries exactly the caches, each with its target and its number, and is appended to the command
-- queue of a device that is in order and has power, or refused with -ENOTEMPTY where it does not fit.
pub core_set_resource-Answers :
    (hash32_ptr : ℕ → ℕ) (hdr : ResourceHdr) (info : SyscacheInfo) (dev : Device) (h : QueueHeader)
    (packets : List (List ℕ))
    → hdr.resource_id ≡ 1
    → 0 < info.num_entries
    → info.num_entries ≤ length info.entries
    → (5 + 2 * info.num_entries) * 4 ≤ huge_pkt_size
    → dev.valid ≡ true
    → HoldsCommands dev h packets
    → 5 + 2 * info.num_entries ≤ dev.cmdq.mem_size / 4
    → (packet : List ℕ) × Carries (hash32_ptr hdr.resource_handle) info packet
      × Answers
          (failed enotempty)
          h
          packets
          (core_set_resource hash32_ptr true hdr info success dev)
          (Fifo.push (dev.cmdq.mem_size / 4) packets packet)
core_set_resource-Answers hash32_ptr hdr info dev h packets one many inside small valid held room =
    let n = 5 + 2 * info.num_entries in
    let (p, e, v) =
      set_syscache-Carries hash32_ptr hdr info (replicate n 0) inside (length-replicate n 0)
        small in
    let written =
      cmdq_write-refines-push p dev h packets valid held (Carries-IsPacket v small)
        (rw v.words room) in
    (
      p,
      v,
      rw (core_set_resource-writes hash32_ptr hdr info dev one many small e)
          (write_code-Answers h packets _ _ written),
    )
