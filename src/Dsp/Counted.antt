-- ===== src/Dsp/Counted.antt =====
-- The counter of a process's mappings against its buffers (msm/eva/msm_cvp_dsp.c).
use eva_driver.Prelude.{
  ℕ, zero, suc, ◌+◌, ◌%◌, ◌≤◌, ◌≡◌, refl, ap, sym, ◌∙◌, Bool, true, false, ◌&&◌, ◌||◌, Option, none,
  ◌⊎◌, some, List, [], ◌∷◌, ◌++◌, inl, inr, arith,
}
use eva_driver.Prelude.Tests.{◌==◌, if◌then◌else◌, Bool-cases, Option-cases}
use eva_driver.Prelude.Lists.{length, length-append, replicate}
use eva_driver.Prelude.Words.{u32_mod, sub32}
use eva_driver.Prelude.Errno.{Rc, success}
use eva_driver.Session.{is_success}
use eva_driver.Dsp.Buffers.{
  Owner, client, dsp, DspBuf, Pool, KmdBuf, Mapping, find_buf, remove_buf, map_buf_dsp,
  unmap_buf_dsp, buf_register, buf_deregister,
}
use eva_driver.Dsp.Buffers.Memory.{
  Allocation, allocate_dsp_bufs, mem_alloc, find_mem, remove_mem, mem_free, clear_bufs,
}

-- The counter counts the buffers and those that were lost.
abbrev pub IsCounted : ℕ → Pool → Type 0
IsCounted lost p = p.smem_count ≡ (length p.bufs + lost) % u32_mod

length-remove_buf :
    (fd : ℕ) (bs : List DspBuf) {b : DspBuf}
    → find_buf fd bs ≡ some b
    → length bs ≡ suc (length (remove_buf fd bs))
unfolding find_buf remove_buf
length-remove_buf fd [] e = absurd (cc)
length-remove_buf fd (b ∷ bs) e = elim (Bool-cases (b.fd == fd)) [
  | inl z ↦ rw z refl
  | inr z ↦ let e' = rw z at e in rw z (ap suc (length-remove_buf fd bs e'))
]

length-remove_mem :
    (iova fd : ℕ) (bs : List DspBuf) {b : DspBuf}
    → find_mem iova fd bs ≡ some b
    → length bs ≡ suc (length (remove_mem iova fd bs))
unfolding find_mem remove_mem
length-remove_mem iova fd [] e = absurd (cc)
length-remove_mem iova fd (b ∷ bs) e = elim (Bool-cases (b.iova == iova && b.fd == fd)) [
  | inl z ↦ rw z refl
  | inr z ↦ let e' = rw z at e in rw z (ap suc (length-remove_mem iova fd bs e'))
]

-- What the clients of a process and the DSP ask for.
pub data Request : Type 0 where
  register : Bool → Mapping → KmdBuf → Request
  deregister : Bool → Rc → KmdBuf → Request
  allocate : Allocation → ℕ → ℕ → Bool → Request
  free : Rc → ℕ → ℕ → Request

unfoldable pub serve_request : Request → Pool → Option Pool
serve_request (register g m k) p = some (buf_register g m k p).3
serve_request (deregister g u k) p = some (buf_deregister g u k p).1
serve_request (allocate a n t r) p = elim (mem_alloc a n t r p) [
  | none ↦ none
  | some (ret, p') ↦ some p'
]
serve_request (free u iova fd) p = some (mem_free u iova fd p).1

-- A buffer whose unmapping fails is lost: it is off the list, and still counted.
unfoldable pub loses : Request → Pool → ℕ
loses (deregister true u k) p = elim (find_buf k.fd p.bufs) [
  | none ↦ 0
  | some b ↦ if b.iova == 0 || is_success u then 0 else 1
]
loses r p = 0

length-snoc : (bs : List DspBuf) (b : DspBuf) → length (bs ++ (b ∷ [])) ≡ length bs + 1
length-snoc bs b = omega (arith, length-append bs (b ∷ []))

register-IsCounted :
    (g : Bool) (m : Mapping) (k : KmdBuf) (p : Pool) (lost : ℕ)
    → IsCounted lost p
    → IsCounted lost (buf_register g m k p).3
unfolding buf_register map_buf_dsp
register-IsCounted g m k p lost c = elim (Option-cases m.dma_size) [
  | inl d ↦ simp (buf_register, map_buf_dsp, d) (ground (arith, c))
  | inr (n, d) ↦
      let b : DspBuf = record {
        fd = k.fd;
        size = k.size;
        smem_size = n;
        iova = m.iova;
        owner = client;
      } in
      let l = length-snoc p.bufs b in simp (buf_register, map_buf_dsp, d) (ground (arith, c, l))
]

deregister-IsCounted :
    (g : Bool) (u : Rc) (k : KmdBuf) (p : Pool) (lost : ℕ)
    → IsCounted lost p
    → IsCounted (lost + loses (deregister g u k) p) (buf_deregister g u k p).1
unfolding buf_deregister unmap_buf_dsp loses
deregister-IsCounted false u k p lost c = omega (arith, c)
deregister-IsCounted true u k p lost c = elim (Option-cases (find_buf k.fd p.bufs)) [
  | inl f ↦ simp (buf_deregister, unmap_buf_dsp, loses, f) (ground (arith, c))
  | inr (b, f) ↦
      let l = length-remove_buf k.fd p.bufs f in
      simp (buf_deregister, unmap_buf_dsp, loses, f) (ground (arith, c, l))
]

-- What an allocation leaves, if it does not go through a missing mapping.
Left : (Pool → Type 0) → Option (ℕ × Pool) → Type 0
Left P none = Unit
Left P (some (ret, p)) = P p

allocate-IsCounted :
    (a : Allocation) (n t : ℕ) (r : Bool) (p : Pool) (lost : ℕ)
    → IsCounted lost p
    → Left (IsCounted lost) (mem_alloc a n t r p)
unfolding mem_alloc allocate_dsp_bufs Left
allocate-IsCounted a n t r p lost c =
    let b : DspBuf = record {
      fd = if r then a.v_dsp_addr else 0;
      size = a.smem_size;
      smem_size = a.smem_size;
      iova = a.iova;
      owner = dsp;
    } in
    let l = length-snoc p.bufs b in ground (arith, c, l)

free-IsCounted :
    (u : Rc) (iova fd : ℕ) (p : Pool) (lost : ℕ)
    → IsCounted lost p
    → IsCounted lost (mem_free u iova fd p).1
unfolding mem_free
free-IsCounted u iova fd p lost c = elim (Option-cases (find_mem iova fd p.bufs)) [
  | inl f ↦ simp (mem_free, f) c
  | inr (b, f) ↦
      let l = length-remove_mem iova fd p.bufs f in simp (mem_free, f) (ground (arith, c, l))
]

-- The requests one after another, and how many buffers were lost. `none` is an access through a
-- mapping that a buffer does not have.
unfoldable pub run_requests : List Request → Pool → ℕ → Option (Pool × ℕ)
run_requests [] p lost = some (p, lost)
run_requests (r ∷ rs) p lost = elim (serve_request r p) [
  | none ↦ none
  | some p' ↦ run_requests rs p' (lost + loses r p)
]

LeftPool : (Pool → Type 0) → Option Pool → Type 0
LeftPool P none = Unit
LeftPool P (some p) = P p

left_pool :
    (P : Pool → Type 0) (o : Option (ℕ × Pool))
    → Left P o
    → LeftPool P (elim o [ none ↦ none | some (ret, p') ↦ some p' ])
unfolding Left LeftPool
left_pool P none h = tt
left_pool P (some (ret, p')) h = h

serve_command-IsCounted :
    (r : Request) (p : Pool) (lost : ℕ)
    → IsCounted lost p
    → LeftPool (IsCounted (lost + loses r p)) (serve_request r p)
unfolding serve_request loses LeftPool
serve_command-IsCounted (register g m k) p lost c =
    let e : lost + 0 ≡ lost = omega arith in rw e (register-IsCounted g m k p lost c)
serve_command-IsCounted (deregister true u k) p lost c = deregister-IsCounted true u k p lost c
serve_command-IsCounted (deregister false u k) p lost c = deregister-IsCounted false u k p lost c
serve_command-IsCounted (allocate a n t r) p lost c =
    let e : lost + 0 ≡ lost = omega arith in
    rw e (left_pool (IsCounted lost) (mem_alloc a n t r p) (allocate-IsCounted a n t r p lost c))
serve_command-IsCounted (free u iova fd) p lost c =
    let e : lost + 0 ≡ lost = omega arith in rw e (free-IsCounted u iova fd p lost c)

run_step :
    (r : Request) (rs : List Request) (p q : Pool) (lost : ℕ)
    → serve_request r p ≡ some q
    → run_requests (r ∷ rs) p lost ≡ run_requests rs q (lost + loses r p)
unfolding run_requests
run_step r rs p q lost f = simp (run_requests, f) refl

run_stop :
    (r : Request) (rs : List Request) (p : Pool) (lost : ℕ)
    → serve_request r p ≡ none
    → run_requests (r ∷ rs) p lost ≡ none
unfolding run_requests
run_stop r rs p lost f = simp (run_requests, f) refl

-- Over any sequence of requests the counter of a process's mappings is the number of its buffers and
-- of those that were lost, which are off the list without being unmapped, as a word. The process that
-- a command names is that of its session, and the buffers have an index.
pub run_requests-IsCounted :
    (rs : List Request) (p p' : Pool) (lost lost' : ℕ)
    → p.smem_count ≡ (length p.bufs + lost) % u32_mod
    → run_requests rs p lost ≡ some (p', lost')
    → p'.smem_count ≡ (length p'.bufs + lost') % u32_mod
unfolding run_requests LeftPool
run_requests-IsCounted [] p p' lost lost' c e =
    let a : p ≡ p' = cc in
    let b : lost ≡ lost' = cc in
    omega (arith, c, ap (λ q. q.smem_count) a, ap (λ q. length q.bufs) a, b)
run_requests-IsCounted (r ∷ rs) p p' lost lost' c e = elim (Option-cases (serve_request r p)) [
  | inl f ↦ let e' = run_stop r rs p lost f in absurd (cc)
  | inr (q, f) ↦
      let c' = rw f at (serve_command-IsCounted r p lost c) in
      let e' = run_step r rs p q lost f in
      run_requests-IsCounted rs q p' (lost + loses r p) lost' c' (sym e' ∙ e)
]

-- The buffers that the DSP owns.
unfoldable pub owned : List DspBuf → ℕ
owned [] = 0
owned (b ∷ bs) = elim b.owner [ dsp ↦ suc (owned bs) | client ↦ owned bs ]

owner-cases : (o : Owner) → (o ≡ client) ⊎ (o ≡ dsp)
owner-cases client = inl refl
owner-cases dsp = inr refl

-- When a process ends, and every unmapping succeeds, the counter still counts the buffers of the DSP,
-- though they are released: the driver takes them for mappings that leak.
pub clear_bufs-counts :
    (bs : List DspBuf) (n lost : ℕ) (p : Pool)
    → length bs ≤ n
    → p.smem_count ≡ (length bs + lost) % u32_mod
    → ((clear_bufs bs (replicate n success) p).bufs ≡ [])
      × ((clear_bufs bs (replicate n success) p).smem_count ≡ (owned bs + lost) % u32_mod)
unfolding clear_bufs owned
clear_bufs-counts [] n lost p h c = (refl, c)
clear_bufs-counts (b ∷ bs) zero lost p h c = absurd (omega arith)
clear_bufs-counts (b ∷ bs) (suc n) lost p h c = elim (owner-cases b.owner) [
  | inl o ↦
      let p' = record p { smem_count = sub32 p.smem_count 1; files = sub32 p.files 1 } in
      let rest = clear_bufs-counts bs n lost p' (omega arith) (omega (arith, c)) in
      simp (clear_bufs, owned, o) rest
  | inr o ↦
      let p' = record p { dsp_usage = sub32 p.dsp_usage b.size } in
      let rest = clear_bufs-counts bs (suc n) (suc lost) p' (omega arith) (omega (arith, c)) in
      simp (clear_bufs, owned, o) (rest.0, omega (arith, rest.1))
]
