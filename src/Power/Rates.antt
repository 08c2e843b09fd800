-- ===== src/Power/Rates.antt =====
-- The clock rate and the bandwidth that `adjust_bw_freqs` and `msm_cvp_update_power` of
-- msm/eva/cvp_power.c settle on.
use eva_driver.Prelude.{
  ℕ, ◌+◌, ◌/◌, ◌≤◌, ◌<◌, max, min, ◌≡◌, ◌≢◌, refl, ◌⊎◌, inl, inr, true, false, Option, none, some,
  List, [], ◌∷◌, arith, dec_lt,
}
use eva_driver.Prelude.Tests.{leb, ltb, Bool-cases, Option-cases}
use eva_driver.Prelude.Lists.{All}
use eva_driver.Prelude.Words.{u64_mod, add64}
use eva_driver.Prelude.Errno.{Rc, success, failed, enotsupp}
use eva_driver.Power.{PowerLevel, larger, aggregate_power_update}
use eva_driver.Power.Votes.{
  PowerCore, Platform, no_level, first_at_least, last_or, pick_rate, clamp_bw, core_request,
  op_request, adjust_bw_freqs, find_bus, update_power,
}
use eva_driver.Power.Levels.{members, IsProfile}
use eva_driver.Power.Demand.{demand, InRange, aggregate_power_update_lem}

-- The rates rise along the table.
abbrev pub Rising : ℕ → List ℕ → Type 0
Rising r [] = Unit
Rising r (x ∷ xs) = (r ≤ x) × Rising x xs

abbrev pub Among : ℕ → List ℕ → Type 0
Among r [] = ⊥
Among r (x ∷ xs) = (r ≡ x) ⊎ Among r xs

-- The least rate of the table that is no less than the sum.
pub record Least (sum rate : ℕ) (tbl : List ℕ) : Type 0 where
  pub among : Among rate tbl
  pub enough : sum ≤ rate
  pub least : (r : ℕ) → Among r tbl → sum ≤ r → rate ≤ r

Rising-le : (x r : ℕ) (xs : List ℕ) → Rising x xs → Among r xs → x ≤ r
Rising-le x r [] h m = absurd m
Rising-le x r (y ∷ ys) h (inl e) = omega (arith, h.0)
Rising-le x r (y ∷ ys) h (inr m) = omega (arith, h.0, Rising-le y r ys h.1 m)

last_or-Among : (x : ℕ) (xs : List ℕ) → Among (last_or x xs) (x ∷ xs)
last_or-Among x [] = inl refl
last_or-Among x (y ∷ ys) = inr (last_or-Among y ys)

first_at_least-Least :
    (sum x : ℕ) (xs : List ℕ)
    → x < sum
    → sum ≤ last_or x xs
    → Rising x xs
    → (rate : ℕ) × (first_at_least sum xs ≡ some rate) × Least sum rate xs
unfolding first_at_least
first_at_least-Least sum x [] h k r = absurd (omega arith)
first_at_least-Least sum x (y ∷ ys) h k r = elim (Bool-cases (leb sum y)) [
  | inl fits ↦ (
    y,
    ground arith,
    record {
      among = inl refl;
      enough = ground arith;
      least = λ q m e. elim m [ inl same ↦ omega arith | inr m' ↦ Rising-le y q ys r.1 m' ];
    },
  )
  | inr short ↦
      let (rate, found, l) = first_at_least-Least sum y ys (ground arith) k r.1 in
      (
        rate,
        ground (arith, found),
        record {
          among = inr l.among;
          enough = l.enough;
          least = λ q m e. elim m [
            | inl same ↦ let s : y < sum = ground arith in absurd (omega arith)
            | inr m' ↦ l.least q m' e
          ];
        },
      )
]

pick_rate-Least :
    (sum min_rate : ℕ) (tbl : List ℕ)
    → sum ≤ last_or min_rate tbl
    → Rising min_rate tbl
    → (rate : ℕ) × (pick_rate sum min_rate tbl ≡ some rate) × Least sum rate (min_rate ∷ tbl)
unfolding pick_rate
pick_rate-Least sum min_rate tbl k r = elim (Bool-cases (leb sum min_rate)) [
  | inl low ↦ (
    min_rate,
    ground arith,
    record {
      among = inl refl;
      enough = ground arith;
      least = λ q m e. elim m [ inl same ↦ omega arith | inr m' ↦ Rising-le min_rate q tbl r m' ];
    },
  )
  | inr high ↦
      let h : min_rate < sum = ground arith in
      let (rate, found, l) = first_at_least-Least sum min_rate tbl h k r in
      (
        rate,
        ground (arith, found),
        record {
          among = inr l.among;
          enough = l.enough;
          least = λ q m e. elim m [ inl same ↦ absurd (omega arith) | inr m' ↦ l.least q m' e ];
        },
      )
]

-- What the vote must do for the sessions' demands, of which the first is that of the sessions that
-- are not realtime.
abbrev pub Votes :
    ℕ → ℕ → PowerCore → ℕ → List ℕ → PowerLevel → PowerLevel → Option (Rc × PowerCore) → Type 0
Votes max_bw min_bw c min_rate tbl nrt rt out =
    ((last_or min_rate tbl < nrt.core_sum + rt.core_sum) × (out ≡ some (failed enotsupp, c)))
    ⊎ ((nrt.core_sum + rt.core_sum ≤ last_or min_rate tbl)
        × ((rate : ℕ) × Least
              (max (nrt.core_sum + rt.core_sum) (max nrt.op_core_sum rt.op_core_sum)) rate
              (min_rate ∷ tbl)
            × (out
                ≡ some (
                  success,
                  record c {
                    curr_freq = rate;
                    orig_core_sum = c.curr_freq;
                    clk_freq = rate;
                    bw_sum = max min_bw (min max_bw (nrt.bw_sum + rt.bw_sum));
                  },
                ))))

accepts :
    (max_bw min_bw : ℕ) (c : PowerCore) (min_rate : ℕ) (tbl : List ℕ) (nrt rt : PowerLevel)
    (rate : ℕ) {band : ℕ}
    → c.allowed_clks_tbl ≡ min_rate ∷ tbl
    → aggregate_power_update c.instances no_level no_level (last_or min_rate tbl) ≡ (nrt, rt)
    → ltb (last_or min_rate tbl) (core_request (nrt, rt)) ≡ false
    → pick_rate (larger (core_request (nrt, rt)) (op_request (nrt, rt))) min_rate tbl ≡ some rate
    → clamp_bw max_bw min_bw (add64 rt.bw_sum nrt.bw_sum) ≡ band
    → adjust_bw_freqs max_bw min_bw c
      ≡ some (
        success,
        record c { curr_freq = rate; orig_core_sum = c.curr_freq; clk_freq = rate; bw_sum = band },
      )
unfolding adjust_bw_freqs
accepts max_bw min_bw c min_rate tbl nrt rt rate t a k found b = ground (arith, t, a, k, found, b)

levels-Votes :
    (max_bw min_bw : ℕ) (c : PowerCore) (min_rate : ℕ) (tbl : List ℕ) (nrt rt : PowerLevel)
    → c.allowed_clks_tbl ≡ min_rate ∷ tbl
    → Rising min_rate tbl
    → aggregate_power_update c.instances no_level no_level (last_or min_rate tbl) ≡ (nrt, rt)
    → nrt.core_sum + rt.core_sum < u64_mod
    → nrt.bw_sum + rt.bw_sum < u64_mod
    → nrt.op_core_sum ≤ last_or min_rate tbl
    → rt.op_core_sum ≤ last_or min_rate tbl
    → Votes max_bw min_bw c min_rate tbl nrt rt (adjust_bw_freqs max_bw min_bw c)
unfolding adjust_bw_freqs core_request op_request clamp_bw
levels-Votes max_bw min_bw c min_rate tbl nrt rt t r a core band op op' =
    elim (dec_lt (last_or min_rate tbl) (nrt.core_sum + rt.core_sum)) [
      | yes over ↦ inl (over, ground (arith, t, a))
      | no within ↦
          let request = max (nrt.core_sum + rt.core_sum) (max nrt.op_core_sum rt.op_core_sum) in
          let (rate, found, l) = pick_rate-Least request min_rate tbl (omega arith) r in
          let e : larger (add64 rt.core_sum nrt.core_sum) (larger rt.op_core_sum nrt.op_core_sum)
              ≡ request =
            ground arith in
          inr (
            omega arith,
            (
              rate,
              l,
              accepts max_bw min_bw c min_rate tbl nrt rt rate t a (ground arith) (rw e found)
                  (ground arith),
            ),
          )
    ]

-- The clock rate that `adjust_bw_freqs` picks is the least of the table that serves the added
-- cycles of both kinds of sessions and either kind's operating point; the bandwidth is the added
-- one, put between the limits. Only if the added cycles exceed the table's last rate is the code
-- -ENOTSUPP, and then nothing is changed. The sessions' numbers must not leave the range of an `int`.
pub adjust_bw_freqs_lem :
    (max_bw min_bw : ℕ) (c : PowerCore) (min_rate : ℕ) (tbl : List ℕ)
    → c.allowed_clks_tbl ≡ min_rate ∷ tbl
    → Rising min_rate tbl
    → All (λ i. IsProfile i.prop) c.instances
    → InRange (members true c.instances)
    → InRange (members false c.instances)
    → let nrt = demand (last_or min_rate tbl) (members true c.instances) in
      let rt = demand (last_or min_rate tbl) (members false c.instances) in
      nrt.core_sum + rt.core_sum < u64_mod
      → nrt.bw_sum + rt.bw_sum < u64_mod
      → Votes max_bw min_bw c min_rate tbl nrt rt (adjust_bw_freqs max_bw min_bw c)
unfolding demand
adjust_bw_freqs_lem max_bw min_bw c min_rate tbl t r w a b core band =
    levels-Votes max_bw min_bw c min_rate tbl _ _ t r
      (aggregate_power_update_lem (last_or min_rate tbl) c.instances w a b) core band (omega arith)
      (omega arith)

adjust_bw_freqs-keeps :
    (max_bw min_bw : ℕ) (c c' : PowerCore) (rc : Rc)
    → adjust_bw_freqs max_bw min_bw c ≡ some (rc, c')
    → ((rc ≡ success) × (c'.orig_core_sum ≡ c.curr_freq)) ⊎ ((rc ≡ failed enotsupp) × (c' ≡ c))
unfolding adjust_bw_freqs
adjust_bw_freqs-keeps max_bw min_bw c c' rc e = ground arith

-- A vote that fails leaves the core's clock rate as it was, unless what failed is the vote for the
-- bandwidth, behind a clock rate that was set.
pub update_power-keeps :
    (p : Platform) (c c' : PowerCore) (rc : Rc)
    → update_power p c ≡ some (rc, c')
    → rc ≢ success
    → (c'.curr_freq ≡ c.curr_freq) ⊎ ((p.set_clocks ≡ success) × (rc ≡ p.set_bw))
unfolding update_power
update_power-keeps p c c' rc e bad = elim (Option-cases (find_bus p.buses none)) [
  | inl q ↦ ground (arith, q)
  | inr (max_bw, q) ↦ elim (Option-cases (adjust_bw_freqs max_bw (max_bw / 100) c)) [
    | inl a ↦ ground (arith, q, a)
    | inr ((rc', c''), a) ↦
        ground (arith, q, a, adjust_bw_freqs-keeps max_bw (max_bw / 100) c c'' rc' a)
  ]
]
