-- ===== src/Packets/Accepts.antt =====
-- Which packets of a client are accepted, and which entries of the tables are read
-- (msm/eva/hfi_packetization.c, msm/eva/msm_cvp_platform.c).
use eva_driver.Prelude.{
  ℕ, ◌+◌, ◌-◌, ◌*◌, ◌^◌, ◌≤◌, ◌<◌, ◌≡◌, ◌≢◌, ◌↔◌, ◌⊎◌, refl, ap, ◌∙◌, inl, inr, false, ◌||◌, Option,
  none, some, List, ◌∷◌, arith,
}
use eva_driver.Prelude.Tests.{ltb, leb, ◌==◌, Bool-cases}
use eva_driver.Prelude.Lists.{length, get_elem?, get_elem?-eq-get_or, get_or}
use eva_driver.Prelude.Errno.{success, failed, einval}
use eva_driver.Packets.Session.{PacketInst}
use eva_driver.Messages.{max_pkt_idx, max_hfi_pkt_size}
use eva_driver.Packets.Index.{
  HfiDef, cmd_session_start, msg_session_start, index_v2, known_index, get_pkt_index_from_type,
  outside, get_pkt_name_from_type, name_v2, check_packet,
}
use eva_driver.Packets.Numbered.{IsNumbered, get_pkt_index-IsNumbered, IsNumbered-get_pkt_index}
use eva_driver.Prelude.Words.{u32_mod}

-- A known type's entry: its index and what it holds.
pub record IsKnown (defs : List HfiDef) (found : Option ℕ) (i : ℕ) (d : HfiDef) : Type 0 where
  pub index : found ≡ some i
  pub inside : i < max_pkt_idx
  pub entry : get_elem? defs i ≡ some d
  pub used : d.size ≢ 0

-- The lookup of a type ends with -EINVAL or with the index of an entry in use.
abbrev Finds : List HfiDef → Option (Option ℕ) → Type 0
Finds defs out =
    (out ≡ some none)
    ⊎ ((found : Option ℕ) × (i : ℕ) × (d : HfiDef) × (out ≡ some found) × IsKnown defs found i d)

module _ (defs : List HfiDef) (whole : length defs ≡ max_pkt_idx) where
  at : (i : ℕ) → i < max_pkt_idx → (d : HfiDef) × (get_elem? defs i ≡ some d)
  at i h =
      let none' : HfiDef = record {
        size = 0;
        type = 0;
        config_pkt = false;
        force_kernel_fence = false;
      } in
      (get_or defs i none', get_elem?-eq-get_or defs i none' (omega (arith, whole)))

  known_index-Finds : (i : ℕ) → i < max_pkt_idx → Finds defs (known_index defs i)
  unfolding known_index
  known_index-Finds i h =
      let (d, e) = at i h in
      elim (Bool-cases (d.size == 0)) [
        | inl z ↦ inl (simp (known_index, e, z) refl)
        | inr z ↦ inr (
          some i,
          i,
          d,
          simp (known_index, e, z) refl,
          record { index = refl; inside = h; entry = e; used = ground (arith, z) },
        )
      ]

  get_pkt_index-Finds : (hfi_ver t : ℕ) → Finds defs (get_pkt_index_from_type hfi_ver defs t)
  unfolding get_pkt_index_from_type
  get_pkt_index-Finds hfi_ver t = elim (Bool-cases (hfi_ver == 1)) [
    | inl v ↦
        elim (Bool-cases (ltb t cmd_session_start || leb (cmd_session_start + max_pkt_idx) t)) [
          | inl o ↦ rw (v, o) (inl refl)
          | inr o ↦ rw (v, o) (known_index-Finds (t - cmd_session_start) (ground (arith, o)))
        ]
    | inr v ↦ elim (Bool-cases (leb (2 ^ 31) (index_v2 t) || leb max_pkt_idx (index_v2 t))) [
      | inl o ↦ rw (v, o) (inl refl)
      | inr o ↦ rw (v, o) (known_index-Finds (index_v2 t) (ground (arith, o)))
    ]
  ]

-- What an accepted packet is: it is no longer than a packet's limit, it names its own session, and
-- its type is that of the entry at the type's number, which is inside the table and in use.
pub record IsAccepted (hfi_ver : ℕ) (defs : List HfiDef) (i : PacketInst) (size type session_id : ℕ)
    : Type 0 where
  pub limited : size ≤ max_hfi_pkt_size * 4
  pub own : session_id ≡ i.sess_id
  pub index : ℕ
  pub def : HfiDef
  pub numbered : IsNumbered hfi_ver type index
  pub is_known : IsKnown defs (some index) index def
  pub same_type : def.type ≡ type

-- An accepted packet's entry is the one that the code finds.
accepted_found :
    {hfi_ver : ℕ} {defs : List HfiDef} {i : PacketInst} {size type session_id : ℕ}
    (a : IsAccepted hfi_ver defs i size type session_id)
    → get_pkt_index_from_type hfi_ver defs type ≡ some (some a.index)
accepted_found {hfi_ver} {defs} {type = type} a =
    let v = a.is_known in
    IsNumbered-get_pkt_index hfi_ver type a.index defs a.def a.numbered v.inside v.entry v.used

-- With a whole table every packet of at least three words is judged, and it is accepted exactly if
-- it has at most 2400 bytes, names its own session, and its type, a word, is that of the table's
-- entry at the type's number, which is inside the table and in use. The numbers of the first version
-- count the types from 0x4011000 on; those of the later ones count four ranges of types, from
-- 0x1200000, 0x1201000, 0x1202000 and 0x1203000 on, from 0, 50, 100 and 150.
pub check_packet_lem :
    (hfi_ver : ℕ) (defs : List HfiDef) (i : PacketInst) (size type session_id : ℕ) (rest : List ℕ)
    → length defs ≡ max_pkt_idx
    → type < u32_mod
    → ((check_packet hfi_ver defs i (size ∷ type ∷ session_id ∷ rest) ≡ some success)
        × IsAccepted hfi_ver defs i size type session_id)
      ⊎ ((check_packet hfi_ver defs i (size ∷ type ∷ session_id ∷ rest) ≡ some (failed einval))
          × ¬ IsAccepted hfi_ver defs i size type session_id)
unfolding check_packet
check_packet_lem hfi_ver defs i size type session_id rest whole word =
    elim (Bool-cases (ltb (max_hfi_pkt_size * 4) size)) [
      | inl l ↦ inr (rw l refl, λ a. absurd (ground (arith, l, a.limited)))
      | inr l ↦ elim (Bool-cases (session_id == i.sess_id)) [
        | inr s ↦ inr (rw (l, s) refl, λ a. absurd (ground (arith, s, a.own)))
        | inl s ↦ elim (get_pkt_index-Finds defs whole hfi_ver type) [
          | inl e ↦ inr (rw (l, s, e) refl, λ a. let f = accepted_found a in absurd (cc))
          | inr (found, k, d, e, v) ↦
              let e' : get_pkt_index_from_type hfi_ver defs type ≡ some (some k) =
                e ∙ ap some v.index in
              elim (Bool-cases (d.type == type)) [
                | inl t ↦ inl (
                  rw (l, s, e', v.entry, t) refl,
                  record {
                    limited = ground (arith, l);
                    own = ground (arith, s);
                    index = k;
                    def = d;
                    numbered = get_pkt_index-IsNumbered hfi_ver type k defs word v.inside e';
                    is_known = record {
                      index = refl;
                      inside = v.inside;
                      entry = v.entry;
                      used = v.used;
                    };
                    same_type = ground (arith, t);
                  },
                )
                | inr t ↦ inr (
                  rw (l, s, e', v.entry, t) refl,
                  λ a.
                      let f = accepted_found a in
                      let b = a.is_known.entry in
                      let c = v.entry in
                      let q : d ≡ a.def = cc in
                      absurd (ground (arith, t, ap (λ x. x.type) q, a.same_type)),
                )
              ]
        ]
      ]
    ]

name_v2-inside :
    (defs msg_defs : List HfiDef) (t : ℕ)
    → length defs ≡ max_pkt_idx
    → length msg_defs ≡ max_pkt_idx
    → name_v2 defs msg_defs t ≢ outside
unfolding name_v2
name_v2-inside defs msg_defs t w w' e = elim (get_pkt_index-Finds defs w 2 t) [
  | inl f ↦ let e' = rw f at e in ground (arith, e', w')
  | inr (found, k, d, f, v) ↦ let e' = rw (f, v.index) at e in ground (arith, e', w, w', v.inside)
]

-- With whole tables, the name of a type is looked up outside them exactly if the first version is
-- used and the type is the first one behind the commands or behind the messages.
pub get_pkt_name_from_type-outside :
    (hfi_ver t : ℕ) (defs msg_defs : List HfiDef)
    → length defs ≡ max_pkt_idx
    → length msg_defs ≡ max_pkt_idx
    → (get_pkt_name_from_type hfi_ver defs msg_defs t ≡ outside) ↔ (
        (hfi_ver ≡ 1)
        × ((t ≡ cmd_session_start + max_pkt_idx) ⊎ (t ≡ msg_session_start + max_pkt_idx)))
unfolding get_pkt_name_from_type
get_pkt_name_from_type-outside hfi_ver t defs msg_defs w w' = elim (Bool-cases (hfi_ver == 1)) [
  | inl v ↦ ground (arith, v, w, w')
  | inr v ↦ (
    λ e. absurd (name_v2-inside defs msg_defs t w w' (ground (arith, v, e))),
    λ (one, q). absurd (ground (arith, v, one)),
  )
]
