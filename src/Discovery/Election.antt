-- ===== src/Discovery/Election.antt =====
-- internal/discovery/discovery.go: of the orchestrators that hear of each other, one is elected.
use m_aistr.Prelude.{
  ltb, ◌≡◌, refl, sym, ap, ◌∙◌, subst, arith, String, str_eq, eq_iff, Bool, true, false, ◌&&◌, ◌⊎◌,
  if_elim, List, [], ◌∷◌, any, select, length, All, ◌≢◌, if◌then◌else◌, Bool-cases, inl, inr,
}
use m_aistr.Discovery.{
  Announcement, Peer, outranks, is_orchestrator, may_lead, best_orchestrator_candidate,
  is_best_orchestrator_candidate, is_elected_orchestrator,
}
use m_aistr.Discovery.Ranks.{
  outranks_asymm, outranks_trans, outranks_total, not_outranks_trans, not_outranks_self,
}

-- No peer of the list that may lead outranks the announcement.
abbrev pub Unbeaten : Announcement → List Peer → Type 0
Unbeaten a peers = All (λ p. (may_lead p && outranks p.announcement a) ≡ false) peers

-- No peer of the list has the id of the announcement.
abbrev pub Foreign : Announcement → List Peer → Type 0
Foreign a peers = All (λ p. str_eq p.announcement.id a.id ≡ false) peers

-- The list has a peer with just this announcement.
abbrev pub Hears : List Peer → Announcement → Type 0
Hears [] b = ⊥
Hears (p ∷ ps) b = (p.announcement ≡ b) ⊎ Hears ps b

Unbeaten-best :
    (best : Announcement) (peers : List Peer)
    → Unbeaten best peers
    → best_orchestrator_candidate best peers ≡ best
unfolding best_orchestrator_candidate
Unbeaten-best best [] u = refl
Unbeaten-best best (p ∷ ps) (h, u) = ground (arith, h, Unbeaten-best best ps u)

-- An announcement of the list that outranks the first best.
abbrev Better : Announcement → List Peer → Announcement → Type 0
Better best peers r =
    (outranks r best ≡ true) × (any (λ p. str_eq p.announcement.id r.id) peers ≡ true)

best_cases :
    (best : Announcement) (peers : List Peer)
    → Unbeaten best peers ⊎ Better best peers (best_orchestrator_candidate best peers)
unfolding best_orchestrator_candidate
best_cases best [] = inl tt
best_cases best (p ∷ ps) = elim (Bool-cases (may_lead p && outranks p.announcement best)) [
  | inl better ↦
      let e : best_orchestrator_candidate best (p ∷ ps)
          ≡ best_orchestrator_candidate p.announcement ps =
        ground (arith, better) in
      let o : outranks p.announcement best ≡ true = ground (arith, better) in
      elim (best_cases p.announcement ps) [
        | inl u ↦ inr (
            subst (Better best (p ∷ ps)) (sym (e ∙ Unbeaten-best p.announcement ps u))
              (o, ground (arith, eq_iff p.announcement.id p.announcement.id)))
        | inr (o', m) ↦ inr (
            subst (Better best (p ∷ ps)) (sym e) (
              outranks_trans (best_orchestrator_candidate p.announcement ps) p.announcement best o'
                  o,
              ground (arith, m),
            ))
      ]
  | inr worse ↦
      let e : best_orchestrator_candidate best (p ∷ ps) ≡ best_orchestrator_candidate best ps =
        ground (arith, worse) in
      elim (best_cases best ps) [
        | inl u ↦ inl (worse, u)
        | inr (o, m) ↦ inr (subst (Better best (p ∷ ps)) (sym e) (o, ground (arith, m)))
      ]
]

Foreign-none :
    (a : Announcement) (peers : List Peer) (id : String)
    → Foreign a peers
    → id ≡ a.id
    → any (λ p. str_eq p.announcement.id id) peers ≡ false
Foreign-none a [] id f e = refl
Foreign-none a (p ∷ ps) id (h, f) e =
    let here : str_eq p.announcement.id id ≡ false = ap (str_eq p.announcement.id) e ∙ h in
    ground (arith, here, Foreign-none a ps id f e)

is_best-Unbeaten :
    (a : Announcement) (peers : List Peer)
    → Foreign a peers
    → is_best_orchestrator_candidate a peers ≡ true
    → Unbeaten a peers
unfolding is_best_orchestrator_candidate
is_best-Unbeaten a peers f h = elim (best_cases a peers) [
  | inl u ↦ u
  | inr (o, m) ↦
      let same = (eq_iff (best_orchestrator_candidate a peers).id a.id).0 h in
      let none = Foreign-none a peers (best_orchestrator_candidate a peers).id f same in absurd (cc)
]

Foreign-active :
    (a : Announcement) (peers : List Peer)
    → Foreign a peers
    → Foreign a (select is_orchestrator peers)
Foreign-active a [] f = tt
Foreign-active a (p ∷ ps) (h, f) =
    if_elim {A = List Peer} (Foreign a) (is_orchestrator p) (λ _. (h, Foreign-active a ps f))
      (λ _. Foreign-active a ps f)

-- An elected orchestrator is outranked by no orchestrator that it hears of.
elected-Unbeaten :
    (a : Announcement) (peers : List Peer)
    → Foreign a peers
    → is_elected_orchestrator a peers ≡ true
    → Unbeaten a (select is_orchestrator peers)
unfolding is_elected_orchestrator
elected-Unbeaten a peers f h = go (select is_orchestrator peers) (Foreign-active a peers f) h
  where
    go :
        (active : List Peer)
        → Foreign a active
        → (if ltb 0 (length active)
            then is_best_orchestrator_candidate a active
            else if str_eq a.role "orchestrator"
            then true
            else is_best_orchestrator_candidate a peers)
          ≡ true
        → Unbeaten a active
    go [] g e = tt
    go (p ∷ ps) g e = is_best-Unbeaten a (p ∷ ps) g (ground (arith, e))

-- What that says of each peer.
abbrev Outdone : Announcement → List Peer → Type 0
Outdone a peers = All (λ p. (is_orchestrator p && outranks p.announcement a) ≡ false) peers

selected-Outdone :
    (a : Announcement) (peers : List Peer)
    → Unbeaten a (select is_orchestrator peers)
    → Outdone a peers
selected-Outdone a [] u = tt
selected-Outdone a (p ∷ ps) u = go (is_orchestrator p) refl u (λ v. selected-Outdone a ps v)
  where
    go :
        (b : Bool)
        → is_orchestrator p ≡ b
        → Unbeaten a (if b then p ∷ select is_orchestrator ps else select is_orchestrator ps)
        → (Unbeaten a (select is_orchestrator ps) → Outdone a ps)
        → Outdone a (p ∷ ps)
    go true e (h, v) rest = (ground (arith, e, h), rest v)
    go false e v rest = (ground (arith, e), rest v)

heard-not_outranked :
    (a b : Announcement) (peers : List Peer)
    → Hears peers b
    → b.role ≡ "orchestrator"
    → Outdone a peers
    → outranks b a ≡ false
heard-not_outranked a b [] h r u = elim h [ ]
heard-not_outranked a b (p ∷ ps) (inl e) r (here, u) =
    let role : str_eq p.announcement.role "orchestrator" ≡ true =
      (eq_iff p.announcement.role "orchestrator").1 (ap (λ z. z.role) e ∙ r) in
    sym (ap (λ z. outranks z a) e) ∙ ground (arith, here, role)
heard-not_outranked a b (p ∷ ps) (inr h) r (here, u) = heard-not_outranked a b ps h r u

heard-Foreign :
    (a b : Announcement) (peers : List Peer) → Hears peers b → Foreign a peers → b.id ≢ a.id
heard-Foreign a b [] h f e = elim h [ ]
heard-Foreign a b (p ∷ ps) (inl q) (here, f) e =
    let same : str_eq p.announcement.id a.id ≡ true =
      (eq_iff p.announcement.id a.id).1 (ap (λ z. z.id) q ∙ e) in
    cc
heard-Foreign a b (p ∷ ps) (inr h) (here, f) e = heard-Foreign a b ps h f e

-- Of two orchestrators that hear each other's announcements, and no announcement under their own
-- ids, one at most is elected, whatever else they hear.
pub elected_at_most_one :
    (a b : Announcement) (peers_a peers_b : List Peer)
    → (a.role ≡ "orchestrator") × (b.role ≡ "orchestrator")
    → Foreign a peers_a × Hears peers_a b
    → Foreign b peers_b × Hears peers_b a
    → is_elected_orchestrator a peers_a ≡ true
    → is_elected_orchestrator b peers_b ≡ false
elected_at_most_one a b peers_a peers_b (role_a, role_b) (fa, hb) (fb, ha) elected =
    elim (Bool-cases (is_elected_orchestrator b peers_b)) [
      | inr no_b ↦ no_b
      | inl both ↦
          let ab =
            heard-not_outranked a b peers_a hb role_b
              (selected-Outdone a peers_a (elected-Unbeaten a peers_a fa elected)) in
          let ba =
            heard-not_outranked b a peers_b ha role_a
              (selected-Outdone b peers_b (elected-Unbeaten b peers_b fb both)) in
          absurd (heard-Foreign a b peers_a hb fa (outranks_total b a ab ba))
    ]

-- Conversely an orchestrator that none outranks of those that it hears of is elected.
best_stays :
    (a : Announcement) (peers : List Peer)
    → Unbeaten a peers
    → is_best_orchestrator_candidate a peers ≡ true
unfolding is_best_orchestrator_candidate
best_stays a peers u =
    (eq_iff (best_orchestrator_candidate a peers).id a.id).1
      (ap (λ z. z.id) (Unbeaten-best a peers u))

Unbeaten-elected :
    (a : Announcement) (peers : List Peer)
    → a.role ≡ "orchestrator"
    → Unbeaten a (select is_orchestrator peers)
    → is_elected_orchestrator a peers ≡ true
unfolding is_elected_orchestrator
Unbeaten-elected a peers r u =
    ground
      (arith, best_stays a (select is_orchestrator peers) u, (eq_iff a.role "orchestrator").1 r)

-- Members of a group, and what they hear of the group.
abbrev IsMember : Announcement → List Announcement → Type 0
IsMember a [] = ⊥
IsMember a (b ∷ group) = (a ≡ b) ⊎ IsMember a group

highest :
    (a : Announcement) (group : List Announcement)
    → (m : Announcement) × IsMember m (a ∷ group)
      × ((b : Announcement) → IsMember b (a ∷ group) → outranks b m ≡ false)
highest a [] = (
  a,
  inl refl,
  λ b m. elim m [
    | inl e ↦ ap (λ z. outranks z a) e ∙ not_outranks_self a
    | inr none_left ↦ elim none_left [ ]
  ],
)
highest a (b ∷ group) =
    let (m, in_group, top) = highest b group in
    elim (Bool-cases (outranks m a)) [
      | inl above ↦ (
        m,
        inr in_group,
        λ c k. elim k [
          | inl e ↦ ap (λ z. outranks z m) e ∙ outranks_asymm m a above
          | inr k' ↦ top c k'
        ],
      )
      | inr below ↦ (
        a,
        inl refl,
        λ c k. elim k [
          | inl e ↦ ap (λ z. outranks z a) e ∙ not_outranks_self a
          | inr k' ↦ not_outranks_trans c m a (top c k') below
        ],
      )
    ]

topped :
    (m : Announcement) (group : List Announcement) (peers : List Peer)
    → ((b : Announcement) → IsMember b group → outranks b m ≡ false)
    → All (λ p. IsMember p.announcement group) peers
    → Unbeaten m (select is_orchestrator peers)
topped m group [] top h = tt
topped m group (p ∷ ps) top (here, h) =
    if_elim {A = List Peer} (Unbeaten m) (is_orchestrator p)
      (λ _. (ground (arith, top p.announcement here), topped m group ps top h))
      (λ _. topped m group ps top h)

IsMember-role :
    (m : Announcement) (group : List Announcement)
    → All (λ a. a.role ≡ "orchestrator") group
    → IsMember m group
    → m.role ≡ "orchestrator"
IsMember-role m [] r h = elim h [ ]
IsMember-role m (a ∷ group) (here, r) (inl e) = ap (λ z. z.role) e ∙ here
IsMember-role m (a ∷ group) (here, r) (inr h) = IsMember-role m group r h

-- Of a group of orchestrators one is elected whatever it hears of the group.
one_elected :
    (a : Announcement) (group : List Announcement)
    → All (λ b. b.role ≡ "orchestrator") (a ∷ group)
    → (m : Announcement) × IsMember m (a ∷ group)
      × ((peers : List Peer)
          → All (λ p. IsMember p.announcement (a ∷ group)) peers
          → is_elected_orchestrator m peers ≡ true)
one_elected a group roles =
    let (m, in_group, top) = highest a group in
    (
      m,
      in_group,
      λ peers h.
          Unbeaten-elected m peers (IsMember-role m (a ∷ group) roles in_group)
            (topped m (a ∷ group) peers top h),
    )
