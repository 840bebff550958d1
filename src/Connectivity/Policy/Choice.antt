-- ===== src/Connectivity/Policy/Choice.antt =====
-- What `select_candidates` chooses: routes of the policy, each once, within its budgets.
use peer_application_runtime.Base.{
  ◌≤◌, ◌≡◌, refl, ap, subst, ◌∙◌, inl, inr, List, [], ◌∷◌, Bool, true, false, ◌||◌, Option, none,
  some, leb, length, All, arith, Bool-cases, both, leb→le, ||-left, ||-right,
}
use peer_application_runtime.Base.Bytes.{bytes_eq, bytes_eq_iff}
use peer_application_runtime.Base.Fallible.{
  done, failed, after, after_demand, done-injective, ◌>>=◌,
}
use peer_application_runtime.Connectivity.Model.{
  egress_denied, candidate_budget, candidate_bytes, route_not_granted, Outcome, Candidate,
  RouteGrant, Policy, same_route,
}
use peer_application_runtime.Connectivity.Grants.{has_route, distinct_routes}
use peer_application_runtime.Connectivity.Policy.{
  bytes_of, find_grant, select_from, select_candidates,
}

same_route_eq : (c d : Candidate) → same_route c d ≡ true → c ≡ d
same_route_eq c d e =
    let (source, rest) = both (bytes_eq c.source d.source) _ e in
    let (peer, endpoint) = both (bytes_eq c.peer_id d.peer_id) _ rest in
    ap (λ s. record c { source = s }) ((bytes_eq_iff _ _).0 source)
    ∙ ap (λ s. record c { source = d.source; peer_id = s }) ((bytes_eq_iff _ _).0 peer)
    ∙ ap (λ s. record d { endpoint = s }) ((bytes_eq_iff _ _).0 endpoint)

same_route_refl : (c : Candidate) → same_route c c ≡ true
same_route_refl c =
    rw ((bytes_eq_iff c.source c.source).1 refl, (bytes_eq_iff c.peer_id c.peer_id).1 refl)
      ((bytes_eq_iff c.endpoint c.endpoint).1 refl)

same_route_sym : (c d : Candidate) → same_route c d ≡ false → same_route d c ≡ false
same_route_sym c d e = elim (Bool-cases (same_route d c)) [
  | inl t ↦ cc (same_route_eq d c t, same_route_refl d)
  | inr f ↦ f
]

find_grant-route :
    (c : Candidate) (gs : List RouteGrant) {g : RouteGrant} → find_grant c gs ≡ some g → g.route ≡ c
unfolding find_grant
find_grant-route c [] e = cc
find_grant-route c (h ∷ gs) {g = g} e =
    ground (arith, find_grant-route c gs {g = g}, same_route_eq h.route c)

-- The grant of some route in a list of grants.
abbrev pub IsGrant : List RouteGrant → RouteGrant → Type 0
IsGrant grants g = (c : Candidate) × (find_grant c grants ≡ some g)

-- What the loop returns, after the routes it has taken.
record Chosen (grants taken : List RouteGrant) (rows : List Candidate) (gs : List RouteGrant)
    : Type 0 where
  few : length gs ≤ length rows
  all_granted : All (IsGrant grants) gs
  apart : distinct_routes gs ≡ true
  all_fresh : All (λ g. has_route g.route taken ≡ false) gs
  all_there : All (λ c. (has_route c gs || has_route c taken) ≡ true) rows

fresh-has_route :
    (g : RouteGrant) (taken gs : List RouteGrant)
    → All (λ h. has_route h.route (g ∷ taken) ≡ false) gs
    → (has_route g.route gs ≡ false) × All (λ h. has_route h.route taken ≡ false) gs
fresh-has_route g taken [] h = (refl, tt)
fresh-has_route g taken (k ∷ gs) (h, hs) =
    let (below, rest) = fresh-has_route g taken gs hs in
    let apart = same_route_sym g.route k.route (||-left (same_route g.route k.route) _ h) in
    (rw apart below, (||-right (same_route g.route k.route) _ h, rest))

there-step :
    (g : RouteGrant) (gs taken : List RouteGrant) (rows : List Candidate)
    → All (λ c. (has_route c gs || has_route c (g ∷ taken)) ≡ true) rows
    → All (λ c. (has_route c (g ∷ gs) || has_route c taken) ≡ true) rows
there-step g gs taken [] h = tt
there-step g gs taken (c ∷ rows) (h, hs) = (
  swap (has_route c gs) (same_route g.route c) (has_route c taken) h,
  there-step g gs taken rows hs,
)
  where
    swap : (a b d : Bool) → (a || (b || d)) ≡ true → ((b || a) || d) ≡ true
    swap a b d e = ground arith

-- A route that is taken already is there, and adds nothing.
skip-Chosen :
    (grants taken : List RouteGrant) (c : Candidate) (rows : List Candidate) {gs : List RouteGrant}
    → has_route c taken ≡ true
    → Chosen grants taken rows gs
    → Chosen grants taken (c ∷ rows) gs
skip-Chosen grants taken c rows {gs = gs} has v = record {
  few = omega (arith, v.few);
  all_granted = v.all_granted;
  apart = v.apart;
  all_fresh = v.all_fresh;
  all_there = (or_true (has_route c gs) (has_route c taken) has, v.all_there);
}
  where
    or_true : (a b : Bool) → b ≡ true → (a || b) ≡ true
    or_true a b e = ground arith

keep-Chosen :
    (grants taken : List RouteGrant) (c : Candidate) (g : RouteGrant) (rows : List Candidate)
    {rest : List RouteGrant}
    → find_grant c grants ≡ some g
    → has_route c taken ≡ false
    → Chosen grants (g ∷ taken) rows rest
    → Chosen grants taken (c ∷ rows) (g ∷ rest)
unfolding distinct_routes
keep-Chosen grants taken c g rows {rest = rest} at has v =
    let (apart, fresh) = fresh-has_route g taken rest v.all_fresh in
    let route = find_grant-route c grants at in
    record {
      few = omega (arith, v.few);
      all_granted = ((c, at), v.all_granted);
      apart = rw apart v.apart;
      all_fresh = (rw route has, fresh);
      all_there = (
        rw (ap (λ d. same_route d c) route ∙ same_route_refl c) refl,
        there-step g rest taken rows v.all_there,
      );
    }

select_step :
    (grants taken : List RouteGrant) (c : Candidate) (rows : List Candidate)
    → ((now gs : List RouteGrant)
        → select_from grants now rows ≡ done gs
        → Chosen grants now rows gs)
    → (o : Option RouteGrant) → find_grant c grants ≡ o
    → (b : Bool) → has_route c taken ≡ b
    → (gs : List RouteGrant)
    → (elim o as (λ x. Outcome (List RouteGrant)) [
      | none ↦ failed route_not_granted
      | some g ↦ elim b as (λ x. Outcome (List RouteGrant)) [
        | true ↦ select_from grants taken rows
        | false ↦ select_from grants (g ∷ taken) rows >>= λ rest. done (g ∷ rest)
      ]
    ])
      ≡ done gs
    → Chosen grants taken (c ∷ rows) gs
select_step grants taken c rows again none at b has gs e = cc
select_step grants taken c rows again (some g) at true has gs e =
    skip-Chosen grants taken c rows has (again taken gs e)
select_step grants taken c rows again (some g) at false has gs e =
    after (select_from grants (g ∷ taken) rows) e λ rest chosen end.
      subst (Chosen grants taken (c ∷ rows)) (done-injective end)
        (keep-Chosen grants taken c g rows at has (again (g ∷ taken) rest chosen))

select_from-Chosen :
    (grants taken : List RouteGrant) (rows : List Candidate) {gs : List RouteGrant}
    → select_from grants taken rows ≡ done gs
    → Chosen grants taken rows gs
unfolding select_from distinct_routes
select_from-Chosen grants taken [] e =
    subst (Chosen grants taken []) (done-injective e)
      (record { few = omega arith; all_granted = tt; apart = refl; all_fresh = tt; all_there = tt })
select_from-Chosen grants taken (c ∷ rows) e =
    select_step grants taken c rows (λ now gs. select_from-Chosen grants now rows)
      (find_grant c grants) refl (has_route c taken) refl _ e

-- What `select_candidates` promises of the grants it returns.
pub record Selected (p : Policy) (rows : List Candidate) (gs : List RouteGrant) : Type 0 where
  pub egress : p.allow_egress ≡ true
  pub few : length gs ≤ length rows
  pub within_budget : length rows ≤ p.max_candidates
  pub all_granted : All (IsGrant p.grants) gs
  pub apart : distinct_routes gs ≡ true
  pub all_there : All (λ c. has_route c gs ≡ true) rows

none_taken :
    (gs : List RouteGrant) (rows : List Candidate)
    → All (λ c. (has_route c gs || false) ≡ true) rows
    → All (λ c. has_route c gs ≡ true) rows
none_taken gs [] h = tt
none_taken gs (c ∷ rows) (h, hs) = (only (has_route c gs) h, none_taken gs rows hs)
  where
    only : (b : Bool) → (b || false) ≡ true → b ≡ true
    only true e = refl
    only false e = e

-- When `select_candidates` returns grants, the policy allows egress, the candidates are no more than its budget,
-- every grant is one of the policy, no two are for one route, and every candidate's route has its grant.
pub select_candidates-Selected :
    (rows : List Candidate) (p : Policy) {gs : List RouteGrant}
    → select_candidates rows p ≡ done gs
    → Selected p rows gs
unfolding select_candidates
select_candidates-Selected rows p e = after_demand p.allow_egress egress_denied e λ egress rest.
    after_demand (leb (length rows) p.max_candidates) candidate_budget rest λ few rest.
      after_demand (leb (bytes_of rows) p.max_candidate_bytes) candidate_bytes rest λ small chosen.
        let v = select_from-Chosen p.grants [] rows chosen in
        record {
          egress = egress;
          few = v.few;
          within_budget = leb→le _ _ few;
          all_granted = v.all_granted;
          apart = v.apart;
          all_there = none_taken _ rows v.all_there;
        }
