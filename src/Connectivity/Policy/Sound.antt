-- ===== src/Connectivity/Policy/Sound.antt =====
-- What the targets of `authorize_addresses` have passed.
use peer_application_runtime.Base.{
  ℕ, suc, ◌≤◌, ◌≡◌, refl, sym, ap, subst, ◌⊎◌, inl, inr, List, [], ◌∷◌, map, Bool, true, false, not,
  ◌&&◌, Option, none, some, leb, length, All, arith, both, leb→le, if-both,
}
use peer_application_runtime.Base.Text.{Str}
use peer_application_runtime.Base.Bytes.{bytes_eq, contains}
use peer_application_runtime.Base.Fallible.{
  done, failed, demand, collect, collect-All, collect-each, length-collect, after, after_demand,
  demanded, done-injective,
}
use peer_application_runtime.Connectivity.Ip.{Ip, Network, in_network, write_ip}
use peer_application_runtime.Connectivity.Model.{
  metadata_denied, local_address_denied, special_address_denied, address_not_granted,
  resolution_mismatch, dns_not_granted, dns_alias_budget, address_budget, no_addresses, Outcome,
  Endpoint, RouteGrant, Policy, Resolution, DialTarget,
}
use peer_application_runtime.Connectivity.Endpoint.{numeric_ip, parse_endpoint, parse_network}
use peer_application_runtime.Connectivity.Policy.{
  special_v4, special_v6, local, global_v6, within, check_range, is_metadata, allowed_ip,
  address_allowed, check_aliases, resolved, answer_of, unique, target_of, authorize_addresses,
}

abbrev pub IsPublic : Ip → Type 0
IsPublic ip =
    ((ip.is_v6 ≡ false) × (within ip special_v4 ≡ false))
    ⊎ ((ip.is_v6 ≡ true) × (in_network ip global_v6 ≡ true) × (within ip special_v6 ≡ false))

-- A network of the grant that has the address.
abbrev pub Granted : RouteGrant → Ip → Type 0
Granted g ip =
    (ns : List Network) × (collect parse_network g.networks ≡ done ns) × (within ip ns ≡ true)

pub record Admitted (g : RouteGrant) (ip : Ip) : Type 0 where
  pub not_metadata : is_metadata ip ≡ false
  pub in_range : ((within ip local ≡ true) × (g.allow_local ≡ true)) ⊎ IsPublic ip
  pub granted : Granted g ip

negated : (b : Bool) → not b ≡ true → b ≡ false
negated b h = ground arith

check_range_lem :
    (allow : Bool) (ip : Ip) {u : Unit {0}}
    → check_range allow ip ≡ done u
    → ((within ip local ≡ true) × (allow ≡ true)) ⊎ IsPublic ip
unfolding check_range
check_range_lem allow ip =
    steps (within ip local) ip.is_v6 (within ip special_v4) (in_network ip global_v6)
      (within ip special_v6)
  where
    steps :
        (l v s g t : Bool) {u : Unit {0}}
        → (elim l as (λ x. Outcome (Unit {0})) [
          | true ↦ demand allow local_address_denied
          | false ↦ elim v as (λ x. Outcome (Unit {0})) [
            | false ↦ demand (not s) special_address_denied
            | true ↦ demand (g && not t) special_address_denied
          ]
        ])
          ≡ done u
        → ((l ≡ true) × (allow ≡ true))
          ⊎ (((v ≡ false) × (s ≡ false)) ⊎ ((v ≡ true) × (g ≡ true) × (t ≡ false)))
    steps true v s g t e = inl (refl, demanded allow local_address_denied e)
    steps false false s g t e = inr (inl (refl, negated s (demanded _ special_address_denied e)))
    steps false true s g t e =
        let (global, rest) = both g (not t) (demanded _ special_address_denied e) in
        inr (inr (refl, global, negated t rest))

allowed_ip_lem :
    (text : Str) (g : RouteGrant) {ip : Ip} → allowed_ip text g ≡ done ip → Admitted g ip
unfolding allowed_ip
allowed_ip_lem text g e = after (numeric_ip text) e λ ip read rest.
    after_demand (not (is_metadata ip)) metadata_denied rest λ meta rest.
      after (check_range g.allow_local ip) rest λ u range rest.
        after (collect parse_network g.networks) rest λ ns parsed rest.
          after_demand (within ip ns) address_not_granted rest λ inside end.
            subst (Admitted g) (done-injective end) (record {
              not_metadata = negated _ meta;
              in_range = check_range_lem g.allow_local ip range;
              granted = (ns, parsed, inside);
            })

-- The address a text stands for, when the grant admits it.
abbrev pub Written : RouteGrant → Str → Type 0
Written g text = (ip : Ip) × (text ≡ write_ip ip) × Admitted g ip

address_allowed-Written :
    (g : RouteGrant) (a : Str) (text : Str) → address_allowed a g ≡ done text → Written g text
unfolding address_allowed
address_allowed-Written g a text e =
    after (allowed_ip a g) e λ ip ok end. (ip, sym (done-injective end), allowed_ip_lem a g ok)

unique-All : (P : Str → Type 0) (seen ss : List Str) → All P ss → All P (unique seen ss)
unfolding unique
unique-All P seen [] h = tt
unique-All P seen (s ∷ ss) (h, hs) =
    if-both (All P) (contains s seen) _ _ (λ c. unique-All P seen ss hs)
      λ c. (h, unique-All P (s ∷ seen) ss hs)

length-unique : (seen ss : List Str) → length (unique seen ss) ≤ length ss
unfolding unique
length-unique seen [] = omega arith
length-unique seen (s ∷ ss) = ground (arith, length-unique seen ss, length-unique (s ∷ seen) ss)

map-All :
    {A B : Type 0} (P : B → Type 0) (f : A → B) (xs : List A)
    → All (λ x. P (f x)) xs
    → All P (map f xs)
map-All P f [] h = tt
map-All P f (x ∷ xs) (h, hs) = (h, map-All P f xs hs)

length-map : {A B : Type 0} (f : A → B) (xs : List A) → length (map f xs) ≡ length xs
length-map f [] = refl
length-map f (x ∷ xs) = ap suc (length-map f xs)

-- A target of the grant: its peer and source, the generation, and an address that is admitted.
pub record Target (g : RouteGrant) (generation : ℕ) (t : DialTarget) : Type 0 where
  pub peer : t.dial_peer ≡ g.route.peer_id
  pub source : t.dial_source ≡ g.route.source
  pub current : t.for_generation ≡ generation
  pub address : Written g t.ip

-- Every target `authorize_addresses` returns is for the peer and the source of the grant and for the generation
-- given. Its address is the text of one that is not the metadata address, is local only if the grant allows
-- local addresses, is otherwise in no special range, and is in a network of the grant.
pub authorize_addresses-Target :
    (g : RouteGrant) (r : Option Resolution) (p : Policy) (generation : ℕ) {ts : List DialTarget}
    → authorize_addresses g r p generation ≡ done ts
    → All (Target g generation) ts
unfolding authorize_addresses
authorize_addresses-Target g r p generation e =
    after (parse_endpoint g.route.endpoint) e λ endpoint parsed rest.
      after (answer_of endpoint g r p) rest λ addresses answered rest.
        after (collect (λ a. address_allowed a g) addresses) rest λ ips checked end.
          subst (All (Target g generation)) (done-injective end) (
            map-All (Target g generation) (target_of endpoint g generation) (unique [] ips) (
              unique-All _ [] ips (
                collect-All _ (λ a. address_allowed a g) addresses
                  (λ a text ok. record {
                    peer = refl;
                    source = refl;
                    current = refl;
                    address = address_allowed-Written g a text ok;
                  })
                  checked)))

-- What a resolver's answer has passed.
pub record Answered (e : Endpoint) (g : RouteGrant) (r : Resolution) (p : Policy) : Type 0 where
  pub few_aliases : length r.names ≤ p.max_aliases
  pub few_addresses : length r.addresses ≤ p.max_addresses
  pub some_address : 1 ≤ length r.addresses
  pub named : check_aliases g.aliases (e.host ∷ []) r.names ≡ done tt
  pub same_host : bytes_eq r.query e.host ≡ true

resolved-Answered :
    (e : Endpoint) (resolver : Str) (g : RouteGrant) (r : Resolution) (p : Policy)
    {texts : List Str}
    → resolved e resolver g r p ≡ done texts
    → (texts ≡ r.addresses) × Answered e g r p
unfolding resolved
resolved-Answered e resolver g r p eq =
    after_demand (bytes_eq r.query e.host && bytes_eq r.by_resolver resolver) resolution_mismatch eq
      λ asked rest.
        after_demand (leb (length r.names) p.max_aliases) dns_alias_budget rest λ aliases rest.
          after (check_aliases g.aliases (e.host ∷ []) r.names) rest λ u named rest.
            after_demand (leb (length r.addresses) p.max_addresses) address_budget rest λ few rest.
              after_demand (leb 1 (length r.addresses)) no_addresses rest λ one end. (
                sym (done-injective end),
                record {
                  few_aliases = leb→le _ _ aliases;
                  few_addresses = leb→le _ _ few;
                  some_address = leb→le _ _ one;
                  named = named;
                  same_host = (both _ _ asked).0;
                },
              )

answer_of-Answered :
    (e : Endpoint) (g : RouteGrant) (r : Resolution) (p : Policy) {texts : List Str}
    → answer_of e g (some r) p ≡ done texts
    → (texts ≡ r.addresses) × Answered e g r p
unfolding answer_of
answer_of-Answered e g r p = steps e.literal g.resolver_id
  where
    steps :
        (l o : Option Str) {texts : List Str}
        → (elim l as (λ x. Outcome (List Str)) [
          | some t ↦ failed resolution_mismatch
          | none ↦ elim o as (λ x. Outcome (List Str)) [
            | none ↦ failed dns_not_granted
            | some resolver ↦ resolved e resolver g r p
          ]
        ])
          ≡ done texts
        → (texts ≡ r.addresses) × Answered e g r p
    steps (some t) o eq = cc
    steps none none eq = cc
    steps none (some resolver) eq = resolved-Answered e resolver g r p eq

-- With a resolver's answer, `authorize_addresses` returns targets only if every address of the answer passes
-- `address_allowed`, and every alias `check_aliases`; there are then no more targets than the answer has addresses,
-- and no more addresses and aliases than the policy's budgets.
pub authorize_addresses-Answered :
    (g : RouteGrant) (r : Resolution) (p : Policy) (generation : ℕ) {ts : List DialTarget}
    → authorize_addresses g (some r) p generation ≡ done ts
    → All (λ a. (text : Str) × (address_allowed a g ≡ done text)) r.addresses
      × (length ts ≤ length r.addresses)
      × ((e : Endpoint) × Answered e g r p)
unfolding authorize_addresses
authorize_addresses-Answered g r p generation eq =
    after (parse_endpoint g.route.endpoint) eq λ e parsed rest.
      after (answer_of e g (some r) p) rest λ addresses answered rest.
        after (collect (λ a. address_allowed a g) addresses) rest λ ips checked end.
          let (same, ok) = answer_of-Answered e g r p answered in
          (
            subst (All _) same (collect-each (λ a. address_allowed a g) addresses checked),
            subst (λ ts. length ts ≤ length r.addresses) (done-injective end)
                (omega (
                  arith,
                  length-map (target_of e g generation) (unique [] ips),
                  length-unique [] ips,
                  length-collect (λ a. address_allowed a g) addresses checked,
                  ap length same,
                )),
            (e, ok),
          )
