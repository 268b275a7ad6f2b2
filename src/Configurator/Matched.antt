-- ===== src/Configurator/Matched.antt =====
-- What the search of pkg/driver/configurator.go through the computing instances finds.
use nifcloud_nas_csi_driver.Base.{
  ℕ, ◌+◌, ◌≤◌, ◌≡◌, refl, sym, ap, ◌∙◌, subst, ◌⊎◌, inl, inr, Bool, true, false, not, ◌&&◌, List,
  [], ◌∷◌, map, arith, ◌==◌, if◌then◌else◌, ==_iff, Bool-cases, length, In,
}
use nifcloud_nas_csi_driver.Base.Keys.{Distinct}
use nifcloud_nas_csi_driver.Base.Text.{Str, is_empty, or_empty, str_eq, str_eq_iff}
use nifcloud_nas_csi_driver.Base.Outcome.{Outcome, ok, err}
use nifcloud_nas_csi_driver.Configurator.{NodeConfig}
use nifcloud_nas_csi_driver.Configurator.Search.{
  count_public, set_private, Place, Searched, Vm, take_vms, FoundVms, find_vms, no_place, of_vms,
  search_vms,
}

abbrev pub public_of : Vm → Str
public_of vm = or_empty vm.ip_address

abbrev pub private_of : Vm → Str
private_of vm = or_empty vm.private_ip_address

-- How many of the instances have a public address, and how many matches there are of all nodes.
unfoldable count_vms : List Vm → Str → ℕ
count_vms [] ip = 0
count_vms (vm ∷ vms) ip =
    let rest = count_vms vms ip in if str_eq (public_of vm) ip then rest + 1 else rest

unfoldable matches : List Vm → List NodeConfig → ℕ
unfolding count_vms
matches vms [] = 0
matches vms (nc ∷ ncs) = count_vms vms nc.public_ip + matches vms ncs

matches_nil : (ncs : List NodeConfig) → matches [] ncs ≡ 0
unfolding matches count_vms
matches_nil [] = refl
matches_nil (nc ∷ ncs) = ground (arith, matches_nil ncs)

matches_cons :
    (vm : Vm) (vms : List Vm) (ncs : List NodeConfig)
    → matches (vm ∷ vms) ncs ≡ count_public (public_of vm) ncs + matches vms ncs
unfolding matches count_vms count_public
matches_cons vm vms [] = ground arith
matches_cons vm vms (nc ∷ ncs) = ground (arith, matches_cons vm vms ncs)

-- The private address a node ends with.
unfoldable last_private : List Vm → Str → Str → Str
last_private [] ip private = private
last_private (vm ∷ vms) ip private =
    last_private vms ip (if str_eq (public_of vm) ip then private_of vm else private)

unfoldable assigned : List Vm → NodeConfig → NodeConfig
unfolding last_private
assigned vms nc = record nc { private_ip = last_private vms nc.public_ip nc.private_ip }

assigned_once :
    (vm : Vm) (vms : List Vm) (ncs : List NodeConfig)
    → map (assigned vms) (set_private (public_of vm) (private_of vm) ncs)
      ≡ map (assigned (vm ∷ vms)) ncs
unfolding assigned last_private set_private
assigned_once vm vms [] = refl
assigned_once vm vms (nc ∷ ncs) = elim (Bool-cases (str_eq (public_of vm) nc.public_ip)) [
  | inl here ↦ rw here (
      ap (λ l. (record nc { private_ip = last_private vms nc.public_ip (private_of vm) }) ∷ l)
        (assigned_once vm vms ncs))
  | inr other ↦ rw other (ap (λ l. assigned vms nc ∷ l) (assigned_once vm vms ncs))
]

-- Private addresses do not change what matches.
matches-set_private :
    (vms : List Vm) (ip private : Str) (ncs : List NodeConfig)
    → (matches vms (set_private ip private ncs) ≡ matches vms ncs)
      × (length (set_private ip private ncs) ≡ length ncs)
unfolding matches set_private
matches-set_private vms ip private [] = (refl, refl)
matches-set_private vms ip private (nc ∷ ncs) =
    ground (arith, matches-set_private vms ip private ncs)

assigned_none : (ncs : List NodeConfig) → ncs ≡ map (assigned []) ncs
unfolding assigned last_private
assigned_none [] = refl
assigned_none (nc ∷ ncs) = ap (λ l. nc ∷ l) (assigned_none ncs)

find_vms_lem :
    (vms : List Vm) (f : FoundVms)
    → ((find_vms vms f).vm_found ≡ f.vm_found + matches vms f.nodes)
      × ((find_vms vms f).nodes ≡ map (assigned vms) f.nodes)
unfolding find_vms
find_vms_lem [] f = (rw (matches_nil f.nodes) (omega arith), assigned_none f.nodes)
find_vms_lem (vm ∷ vms) f =
    let g : FoundVms = record {
      vm_found = f.vm_found + count_public (public_of vm) f.nodes;
      place = take_vms vm (count_public (public_of vm) f.nodes) f.place;
      nodes = set_private (public_of vm) (private_of vm) f.nodes;
    } in
    let (counted, mapped) = find_vms_lem vms g in
    (
      counted
          ∙ (ap (λ n. g.vm_found + n)
                (matches-set_private vms (public_of vm) (private_of vm) f.nodes).0
              ∙ rw (matches_cons vm vms f.nodes) (omega arith)),
      mapped ∙ assigned_once vm vms f.nodes,
    )

-- With public addresses of their own, no two instances have one address.
none_counted : (vms : List Vm) (ip : Str) → ¬ In ip (map public_of vms) → count_vms vms ip ≡ 0
unfolding count_vms
none_counted [] ip h = refl
none_counted (vm ∷ vms) ip h = elim (Bool-cases (str_eq (public_of vm) ip)) [
  | inl same ↦ absurd (h (inl ((str_eq_iff (public_of vm) ip).0 same)))
  | inr other ↦ rw other (none_counted vms ip (λ m. h (inr m)))
]

one_counted : (vms : List Vm) (ip : Str) → Distinct (map public_of vms) → count_vms vms ip ≤ 1
unfolding count_vms
one_counted [] ip h = omega arith
one_counted (vm ∷ vms) ip (fresh, h) = elim (Bool-cases (str_eq (public_of vm) ip)) [
  | inl same ↦
      let none_left = none_counted vms ip (λ m.
        fresh (
          subst (λ x. In x (map public_of vms)) (sym ((str_eq_iff (public_of vm) ip).0 same)) m)) in
      rw (same, none_left) (omega arith)
  | inr other ↦ rw other (one_counted vms ip h)
]

-- Where there are as many matches as nodes, every node has one.
matches_bound :
    (vms : List Vm) (ncs : List NodeConfig)
    → Distinct (map public_of vms)
    → matches vms ncs ≤ length ncs
unfolding matches
matches_bound vms [] h = omega arith
matches_bound vms (nc ∷ ncs) h =
    let one = one_counted vms nc.public_ip h in let rest = matches_bound vms ncs h in omega arith

all_matched :
    (vms : List Vm) (ncs : List NodeConfig)
    → Distinct (map public_of vms)
    → matches vms ncs ≡ length ncs
    → (nc : NodeConfig) → In nc ncs
    → 1 ≤ count_vms vms nc.public_ip
unfolding matches
all_matched vms [] h e nc m = absurd m
all_matched vms (first ∷ ncs) h e nc m =
    let one = one_counted vms first.public_ip h in
    let bound = matches_bound vms ncs h in
    let this : 1 ≤ count_vms vms first.public_ip = omega arith in
    let rest : matches vms ncs ≡ length ncs = omega arith in
    of_either this (λ i. all_matched vms ncs h rest nc i) m
  where
    of_either :
        1 ≤ count_vms vms first.public_ip
        → (In nc ncs → 1 ≤ count_vms vms nc.public_ip)
        → In nc (first ∷ ncs)
        → 1 ≤ count_vms vms nc.public_ip
    of_either this later (inl same) = subst (λ x. 1 ≤ count_vms vms x.public_ip) same this
    of_either this later (inr i) = later i

-- An instance with the public address of a node, whose private address the node has.
abbrev pub Located : List Vm → NodeConfig → Type 0
Located vms nc =
    (vm : Vm) × In vm vms × (public_of vm ≡ nc.public_ip) × (private_of vm ≡ nc.private_ip)

last_private_lem :
    (vms : List Vm) (ip private : Str)
    → ((count_vms vms ip ≡ 0) × (last_private vms ip private ≡ private))
      ⊎ ((vm : Vm) × In vm vms
          × (public_of vm ≡ ip)
          × (private_of vm ≡ last_private vms ip private))
unfolding count_vms last_private
last_private_lem [] ip private = inl (refl, refl)
last_private_lem (vm ∷ vms) ip private = elim (Bool-cases (str_eq (public_of vm) ip)) [
  | inl same ↦
      rw same
        (here ((str_eq_iff (public_of vm) ip).0 same) (last_private_lem vms ip (private_of vm)))
  | inr other ↦ rw other (further (last_private_lem vms ip private))
]
  where
    here :
        public_of vm ≡ ip
        → ((count_vms vms ip ≡ 0) × (last_private vms ip (private_of vm) ≡ private_of vm))
          ⊎ ((v : Vm) × In v vms
              × (public_of v ≡ ip)
              × (private_of v ≡ last_private vms ip (private_of vm)))
        → ((count_vms vms ip + 1 ≡ 0) × (last_private vms ip (private_of vm) ≡ private))
          ⊎ ((v : Vm) × In v (vm ∷ vms)
              × (public_of v ≡ ip)
              × (private_of v ≡ last_private vms ip (private_of vm)))
    here e (inl (zero_left, kept)) = inr (vm, inl refl, e, sym kept)
    here e (inr (v, m, p, q)) = inr (v, inr m, p, q)

    further :
        ((count_vms vms ip ≡ 0) × (last_private vms ip private ≡ private))
          ⊎ ((v : Vm) × In v vms
              × (public_of v ≡ ip)
              × (private_of v ≡ last_private vms ip private))
        → ((count_vms vms ip ≡ 0) × (last_private vms ip private ≡ private))
          ⊎ ((v : Vm) × In v (vm ∷ vms)
              × (public_of v ≡ ip)
              × (private_of v ≡ last_private vms ip private))
    further (inl x) = inl x
    further (inr (v, m, p, q)) = inr (v, inr m, p, q)

In-map-assigned :
    (vms : List Vm) (ncs : List NodeConfig) (nc : NodeConfig)
    → In nc (map (assigned vms) ncs)
    → (old : NodeConfig) × In old ncs × (assigned vms old ≡ nc)
In-map-assigned vms [] nc m = absurd m
In-map-assigned vms (x ∷ ncs) nc (inl e) = (x, inl refl, e)
In-map-assigned vms (x ∷ ncs) nc (inr m) =
    let (old, i, e) = In-map-assigned vms ncs nc m in (old, inr i, e)

of_vms_lem :
    (due : Bool) (p : Place) (nodes : List NodeConfig) (f : FoundVms) (found : Searched)
    → of_vms due p nodes f ≡ ok found
    → (f.vm_found ≡ length nodes) × (f.nodes ≡ found.nodes)
of_vms_lem due p nodes f found h =
    elim (Bool-cases (
      f.vm_found == length nodes
      && (not (is_empty f.place.network_id) && not (is_empty f.place.zone)))) [
        | inl all ↦ (equal (f.vm_found == length nodes) refl all, ap nodes_of (rw all at h))
        | inr other ↦ absurd (cc (rw other at h))
      ]
  where
    nodes_of : Outcome Searched → List NodeConfig
    nodes_of (ok x) = x.nodes
    nodes_of (err e) = []

    equal :
        (b : Bool)
        → f.vm_found == length nodes ≡ b
        → (b && (not (is_empty f.place.network_id) && not (is_empty f.place.zone))) ≡ true
        → f.vm_found ≡ length nodes
    equal true e h' = (==_iff f.vm_found (length nodes)).0 e
    equal false e h' = absurd (cc h')

-- A search of computing instances with distinct public addresses that succeeds has located every
-- node: an instance has its public address and the node's private address is the instance's.
pub search_vms-Located :
    (due : Bool) (p : Place) (vms : List Vm) (nodes : List NodeConfig) (found : Searched)
    → Distinct (map public_of vms)
    → search_vms due p vms nodes ≡ ok found
    → (nc : NodeConfig) → In nc found.nodes
    → Located vms nc
unfolding search_vms assigned
search_vms-Located due p vms nodes found h hs nc m =
    let start : FoundVms = record { vm_found = 0; place = no_place; nodes = nodes } in
    let (counted, same) = of_vms_lem due p nodes (find_vms vms start) found hs in
    let (total, mapped) = find_vms_lem vms start in
    let all : matches vms nodes ≡ length nodes = omega arith in
    let (old, i, e) = In-map-assigned vms nodes nc (subst (λ l. In nc l) (sym same ∙ mapped) m) in
    let one = all_matched vms nodes h all old i in
    subst (Located vms) e (located old one (last_private_lem vms old.public_ip old.private_ip))
  where
    located :
        (old : NodeConfig)
        → 1 ≤ count_vms vms old.public_ip
        → ((count_vms vms old.public_ip ≡ 0)
            × (last_private vms old.public_ip old.private_ip ≡ old.private_ip))
          ⊎ ((v : Vm) × In v vms
              × (public_of v ≡ old.public_ip)
              × (private_of v ≡ last_private vms old.public_ip old.private_ip))
        → Located vms (assigned vms old)
    located old one (inl (zero_left, kept)) = absurd (omega arith)
    located old one (inr x) = x
