-- ===== src/Syncer/Edits.antt =====
-- What one run of the syncer of pkg/driver/securitygroup_syncer.go changes in the security group.
use nifcloud_nas_csi_driver.Base.{
  ◌≡◌, refl, sym, subst, ◌≢◌, ◌⊎◌, inl, inr, true, false, Option, none, some, List, [], ◌∷◌, ◌++◌,
  Bool-cases, All, In,
}
use nifcloud_nas_csi_driver.Base.Text.{Str, codes, str_eq, str_eq_iff}
use nifcloud_nas_csi_driver.Syncer.{IpRange, first_missing, first_stale, has_range, node_exists}

abbrev pub range_of : Str → Str
range_of ip = ip ++ codes "/32"

abbrev pub HasRange : Str → List IpRange → Type 0
HasRange range ranges = (r : IpRange) × In r ranges × (r.cidr_ip ≡ range)

abbrev pub IsNode : Str → List Str → Type 0
IsNode range ips = (ip : Str) × In ip ips × (range ≡ range_of ip)

has_range_lem :
    (range : Str) (rs : List IpRange)
    → ((has_range range rs ≡ true) × HasRange range rs)
      ⊎ ((has_range range rs ≡ false) × (¬ HasRange range rs))
unfolding has_range
has_range_lem range [] = inr (refl, λ (r, m, e). absurd m)
has_range_lem range (r ∷ rs) = elim (Bool-cases (str_eq r.cidr_ip range)) [
  | inl same ↦ inl (rw same refl, (r, inl refl, (str_eq_iff r.cidr_ip range).0 same))
  | inr other ↦ rw other (further (has_range_lem range rs) (apart other))
]
  where
    apart : str_eq r.cidr_ip range ≡ false → r.cidr_ip ≢ range
    apart other e = absurd (cc (other, (str_eq_iff r.cidr_ip range).1 e))

    inside : HasRange range rs → HasRange range (r ∷ rs)
    inside (x, m, e) = (x, inr m, e)

    outside : (¬ HasRange range rs) → r.cidr_ip ≢ range → ¬ HasRange range (r ∷ rs)
    outside n a (x, inl e, f) = a (subst (λ (y : IpRange). y.cidr_ip ≡ range) (sym e) f)
    outside n a (x, inr m, f) = n (x, m, f)

    further :
        ((has_range range rs ≡ true) × HasRange range rs)
          ⊎ ((has_range range rs ≡ false) × (¬ HasRange range rs))
        → r.cidr_ip ≢ range
        → ((has_range range rs ≡ true) × HasRange range (r ∷ rs))
          ⊎ ((has_range range rs ≡ false) × (¬ HasRange range (r ∷ rs)))
    further (inl (h, x)) a = inl (h, inside x)
    further (inr (h, n)) a = inr (h, outside n a)

node_exists_lem :
    (range : Str) (ips : List Str)
    → ((node_exists range ips ≡ true) × IsNode range ips)
      ⊎ ((node_exists range ips ≡ false) × (¬ IsNode range ips))
unfolding node_exists
node_exists_lem range [] = inr (refl, λ (ip, m, e). absurd m)
node_exists_lem range (ip ∷ ips) = elim (Bool-cases (str_eq range (range_of ip))) [
  | inl same ↦ inl (rw same refl, (ip, inl refl, (str_eq_iff range (range_of ip)).0 same))
  | inr other ↦ rw other (further (node_exists_lem range ips) (apart other))
]
  where
    apart : str_eq range (range_of ip) ≡ false → range ≢ range_of ip
    apart other e = absurd (cc (other, (str_eq_iff range (range_of ip)).1 e))

    inside : IsNode range ips → IsNode range (ip ∷ ips)
    inside (x, m, e) = (x, inr m, e)

    outside : (¬ IsNode range ips) → range ≢ range_of ip → ¬ IsNode range (ip ∷ ips)
    outside n a (x, inl e, f) = a (subst (λ y. range ≡ range_of y) (sym e) f)
    outside n a (x, inr m, f) = n (x, m, f)

    further :
        ((node_exists range ips ≡ true) × IsNode range ips)
          ⊎ ((node_exists range ips ≡ false) × (¬ IsNode range ips))
        → range ≢ range_of ip
        → ((node_exists range ips ≡ true) × IsNode range (ip ∷ ips))
          ⊎ ((node_exists range ips ≡ false) × (¬ IsNode range (ip ∷ ips)))
    further (inl (h, x)) a = inl (h, inside x)
    further (inr (h, n)) a = inr (h, outside n a)

-- The address that is authorized next, and the range that is revoked next.
abbrev pub Missing : List Str → List IpRange → Option Str → Type 0
Missing ips ranges none = All (λ ip. HasRange (range_of ip) ranges) ips
Missing ips ranges (some range) = IsNode range ips × (¬ HasRange range ranges)

abbrev pub Stale : List IpRange → List Str → Option Str → Type 0
Stale ranges ips none = All (λ (r : IpRange). IsNode r.cidr_ip ips) ranges
Stale ranges ips (some range) = HasRange range ranges × (¬ IsNode range ips)

pub first_missing_lem :
    (ips : List Str) (ranges : List IpRange) → Missing ips ranges (first_missing ips ranges)
unfolding first_missing
first_missing_lem [] ranges = tt
first_missing_lem (ip ∷ ips) ranges = elim (has_range_lem (range_of ip) ranges) [
  | inl (h, x) ↦ rw h (further x (first_missing ips ranges) (first_missing_lem ips ranges))
  | inr (h, n) ↦ rw h ((ip, inl refl, refl), n)
]
  where
    further :
        HasRange (range_of ip) ranges
        → (r : Option Str) → Missing ips ranges r
        → Missing (ip ∷ ips) ranges r
    further x none m = (x, m)
    further x (some range) ((y, m, e), n) = ((y, inr m, e), n)

pub first_stale_lem :
    (ranges : List IpRange) (ips : List Str) → Stale ranges ips (first_stale ranges ips)
unfolding first_stale
first_stale_lem [] ips = tt
first_stale_lem (r ∷ rs) ips = elim (node_exists_lem r.cidr_ip ips) [
  | inl (h, x) ↦ rw h (further x (first_stale rs ips) (first_stale_lem rs ips))
  | inr (h, n) ↦ rw h ((r, inl refl, refl), n)
]
  where
    further : IsNode r.cidr_ip ips → (o : Option Str) → Stale rs ips o → Stale (r ∷ rs) ips o
    further x none m = (x, m)
    further x (some range) ((y, m, e), n) = ((y, inr m, e), n)
