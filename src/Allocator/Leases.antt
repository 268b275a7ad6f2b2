-- ===== src/Allocator/Leases.antt =====
-- Grants that are outstanding at the same time: create requests take an address from the allocator
-- and release it when they return, in any order.
use nifcloud_nas_csi_driver.Base.{
  ◌≡◌, refl, subst, ◌≢◌, inl, inr, true, some, List, [], ◌∷◌, ◌++◌, arith, In, In-append_right,
}
use nifcloud_nas_csi_driver.Base.Keys.{
  delete_key, Distinct, In-add_key_self, In-add_key, In-delete_key, delete_key-In,
  delete_key-Distinct,
}
use nifcloud_nas_csi_driver.Base.Text.{Str}
use nifcloud_nas_csi_driver.Base.Outcome.{ok}
use nifcloud_nas_csi_driver.Net.Ip.{Ip, IsIp, ip_eq_iff}
use nifcloud_nas_csi_driver.Net.Notation.{parse_ip, ip_text, parse_ip-ip_text}
use nifcloud_nas_csi_driver.Allocator.{
  IpAllocator, used, get_unreserved_ip, hold_ip, release_ip, new_ip_allocator,
}
use nifcloud_nas_csi_driver.Allocator.Grants.{get_unreserved_ip-IsGrant}

pub record System : Type 0 where
  pub allocator : IpAllocator
  pub leases : List Str

abbrev pub initial : System
initial = record { allocator = new_ip_allocator []; leases = [] }

-- A request is granted an address, or one that holds an address releases it.
pub data Step : System → System → Type 0 where
  grant :
      (s : System) (cidr : Str) (cloud_ips : List Str) (ip : Str) (a : IpAllocator)
      → get_unreserved_ip s.allocator cidr cloud_ips ≡ (ok ip, a)
      → Step s (record { allocator = a; leases = ip ∷ s.leases })
  release :
      (s : System) (ip : Str)
      → In ip s.leases
      → Step s (record { allocator = release_ip s.allocator ip; leases = delete_key ip s.leases })

pub data Reach : System → Type 0 where
  start : Reach initial
  later : {s t : System} → Reach s → Step s t → Reach t

-- Every lease is the text of an address, and is pending.
pub record IsLease (a : IpAllocator) (s : Str) : Type 0 where
  pub ip : Ip
  pub address : IsIp ip
  pub named : s ≡ ip_text ip
  pub pending : In s a.pending_ips

pub record Inv (s : System) : Type 0 where
  pub distinct : Distinct s.leases
  pub leased : (x : Str) → In x s.leases → IsLease s.allocator x

-- A lease is used, in the sense of the search, wherever it stands in the list of reserved addresses.
used-In :
    (s : Str) (ip : Ip) (rs : List Str) → IsIp ip → s ≡ ip_text ip → In s rs → used rs ip ≡ true
unfolding used
used-In s ip [] h e m = absurd m
used-In s ip (r ∷ rs) h e (inl m) =
    let parsed : parse_ip r ≡ some ip = rw (m, e) (parse_ip-ip_text ip h) in
    rw (parsed, (ip_eq_iff ip ip h h).1 refl)
used-In s ip (r ∷ rs) h e (inr m) = ground (arith, used-In s ip rs h e m)

hold-IsLease : (a : IpAllocator) (ip x : Str) → IsLease a x → IsLease (hold_ip a ip) x
unfolding hold_ip
hold-IsLease a ip x l = record {
  ip = l.ip;
  address = l.address;
  named = l.named;
  pending = In-add_key x ip a.pending_ips l.pending;
}

module _ (a : IpAllocator) (cidr : Str) (cloud_ips : List Str) (ip : Str) (b : IpAllocator)
    (granted : get_unreserved_ip a cidr cloud_ips ≡ (ok ip, b)) where
  -- What is pending is not granted.
  not_pending : ¬ In ip a.pending_ips
  not_pending m =
      let (c, p, g, e) = get_unreserved_ip-IsGrant a cidr cloud_ips ip b granted in
      cc (
        used-In ip g.ip (cloud_ips ++ a.pending_ips) g.address g.named
            (In-append_right ip cloud_ips a.pending_ips m),
        g.free,
      )

  held : b ≡ hold_ip a ip
  held = (get_unreserved_ip-IsGrant a cidr cloud_ips ip b granted).3

  granted-IsLease : IsLease (hold_ip a ip) ip
  unfolding hold_ip
  granted-IsLease =
      let (c, p, g, e) = get_unreserved_ip-IsGrant a cidr cloud_ips ip b granted in
      record {
        ip = g.ip;
        address = g.address;
        named = g.named;
        pending = In-add_key_self ip a.pending_ips;
      }

grant-leased :
    (a : IpAllocator) (ip : Str) (ls : List Str)
    → IsLease (hold_ip a ip) ip
    → ((x : Str) → In x ls → IsLease a x)
    → (x : Str) → In x (ip ∷ ls)
    → IsLease (hold_ip a ip) x
grant-leased a ip ls self h x (inl e) = subst (IsLease (hold_ip a ip)) e self
grant-leased a ip ls self h x (inr m) = hold-IsLease a ip x (h x m)

release-IsLease :
    (a : IpAllocator) (ip x : Str) → ip ≢ x → IsLease a x → IsLease (release_ip a ip) x
unfolding release_ip
release-IsLease a ip x n l = record {
  ip = l.ip;
  address = l.address;
  named = l.named;
  pending = In-delete_key x ip a.pending_ips l.pending n;
}

Step-Inv : {s t : System} → Step s t → Inv s → Inv t
Step-Inv (grant s cidr cloud_ips ip a g) h = record {
  distinct =
      ((λ m. not_pending s.allocator cidr cloud_ips ip a g (h.leased ip m).pending), h.distinct);
  leased = rw (held s.allocator cidr cloud_ips ip a g) (
      grant-leased s.allocator ip s.leases (granted-IsLease s.allocator cidr cloud_ips ip a g)
        h.leased);
}
Step-Inv (release s ip m) h = record {
  distinct = delete_key-Distinct ip s.leases h.distinct;
  leased = λ x k.
      let (k', n) = delete_key-In x ip s.leases k in
      release-IsLease s.allocator ip x n (h.leased x k');
}

initial-Inv : Inv initial
initial-Inv = record { distinct = tt; leased = λ x m. absurd m }

-- In every state that requests reach by grants and releases in any order, no address is leased
-- twice, and each lease is the text of an address and is pending in the allocator.
pub leases_distinct : {s : System} → Reach s → Inv s
leases_distinct start = initial-Inv
leases_distinct (later r st) = Step-Inv st (leases_distinct r)
