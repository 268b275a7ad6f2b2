-- ===== src/Controller/Leases.antt =====
-- The address that CreateVolume of pkg/driver/controller.go reserves and releases again.
use nifcloud_nas_csi_driver.Base.{
  ◌≡◌, refl, sym, subst, ◌≢◌, ◌⊎◌, inl, inr, Option, none, some, List, [], ◌∷◌, Bool-cases, In,
}
use nifcloud_nas_csi_driver.Base.Keys.{add_key, delete_key-In}
use nifcloud_nas_csi_driver.Base.Text.{Str, mem?}
use nifcloud_nas_csi_driver.Base.Outcome.{Error, Outcome, ok, err, status, internal}
use nifcloud_nas_csi_driver.Allocator.{
  IpAllocator, get_unreserved_ip, release_ip, hold_ip, granted, in_block as granted_in,
}
use nifcloud_nas_csi_driver.Net.Notation.{Cidr, parse_cidr}
use nifcloud_nas_csi_driver.Net.Ip.{Ip}
use nifcloud_nas_csi_driver.Cloud.{NasInstance}
use nifcloud_nas_csi_driver.Syncer.{Config, is_not_found}
use nifcloud_nas_csi_driver.Controller.{
  CreateVolumeRequest, Volume, compare_nas_instance_with_input,
}
use nifcloud_nas_csi_driver.Controller.Finish.{
  CreateAnswers, Act, Call, create_and_finish, finish_volume,
}
use nifcloud_nas_csi_driver.Controller.Prepare.{Prepared}
use nifcloud_nas_csi_driver.Controller.Create.{
  Leased, beside, with_ip, from_reserved, reserve_ip, reserved_ips, in_block, at_ip, on_network,
  compared, cidr_of, create_new, on_instance, on_prepared,
}

-- Fewer addresses, or the same.
abbrev pub Less : IpAllocator → IpAllocator → Type 0
Less t s = (ip : Str) → In ip t.pending_ips → In ip s.pending_ips

abbrev pub Back : IpAllocator → Leased → Type 0
Back s r =
    (v : Outcome Volume) (t : IpAllocator) (calls : List Call) → r ≡ some (v, t, calls) → Less t s

abbrev Granted : IpAllocator → Option (Outcome Str × IpAllocator) → Type 0
Granted s r =
    ((e : Error) (t : IpAllocator) → r ≡ some (err e, t) → t ≡ s)
    × ((ip : Str) (t : IpAllocator) → r ≡ some (ok ip, t) → t ≡ hold_ip s ip)

granted_lem : (s : IpAllocator) (r : Option Ip) → Granted s (some (granted s r))
granted_lem s none = ((λ e t h. cc h), λ ip t h. absurd (cc h))
granted_lem s (some ip) = ((λ e t h. absurd (cc h)), λ text t h. cc h)

in_block_lem :
    (s : IpAllocator) (ips : List Str) (c : Option Cidr) → Granted s (some (granted_in s ips c))
in_block_lem s ips none = ((λ e t h. cc h), λ ip t h. absurd (cc h))
in_block_lem s ips (some c) = granted_lem s _

add_key-In : (j k : Str) (ks : List Str) → In j (add_key k ks) → (k ≡ j) ⊎ In j ks
unfolding add_key
add_key-In j k ks h = elim (Bool-cases (mem? k ks)) [
  | inl old ↦ inr (rw old at h)
  | inr new ↦ rw new at h
]

released-Less : (s : IpAllocator) (ip : Str) → Less (release_ip s ip) s
unfolding release_ip
released-Less s ip j h = (delete_key-In j ip s.pending_ips h).0

release-hold : (s : IpAllocator) (ip : Str) → Less (release_ip (hold_ip s ip) ip) s
unfolding release_ip hold_ip
release-hold s ip j h = kept (delete_key-In j ip (add_key ip s.pending_ips) h)
  where
    either : (ip ≢ j) → (ip ≡ j) ⊎ In j s.pending_ips → In j s.pending_ips
    either n (inl e) = absurd (n e)
    either n (inr m) = m

    kept : In j (add_key ip s.pending_ips) × (ip ≢ j) → In j s.pending_ips
    kept (m, n) = either n (add_key-In j ip s.pending_ips m)

beside_lem :
    (s b : IpAllocator) → Less b s → (r : Option (Outcome Volume × List Call)) → Back s (beside b r)
beside_lem s b less none v t calls h = absurd (cc h)
beside_lem s b less (some (w, made)) v t calls h =
    let same : b ≡ t = cc h in subst (λ x. Less x s) same less

with_ip_lem :
    (s : IpAllocator) (rest : Str → Act Volume) (made : List Call)
    (r : Option (Outcome Str × IpAllocator))
    → Granted s r
    → Back s (with_ip rest made r)
unfolding release_ip
with_ip_lem s rest made none g v t calls h = absurd (cc h)
with_ip_lem s rest made (some (err e, alloc)) (refused, _) v t calls h =
    let same : release_ip alloc [] ≡ t = cc h in
    subst (λ x. Less x s) same
      (subst (λ a. Less (release_ip a []) s) (sym (refused e alloc refl)) (released-Less s []))
with_ip_lem s rest made (some (ok ip, alloc)) (_, given) v t calls h =
    beside_lem s (release_ip alloc ip)
      (subst (λ a. Less (release_ip a ip) s) (sym (given ip alloc refl)) (release-hold s ip))
      (rest ip made) v t calls h

reserve_lem :
    (s : IpAllocator) (r : Outcome (List NasInstance)) (cidr : Str)
    → Granted s (reserve_ip r s cidr)
unfolding reserve_ip get_unreserved_ip
reserve_lem s (err e) cidr = ((λ e' t h. cc h), λ ip t h. absurd (cc h))
reserve_lem s (ok instances) cidr = from_lem (reserved_ips instances)
  where
    from_lem : (ips : Option (List Str)) → Granted s (from_reserved s cidr ips)
    from_lem none = ((λ e t h. absurd (cc h)), λ ip t h. absurd (cc h))
    from_lem (some ips) = in_block_lem s ips (parse_cidr cidr)

module _ (config : Config) (a : CreateAnswers) (req : CreateVolumeRequest) (name : Str)
    (s : IpAllocator) (made : List Call) where
  in_block-Back : (p : Prepared) (cidr : Str) → Back s (in_block a req name p cidr s made)
  in_block-Back p [] v t calls h = subst (λ x. Less x s) (cc h) (λ ip m. m)
  in_block-Back p (c ∷ cidr) v t calls h =
      with_ip_lem s (at_ip a req name p) made (reserve_ip a.list_nas_instances s (c ∷ cidr))
        (reserve_lem s a.list_nas_instances (c ∷ cidr)) v t calls h

  on_network-Back :
      (p : Prepared) (network : Option Str) → Back s (on_network a req name p network s made)
  on_network-Back p none v t calls h =
      beside_lem s s (λ ip m. m)
        (create_and_finish a req name p.snapshot_id p.permission p.input made) v t calls h
  on_network-Back p (some network) v t calls h = in_block-Back p (cidr_of req p.cidr) v t calls h

  kept : (w : Outcome Volume) → Back s (some (w, s, made))
  kept w v t calls h = subst (λ x. Less x s) (cc h) (λ ip m. m)

  on_instance-Back :
      (p : Prepared) (r : Outcome NasInstance) → Back s (on_instance a req name p s made r)
  unfolding create_new
  on_instance-Back p (ok n) v t calls h =
      beside_lem s s (λ ip m. m)
        (compared (compare_nas_instance_with_input n p.input)
          (finish_volume a req name p.snapshot_id p.permission n) made)
        v t calls h
  on_instance-Back p (err e) v t calls h = elim (Bool-cases (is_not_found e)) [
    | inl new ↦ on_network-Back p p.input.network_id v t calls (rw new at h)
    | inr failed ↦ kept (err (status internal)) v t calls (rw failed at h)
  ]

  pub on_prepared-Back : (r : Outcome Prepared) → Back s (on_prepared a req name s made r)
  on_prepared-Back (err e) v t calls h = kept (err e) v t calls h
  on_prepared-Back (ok p) v t calls h = on_instance-Back p (a.get_nas_instance 0 name) v t calls h
