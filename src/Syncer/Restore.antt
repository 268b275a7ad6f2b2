-- ===== src/Syncer/Restore.antt =====
-- The volumes that the syncer of pkg/driver/securitygroup_syncer.go moves to the cluster's group.
use nifcloud_nas_csi_driver.Base.{
  ◌≡◌, refl, sym, ◌≢◌, ◌⊎◌, inl, inr, Bool, true, false, not, ◌&&◌, Option, none, some, List, [],
  ◌∷◌, ◌++◌, if◌then◌else◌, Bool-cases, In, In-snoc,
}
use nifcloud_nas_csi_driver.Base.Text.{Str}
use nifcloud_nas_csi_driver.Base.Outcome.{Outcome, ok, err}
use nifcloud_nas_csi_driver.Syncer.{
  CsiNode, StorageClass, SecurityGroupInput, NasSecurityGroup, Config, Answers, Call, create_group,
  change_group, authorize, revoke, NsgSyncer, Run, first_missing, first_stale, editable,
  is_not_found, unchanged, node_private_ips, get_security_group_name, find_input,
}
use nifcloud_nas_csi_driver.Syncer.Sync.{
  ended, revoke_one, authorize_one, edit_stage, restore_stage, created, found_or_created,
  cloud_check, internal_check, with_input, with_classes, with_name, with_nodes, due,
  sync_nas_security_groups,
}

-- No volume is moved to another group.
abbrev pub NoMoves : List Call → Type 0
NoMoves calls = (id group : Str) → ¬ In (change_group id group) calls

abbrev Calm : Run → Type 0
Calm (r, t, calls) = (t.restore_cluster_id ≡ false) × NoMoves calls

none_moved : NoMoves []
none_moved id group m = m

one_more :
    (c : Call) (calls : List Call)
    → NoMoves calls
    → ((id group : Str) → c ≢ change_group id group)
    → NoMoves (calls ++ c ∷ [])
one_more c calls calm n id group m = either (In-snoc (change_group id group) c calls m)
  where
    either : In (change_group id group) calls ⊎ (change_group id group ≡ c) → ⊥
    either (inl old) = calm id group old
    either (inr e) = n id group (sym e)

module _ (config : Config) (a : Answers) where
  ended-Calm :
      {A : Type 0} (s : NsgSyncer) (calls : List Call) (o : Outcome A)
      → s.restore_cluster_id ≡ false
      → NoMoves calls
      → Calm (ended s calls o)
  ended-Calm s calls (ok x) e n = (e, n)
  ended-Calm s calls (err x) e n = (e, n)

  revoke-Calm :
      (name : Str) (edit : Bool) (stale : Option Str) (s : NsgSyncer) (calls : List Call)
      → s.restore_cluster_id ≡ false
      → NoMoves calls
      → Calm (revoke_one config a name edit stale s calls)
  revoke-Calm name edit none s calls e n = (e, n)
  revoke-Calm name true (some range) s calls e n =
      ended-Calm (record s { has_task = true }) (calls ++ revoke name range ∷ [])
        (a.revoke_cidr_ip name range) e (one_more (revoke name range) calls n (λ id group f. cc f))
  revoke-Calm name false (some range) s calls e n = (e, n)

  authorize-Calm :
      (name : Str) (edit : Bool) (missing stale : Option Str) (s : NsgSyncer) (calls : List Call)
      → s.restore_cluster_id ≡ false
      → NoMoves calls
      → Calm (authorize_one config a name edit missing stale s calls)
  authorize-Calm name edit none stale s calls e n = revoke-Calm name edit stale s calls e n
  authorize-Calm name true (some range) stale s calls e n =
      ended-Calm (record s { has_task = true }) (calls ++ authorize name range ∷ [])
        (a.authorize_cidr_ip name range) e
        (one_more (authorize name range) calls n (λ id group f. cc f))
  authorize-Calm name false (some range) stale s calls e n = (e, n)

  rest-Calm :
      (ips : List Str) (input : SecurityGroupInput) (s : NsgSyncer) (g : NasSecurityGroup)
      (calls : List Call)
      → s.restore_cluster_id ≡ false
      → NoMoves calls
      → Calm (
          restore_stage config a input.group_name s calls
            (edit_stage config a input.group_name ips g))
  unfolding restore_stage edit_stage
  rest-Calm ips input s g calls e n = rw e (
      authorize-Calm input.group_name (editable g.ip_ranges)
        (first_missing (a.map_order ips) g.ip_ranges) (first_stale g.ip_ranges (a.map_order ips))
        (record s { restore_cluster_id = false }) calls refl n)

  cloud-Calm :
      (ips : List Str) (input : SecurityGroupInput) (s : NsgSyncer)
      → s.restore_cluster_id ≡ false
      → Calm (cloud_check config a ips input s)
  unfolding cloud_check
  cloud-Calm ips input s e = found_calm (a.get_security_group input.group_name)
    where
      rest : NasSecurityGroup → List Call → Run
      rest g calls =
          restore_stage config a input.group_name s calls
            (edit_stage config a input.group_name ips g)

      made : NoMoves (create_group input ∷ [])
      made id group (inl f) = absurd (cc f)
      made id group (inr m) = m

      created_calm : (o : Outcome NasSecurityGroup) → Calm (created config a input o s rest)
      created_calm (ok g) = rest-Calm ips input s g (create_group input ∷ []) e made
      created_calm (err x) = (e, made)

      found_calm : (o : Outcome NasSecurityGroup) → Calm (found_or_created config a input o s rest)
      found_calm (ok g) = rest-Calm ips input s g [] e none_moved
      found_calm (err x) = elim (Bool-cases (is_not_found x)) [
        | inl missing ↦ rw missing (created_calm (a.create_security_group input))
        | inr failed ↦ rw failed (e, none_moved)
      ]

  internal-Calm :
      (do_cloud : Bool) (ips : List Str) (input : SecurityGroupInput) (s : NsgSyncer)
      → s.restore_cluster_id ≡ false
      → Calm (internal_check config a do_cloud ips input s)
  unfolding internal_check
  internal-Calm do_cloud ips input s e = elim (Bool-cases (unchanged s ips input)) [
    | inl same ↦ rw same (kept (Bool-cases (not s.has_task && not do_cloud)))
    | inr new ↦ rw new (
        cloud-Calm ips input
          (record s {
            has_task = true;
            last_node_private_ips = some ips;
            last_security_group_input = some input;
          })
          e)
  ]
    where
      kept :
          (not s.has_task && not do_cloud ≡ true) ⊎ (not s.has_task && not do_cloud ≡ false)
          → Calm (
              if not s.has_task && not do_cloud
              then (ok tt, s, [])
              else cloud_check config a ips input s)
      kept (inl skip) = rw skip (e, none_moved)
      kept (inr check) = rw check (cloud-Calm ips input s e)

  with_input-Calm :
      (do_cloud : Bool) (ips : List Str) (o : Option SecurityGroupInput) (s : NsgSyncer)
      → s.restore_cluster_id ≡ false
      → Calm (with_input config a do_cloud ips o s)
  with_input-Calm do_cloud ips none s e = (e, none_moved)
  with_input-Calm do_cloud ips (some input) s e = internal-Calm do_cloud ips input s e

  with_classes-Calm :
      (do_cloud : Bool) (ips : List Str) (name : Str) (o : Outcome (List StorageClass))
      (s : NsgSyncer)
      → s.restore_cluster_id ≡ false
      → Calm (with_classes config a do_cloud ips name o s)
  with_classes-Calm do_cloud ips name (err x) s e = (e, none_moved)
  with_classes-Calm do_cloud ips name (ok classes) s e =
      with_input-Calm do_cloud ips (find_input config.driver_name name classes) s e

  with_name-Calm :
      (do_cloud : Bool) (ips : List Str) (o : Outcome Str) (s : NsgSyncer)
      → s.restore_cluster_id ≡ false
      → Calm (with_name config a do_cloud ips o s)
  with_name-Calm do_cloud ips (err x) s e = (e, none_moved)
  with_name-Calm do_cloud ips (ok name) s e =
      with_classes-Calm do_cloud ips name a.storage_classes s e

  with_nodes-Calm :
      (do_cloud : Bool) (o : Outcome (List CsiNode)) (s : NsgSyncer)
      → s.restore_cluster_id ≡ false
      → Calm (with_nodes config a do_cloud o s)
  with_nodes-Calm do_cloud (err x) s e = (e, none_moved)
  with_nodes-Calm do_cloud (ok nodes) s e =
      with_name-Calm do_cloud (node_private_ips config.driver_name nodes)
        (get_security_group_name config a.kube_system_uid) s e

-- A run of SyncNasSecurityGroups of a syncer that is not to restore a cluster id moves no volume to
-- another security group, whatever the Kubernetes API and the cloud answer, and leaves the syncer so.
pub sync_nas_security_groups-NoMoves :
    (config : Config) (a : Answers) (s : NsgSyncer)
    → s.restore_cluster_id ≡ false
    → ((sync_nas_security_groups config a s).1.restore_cluster_id ≡ false)
      × NoMoves (sync_nas_security_groups config a s).2
unfolding sync_nas_security_groups
sync_nas_security_groups-NoMoves config a s e = elim (Bool-cases skipped) [
  | inl skip ↦ rw skip (e, none_moved)
  | inr check ↦
      rw check (with_nodes-Calm config a (due config a s.cloud_chk_intvl s) a.csi_nodes s e)
]
  where
    skipped : Bool
    skipped =
        not s.has_task
        && (not (due config a s.internal_chk_intvl s) && not (due config a s.cloud_chk_intvl s))
