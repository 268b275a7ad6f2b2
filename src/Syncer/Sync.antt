-- ===== src/Syncer/Sync.antt =====
-- SyncNasSecurityGroups of pkg/driver/securitygroup_syncer.go, stage by stage.
use nifcloud_nas_csi_driver.Base.{
  ℕ, ◌/◌, ◌%◌, Bool, true, false, not, ◌&&◌, Option, none, some, List, [], ◌∷◌, ◌++◌, ◌==◌,
  if◌then◌else◌,
}
use nifcloud_nas_csi_driver.Base.Keys.{add_key}
use nifcloud_nas_csi_driver.Base.Text.{Str, str_eq, split}
use nifcloud_nas_csi_driver.Base.Outcome.{Outcome, Done, ok, err, plain}
use nifcloud_nas_csi_driver.Syncer.{
  CsiNode, StorageClass, PersistentVolume, SecurityGroupInput, NasSecurityGroup, NasInstance,
  Config, Answers, Call, create_group, change_group, authorize, revoke, NsgSyncer, Run, fails,
  returns, node_private_ips, get_security_group_name, find_input, unchanged, is_not_found,
  first_missing, first_stale, editable,
}

-- A call's error ends the run with an error.
abbrev pub ended {ℓ} : {A : Type ℓ} → NsgSyncer → List Call → Outcome A → Run
ended s calls (ok x) = returns s calls
ended s calls (err e) = fails s calls

module _ (config : Config) (a : Answers) where
  -- One address is authorized or one range is revoked, unless the group is being changed; without a
  -- task to do the flag is cleared.
  abbrev pub revoke_one : Str → Bool → Option Str → NsgSyncer → List Call → Run
  revoke_one name edit none s calls = returns (record s { has_task = false }) calls
  revoke_one name edit (some range) s calls =
      let t : NsgSyncer = record s { has_task = true } in
      if edit
      then ended t (calls ++ revoke name range ∷ []) (a.revoke_cidr_ip name range)
      else returns t calls

  abbrev pub authorize_one : Str → Bool → Option Str → Option Str → NsgSyncer → List Call → Run
  authorize_one name edit none stale s calls = revoke_one name edit stale s calls
  authorize_one name edit (some range) stale s calls =
      let t : NsgSyncer = record s { has_task = true } in
      if edit
      then ended t (calls ++ authorize name range ∷ []) (a.authorize_cidr_ip name range)
      else returns t calls

  unfoldable pub edit_stage : Str → List Str → NasSecurityGroup → NsgSyncer → List Call → Run
  unfolding first_missing first_stale editable
  edit_stage name ips group s calls =
      authorize_one name (editable group.ip_ranges)
        (first_missing (a.map_order ips) group.ip_ranges)
        (first_stale group.ip_ranges (a.map_order ips)) s calls

  -- The volumes of this driver: the first two parts of each handle; `none` where one has fewer.
  abbrev pub two_parts : List Str → Option Str
  two_parts (x ∷ y ∷ rest) = some (x ++ b'/' ∷ y)
  two_parts _ = none

  abbrev pub with_id : Option Str → Option (List Str) → Option (List Str)
  with_id (some id) (some ids) = some (add_key id ids)
  with_id _ _ = none

  unfoldable pub volume_ids : List PersistentVolume → Option (List Str)
  unfolding add_key
  volume_ids [] = some []
  volume_ids (pv ∷ pvs) =
      let rest = volume_ids pvs in
      elim pv.csi [
        | none ↦ rest
        | some csi ↦
            if str_eq csi.driver config.driver_name
            then with_id (two_parts (split b'/' csi.volume_handle)) rest
            else rest
      ]

  -- The instance of one volume is moved to this cluster's group if it is in another.
  abbrev pub moved : Str → NasInstance → List Str → List Call → Outcome Done × List Call
  moved group_name n [] calls = (err plain, calls)
  moved group_name n (g ∷ gs) calls = if str_eq g group_name then (ok tt, calls) else (
    a.change_security_group n.identifier group_name,
    calls ++ change_group n.identifier group_name ∷ [],
  )

  abbrev pub repair_one : Str → Outcome NasInstance → List Call → Outcome Done × List Call
  repair_one group_name (err e) calls = (err plain, calls)
  repair_one group_name (ok n) calls = moved group_name n n.security_groups calls

  abbrev pub go_on :
      Outcome Done × List Call → (List Call → Outcome Done × List Call) → Outcome Done × List Call
  go_on (ok u, calls) rest = rest calls
  go_on (err e, calls) rest = (err plain, calls)

  unfoldable pub repair : Str → List Str → List Call → Outcome Done × List Call
  repair group_name [] calls = (ok tt, calls)
  repair group_name (id ∷ ids) calls =
      go_on (repair_one group_name (a.get_instance id) calls) (repair group_name ids)

  -- Restoring is tried once: the flag is cleared before anything else.
  abbrev pub after_repair : (List Call → Run) → NsgSyncer → Outcome Done × List Call → Run
  after_repair rest s (ok u, calls) = rest calls
  after_repair rest s (err e, calls) = fails s calls

  abbrev pub repair_ids : Str → Option (List Str) → NsgSyncer → List Call → (List Call → Run) → Run
  repair_ids group_name none s calls rest = fails s calls
  repair_ids group_name (some ids) s calls rest =
      after_repair rest s (repair group_name (a.map_order ids) calls)

  abbrev pub repair_volumes :
      Str → Outcome (List PersistentVolume) → NsgSyncer → List Call → (List Call → Run) → Run
  repair_volumes group_name (err e) s calls rest = fails s calls
  repair_volumes group_name (ok pvs) s calls rest =
      repair_ids group_name (volume_ids pvs) s calls rest

  unfoldable pub restore_stage : Str → NsgSyncer → List Call → (NsgSyncer → List Call → Run) → Run
  unfolding volume_ids repair
  restore_stage group_name s calls rest =
      if s.restore_cluster_id
      then (let t : NsgSyncer = record s { restore_cluster_id = false } in
          repair_volumes group_name a.persistent_volumes t calls (rest t))
      else rest s calls

  -- The group is read, and created where it is not found.
  abbrev pub created :
      SecurityGroupInput
      → Outcome NasSecurityGroup
      → NsgSyncer
      → (NasSecurityGroup → List Call → Run)
      → Run
  created input (ok g) s rest = rest g (create_group input ∷ [])
  created input (err e) s rest = fails s (create_group input ∷ [])

  abbrev pub found_or_created :
      SecurityGroupInput
      → Outcome NasSecurityGroup
      → NsgSyncer
      → (NasSecurityGroup → List Call → Run)
      → Run
  found_or_created input (ok g) s rest = rest g []
  found_or_created input (err e) s rest =
      if is_not_found e then created input (a.create_security_group input) s rest else fails s []

  unfoldable pub cloud_check : List Str → SecurityGroupInput → NsgSyncer → Run
  unfolding restore_stage edit_stage
  cloud_check ips input s =
      found_or_created input (a.get_security_group input.group_name) s
        (λ g calls. restore_stage input.group_name s calls (edit_stage input.group_name ips g))

  -- The cloud is not asked if nothing changed, no task is left and its interval has not come.
  unfoldable pub internal_check : Bool → List Str → SecurityGroupInput → NsgSyncer → Run
  unfolding cloud_check unchanged
  internal_check do_cloud ips input s =
      if unchanged s ips input
      then (if not s.has_task && not do_cloud then returns s [] else cloud_check ips input s)
      else cloud_check ips input (record s {
        has_task = true;
        last_node_private_ips = some ips;
        last_security_group_input = some input;
      })

  abbrev pub with_input : Bool → List Str → Option SecurityGroupInput → NsgSyncer → Run
  with_input do_cloud ips none s = fails s []
  with_input do_cloud ips (some input) s = internal_check do_cloud ips input s

  abbrev pub with_classes : Bool → List Str → Str → Outcome (List StorageClass) → NsgSyncer → Run
  with_classes do_cloud ips name (err e) s = fails s []
  with_classes do_cloud ips name (ok classes) s =
      with_input do_cloud ips (find_input config.driver_name name classes) s

  abbrev pub with_name : Bool → List Str → Outcome Str → NsgSyncer → Run
  with_name do_cloud ips (err e) s = fails s []
  with_name do_cloud ips (ok name) s = with_classes do_cloud ips name a.storage_classes s

  abbrev pub with_nodes : Bool → Outcome (List CsiNode) → NsgSyncer → Run
  with_nodes do_cloud (err e) s = fails s []
  with_nodes do_cloud (ok nodes) s =
      with_name do_cloud (node_private_ips config.driver_name nodes)
        (get_security_group_name config a.kube_system_uid) s

  -- The intervals are counted in periods of the clock.
  abbrev pub due : ℕ → NsgSyncer → Bool
  due interval s = a.now / s.sync_period % (interval / s.sync_period) == 0

  unfoldable pub sync_nas_security_groups : NsgSyncer → Run
  unfolding internal_check node_private_ips get_security_group_name find_input
  sync_nas_security_groups s =
      if not s.has_task && (not (due s.internal_chk_intvl s) && not (due s.cloud_chk_intvl s))
      then returns s []
      else with_nodes (due s.cloud_chk_intvl s) a.csi_nodes s
