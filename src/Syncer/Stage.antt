-- ===== src/Syncer/Stage.antt =====
-- The edit of one run of the syncer of pkg/driver/securitygroup_syncer.go.
use nifcloud_nas_csi_driver.Base.{
  ◌≡◌, refl, ◌⊎◌, inl, inr, Bool, true, false, Option, none, some, List, [], ◌∷◌, ◌++◌, All,
}
use nifcloud_nas_csi_driver.Base.Text.{Str}
use nifcloud_nas_csi_driver.Base.Outcome.{Outcome, ok, err}
use nifcloud_nas_csi_driver.Syncer.{
  IpRange, NasSecurityGroup, Config, Answers, Call, authorize, revoke, NsgSyncer, Run,
  first_missing, first_stale, editable,
}
use nifcloud_nas_csi_driver.Syncer.Sync.{ended, revoke_one, authorize_one, edit_stage}
use nifcloud_nas_csi_driver.Syncer.Edits.{
  range_of, HasRange, IsNode, Missing, Stale, first_missing_lem, first_stale_lem,
}

module _ (config : Config) (a : Answers) (name : Str) (ips : List Str) (ranges : List IpRange)
    (before : List Call) where
  -- The calls of a run: none more, or one that authorizes the address of a node without a range, or one
  -- that revokes a range of no node.
  abbrev pub IsEdit : List Call → Type 0
  IsEdit calls =
      (calls ≡ before)
      ⊎ ((editable ranges ≡ true)
          × (((range : Str) × IsNode range ips
                × (¬ HasRange range ranges)
                × (calls ≡ before ++ authorize name range ∷ []))
              ⊎ ((range : Str) × HasRange range ranges
                  × (¬ IsNode range ips)
                  × (calls ≡ before ++ revoke name range ∷ []))))

  -- The ranges are those of the nodes.
  abbrev pub Synced : Type 0
  Synced =
      All (λ ip. HasRange (range_of ip) ranges) ips
      × All (λ (r : IpRange). IsNode r.cidr_ip ips) ranges

  abbrev Sound : Run → Type 0
  Sound (r, t, calls) = IsEdit calls × (t.has_task ≡ false → Synced)

  ended_lem :
      {A : Type 0} (t : NsgSyncer) (calls : List Call) (o : Outcome A)
      → t.has_task ≡ true
      → IsEdit calls
      → Sound (ended t calls o)
  ended_lem t calls (ok x) task e = (e, λ f. absurd (cc (task, f)))
  ended_lem t calls (err x) task e = (e, λ f. absurd (cc (task, f)))

  revoke_lem :
      (s : NsgSyncer) (edit : Bool) (stale : Option Str)
      → editable ranges ≡ edit
      → Missing ips ranges none
      → Stale ranges ips stale
      → Sound (revoke_one config a name edit stale s before)
  revoke_lem s edit none e m st = (inl refl, λ f. (m, st))
  revoke_lem s true (some range) e m (h, n) =
      ended_lem (record s { has_task = true }) (before ++ revoke name range ∷ [])
        (a.revoke_cidr_ip name range) refl (inr (e, inr (range, h, n, refl)))
  revoke_lem s false (some range) e m st = (inl refl, λ f. absurd (cc f))

  authorize_lem :
      (s : NsgSyncer) (edit : Bool) (missing stale : Option Str)
      → editable ranges ≡ edit
      → Missing ips ranges missing
      → Stale ranges ips stale
      → Sound (authorize_one config a name edit missing stale s before)
  authorize_lem s edit none stale e m st = revoke_lem s edit stale e m st
  authorize_lem s true (some range) stale e (h, n) st =
      ended_lem (record s { has_task = true }) (before ++ authorize name range ∷ [])
        (a.authorize_cidr_ip name range) refl (inr (e, inl (range, h, n, refl)))
  authorize_lem s false (some range) stale e m st = (inl refl, λ f. absurd (cc f))

module _ (config : Config) (a : Answers) (name : Str) (ips : List Str) (group : NasSecurityGroup)
    (s : NsgSyncer) (before : List Call) where
  stage_lem :
      IsEdit config a name
        (a.map_order ips)
        group.ip_ranges
        before
        (edit_stage config a name ips group s before).2
      × ((edit_stage config a name ips group s before).1.has_task ≡ false
          → Synced config a name (a.map_order ips) group.ip_ranges before)
  unfolding edit_stage
  stage_lem =
      authorize_lem config a name (a.map_order ips) group.ip_ranges before s
        (editable group.ip_ranges) (first_missing (a.map_order ips) group.ip_ranges)
        (first_stale group.ip_ranges (a.map_order ips)) refl
        (first_missing_lem (a.map_order ips) group.ip_ranges)
        (first_stale_lem group.ip_ranges (a.map_order ips))

-- The last stage of SyncNasSecurityGroups makes at most one call: it authorizes the address of a node
-- that has no range, or it revokes a range that is of no node, and only while every range of the group
-- is in the state `authorized`.
pub edit_stage-IsEdit :
    (config : Config) (a : Answers) (name : Str) (ips : List Str) (group : NasSecurityGroup)
    (s : NsgSyncer) (before : List Call)
    → IsEdit config a name
        (a.map_order ips)
        group.ip_ranges
        before
        (edit_stage config a name ips group s before).2
edit_stage-IsEdit config a name ips group s before = (stage_lem config a name ips group s before).0

-- The last stage of SyncNasSecurityGroups leaves no task only if every node's address has a range in
-- the group and every range of the group is a node's.
pub edit_stage-Synced :
    (config : Config) (a : Answers) (name : Str) (ips : List Str) (group : NasSecurityGroup)
    (s : NsgSyncer) (before : List Call)
    → (edit_stage config a name ips group s before).1.has_task ≡ false
    → Synced config a name (a.map_order ips) group.ip_ranges before
edit_stage-Synced config a name ips group s before = (stage_lem config a name ips group s before).1
