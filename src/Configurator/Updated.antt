-- ===== src/Configurator/Updated.antt =====
-- What an Update of the configurator in pkg/driver/configurator.go leaves of the storage classes.
use nifcloud_nas_csi_driver.Base.{
  ◌≡◌, refl, ap, ◌∙◌, subst, ◌≢◌, inl, inr, Bool, true, false, not, ◌&&◌, ◌||◌, Option, none, some,
  List, [], ◌∷◌, ◌==◌, Bool-cases, length, In,
}
use nifcloud_nas_csi_driver.Base.Text.{Str, is_empty}
use nifcloud_nas_csi_driver.Base.Outcome.{Outcome, Done, ok, err}
use nifcloud_nas_csi_driver.Configurator.{
  NodeConfig, CsiNodeObject, CsiNodeApi, Gathered, get_node_configs,
}
use nifcloud_nas_csi_driver.Configurator.Search.{
  Vm, Place, Searched, FoundVms, no_place, find_vms, of_vms, search_vms,
}
use nifcloud_nas_csi_driver.Configurator.Classes.{
  ClassObject, ClassApi, ClassPlace, get_storage_classes, set_storage_classes,
}
use nifcloud_nas_csi_driver.Configurator.Recreated.{IsLawful}
use nifcloud_nas_csi_driver.Configurator.Settled.{set_storage_classes-settles}
use nifcloud_nas_csi_driver.Configurator.SnapshotClasses.{SecretCall}
use nifcloud_nas_csi_driver.Configurator.Run.{
  Flags, Given, World, snapshots_made, snapshots_set, then_snapshots, settings, classes_set,
  nodes_set, after_cidr, choose_cidr, after_search, in_vms, configure, on_snapshots, on_classes,
  on_nodes, update,
}

not_empty : (x : Str) → is_empty x ≡ false → x ≢ []
not_empty [] h e = cc (h)
not_empty (a ∷ x) h e = cc (e)

three : (a b c : Bool) → (a && (not b && not c)) ≡ true → (b ≡ false) × (c ≡ false)
three true false false h = (refl, refl)
three true false true h = absurd (cc h)
three true true c h = absurd (cc h)
three false b c h = absurd (cc h)

search_vms-place :
    (due : Bool) (p : Place) (vms : List Vm) (nodes : List NodeConfig) (found : Searched)
    → search_vms due p vms nodes ≡ ok found
    → due ≡ true
    → (found.place.zone ≢ []) × (found.place.network_id ≢ [])
unfolding search_vms
search_vms-place due p vms nodes found h hd =
    placed (find_vms vms (record { vm_found = 0; place = no_place; nodes = nodes })) (rw hd at h)
  where
    placed :
        (f : FoundVms)
        → of_vms true p nodes f ≡ ok found
        → (found.place.zone ≢ []) × (found.place.network_id ≢ [])
    placed f h' =
        elim (Bool-cases (
          f.vm_found == length nodes
          && (not (is_empty f.place.network_id) && not (is_empty f.place.zone)))) [
            | inl all ↦
                let (n, z) =
                  three (f.vm_found == length nodes) (is_empty f.place.network_id)
                    (is_empty f.place.zone) all in
                let same : f.place ≡ found.place = cc (ap of_ok (rw all at h')) in
                (
                  λ e. not_empty f.place.zone z (ap (λ (q : Place). q.zone) same ∙ e),
                  λ e. not_empty f.place.network_id n (ap (λ (q : Place). q.network_id) same ∙ e),
                )
            | inr other ↦ absurd (cc (rw other at h'))
          ]
      where
        of_ok : Outcome Searched → Outcome Place
        of_ok (ok x) = ok x.place
        of_ok (err e) = err e

module _ (classes : ClassApi) (lawful : IsLawful classes) (csi_nodes : CsiNodeApi)
    (list_csi_nodes : csi_nodes.State → Outcome (List CsiNodeObject)) (flags : Flags)
    (g : Given) where
  -- What getStorageClasses reads has nothing to update.
  abbrev pub Settled : classes.State → Type 0
  Settled s =
      (zone : Str) × (network_id : Str) × (get_storage_classes flags.driver_name (classes.list s)
        ≡ ok (record { must_update = false; zone = zone; network_id = network_id }))

  -- A state whose classes list one of the driver.
  abbrev Owned : classes.State → Type 0
  Owned s =
      (cls : List ClassObject) × (mine : ClassObject) × (classes.list s ≡ ok cls)
      × In mine cls
      × (mine.provisioner ≡ flags.driver_name)

  snapshots_set_lem :
      (snap : Bool) (w t : World classes csi_nodes)
      → snapshots_set classes csi_nodes list_csi_nodes flags g snap w ≡ (ok tt, t)
      → w.class_state ≡ t.class_state
  snapshots_set_lem false w t h = ap (λ y. (y.1).class_state) h
  snapshots_set_lem true w t h = made _ h
    where
      made :
          (x : Outcome Done × List SecretCall)
          → snapshots_made classes csi_nodes list_csi_nodes flags g w x ≡ (ok tt, t)
          → w.class_state ≡ t.class_state
      made (ok u, calls) h' = ap (λ y. (y.1).class_state) h'
      made (err e, calls) h' = absurd (cc (ap (λ y. y.0) h'))

  -- Configuring the classes settles them; configuring only the rest leaves them alone.
  abbrev Configured : Bool → classes.State → World classes csi_nodes → Type 0
  Configured true s t = Owned t.class_state → Settled t.class_state
  Configured false s t = s ≡ t.class_state

  classes_set_lem :
      (cls snap : Bool) (p : Place) (w t : World classes csi_nodes)
      → (cls ≡ true → (p.zone ≢ []) × (p.network_id ≢ []))
      → classes_set classes csi_nodes list_csi_nodes flags g cls snap p w ≡ some (ok tt, t)
      → Configured cls w.class_state t
  classes_set_lem false snap p w t there h = snapshots_set_lem snap w t (cc h)
  classes_set_lem true snap p w t there h =
      λ (cls, mine, hl, m, own). settled cls mine hl m own _ refl h
    where
      settled :
          (cls : List ClassObject) (mine : ClassObject)
          → classes.list t.class_state ≡ ok cls
          → In mine cls
          → mine.provisioner ≡ flags.driver_name
          → (x : Option (Outcome Done × classes.State))
          → set_storage_classes classes
              (settings classes csi_nodes list_csi_nodes flags g p w)
              w.class_state
            ≡ x
          → then_snapshots classes csi_nodes list_csi_nodes flags g snap w x ≡ some (ok tt, t)
          → Settled t.class_state
      settled cls mine hl m own none hx h' = absurd (cc h')
      settled cls mine hl m own (some (err e, s)) hx h' = absurd (cc h')
      settled cls mine hl m own (some (ok u, s)) hx h' =
          let same : s ≡ t.class_state =
            snapshots_set_lem snap (record w { class_state = s }) t (cc h') in
          (
            p.zone,
            p.network_id,
            set_storage_classes-settles classes lawful
                (settings classes csi_nodes list_csi_nodes flags g p w) w.class_state t.class_state
                cls mine ((there refl).0) ((there refl).1) (hx ∙ ap (λ z. some (ok tt, z)) same) hl
                m own,
          )

  nodes_set_lem :
      (cls snap : Bool) (p : Place) (w t : World classes csi_nodes)
      (x : Outcome Done × csi_nodes.State)
      → (cls ≡ true → (p.zone ≢ []) × (p.network_id ≢ []))
      → nodes_set classes csi_nodes list_csi_nodes flags g cls snap p w x ≡ some (ok tt, t)
      → Configured cls w.class_state t
  nodes_set_lem cls snap p w t (err e, s) there h = absurd (cc h)
  nodes_set_lem cls snap p w t (ok u, s) there h =
      classes_set_lem cls snap p (record w { node_state = s }) t there h

  after_search_lem :
      (cls snap : Bool) (w t : World classes csi_nodes) (x : Outcome Searched)
      → ((found : Searched)
          → x ≡ ok found
          → cls ≡ true
          → (found.place.zone ≢ []) × (found.place.network_id ≢ []))
      → after_search classes csi_nodes list_csi_nodes flags g cls snap w (some x) ≡ some (ok tt, t)
      → Configured cls w.class_state t
  after_search_lem cls snap w t (err e) there h = absurd (cc h)
  after_search_lem cls snap w t (ok found) there h =
      by_cidr
        (choose_cidr classes csi_nodes list_csi_nodes flags g cls found.place.network_id w.cidr) h
    where
      w' : World classes csi_nodes
      w' = record w { cluster_name = found.place.cluster_name }

      by_cidr :
          (c : Outcome Str)
          → after_cidr classes csi_nodes list_csi_nodes flags g cls snap found w' c
            ≡ some (ok tt, t)
          → Configured cls w.class_state t
      by_cidr (err e) h' = absurd (cc h')
      by_cidr (ok cidr) h' =
          nodes_set_lem cls snap found.place (record w' { cidr = cidr }) t _ (there found refl) h'

  in_vms_lem :
      (cls snap : Bool) (p : Place) (nodes : List NodeConfig) (vms : Outcome (List Vm))
      (found : Searched)
      → in_vms classes csi_nodes list_csi_nodes flags g (cls || snap) p nodes vms ≡ ok found
      → cls ≡ true
      → (found.place.zone ≢ []) × (found.place.network_id ≢ [])
  in_vms_lem cls snap p nodes (err e) found h hc = absurd (cc h)
  in_vms_lem cls snap p nodes (ok vms) found h hc =
      search_vms-place (cls || snap) p vms nodes found h (rw hc refl)

  configure_lem :
      (cls snap : Bool) (read : ClassPlace) (nodes : List NodeConfig)
      (w t : World classes csi_nodes)
      → flags.hatoba ≡ false
      → configure classes csi_nodes list_csi_nodes flags g cls snap read nodes w ≡ some (ok tt, t)
      → Configured cls w.class_state t
  unfolding configure
  configure_lem cls snap read nodes w t hh h =
      after_search_lem cls snap w t _ (in_vms_lem cls snap _ nodes g.vms) (rw hh at h)

  -- In a cluster of computing instances, an Update that succeeds leaves storage classes in which
  -- the next one finds nothing to update, where the driver has a class at all.
  pub update-Settled :
      (w t : World classes csi_nodes) (cls : List ClassObject) (mine : ClassObject)
      → flags.hatoba ≡ false
      → update classes csi_nodes list_csi_nodes flags g w ≡ some (ok tt, t)
      → classes.list t.class_state ≡ ok cls
      → In mine cls
      → mine.provisioner ≡ flags.driver_name
      → Settled t.class_state
  unfolding update
  update-Settled w t cls mine hh h hl m own =
      by_nodes (get_node_configs flags.driver_name g.nodes (list_csi_nodes w.node_state)) h
    where
      state_of :
          ◌≡◌ {A = Option (Outcome Done × World classes csi_nodes)}
            (some (ok tt, w))
            (some (ok tt, t))
          → w.class_state ≡ t.class_state
      state_of e = cc e

      middle : (a b c : Bool) → (a || (b || c)) ≡ false → b ≡ false
      middle a false c e = refl
      middle true true c e = absurd (cc e)
      middle false true c e = absurd (cc e)

      by_must :
          (must snap : Bool) (zone network_id : Str) (nodes : List NodeConfig)
          → get_storage_classes flags.driver_name (classes.list w.class_state)
            ≡ ok (record { must_update = must; zone = zone; network_id = network_id })
          → Configured must w.class_state t
          → Settled t.class_state
      by_must true snap z n nodes hr done = done (cls, mine, hl, m, own)
      by_must false snap z n nodes hr done = subst Settled done (z, n, hr)

      by_snapshots :
          (nodes : Gathered) (read : ClassPlace) (snap : Outcome Bool)
          → get_storage_classes flags.driver_name (classes.list w.class_state) ≡ ok read
          → on_snapshots classes csi_nodes list_csi_nodes flags g w nodes read snap
            ≡ some (ok tt, t)
          → Settled t.class_state
      by_snapshots nodes read (err e) hr h' = absurd (cc h')
      by_snapshots nodes read (ok snap) hr h' =
          elim (Bool-cases (nodes.must_update || (read.must_update || snap))) [
            | inl due ↦
                by_must read.must_update snap read.zone read.network_id nodes.configs hr
                  (configure_lem read.must_update snap read nodes.configs w t hh (rw due at h'))
            | inr none_due ↦
                let same : w.class_state ≡ t.class_state = state_of (rw none_due at h') in
                subst Settled same (
                  read.zone,
                  read.network_id,
                  hr
                      ∙ ap
                          (λ b. ok (record {
                            must_update = b;
                            zone = read.zone;
                            network_id = read.network_id;
                          }))
                          (middle nodes.must_update read.must_update snap none_due),
                )
          ]

      by_classes :
          (nodes : Gathered) (r : Outcome ClassPlace)
          → get_storage_classes flags.driver_name (classes.list w.class_state) ≡ r
          → on_classes classes csi_nodes list_csi_nodes flags g w nodes r ≡ some (ok tt, t)
          → Settled t.class_state
      by_classes nodes (err e) hr h' = absurd (cc h')
      by_classes nodes (ok read) hr h' = by_snapshots nodes read _ hr h'

      by_nodes :
          (x : Outcome Gathered)
          → on_nodes classes csi_nodes list_csi_nodes flags g w x ≡ some (ok tt, t)
          → Settled t.class_state
      by_nodes (err e) h' = absurd (cc h')
      by_nodes (ok nodes) h' = by_classes nodes _ refl h'
