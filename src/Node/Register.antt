-- ===== src/Node/Register.antt =====
-- registerNodePrivateIP of pkg/driver/node.go: the node server annotates its own CSI node with the
-- private address of the interface, as the shell command prints it with its mask.
use nifcloud_nas_csi_driver.Base.{◌≡◌, refl, ap, ◌∙◌, some}
use nifcloud_nas_csi_driver.Base.Assoc.{put, find-put}
use nifcloud_nas_csi_driver.Base.Text.{Str, str_eq_refl, cut}
use nifcloud_nas_csi_driver.Base.Outcome.{Outcome, Done, ok, err}
use nifcloud_nas_csi_driver.Configurator.{
  CsiNodeObject, CsiNodeApi, private_key, private_annotation, annotations_of,
}
use nifcloud_nas_csi_driver.Configurator.Nodes.{IsLawful}

abbrev pub without_mask : Str → Str
without_mask printed = (cut b'/' printed).0

module _ (api : CsiNodeApi) where
  abbrev pub registered : Str → Str → api.State → Outcome CsiNodeObject → Outcome Done × api.State
  registered driver_name printed s (err e) = (err e, s)
  registered driver_name printed s (ok n) = api.update s (record n {
    annotations =
        some (put (private_key driver_name) (without_mask printed) (annotations_of n.annotations));
  })

  abbrev pub with_output : Str → Str → api.State → Outcome Str → Outcome Done × api.State
  with_output driver_name node_id s (err e) = (err e, s)
  with_output driver_name node_id s (ok printed) =
      registered driver_name printed s (api.get s node_id)

  -- The output of the command is an argument.
  unfoldable pub register_node_private_ip :
      Str → Str → Outcome Str → api.State → Outcome Done × api.State
  unfolding cut put
  register_node_private_ip driver_name node_id output s = with_output driver_name node_id s output

-- A registration that succeeds leaves the CSI node of the node with the printed address, without
-- its mask, where the configurator reads a private address.
register_node_private_ip_lem :
    (api : CsiNodeApi) (lawful : IsLawful api) (driver_name node_id : Str) (output : Outcome Str)
    (s t : api.State)
    → register_node_private_ip api driver_name node_id output s ≡ (ok tt, t)
    → (printed : Str) × (n : CsiNodeObject) × (output ≡ ok printed)
      × (api.get t node_id ≡ ok n)
      × (private_annotation driver_name n ≡ without_mask printed)
unfolding register_node_private_ip
register_node_private_ip_lem api lawful driver_name node_id (err e) s t h =
    absurd (cc (ap (λ y. y.0) h))
register_node_private_ip_lem api lawful driver_name node_id (ok printed) s t h =
    by_node (api.get s node_id) refl h
  where
    by_node :
        (x : Outcome CsiNodeObject)
        → api.get s node_id ≡ x
        → registered api driver_name printed s x ≡ (ok tt, t)
        → (printed' : Str) × (n : CsiNodeObject) × (◌≡◌ {A = Outcome Str}
            (ok printed)
            (ok printed'))
          × (api.get t node_id ≡ ok n)
          × (private_annotation driver_name n ≡ without_mask printed')
    by_node (err e) hg h' = absurd (cc (ap (λ y. y.0) h'))
    by_node (ok n) hg h' =
        let new : CsiNodeObject = record n {
          annotations =
              some (
                put (private_key driver_name) (without_mask printed)
                  (annotations_of n.annotations));
        } in
        (
          printed,
          new,
          refl,
          lawful.updates s t new node_id h'
              ∙ rw (lawful.names s node_id n hg, str_eq_refl node_id) refl,
          rw
              (
                find-put (private_key driver_name) (private_key driver_name) (without_mask printed)
                    (annotations_of n.annotations),
                str_eq_refl (private_key driver_name),
              )
              refl,
        )
