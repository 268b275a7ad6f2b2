-- ===== src/Configurator/Nodes.antt =====
-- What setNodeConfigs of pkg/driver/configurator.go leaves in the annotations of the CSI nodes.
use nifcloud_nas_csi_driver.Base.{
  ◌≡◌, refl, sym, ap, ◌∙◌, subst, ◌⊎◌, inl, inr, false, List, [], ◌∷◌, if◌then◌else◌, Bool-cases,
  In,
}
use nifcloud_nas_csi_driver.Base.Assoc.{find-put}
use nifcloud_nas_csi_driver.Base.Text.{Str, str_eq, str_eq_iff, str_eq_refl}
use nifcloud_nas_csi_driver.Base.Outcome.{Outcome, Done, ok, err}
use nifcloud_nas_csi_driver.Configurator.{
  NodeConfig, CsiNodeObject, CsiNodeApi, private_key, private_annotation, annotations_of, annotated,
  plain_update, annotate, then_nodes, set_node_configs,
}

-- The API gives back what was last written under a name, and a node under its own name.
pub record IsLawful (api : CsiNodeApi) : Type 0 where
  pub updates :
      (s t : api.State) (n : CsiNodeObject) (name : Str)
      → api.update s n ≡ (ok tt, t)
      → api.get t name ≡ (if str_eq n.name name then ok n else api.get s name)
  pub names :
      (s : api.State) (name : Str) (n : CsiNodeObject) → api.get s name ≡ ok n → n.name ≡ name

module _ (api : CsiNodeApi) (lawful : IsLawful api) (driver_name : Str) where
  -- The CSI node of a name carries an address.
  abbrev pub Carries : api.State → Str → Str → Type 0
  Carries s name ip =
      (n : CsiNodeObject) × (api.get s name ≡ ok n) × (private_annotation driver_name n ≡ ip)

  abbrev Annotates : NodeConfig → api.State → Outcome Done × api.State → Type 0
  Annotates conf s (r, t) =
      r ≡ ok tt
      → Carries t conf.name conf.private_ip
        × ((name ip : Str)
            → ((name ≡ conf.name) → ip ≡ conf.private_ip)
            → Carries s name ip
            → Carries t name ip)

  annotated_lem :
      (conf : NodeConfig) (n : CsiNodeObject)
      → private_annotation driver_name (annotated api driver_name conf n) ≡ conf.private_ip
  annotated_lem conf n =
      rw
        (
          find-put (private_key driver_name) (private_key driver_name) conf.private_ip
              (annotations_of n.annotations),
          str_eq_refl (private_key driver_name),
        )
        refl

  -- After an update, the node of the name carries its address, and every other name keeps its own.
  written :
      (conf : NodeConfig) (s t : api.State) (n : CsiNodeObject)
      → api.get s conf.name ≡ ok n
      → api.update s (annotated api driver_name conf n) ≡ (ok tt, t)
      → (name ip : Str) → ((name ≡ conf.name) → ip ≡ conf.private_ip)
      → (name ≡ conf.name) ⊎ Carries s name ip
      → Carries t name ip
  written conf s t n hg hu name ip same carries = elim (Bool-cases (str_eq n.name name)) [
    | inl here ↦
        let there : name ≡ conf.name =
          sym ((str_eq_iff n.name name).0 here) ∙ lawful.names s conf.name n hg in
        (
          annotated api driver_name conf n,
          law ∙ rw here refl,
          annotated_lem conf n ∙ sym (same there),
        )
    | inr other ↦ kept other carries
  ]
    where
      law :
          api.get t name
          ≡ (if str_eq n.name name then ok (annotated api driver_name conf n) else api.get s name)
      law = lawful.updates s t (annotated api driver_name conf n) name hu

      kept : str_eq n.name name ≡ false → (name ≡ conf.name) ⊎ Carries s name ip → Carries t name ip
      kept other (inl e) =
          absurd (cc (other, (str_eq_iff n.name name).1 (lawful.names s conf.name n hg ∙ sym e)))
      kept other (inr (m, hm, ha)) = (m, law ∙ (rw other hm), ha)

  update_lem :
      (conf : NodeConfig) (s : api.State) (n : CsiNodeObject)
      → api.get s conf.name ≡ ok n
      → (x : Outcome Done × api.State) → api.update s (annotated api driver_name conf n) ≡ x
      → Annotates conf s (plain_update api driver_name x)
  update_lem conf s n hg (err e, t) hu h = absurd (cc h)
  update_lem conf s n hg (ok u, t) hu h = (
    written conf s t n hg hu conf.name conf.private_ip (λ e. refl) (inl refl),
    λ name ip e c. written conf s t n hg hu name ip e (inr c),
  )

  annotate_lem :
      (conf : NodeConfig) (s : api.State) (x : Outcome CsiNodeObject)
      → api.get s conf.name ≡ x
      → Annotates conf s (annotate api driver_name conf s x)
  annotate_lem conf s (err e) hg = λ h. absurd (cc h)
  annotate_lem conf s (ok n) hg =
      elim (Bool-cases (str_eq (private_annotation driver_name n) conf.private_ip)) [
        | inl same ↦ rw same (λ h. ((n, hg, (str_eq_iff _ _).0 same), λ name ip e c. c))
        | inr other ↦
            rw other (update_lem conf s n hg (api.update s (annotated api driver_name conf n)) refl)
      ]

  -- No two configs of one node differ in its address.
  abbrev pub Agree : List NodeConfig → Type 0
  Agree confs =
      (a b : NodeConfig) → In a confs → In b confs → a.name ≡ b.name → a.private_ip ≡ b.private_ip

  kept_all :
      (confs : List NodeConfig) (s t : api.State) (name ip : Str)
      → ((b : NodeConfig) → In b confs → name ≡ b.name → ip ≡ b.private_ip)
      → set_node_configs api driver_name confs s ≡ (ok tt, t)
      → Carries s name ip
      → Carries t name ip
  unfolding set_node_configs
  kept_all [] s t name ip same h c = subst (λ x. Carries x name ip) (ap (λ y. y.1) h) c
  kept_all (conf ∷ confs) s t name ip same h c =
      step (annotate api driver_name conf s (api.get s conf.name))
        (annotate_lem conf s (api.get s conf.name) refl)
        (λ u. kept_all confs u t name ip (λ b m. same b (inr m))) h
    where
      step :
          (x : Outcome Done × api.State)
          → Annotates conf s x
          → ((u : api.State)
              → set_node_configs api driver_name confs u ≡ (ok tt, t)
              → Carries u name ip
              → Carries t name ip)
          → then_nodes api driver_name x (set_node_configs api driver_name confs) ≡ (ok tt, t)
          → Carries t name ip
      step (err e, u) a later h' = absurd (cc (ap (λ y. y.0) h'))
      step (ok v, u) a later h' = later u h' ((a refl).1 name ip (same conf (inl refl)) c)

  -- When setNodeConfigs succeeds, the annotation of the CSI node of every config has the config's
  -- private address, where no two configs of one node differ in it.
  pub set_node_configs-Carries :
      (confs : List NodeConfig) (s t : api.State)
      → Agree confs
      → set_node_configs api driver_name confs s ≡ (ok tt, t)
      → (conf : NodeConfig) → In conf confs
      → Carries t conf.name conf.private_ip
  unfolding set_node_configs
  set_node_configs-Carries [] s t agree h conf m = absurd m
  set_node_configs-Carries (first ∷ confs) s t agree h conf m =
      step (annotate api driver_name first s (api.get s first.name))
        (annotate_lem first s (api.get s first.name) refl)
        (λ u. set_node_configs-Carries confs u t (λ a b i j. agree a b (inr i) (inr j))) h m
    where
      step :
          (x : Outcome Done × api.State)
          → Annotates first s x
          → ((u : api.State)
              → set_node_configs api driver_name confs u ≡ (ok tt, t)
              → (c : NodeConfig) → In c confs
              → Carries t c.name c.private_ip)
          → then_nodes api driver_name x (set_node_configs api driver_name confs) ≡ (ok tt, t)
          → In conf (first ∷ confs)
          → Carries t conf.name conf.private_ip
      step (err e, u) a later h' m' = absurd (cc (ap (λ y. y.0) h'))
      step (ok v, u) a later h' (inr m') = later u h' conf m'
      step (ok v, u) a later h' (inl e) =
          subst (λ c. Carries t c.name c.private_ip) e
            (kept_all confs u t first.name first.private_ip
              (λ b i. agree first b (inl refl) (inr i)) h' (a refl).0)
