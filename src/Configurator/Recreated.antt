-- ===== src/Configurator/Recreated.antt =====
-- What setStorageClasses of pkg/driver/configurator.go leaves of the classes.
use nifcloud_nas_csi_driver.Base.{
  ◌≡◌, refl, sym, ap, ◌∙◌, subst, ◌≢◌, ◌↔◌, ◌⊎◌, inl, inr, Bool, true, false, not, ◌||◌, Option,
  none, some, List, [], ◌∷◌, ◌++◌, In,
}
use nifcloud_nas_csi_driver.Base.Assoc.{find, put, find-put}
use nifcloud_nas_csi_driver.Base.Text.{Str, codes, str_eq, str_eq_refl}
use nifcloud_nas_csi_driver.Base.Outcome.{Outcome, Done, ok, err}
use nifcloud_nas_csi_driver.Base.{String}
use nifcloud_nas_csi_driver.Configurator.Classes.{
  ClassObject, ClassApi, Settings, put_where, located, lacks_description, described, lacks_block,
  in_block, set_parameters, passes, plain_error, recreate, set_class, set_unless, then_classes,
  set_classes, set_listed, set_storage_classes,
}

-- The API lists the classes it holds; a class that is deleted is gone and one that is created is
-- there, each beside the others.
pub record IsLawful (api : ClassApi) : Type 1 where
  pub Holds : api.State → ClassObject → Type 0
  pub lists :
      (s : api.State) (cls : List ClassObject)
      → api.list s ≡ ok cls
      → (cl : ClassObject) → In cl cls ↔ Holds s cl
  pub deletes :
      (s t : api.State) (name : Str)
      → api.delete s name ≡ (ok tt, t)
      → (cl : ClassObject) → Holds t cl ↔ ((cl.name ≢ name) × Holds s cl)
  pub creates :
      (s t : api.State) (new : ClassObject)
      → api.create s new ≡ (ok tt, t)
      → (cl : ClassObject) → Holds t cl ↔ ((cl ≡ new) ⊎ Holds s cl)

find-put_where :
    (b : Bool) (key : String) (v j : Str) (ps : List (Str × Str))
    → str_eq (codes key) j ≡ false
    → find j (put_where b key v ps) ≡ find j ps
find-put_where true key v j ps other = find-put (codes key) j v ps ∙ rw other refl
find-put_where false key v j ps other = refl

-- The parameters that are set are the configurator's zone and network.
set_parameters-place :
    (c : Settings) (ps : List (Str × Str))
    → (find (codes "zone") (set_parameters c ps) ≡ some c.zone)
      × (find (codes "networkId") (set_parameters c ps) ≡ some c.network_id)
unfolding set_parameters str_eq
set_parameters-place c ps = (
  past (codes "zone") refl refl
      ∙ (find-put (codes "networkId") (codes "zone") c.network_id (put (codes "zone") c.zone ps)
          ∙ find-put (codes "zone") (codes "zone") c.zone ps),
  past (codes "networkId") refl refl
      ∙ find-put (codes "networkId") (codes "networkId") c.network_id
          (put (codes "zone") c.zone ps),
)
  where
    past :
        (j : Str)
        → str_eq (codes "description") j ≡ false
        → str_eq (codes "reservedIpv4Cidr") j ≡ false
        → find j (in_block c (described c (located c ps))) ≡ find j (located c ps)
    past j other other' =
        find-put_where (lacks_block c (described c (located c ps))) "reservedIpv4Cidr" c.cidr j
          (described c (located c ps)) other'
        ∙ find-put_where (lacks_description c (located c ps)) "description"
            (codes "csi-volume of cluster:" ++ c.cluster_name) j (located c ps) other

set_is_set :
    (c : Settings) (cl : ClassObject) (ps : List (Str × Str))
    → passes c (record cl { parameters = some (set_parameters c ps) }) ≡ true
set_is_set c cl ps =
    let (z, n) = set_parameters-place c ps in
    rw (z, n, str_eq_refl c.zone, str_eq_refl c.network_id)
      (true_right (not (str_eq cl.provisioner c.driver_name)))
  where
    true_right : (b : Bool) → (b || true) ≡ true
    true_right true = refl
    true_right false = refl

module _ (api : ClassApi) (lawful : IsLawful api) (c : Settings) where
  -- Every class of the driver is set, but for those that are still to come.
  abbrev pub SetBut : List ClassObject → api.State → Type 0
  SetBut later s = (cl : ClassObject) → lawful.Holds s cl → (passes c cl ≡ true) ⊎ In cl later

  abbrev pub Sets : Option (Outcome Done × api.State) → Type 0
  Sets x = (t : api.State) → x ≡ some (ok tt, t) → SetBut [] t

  recreate_lem :
      (cl : ClassObject) (later : List ClassObject) (ps : List (Str × Str)) (s t : api.State)
      → SetBut (cl ∷ later) s
      → recreate api (record cl { parameters = some (set_parameters c ps) }) (api.delete s cl.name)
        ≡ (ok tt, t)
      → SetBut later t
  recreate_lem cl later ps s t before h = by_delete (api.delete s cl.name) refl h
    where
      new : ClassObject
      new = record cl { parameters = some (set_parameters c ps) }

      held :
          (u : api.State)
          → api.delete s cl.name ≡ (ok tt, u)
          → (d : ClassObject) → lawful.Holds u d
          → (passes c d ≡ true) ⊎ In d later
      held u hd d k =
          let (other, old) = (lawful.deletes s u cl.name hd d).0 k in still other (before d old)
        where
          still :
              d.name ≢ cl.name
              → (passes c d ≡ true) ⊎ In d (cl ∷ later)
              → (passes c d ≡ true) ⊎ In d later
          still other (inl p) = inl p
          still other (inr (inl e)) = absurd (other (ap (λ y. y.name) (sym e)))
          still other (inr (inr m)) = inr m

      by_create :
          (u : api.State)
          → api.delete s cl.name ≡ (ok tt, u)
          → (y : Outcome Done × api.State) → api.create u new ≡ y
          → plain_error api y ≡ (ok tt, t)
          → SetBut later t
      by_create u hd (err e, v) hc h' = absurd (cc (ap (λ y. y.0) h'))
      by_create u hd (ok w, v) hc h' = λ d k. from d (
          (lawful.creates u v new hc d).0
            (subst (λ x. lawful.Holds x d) (sym (ap (λ y. y.1) h')) k))
        where
          from : (d : ClassObject) → (d ≡ new) ⊎ lawful.Holds u d → (passes c d ≡ true) ⊎ In d later
          from d (inl e) = inl (subst (λ x. passes c x ≡ true) (sym e) (set_is_set c cl ps))
          from d (inr k) = held u hd d k

      by_delete :
          (x : Outcome Done × api.State)
          → api.delete s cl.name ≡ x
          → recreate api new x ≡ (ok tt, t)
          → SetBut later t
      by_delete (err e, u) hd h' = absurd (cc (ap (λ y. y.0) h'))
      by_delete (ok w, u) hd h' = by_create u hd (api.create u new) refl h'

  set_unless_lem :
      (b : Bool) (cl : ClassObject) (later : List ClassObject) (s t : api.State)
      → passes c cl ≡ b
      → SetBut (cl ∷ later) s
      → set_unless api b c cl s ≡ some (ok tt, t)
      → SetBut later t
  set_unless_lem true cl later s t hb before h =
      subst (λ x. SetBut later x) (state_of h) (λ d k. still d (before d k))
    where
      state_of :
          ◌≡◌ {A = Option (Outcome Done × api.State)} (some (ok tt, s)) (some (ok tt, t)) → s ≡ t
      state_of e = cc e

      still :
          (d : ClassObject)
          → (passes c d ≡ true) ⊎ In d (cl ∷ later)
          → (passes c d ≡ true) ⊎ In d later
      still d (inl p) = inl p
      still d (inr (inl e)) = inl (subst (λ x. passes c x ≡ true) e hb)
      still d (inr (inr m)) = inr m
  set_unless_lem false cl later s t hb before h = by_parameters cl.parameters h
    where
      by_parameters :
          (ps : Option (List (Str × Str)))
          → set_class api c cl s ps ≡ some (ok tt, t)
          → SetBut later t
      by_parameters none h' = absurd (cc h')
      by_parameters (some ps) h' = recreate_lem cl later ps s t before (cc h')

  set_classes_lem :
      (cls : List ClassObject) (s : api.State) → SetBut cls s → Sets (set_classes api c cls s)
  unfolding set_classes
  set_classes_lem [] s before t h = subst (λ x. SetBut [] x) (cc h) before
  set_classes_lem (cl ∷ cls) s before t h =
      step (set_unless api (passes c cl) c cl s) refl (λ u. set_classes_lem cls u) h
    where
      step :
          (x : Option (Outcome Done × api.State))
          → set_unless api (passes c cl) c cl s ≡ x
          → ((u : api.State) → SetBut cls u → Sets (set_classes api c cls u))
          → then_classes api x (set_classes api c cls) ≡ some (ok tt, t)
          → SetBut [] t
      step none hx rest h' = absurd (cc h')
      step (some (err e, u)) hx rest h' = absurd (cc h')
      step (some (ok w, u)) hx rest h' =
          rest u (set_unless_lem (passes c cl) cl cls s u refl before hx) t h'

  pub set_storage_classes_lem : (s : api.State) → Sets (set_storage_classes api c s)
  unfolding set_storage_classes
  set_storage_classes_lem s t h = by_list (api.list s) refl h
    where
      by_list :
          (x : Outcome (List ClassObject))
          → api.list s ≡ x
          → set_listed api c s x ≡ some (ok tt, t)
          → SetBut [] t
      by_list (err e) hl h' = absurd (cc h')
      by_list (ok cls) hl h' =
          set_classes_lem cls s (λ d k. inr ((lawful.lists s cls hl d).1 k)) t h'
