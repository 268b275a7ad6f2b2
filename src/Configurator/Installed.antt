-- ===== src/Configurator/Installed.antt =====
-- What installStorageClasses of pkg/driver/configurator.go leaves in the cluster.
use nifcloud_nas_csi_driver.Base.{
  ◌≡◌, refl, sym, ap, ◌∙◌, subst, ◌⊎◌, inl, inr, Bool, true, false, List, [], ◌∷◌, Bool-cases, In,
}
use nifcloud_nas_csi_driver.Base.Assoc.{find}
use nifcloud_nas_csi_driver.Base.Text.{Str, codes, str_eq, str_eq_refl}
use nifcloud_nas_csi_driver.Base.Outcome.{Outcome, Done, ok, err}
use nifcloud_nas_csi_driver.Configurator.Classes.{
  ClassObject, ClassApi, is_kind, has_kind, plain_error, install, std, hi, shrd, shrdhi,
  install_listed, install_storage_classes,
}
use nifcloud_nas_csi_driver.Configurator.Recreated.{IsLawful}

module _ (driver_name instance_type : Str) (shared : Bool) where
  abbrev Kind : List ClassObject → Type 0
  Kind cls = (cl : ClassObject) × In cl cls × (is_kind driver_name instance_type shared cl ≡ true)

  has_kind-Kind :
      (cls : List ClassObject) → has_kind driver_name instance_type shared cls ≡ true → Kind cls
  unfolding has_kind
  has_kind-Kind [] h = absurd (cc h)
  has_kind-Kind (cl ∷ cls) h = elim (Bool-cases (is_kind driver_name instance_type shared cl)) [
    | inl this ↦ (cl, inl refl, this)
    | inr other ↦ further (has_kind-Kind cls (rw other at h))
  ]
    where
      further : Kind cls → Kind (cl ∷ cls)
      further (d, m, k) = (d, inr m, k)

  Kind-has_kind :
      (cls : List ClassObject) → Kind cls → has_kind driver_name instance_type shared cls ≡ true
  unfolding has_kind
  Kind-has_kind [] (d, m, k) = absurd m
  Kind-has_kind (cl ∷ cls) (d, inl e, k) =
      rw (ap (λ x. is_kind driver_name instance_type shared x) e ∙ k) refl
  Kind-has_kind (cl ∷ cls) (d, inr m, k) =
      elim (Bool-cases (is_kind driver_name instance_type shared cl)) [
        | inl this ↦ rw this refl
        | inr other ↦ rw other (Kind-has_kind cls (d, m, k))
      ]

new_kinds :
    (d : Str)
    → (is_kind d (codes "0") false (std d) ≡ true)
      × (is_kind d (codes "1") false (hi d) ≡ true)
      × (is_kind d (codes "0") true (shrd d) ≡ true)
      × (is_kind d (codes "1") true (shrdhi d) ≡ true)
unfolding find str_eq
new_kinds d = rw (str_eq_refl d) (refl, refl, refl, refl)

module _ (api : ClassApi) (lawful : IsLawful api) where
  abbrev Grows : api.State → api.State → Type 0
  Grows s t = (d : ClassObject) → lawful.Holds s d → lawful.Holds t d

  -- One of the four steps.
  install_lem :
      (there : Bool) (new : ClassObject) (x : Outcome Done × api.State) (t : api.State)
      → install api there new x ≡ (ok tt, t)
      → (u : api.State) × (x ≡ (ok tt, u)) × Grows u t × ((there ≡ true) ⊎ lawful.Holds t new)
  install_lem there new (err e, u) t h = absurd (cc (ap (λ y. y.0) h))
  install_lem true new (ok w, u) t h =
      (u, refl, (λ d k. subst (λ x. lawful.Holds x d) (ap (λ y. y.1) h) k), inl refl)
  install_lem false new (ok w, u) t h = by_create (api.create u new) refl h
    where
      by_create :
          (y : Outcome Done × api.State)
          → api.create u new ≡ y
          → plain_error api y ≡ (ok tt, t)
          → (u' : api.State) × (◌≡◌ {A = Outcome Done × api.State} (ok w, u) (ok tt, u'))
            × Grows u' t
            × ((false ≡ true) ⊎ lawful.Holds t new)
      by_create (err e, v) hc h' = absurd (cc (ap (λ y. y.0) h'))
      by_create (ok w', v) hc h' =
          let same : v ≡ t = ap (λ y. y.1) h' in
          let law = lawful.creates u t new (hc ∙ ap (λ z. (ok tt, z)) same) in
          (u, refl, (λ d k. (law d).1 (inr k)), inr ((law new).1 (inl refl)))

  -- A kind that was there, or was made, is there after the later steps.
  abbrev Has : Str → Str → Bool → api.State → Type 0
  Has driver_name instance_type shared s =
      (cl : ClassObject) × lawful.Holds s cl × (is_kind driver_name instance_type shared cl ≡ true)

  still_there :
      (driver_name instance_type : Str) (shared : Bool) (cls : List ClassObject) (new : ClassObject)
      (s u t : api.State)
      → ((cl : ClassObject) → In cl cls → lawful.Holds s cl)
      → is_kind driver_name instance_type shared new ≡ true
      → Grows s u
      → Grows u t
      → ((has_kind driver_name instance_type shared cls ≡ true) ⊎ lawful.Holds u new)
      → Has driver_name instance_type shared t
  still_there d i sh cls new s u t listed kind grows grows' (inl h) =
      let (cl, m, k) = has_kind-Kind d i sh cls h in (cl, grows' cl (grows cl (listed cl m)), k)
  still_there d i sh cls new s u t listed kind grows grows' (inr k) = (new, grows' new k, kind)

  abbrev AllFour : Str → api.State → Type 0
  AllFour d t =
      Has d (codes "0") false t
      × Has d (codes "1") false t
      × Has d (codes "0") true t
      × Has d (codes "1") true t

  install_listed_lem :
      (d : Str) (s t : api.State) (x : Outcome (List ClassObject))
      → api.list s ≡ x
      → install_listed api d s x ≡ (ok tt, t)
      → AllFour d t
  install_listed_lem d s t (err e) hl h = absurd (cc (ap (λ y. y.0) h))
  install_listed_lem d s t (ok cls) hl h =
      let x1 = install api (has_kind d (codes "0") false cls) (std d) (ok tt, s) in
      let x2 = install api (has_kind d (codes "1") false cls) (hi d) x1 in
      let x3 = install api (has_kind d (codes "0") true cls) (shrd d) x2 in
      let (s3, h3, g4, n4) = install_lem _ (shrdhi d) x3 t h in
      let (s2, h2, g3, n3) = install_lem _ (shrd d) x2 s3 h3 in
      let (s1, h1, g2, n2) = install_lem _ (hi d) x1 s2 h2 in
      let (s0, h0, g1, n1) = install_lem _ (std d) (ok tt, s) s1 h1 in
      let same : s ≡ s0 = ap (λ y. y.1) h0 in
      let g1' : Grows s s1 = subst (λ z. Grows z s1) (sym same) g1 in
      let g2' : Grows s s2 = λ c k. g2 c (g1' c k) in
      let g3' : Grows s s3 = λ c k. g3 c (g2' c k) in
      let listed : (cl : ClassObject) → In cl cls → lawful.Holds s cl =
        λ cl m. (lawful.lists s cls hl cl).0 m in
      (
        still_there d (codes "0") false cls (std d) s s1 t listed (new_kinds d).0 g1'
            (λ c k. g4 c (g3 c (g2 c k))) n1,
        still_there d (codes "1") false cls (hi d) s s2 t listed (new_kinds d).1 g2'
            (λ c k. g4 c (g3 c k)) n2,
        still_there d (codes "0") true cls (shrd d) s s3 t listed (new_kinds d).2 g3' g4 n3,
        still_there d (codes "1") true cls (shrdhi d) s t t listed (new_kinds d).3
            (λ c k. g4 c (g3' c k)) (λ c k. k) n4,
      )

  all_there :
      (d : Str) (t : api.State) (cls : List ClassObject)
      → api.list t ≡ ok cls
      → AllFour d t
      → install_listed api d t (ok cls) ≡ (ok tt, t)
  all_there d t cls hl (k1, k2, k3, k4) =
      rw
        (
          Kind-has_kind d (codes "0") false cls (listed (codes "0") false k1),
          Kind-has_kind d (codes "1") false cls (listed (codes "1") false k2),
          Kind-has_kind d (codes "0") true cls (listed (codes "0") true k3),
          Kind-has_kind d (codes "1") true cls (listed (codes "1") true k4),
        )
        refl
    where
      listed :
          (i : Str) (sh : Bool)
          → Has d i sh t
          → (cl : ClassObject) × In cl cls × (is_kind d i sh cl ≡ true)
      listed i sh (cl, h, k) = (cl, (lawful.lists t cls hl cl).1 h, k)

-- After an installStorageClasses that succeeds the driver has a class of each of the four kinds, so
-- that a second one calls nothing and changes nothing.
pub install_storage_classes-again :
    (api : ClassApi) (lawful : IsLawful api) (driver_name : Str) (s t : api.State)
    (cls : List ClassObject)
    → install_storage_classes api driver_name s ≡ (ok tt, t)
    → api.list t ≡ ok cls
    → (has_kind driver_name (codes "0") false cls ≡ true)
      × (has_kind driver_name (codes "1") false cls ≡ true)
      × (has_kind driver_name (codes "0") true cls ≡ true)
      × (has_kind driver_name (codes "1") true cls ≡ true)
      × (install_storage_classes api driver_name t ≡ (ok tt, t))
unfolding install_storage_classes
install_storage_classes-again api lawful driver_name s t cls h hl =
    let four = install_listed_lem api lawful driver_name s t (api.list s) refl h in
    (
      there (codes "0") false four.0,
      there (codes "1") false four.1,
      there (codes "0") true four.2,
      there (codes "1") true four.3,
      rw hl (all_there api lawful driver_name t cls hl four),
    )
  where
    there :
        (i : Str) (sh : Bool)
        → Has api lawful driver_name i sh t
        → has_kind driver_name i sh cls ≡ true
    there i sh (cl, k, kind) =
        Kind-has_kind driver_name i sh cls (cl, (lawful.lists t cls hl cl).1 k, kind)
