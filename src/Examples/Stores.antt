-- ===== src/Examples/Stores.antt =====
-- Stores that have the laws of the APIs which the configurator calls: CSI nodes by name, and a list
-- of classes.
use nifcloud_nas_csi_driver.Base.{
  ◌≡◌, refl, sym, ap, ◌∙◌, subst, ◌≢◌, ◌↔◌, ◌⊎◌, inl, inr, Option, none, some, List, [], ◌∷◌,
  if◌then◌else◌, Bool-cases, In,
}
use nifcloud_nas_csi_driver.Base.Assoc.{find, put, find-put}
use nifcloud_nas_csi_driver.Base.Text.{Str, str_eq, str_eq_iff}
use nifcloud_nas_csi_driver.Base.Outcome.{Outcome, ok, err, plain}
use nifcloud_nas_csi_driver.Configurator.{CsiNodeObject, CsiNodeApi}
use nifcloud_nas_csi_driver.Configurator.Nodes as Nodes
use nifcloud_nas_csi_driver.Configurator.Classes.{ClassObject, ClassApi}
use nifcloud_nas_csi_driver.Configurator.Recreated.{IsLawful}

-- A store of CSI nodes by name.
abbrev pub or_missing : Str → Option CsiNodeObject → Outcome CsiNodeObject
or_missing name none = err plain
or_missing name (some n) = ok (record n { name = name })

abbrev pub nodes_api : CsiNodeApi
nodes_api = record {
  State = List (Str × CsiNodeObject);
  get = λ s name. or_missing name (find name s);
  update = λ s n. (ok tt, put n.name n s);
}

named :
    (x : Option CsiNodeObject) (name : Str) (n : CsiNodeObject)
    → or_missing name x ≡ ok n
    → n.name ≡ name
named none name n h = absurd (cc h)
named (some m) name n h = sym (ap name_of h)
  where
    name_of : Outcome CsiNodeObject → Str
    name_of (ok k) = k.name
    name_of (err e) = name

updated :
    (s : List (Str × CsiNodeObject)) (n : CsiNodeObject) (name : Str)
    → or_missing name (find name (put n.name n s))
      ≡ (if str_eq n.name name then ok n else or_missing name (find name s))
updated s n name = rw (find-put n.name name n s) (elim (Bool-cases (str_eq n.name name)) [
  | inl same ↦
      rw same (ap (λ x. ok (record n { name = x })) (sym ((str_eq_iff n.name name).0 same)))
  | inr other ↦ rw other refl
])

pub nodes_api-IsLawful : Nodes.IsLawful nodes_api
nodes_api-IsLawful = record {
  updates = λ s t n name h.
      subst
        (λ x.
          or_missing name (find name x)
          ≡ (if str_eq n.name name then ok n else or_missing name (find name s)))
        (ap (λ y. y.1) h) (updated s n name);
  names = λ s name n h. named (find name s) name n h;
}

-- A store of classes.
unfoldable pub without_class : Str → List ClassObject → List ClassObject
without_class name [] = []
without_class name (c ∷ cs) =
    let rest = without_class name cs in if str_eq c.name name then rest else c ∷ rest

abbrev pub class_api : ClassApi
class_api = record {
  State = List ClassObject;
  list = λ s. ok s;
  delete = λ s name. (ok tt, without_class name s);
  create = λ s c. (ok tt, c ∷ s);
}

In-without_class :
    (name : Str) (s : List ClassObject) (c : ClassObject)
    → In c (without_class name s) ↔ ((c.name ≢ name) × In c s)
unfolding without_class
In-without_class name [] c = ((λ m. absurd m), λ (n, m). m)
In-without_class name (d ∷ s) c = elim (Bool-cases (str_eq d.name name)) [
  | inl same ↦ rw same (drop_this ((str_eq_iff d.name name).0 same) (In-without_class name s c))
  | inr other ↦
      rw other
        (keep_this (λ e. cc (other, (str_eq_iff d.name name).1 e)) (In-without_class name s c))
]
  where
    drop_this :
        d.name ≡ name
        → In c (without_class name s) ↔ ((c.name ≢ name) × In c s)
        → In c (without_class name s) ↔ ((c.name ≢ name) × In c (d ∷ s))
    drop_this e iff = ((λ m. let (n, i) = iff.0 m in (n, inr i)), λ (n, i). back n i)
      where
        back : c.name ≢ name → In c (d ∷ s) → In c (without_class name s)
        back n (inl f) = absurd (n (ap (λ (x : ClassObject). x.name) (sym f) ∙ e))
        back n (inr i) = iff.1 (n, i)

    keep_this :
        d.name ≢ name
        → In c (without_class name s) ↔ ((c.name ≢ name) × In c s)
        → In c (d ∷ without_class name s) ↔ ((c.name ≢ name) × In c (d ∷ s))
    keep_this n iff = (to, λ (k, i). back k i)
      where
        to : In c (d ∷ without_class name s) → (c.name ≢ name) × In c (d ∷ s)
        to (inl f) = ((λ e. n (ap (λ (x : ClassObject). x.name) f ∙ e)), inl f)
        to (inr m) = let (k, i) = iff.0 m in (k, inr i)

        back : c.name ≢ name → In c (d ∷ s) → In c (d ∷ without_class name s)
        back k (inl f) = inl f
        back k (inr i) = inr (iff.1 (k, i))

pub class_api-IsLawful : IsLawful class_api
class_api-IsLawful = record {
  Holds = λ s c. In c s;
  lists = λ s cls h c. subst (λ x. In c x ↔ In c s) (list_of s cls h) ((λ k. k), λ k. k);
  deletes = λ s t name h c.
      subst (λ x. In c x ↔ ((c.name ≢ name) × In c s)) (ap (λ y. y.1) h)
        (In-without_class name s c);
  creates =
      λ s t new h c. subst (λ x. In c x ↔ ((c ≡ new) ⊎ In c s)) (ap (λ y. y.1) h) (front s new c);
}
  where
    list_of :
        (s cls : List ClassObject) → ◌≡◌ {A = Outcome (List ClassObject)} (ok s) (ok cls) → s ≡ cls
    list_of s cls h = cc h

    front : (s : List ClassObject) (new c : ClassObject) → In c (new ∷ s) ↔ ((c ≡ new) ⊎ In c s)
    front s new c = (to, from)
      where
        to : In c (new ∷ s) → (c ≡ new) ⊎ In c s
        to (inl e) = inl (sym e)
        to (inr m) = inr m

        from : (c ≡ new) ⊎ In c s → In c (new ∷ s)
        from (inl e) = inl (sym e)
        from (inr m) = inr m
