-- ===== src/Names.antt =====
-- InstanceNameHolder of pkg/driver/utils.go: the names of the instances that some create request is
-- working on. Each method runs under the holder's mutex, so it is one step.
use nifcloud_nas_csi_driver.Base.{
  ◌≡◌, refl, ap, inl, inr, Bool, List, [], ◌∷◌, arith, if◌then◌else◌, Bool-cases, In,
}
use nifcloud_nas_csi_driver.Base.Keys.{
  add_key, delete_key, Distinct, delete_key-Distinct, add_key_new,
}
use nifcloud_nas_csi_driver.Base.Text.{Str, mem?, In-mem?}
use nifcloud_nas_csi_driver.Base.Outcome.{Error, Outcome, Done, ok, err, plain}

pub record InstanceNameHolder : Type 0 where
  pub creating_instance_names : List Str

unfoldable pub new_instance_name_holder : InstanceNameHolder
new_instance_name_holder = record { creating_instance_names = [] }

unfoldable pub set_creating : InstanceNameHolder → Str → Outcome Done × InstanceNameHolder
unfolding add_key
set_creating c name =
    if mem? name c.creating_instance_names
    then (err plain, c)
    else (ok tt, record { creating_instance_names = add_key name c.creating_instance_names })

unfoldable pub is_creating : InstanceNameHolder → Str → Bool
is_creating c name = mem? name c.creating_instance_names

unfoldable pub unset_creating : InstanceNameHolder → Str → InstanceNameHolder
unfolding delete_key
unset_creating c name = record {
  creating_instance_names = delete_key name c.creating_instance_names;
}

-- A holder and the requests that it let through: a request enters by SetCreating and, in its
-- deferred call, leaves by UnsetCreating. A request that is refused does neither.
pub record System : Type 0 where
  pub holder : InstanceNameHolder
  pub working : List Str

pub data Step : System → System → Type 0 where
  enter :
      (s : System) (name : Str) (c : InstanceNameHolder)
      → set_creating s.holder name ≡ (ok tt, c)
      → Step s (record { holder = c; working = name ∷ s.working })
  refused :
      (s : System) (name : Str) (e : Error) (c : InstanceNameHolder)
      → set_creating s.holder name ≡ (err e, c)
      → Step s (record s { holder = c })
  leave :
      (s : System) (name : Str)
      → In name s.working
      → Step s
          (record { holder = unset_creating s.holder name; working = delete_key name s.working })

pub data Reach : System → Type 0 where
  start : Reach (record { holder = new_instance_name_holder; working = [] })
  later : {s t : System} → Reach s → Step s t → Reach t

-- The holder has exactly the names that are worked on, each once.
pub record Inv (s : System) : Type 0 where
  pub distinct : Distinct s.working
  pub same : s.holder.creating_instance_names ≡ s.working

module _ (c : InstanceNameHolder) (name : Str) where
  pub entered :
      {d : InstanceNameHolder}
      → set_creating c name ≡ (ok tt, d)
      → (¬ In name c.creating_instance_names)
        × (d.creating_instance_names ≡ name ∷ c.creating_instance_names)
  unfolding set_creating
  entered h = elim (Bool-cases (mem? name c.creating_instance_names)) [
    | inl old ↦ cc
    | inr new ↦ (
      (λ m. cc (In-mem? name c.creating_instance_names m)),
      ground (arith, add_key_new name c.creating_instance_names new),
    )
  ]

  pub refused_same : {e : Error} {d : InstanceNameHolder} → set_creating c name ≡ (err e, d) → d ≡ c
  unfolding set_creating
  refused_same h = ground arith

Step-Inv : {s t : System} → Step s t → Inv s → Inv t
Step-Inv (enter s name c h) v = record {
  distinct = ((λ m. (entered s.holder name h).0 (rw v.same m)), v.distinct);
  same = rw (entered s.holder name h).1 (ap (λ (l : List Str). name ∷ l) v.same);
}
Step-Inv (refused s name e c h) v = record {
  distinct = v.distinct;
  same = rw (refused_same s.holder name h) v.same;
}
Step-Inv (leave s name m) v = record {
  distinct = delete_key-Distinct name s.working v.distinct;
  same = unfold unset_creating in rw v.same;
}

-- In every state that requests reach, no two of them work on one name, and the holder has exactly
-- the names that are worked on.
pub names_exclusive : {s : System} → Reach s → Inv s
names_exclusive start = unfold new_instance_name_holder in record { distinct = tt; same = refl }
names_exclusive (later r st) = Step-Inv st (names_exclusive r)
