-- ===== src/Controller/Frees.antt =====
-- What a run of CreateVolume of pkg/driver/controller.go leaves held when it has returned.
use nifcloud_nas_csi_driver.Base.Text.{is_empty}
use nifcloud_nas_csi_driver.Base.{
  ◌≡◌, refl, sym, subst, ◌≢◌, ◌↔◌, inl, inr, Option, none, some, ◌∷◌, Bool-cases, In,
}
use nifcloud_nas_csi_driver.Base.Keys.{In-delete_key, delete_key-In}
use nifcloud_nas_csi_driver.Base.Text.{Str}
use nifcloud_nas_csi_driver.Base.Outcome.{Outcome, Done, ok, err}
use nifcloud_nas_csi_driver.Base.Int.{ℤ}
use nifcloud_nas_csi_driver.Names.{
  InstanceNameHolder, set_creating, unset_creating, entered, refused_same,
}
use nifcloud_nas_csi_driver.Queue.{OperateResourceQueue, unset_queue}
use nifcloud_nas_csi_driver.Driver.{validate_volume_capabilities}
use nifcloud_nas_csi_driver.Syncer.{Config}
use nifcloud_nas_csi_driver.Controller.{CreateVolumeRequest, Volume}
use nifcloud_nas_csi_driver.Controller.Shared.{convert_shared_request}
use nifcloud_nas_csi_driver.Controller.Finish.{CreateAnswers}
use nifcloud_nas_csi_driver.Controller.Prepare.{prepare_request}
use nifcloud_nas_csi_driver.Controller.Create.{
  Server, Leased, Result, create_held, released, held, converted, in_queue, unqueued,
  with_capabilities, create_volume,
}
use nifcloud_nas_csi_driver.Controller.Leases.{Less, Back, on_prepared-Back}

-- The names held and the addresses pending.
abbrev pub Freed : Server → Server → Type 0
Freed s t =
    ((name : Str)
      → In name t.names.creating_instance_names ↔ In name s.names.creating_instance_names)
    × Less t.allocator s.allocator

abbrev Frees : Server → Result → Type 0
Frees s r = (v : Outcome Volume) (t : Server) → r ≡ some (v, t) → Freed s t

abbrev SameNames : InstanceNameHolder → InstanceNameHolder → Type 0
SameNames c d = (j : Str) → In j c.creating_instance_names ↔ In j d.creating_instance_names

unset-set :
    (c d : InstanceNameHolder) (name : Str)
    → set_creating c name ≡ (ok tt, d)
    → SameNames (unset_creating d name) c
unfolding unset_creating
unset-set c d name h j =
    let (new, names) = entered c name h in
    (
      λ m. kept names (delete_key-In j name d.creating_instance_names m),
      λ m. In-delete_key j name d.creating_instance_names (rw names (inr m)) (λ e. new (rw e m)),
    )
  where
    behind : (name ≢ j) → In j (name ∷ c.creating_instance_names) → In j c.creating_instance_names
    behind n (inl e) = absurd (n e)
    behind n (inr m) = m

    kept :
        d.creating_instance_names ≡ name ∷ c.creating_instance_names
        → In j d.creating_instance_names × (name ≢ j)
        → In j c.creating_instance_names
    kept names (m, n) = behind n (rw names at m)

same_names : (c : InstanceNameHolder) → SameNames c c
same_names c j = ((λ m. m), λ m. m)

module _ (config : Config) (a : CreateAnswers) (req : CreateVolumeRequest) where
  freed : (s t u : Server) → t ≡ u → Freed s t → Freed s u
  freed s t u e f = subst (λ x. Freed s x) e f

  same-Freed : (s : Server) → Freed s s
  same-Freed s = (same_names s.names, λ ip m. m)

  released_lem :
      (s : Server) (names : InstanceNameHolder) (name : Str)
      → SameNames (unset_creating names name) s.names
      → (r : Leased) → Back s.allocator r
      → Frees s (released s names name r)
  unfolding unset_creating
  released_lem s names name same none back v t h = absurd (cc h)
  released_lem s names name same (some (w, alloc, made)) back v t h =
      let e : record s { names = unset_creating names name; allocator = alloc; calls = made } ≡ t =
        cc h in
      subst (λ x. Freed s x) e (same, back w alloc made refl)

  held_lem :
      (s : Server) (name : Str) (cap_bytes : ℤ) (r : Outcome Done × InstanceNameHolder)
      → set_creating s.names name ≡ r
      → Frees s (held config a req s name cap_bytes r)
  unfolding create_held
  held_lem s name cap_bytes (err e, names) eq v t h =
      let e' : record s { names = names } ≡ t = cc h in
      subst (λ x. Freed s x) e'
        (
          subst (λ c. SameNames c s.names) (sym (refused_same s.names name eq))
              (same_names s.names),
          λ ip m. m,
        )
  held_lem s name cap_bytes (ok u, names) eq v t h =
      released_lem s names name (unset-set s.names names name eq)
        (create_held config a req name cap_bytes s.allocator s.calls)
        (on_prepared-Back config a req name s.allocator s.calls
          (prepare_request config a req name cap_bytes))
        v t h

  converted_lem :
      (s : Server) (r : Option (Outcome (Str × ℤ) × OperateResourceQueue))
      → Frees s (converted config a req s r)
  unfolding set_creating
  converted_lem s none v t h = absurd (cc h)
  converted_lem s (some (err e, q)) v t h =
      let e' : record s { creating_pvs = q } ≡ t = cc h in
      subst (λ x. Freed s x) e' (same_names s.names, λ ip m. m)
  converted_lem s (some (ok (name, cap_bytes), q)) v t h =
      held_lem (record s { creating_pvs = q }) name cap_bytes (set_creating s.names name) refl v t h

  in_queue_lem :
      (s u : Server)
      → Freed s u
      → (w : Outcome Volume) (r : Option OperateResourceQueue) → Frees s (in_queue w u r)
  in_queue_lem s u f w none v t h = absurd (cc h)
  in_queue_lem s u f w (some q) v t h =
      let e' : record u { creating_pvs = q } ≡ t = cc h in subst (λ x. Freed s x) e' f

  unqueued_lem : (s : Server) (name : Str) (r : Result) → Frees s r → Frees s (unqueued name r)
  unfolding unset_queue
  unqueued_lem s name none f v t h = absurd (cc h)
  unqueued_lem s name (some (ok vol, u)) f v t h = f v t h
  unqueued_lem s name (some (err e, u)) f v t h =
      in_queue_lem s u (f (err e) u refl) (err e) (unset_queue u.creating_pvs name) v t h

  with_capabilities_lem :
      (s : Server) (r : Outcome Done) → Frees s (with_capabilities config a req s r)
  unfolding convert_shared_request
  with_capabilities_lem s (err e) v t h =
      let e' : s ≡ t = cc h in subst (λ x. Freed s x) e' (same-Freed s)
  with_capabilities_lem s (ok u) v t h =
      unqueued_lem s req.name
        (converted config a req s (convert_shared_request config a.shared s.creating_pvs req))
        (converted_lem s (convert_shared_request config a.shared s.creating_pvs req)) v t h

-- When CreateVolume returns, with a volume or with an error of any of its steps, the instance names
-- held are exactly those held before the run, and no address is pending that was not pending before.
pub create_volume-Freed :
    (config : Config) (a : CreateAnswers) (req : CreateVolumeRequest) (s t : Server)
    (r : Outcome Volume)
    → create_volume config a req s ≡ some (r, t)
    → Freed s t
unfolding create_volume
create_volume-Freed config a req s t r h = elim (Bool-cases (is_empty req.name)) [
  | inl empty ↦
      let e' : s ≡ t = cc (rw empty at h) in subst (λ x. Freed s x) e' (same-Freed config a req s)
  | inr named ↦
      with_capabilities_lem config a req s (validate_volume_capabilities a.vcap req.capabilities) r
        t (rw named at h)
]
