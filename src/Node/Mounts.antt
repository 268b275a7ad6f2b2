-- ===== src/Node/Mounts.antt =====
-- The table of mounts that pkg/driver/node.go works on by k8s.io/mount-utils.
use nifcloud_nas_csi_driver.Base.{
  All, In, ◌++◌, ◌≡◌, refl, sym, ap, ◌∙◌, ◌≢◌, inl, inr, Bool, true, false, List, [], ◌∷◌, arith,
  if◌then◌else◌,
}
use nifcloud_nas_csi_driver.Base.Text.{Str, codes, str_eq, str_eq_iff}
use nifcloud_nas_csi_driver.Base.Outcome.{Error, Outcome, Done, ok, err, not_exist}
use nifcloud_nas_csi_driver.Node.{Mounter, negated}

-- An entry of the table of mounts, the last mount first.
pub record Entry : Type 0 where
  pub source : Str
  pub target : Str
  pub fstype : Str
  pub options : List Str

-- An option that does not make mount do something else than a new mount of the source.
abbrev pub IsPlain : Str → Type 0
IsPlain o = (o ≢ codes "bind") × (o ≢ codes "rbind") × (o ≢ codes "remount") × (o ≢ codes "move")

-- The entry is the last that was mounted at the path, with others in front.
abbrev pub LastAt : Str → List Entry → List Entry → Entry → List Entry → Type 0
LastAt path entries front e back =
    (entries ≡ front ++ e ∷ back) × (e.target ≡ path) × All (λ x. x.target ≢ path) front

-- What mount(8), umount(8) and IsLikelyNotMountPoint of k8s.io/mount-utils are documented to do. The
-- test does not see every mount: it is relied on for what it says to be one, and for an NFS mount,
-- which it may also answer with an error of the file system.
pub record IsLawful (m : Mounter) : Type 0 where
  pub table : m.State → List Entry
  pub mounts :
      (s t : m.State) (source target fstype : Str) (options : List Str)
      → All IsPlain options
      → m.mount_source s source target fstype options ≡ (ok tt, t)
      → table t
        ≡ (record { source = source; target = target; fstype = fstype; options = options })
          ∷ table s
  pub mount_fails :
      (s t : m.State) (source target fstype : Str) (options : List Str) (e : Error)
      → m.mount_source s source target fstype options ≡ (err e, t)
      → table t ≡ table s
  pub unmounts :
      (s t : m.State) (target : Str)
      → m.unmount s target ≡ (ok tt, t)
      → (front : List Entry) × (e : Entry) × (back : List Entry) × LastAt target
          (table s)
          front
          e
          back
        × (table t ≡ front ++ back)
  pub unmount_fails :
      (s t : m.State) (target : Str) (e : Error)
      → m.unmount s target ≡ (err e, t)
      → table t ≡ table s
  pub makes :
      (s t : m.State) (r : Outcome Done) (target : Str)
      → m.mkdir_all s target ≡ (r, t)
      → table t ≡ table s
  pub sound :
      (s : m.State) (path : Str)
      → m.is_likely_not_mount_point s path ≡ ok false
      → (e : Entry) × In e (table s) × (e.target ≡ path)
  pub detects :
      (s : m.State) (path : Str) (front : List Entry) (e : Entry) (back : List Entry)
      → LastAt path (table s) front e back
      → e.fstype ≡ codes "nfs"
      → All IsPlain e.options
      → (m.is_likely_not_mount_point s path ≢ ok true)
        × (m.is_likely_not_mount_point s path ≢ err not_exist)

-- The entries at the other paths.
unfoldable pub elsewhere : Str → List Entry → List Entry
unfolding str_eq
elsewhere path [] = []
elsewhere path (e ∷ es) = if str_eq e.target path then elsewhere path es else e ∷ elsewhere path es

pub either_branch {ℓ} :
    (b : Bool) {A : Type ℓ} (P : A → Type 0) {x y : A} → P x → P y → P (if b then x else y)
either_branch true P hx hy = hx
either_branch false P hx hy = hy

pub negated_err :
    (m : Mounter) (windows : Bool) (r : Outcome Bool) {e : Error}
    → negated m windows r ≡ err e
    → r ≡ err e
negated_err m windows (ok b) h = absurd (cc h)
negated_err m windows (err x) h = h

pub negated-false :
    (m : Mounter) (windows : Bool) (r : Outcome Bool) → negated m windows r ≡ ok false → r ≡ ok true
negated-false m windows (ok true) h = refl
negated-false m windows (ok false) h = ground arith
negated-false m windows (err e) h = cc

pub negated-true :
    (m : Mounter) (windows : Bool) (r : Outcome Bool) → negated m windows r ≡ ok true → r ≡ ok false
negated-true m windows (ok true) h = ground arith
negated-true m windows (ok false) h = refl
negated-true m windows (err e) h = cc

pub elsewhere-at :
    (path : Str) (front : List Entry) (e : Entry) (back : List Entry)
    → e.target ≡ path
    → elsewhere path (front ++ e ∷ back) ≡ elsewhere path (front ++ back)
unfolding elsewhere
elsewhere-at path [] e back h = rw ((str_eq_iff e.target path).1 h) refl
elsewhere-at path (x ∷ front) e back h = rw (elsewhere-at path front e back h) refl

-- The last entry at a path is the only one that is.
pub LastAt-unique :
    (path : Str) (front front' : List Entry) (e e' : Entry) (back back' : List Entry)
    → All (λ x. x.target ≢ path) front
    → All (λ x. x.target ≢ path) front'
    → e.target ≡ path
    → e'.target ≡ path
    → front ++ e ∷ back ≡ front' ++ e' ∷ back'
    → front ++ back ≡ front' ++ back'
LastAt-unique path [] [] e e' back back' ha hb he he' h = cc h
LastAt-unique path [] (x ∷ front') e e' back back' ha (hx, hb) he he' h =
    let same : e ≡ x = cc h in absurd (hx (sym (ap (λ (y : Entry). y.target) same) ∙ he))
LastAt-unique path (x ∷ front) [] e e' back back' (hx, ha) hb he he' h =
    let same : x ≡ e' = cc h in absurd (hx (ap (λ (y : Entry). y.target) same ∙ he'))
LastAt-unique path (x ∷ front) (y ∷ front') e e' back back' (hx, ha) (hy, hb) he he' h =
    let rest : front ++ back ≡ front' ++ back' =
      LastAt-unique path front front' e e' back back' ha hb he he' (cc h) in
    let first : x ≡ y = cc h in cc (first, rest)

pub not_at :
    (path : Str) (e : Entry) (entries : List Entry)
    → All (λ x. x.target ≢ path) entries
    → In e entries
    → e.target ≢ path
not_at path e [] free k = absurd k
not_at path e (x ∷ entries) (hx, free) (inl same) = λ h. hx (ap (λ (y : Entry). y.target) same ∙ h)
not_at path e (x ∷ entries) (hx, free) (inr k) = not_at path e entries free k
