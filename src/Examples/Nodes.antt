-- ===== src/Examples/Nodes.antt =====
-- The node server at a concrete mounter: a table of mounts.
use nifcloud_nas_csi_driver.Base.{
  if◌then◌else◌, ◌||◌, ◌++◌, ◌≡◌, refl, sym, ap, subst, ◌≢◌, inl, inr, Bool, true, false, some,
  List, [], ◌∷◌, Bool-cases, In,
}
use nifcloud_nas_csi_driver.Base.Text.{Str, codes, str_eq, str_eq_iff}
use nifcloud_nas_csi_driver.Base.Outcome.{Error, Outcome, Done, ok, err, plain, not_exist}
use nifcloud_nas_csi_driver.Driver.{mount, multi_node_multi_writer}
use nifcloud_nas_csi_driver.Node.{Mounter, NodePublishVolumeRequest}
use nifcloud_nas_csi_driver.Node.Mounts.{Entry, LastAt, IsLawful}

unfoldable mounted? : Str → List Entry → Bool
unfolding str_eq
mounted? path [] = false
mounted? path (e ∷ es) = str_eq e.target path || mounted? path es

-- The table without the last mount at a path, where there is one.
unfoldable without : Str → List Entry → List Entry
unfolding str_eq
without path [] = []
without path (e ∷ es) = if str_eq e.target path then es else e ∷ without path es

abbrev answer_of : Bool → Outcome Bool
answer_of true = ok false
answer_of false = err not_exist

abbrev unmount_answer : Bool → Outcome Done
unmount_answer true = ok tt
unmount_answer false = err plain

abbrev mounter : Mounter
mounter = record {
  State = List Entry;
  is_likely_not_mount_point = λ s p. answer_of (mounted? p s);
  mount_source = λ s source target fstype options.
      (ok tt, record { source = source; target = target; fstype = fstype; options = options } ∷ s);
  unmount = λ s target.
      (unmount_answer (mounted? target s), if mounted? target s then without target s else s);
  mkdir_all = λ s target. (ok tt, s);
  stat = λ s target. ok tt;
}

mounted-entry :
    (path : Str) (s : List Entry)
    → mounted? path s ≡ true
    → (e : Entry) × In e s × (e.target ≡ path)
unfolding mounted?
mounted-entry path [] h = absurd (cc h)
mounted-entry path (x ∷ s) h = elim (Bool-cases (str_eq x.target path)) [
  | inl here ↦ (x, inl refl, (str_eq_iff x.target path).0 here)
  | inr other ↦ let (e, m, at) = mounted-entry path s (rw other at h) in (e, inr m, at)
]

without-last :
    (path : Str) (s : List Entry)
    → mounted? path s ≡ true
    → (front : List Entry) × (e : Entry) × (back : List Entry) × LastAt path s front e back
      × (without path s ≡ front ++ back)
unfolding mounted? without
without-last path [] h = absurd (cc h)
without-last path (x ∷ s) h = elim (Bool-cases (str_eq x.target path)) [
  | inl here ↦ rw here ([], x, s, (refl, (str_eq_iff x.target path).0 here, tt), refl)
  | inr other ↦
      let (front, e, back, (parts, at, before), rest) = without-last path s (rw other at h) in
      rw other (
        x ∷ front,
        e,
        back,
        (
          ap (λ l. x ∷ l) parts,
          at,
          ((λ same. absurd (cc (other, (str_eq_iff x.target path).1 same))), before),
        ),
        ap (λ l. x ∷ l) rest,
      )
]

entry-mounted :
    (path : Str) (front : List Entry) (e : Entry) (back : List Entry)
    → e.target ≡ path
    → mounted? path (front ++ e ∷ back) ≡ true
unfolding mounted?
entry-mounted path [] e back h = rw ((str_eq_iff e.target path).1 h) refl
entry-mounted path (x ∷ front) e back h = rw (entry-mounted path front e back h) (or_true _)
  where
    or_true : (b : Bool) → (b || true) ≡ true
    or_true true = refl
    or_true false = refl

table_before :
    (s t : List Entry) (r q : Outcome Done)
    → ◌≡◌ {A = Outcome Done × List Entry} (r, s) (q, t)
    → t ≡ s
table_before s t r q h = sym (ap (λ y. y.1) h)

mount_accepted :
    (s t : List Entry) (source target fstype : Str) (options : List Str) (e : Error)
    → mounter.mount_source s source target fstype options ≡ (err e, t)
    → t ≡ s
mount_accepted s t source target fstype options e h = absurd (cc (ap (λ y. y.0) h))

unmount_last :
    (s t : List Entry) (target : Str)
    → mounter.unmount s target ≡ (ok tt, t)
    → (front : List Entry) × (e : Entry) × (back : List Entry) × LastAt target s front e back
      × (t ≡ front ++ back)
unmount_last s t target h = elim (Bool-cases (mounted? target s)) [
  | inl here ↦
      subst
        (λ l.
          (front : List Entry) × (e : Entry) × (back : List Entry) × LastAt target s front e back
          × (l ≡ front ++ back))
        (ap (λ y. y.1) (rw here at h)) (without-last target s here)
  | inr gone ↦ absurd (cc (ap (λ y. y.0) (rw gone at h)))
]

unmount_refused :
    (s t : List Entry) (target : Str) (e : Error) → mounter.unmount s target ≡ (err e, t) → t ≡ s
unmount_refused s t target e h = elim (Bool-cases (mounted? target s)) [
  | inl here ↦ absurd (cc (ap (λ y. y.0) (rw here at h)))
  | inr gone ↦ sym (ap (λ y. y.1) (rw gone at h))
]

probe_sound :
    (s : List Entry) (path : Str)
    → mounter.is_likely_not_mount_point s path ≡ ok false
    → (e : Entry) × In e s × (e.target ≡ path)
probe_sound s path h = elim (Bool-cases (mounted? path s)) [
  | inl here ↦ mounted-entry path s here
  | inr gone ↦ absurd (cc (rw gone at h))
]

probe_detects :
    (s : List Entry) (path : Str) (front : List Entry) (e : Entry) (back : List Entry)
    → LastAt path s front e back
    → (mounter.is_likely_not_mount_point s path ≢ ok true)
      × (mounter.is_likely_not_mount_point s path ≢ err not_exist)
probe_detects s path front e back last =
    let here : mounted? path s ≡ true =
      subst (λ l. mounted? path l ≡ true) (sym last.0) (entry-mounted path front e back last.1) in
    ((λ h. absurd (cc (rw here at h))), λ h. absurd (cc (rw here at h)))

abbrev mounter_laws : IsLawful mounter
mounter_laws = record {
  table = λ s. s;
  mounts = λ s t source target fstype options flags h. table_before _ t (ok tt) (ok tt) h;
  mount_fails = mount_accepted;
  unmounts = unmount_last;
  unmount_fails = unmount_refused;
  makes = λ s t r target h. table_before s t (ok tt) r h;
  sound = probe_sound;
  detects = λ s path front e back last nfs flags. probe_detects s path front e back last;
}

abbrev request : NodePublishVolumeRequest
request = record {
  target_path = codes "/v";
  readonly = true;
  capability = some (record {
    access_mode = some multi_node_multi_writer;
    access_type = some (mount (codes "hard" ∷ []));
  });
  volume_context = (codes "ip", codes "10.0.0.1") ∷ (codes "path", codes "p") ∷ [];
}

-- The mount of another volume, and the one that the request asks for.
abbrev other_mount : Entry
other_mount = record {
  source = codes "10.0.0.2:/q";
  target = codes "/w";
  fstype = codes "nfs";
  options = [];
}

abbrev asked_mount : Entry
asked_mount = record {
  source = codes "10.0.0.1:/p";
  target = codes "/v";
  fstype = codes "nfs";
  options = codes "ro" ∷ codes "hard" ∷ [];
}

-- A third volume is mounted before the unpublish.
abbrev late_mount : Entry
late_mount = record {
  source = codes "10.0.0.3:/r";
  target = codes "/x";
  fstype = codes "nfs";
  options = [];
}
