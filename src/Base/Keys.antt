-- ===== src/Base/Keys.antt =====
-- Sets of strings, Go's map[string]bool with all values true, as lists of keys.
use mathlib.Core.Path.{◌≡◌, refl, sym, ◌∙◌}
use mathlib.Core.Logic.{◌≢◌, ◌⊎◌, inl, inr}
use mathlib.Core.Bool.{false}
use mathlib.Core.List.{List, [], ◌∷◌}
use native.Mathlib.Omega.{arith}
use nifcloud_nas_csi_driver.Base.Tests.{if◌then◌else◌, Bool-cases}
use nifcloud_nas_csi_driver.Base.Lists.{In}
use nifcloud_nas_csi_driver.Base.Text.{Str, str_eq, str_eq_iff, mem?, mem?-In}

-- m[k] = true and delete(m, k) on the list of keys.
unfoldable pub add_key : Str → List Str → List Str
add_key k ks = if mem? k ks then ks else k ∷ ks

unfoldable pub delete_key : Str → List Str → List Str
delete_key k [] = []
delete_key k (j ∷ ks) = let rest = delete_key k ks in if str_eq j k then rest else j ∷ rest

abbrev pub Distinct : List Str → Type 0
Distinct [] = Unit
Distinct (x ∷ xs) = (¬ In x xs) × Distinct xs

-- The keys of a set after an insertion and after a deletion.
pub In-add_key_self : (k : Str) (ks : List Str) → In k (add_key k ks)
unfolding add_key
In-add_key_self k ks = elim (Bool-cases (mem? k ks)) [
  | inl old ↦ rw old (mem?-In k ks old)
  | inr new ↦ rw new (inl refl)
]

pub In-add_key : (j k : Str) (ks : List Str) → In j ks → In j (add_key k ks)
unfolding add_key
In-add_key j k ks h = elim (Bool-cases (mem? k ks)) [
  | inl old ↦ rw old h
  | inr new ↦ rw new (inr h)
]

pub In-delete_key : (j k : Str) (ks : List Str) → In j ks → k ≢ j → In j (delete_key k ks)
unfolding delete_key
In-delete_key j k [] h n = h
In-delete_key j k (i ∷ ks) (inl e) n = ground (arith, str_eq_iff i k)
In-delete_key j k (i ∷ ks) (inr h) n = ground (arith, In-delete_key j k ks h n)

pub delete_key-In : (j k : Str) (ks : List Str) → In j (delete_key k ks) → In j ks × (k ≢ j)
unfolding delete_key
delete_key-In j k [] h = absurd h
delete_key-In j k (i ∷ ks) h = elim (Bool-cases (str_eq i k)) [
  | inl same ↦ behind (delete_key-In j k ks (rw same at h))
  | inr other ↦ at (delete_key-In j k ks) other (rw other at h)
]
  where
    behind : In j ks × (k ≢ j) → In j (i ∷ ks) × (k ≢ j)
    behind (m, n) = (inr m, n)

    at :
        (In j (delete_key k ks) → In j ks × (k ≢ j))
        → str_eq i k ≡ false
        → (i ≡ j) ⊎ In j (delete_key k ks)
        → In j (i ∷ ks) × (k ≢ j)
    at ih other (inl e) = (inl e, λ e'. cc ((str_eq_iff i k).1 (e ∙ sym e')))
    at ih other (inr m) = behind (ih m)

pub delete_key-Distinct : (k : Str) (ks : List Str) → Distinct ks → Distinct (delete_key k ks)
unfolding delete_key
delete_key-Distinct k [] h = tt
delete_key-Distinct k (i ∷ ks) (n, h) = elim (Bool-cases (str_eq i k)) [
  | inl same ↦ rw same (delete_key-Distinct k ks h)
  | inr other ↦ rw other ((λ m. n (delete_key-In i k ks m).0), delete_key-Distinct k ks h)
]

pub add_key_new : (k : Str) (ks : List Str) → mem? k ks ≡ false → add_key k ks ≡ k ∷ ks
unfolding add_key
add_key_new k ks h = rw h
