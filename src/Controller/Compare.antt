-- ===== src/Controller/Compare.antt =====
-- What compareNasInstanceWithInput of pkg/driver/controller.go lets through.
use nifcloud_nas_csi_driver.Base.{
  ◌≡◌, refl, ◌≢◌, ◌↔◌, inl, inr, Bool, true, false, Option, none, some, List, [], ◌∷◌, ◌++◌, arith,
  ◌==◌, ==_iff, Bool-cases, length,
}
use nifcloud_nas_csi_driver.Base.Text.{Str, str_eq, str_eq_iff}
use nifcloud_nas_csi_driver.Base.Outcome.{ok}
use nifcloud_nas_csi_driver.Base.Int.{ℤ, pos, negsuc}
use nifcloud_nas_csi_driver.Cloud.{NasInstance}
use nifcloud_nas_csi_driver.Controller.{
  CreateNasInstanceInput, Mismatch, onto, unless, unless_mismatch, compare_group_names,
  compare_groups, mismatches, compare_nas_instance_with_input, parse_int, pstr, same_ℤ,
  number_of_security_groups,
}

pub same_ℤ_iff : (a b : ℤ) → (same_ℤ a b ≡ true) ↔ (a ≡ b)
same_ℤ_iff (pos m) (pos n) = grind arith
same_ℤ_iff (pos m) (negsuc n) = grind arith
same_ℤ_iff (negsuc m) (pos n) = grind arith
same_ℤ_iff (negsuc m) (negsuc n) = grind arith

abbrev pub Accepted : NasInstance → CreateNasInstanceInput → Type 0
Accepted n input =
    (n.instance_type ≡ input.instance_type)
    × ((parse_int (pstr n.allocated_storage)).0 ≡ input.allocated_storage)
    × (pstr n.network_id ≡ pstr input.network_id)
    × (pstr n.availability_zone ≡ input.availability_zone)
    × (length n.security_groups ≡ length input.security_groups)

tests_iff :
    (a b c d : Bool) (groups : Option (List Mismatch)) (x y z w : Mismatch)
    → (unless_mismatch (onto (unless a x ++ (unless b y ++ (unless c z ++ unless d w))) groups)
        ≡ some (ok tt))
      ↔ ((a ≡ true) × (b ≡ true) × (c ≡ true) × (d ≡ true) × (groups ≡ some []))
tests_iff true true true true none x y z w = ground arith
tests_iff true true true true (some []) x y z w = ground arith
tests_iff true true true true (some (m ∷ ms)) x y z w = ground arith
tests_iff false b c d none x y z w = ground arith
tests_iff false b c d (some ms) x y z w = ground arith
tests_iff true false c d none x y z w = ground arith
tests_iff true false c d (some ms) x y z w = ground arith
tests_iff true true false d none x y z w = ground arith
tests_iff true true false d (some ms) x y z w = ground arith
tests_iff true true true false none x y z w = ground arith
tests_iff true true true false (some ms) x y z w = ground arith

groups_iff : (gs es : List Str) → (compare_groups gs es ≡ some []) ↔ (length gs ≡ length es)
unfolding compare_groups
groups_iff gs es = elim (Bool-cases (length gs == length es)) [
  | inl same ↦ rw same ((λ h. (==_iff (length gs) (length es)).0 same), λ h. refl)
  | inr other ↦ rw other (
    (λ h. absurd (nonempty (compare_group_names gs es) h)),
    λ h. absurd (cc (other, (==_iff (length gs) (length es)).1 h)),
  )
]
  where
    nonempty : (r : Option (List Mismatch)) → onto (number_of_security_groups ∷ []) r ≢ some []
    nonempty none h = cc
    nonempty (some ms) h = cc

-- An instance that exists is taken for the requested one exactly if its type, its storage, its
-- network and its zone are the requested ones and it has as many security groups; which groups they
-- are is not compared.
pub compare_nas_instance_with_input_iff :
    (n : NasInstance) (input : CreateNasInstanceInput)
    → (compare_nas_instance_with_input n input ≡ some (ok tt)) ↔ Accepted n input
unfolding compare_nas_instance_with_input mismatches
compare_nas_instance_with_input_iff n input = ground (
  arith,
  tests_iff (same_ℤ n.instance_type input.instance_type)
      (same_ℤ (parse_int (pstr n.allocated_storage)).0 input.allocated_storage)
      (str_eq (pstr n.network_id) (pstr input.network_id))
      (str_eq (pstr n.availability_zone) input.availability_zone)
      (compare_groups n.security_groups input.security_groups) Mismatch.instance_type
      Mismatch.allocated_storage Mismatch.network_id Mismatch.availability_zone,
  same_ℤ_iff n.instance_type input.instance_type,
  same_ℤ_iff (parse_int (pstr n.allocated_storage)).0 input.allocated_storage,
  str_eq_iff (pstr n.network_id) (pstr input.network_id),
  str_eq_iff (pstr n.availability_zone) input.availability_zone,
  groups_iff n.security_groups input.security_groups,
)
