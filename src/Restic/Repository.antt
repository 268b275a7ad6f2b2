-- ===== src/Restic/Repository.antt =====
-- parseRepositry and checkBucket of pkg/driver/restic.go.
use nifcloud_nas_csi_driver.Base.{
  ℕ, ◌≡◌, refl, ◌≢◌, inl, inr, Bool, false, Option, none, some, List, [], ◌∷◌, ◌++◌, arith,
  if◌then◌else◌, Bool-cases, drop, In,
}
use nifcloud_nas_csi_driver.Base.Text.{
  Str, codes, or_empty, mem?, mem?-In, cut, Lacks, cut-append, cut-lacking, has_prefix,
}
use nifcloud_nas_csi_driver.Base.Outcome.{Outcome, Done, ok, err, plain}
use nifcloud_nas_csi_driver.Restic.{Restic}

pub record Repository : Type 0 where
  pub endpoint : Str
  pub bucket : Str
  pub prefix : Str
  pub scheme : Str

abbrev s3 : List (Str × ℕ × Str)
s3 =
    (codes "s3:https//", 10, codes "https")
    ∷ (codes "s3:http//", 9, codes "http")
    ∷ (codes "s3://", 5, codes "https")
    ∷ (codes "s3:", 3, codes "https")
    ∷ []

-- The first of the prefixes the text starts with: the rest of the text and the scheme.
unfoldable pub cut_prefix : List (Str × ℕ × Str) → Str → Option (Str × Str)
unfolding has_prefix
cut_prefix [] s = none
cut_prefix ((prefix, n, scheme) ∷ more) s =
    let rest = cut_prefix more s in if has_prefix s prefix then some (drop n s, scheme) else rest

-- strings.SplitN(s, "/", 3) is a cut of what the first cut leaves.
abbrev pub split_prefix : Str → Str → Str × Option Str → Outcome Repository
split_prefix scheme endpoint (bucket, prefix) =
    ok (record { endpoint = endpoint; bucket = bucket; prefix = or_empty prefix; scheme = scheme })

abbrev pub split_bucket : Str → Str × Option Str → Outcome Repository
split_bucket scheme (endpoint, none) = err plain
split_bucket scheme (endpoint, some rest) = split_prefix scheme endpoint (cut b'/' rest)

abbrev pub split_repository : Option (Str × Str) → Outcome Repository
split_repository none = err plain
split_repository (some (s, scheme)) = split_bucket scheme (cut b'/' s)

unfoldable pub parse_repositry : Str → Outcome Repository
unfolding cut_prefix cut
parse_repositry s = split_repository (cut_prefix s3 s)

-- The session is made with a region, the endpoint's first label, and a URL; the storage answers
-- with the names of its buckets.
abbrev region : Str → Str
region endpoint = (cut b'.' endpoint).0

abbrev in_buckets : Str → Outcome (List Str) → Outcome Done
in_buckets bucket (err e) = err e
in_buckets bucket (ok buckets) = if mem? bucket buckets then ok tt else err plain

abbrev of_repository : (Str → Str → Outcome (List Str)) → Outcome Repository → Outcome Done
of_repository list_buckets (err e) = err e
of_repository list_buckets (ok r) =
    in_buckets r.bucket (list_buckets (region r.endpoint) (r.scheme ++ (codes "://" ++ r.endpoint)))

unfoldable pub check_bucket : (Str → Str → Outcome (List Str)) → Restic → Outcome Done
unfolding parse_repositry cut mem?
check_bucket list_buckets r = of_repository list_buckets (parse_repositry r.repository)

-- A text that has one slash in front of a byte of another kind does not start with a text that
-- has two in a row there.
no_prefix :
    (p ep : Str) (b : ℕ) (rest : Str)
    → Lacks b'/' p
    → Lacks b'/' ep
    → (b ≢ b'/')
    → has_prefix (ep ++ b'/' ∷ b ∷ rest) (p ++ codes "//") ≡ false
unfolding has_prefix
no_prefix [] [] b rest hp he hb = ground arith
no_prefix [] (e ∷ ep) b rest hp (h, he) hb = ground arith
no_prefix (c ∷ p) [] b rest (h, hp) he hb = ground arith
no_prefix (c ∷ p) (e ∷ ep) b rest (h, hp) (k, he) hb =
    ground (arith, no_prefix p ep b rest hp he hb)

not_https : Lacks b'/' (codes "https")
not_https = (omega arith, (omega arith, (omega arith, (omega arith, (omega arith, tt)))))

not_http : Lacks b'/' (codes "http")
not_http = (omega arith, (omega arith, (omega arith, (omega arith, tt))))

fourth {ℓ} :
    {A : Type ℓ} (t u v : Bool) (a b c d : A)
    → t ≡ false
    → u ≡ false
    → v ≡ false
    → (if t then a else if u then b else if v then c else d) ≡ d
fourth t u v a b c d ht hu hv = rw (ht, hu, hv) refl

cut_prefix_lem :
    (ep : Str) (b : ℕ) (rest : Str)
    → Lacks b'/' ep
    → (ep ≢ [])
    → (b ≢ b'/')
    → cut_prefix s3 (codes "s3:" ++ (ep ++ b'/' ∷ b ∷ rest))
      ≡ some (ep ++ b'/' ∷ b ∷ rest, codes "https")
unfolding cut_prefix has_prefix
cut_prefix_lem [] b rest he hn hb = absurd (hn refl)
cut_prefix_lem (e ∷ ep) b rest (h, he) hn hb =
    let https = no_prefix (codes "https") (e ∷ ep) b rest not_https (h, he) hb in
    let http = no_prefix (codes "http") (e ∷ ep) b rest not_http (h, he) hb in
    let slashes = no_prefix [] (e ∷ ep) b rest tt (h, he) hb in
    fourth _ _ _ _ _ _ _ https http slashes

-- A repository named `s3:<endpoint>/<bucket>/<prefix>`, whose endpoint and bucket are not empty and
-- have no slash, is read as its parts, over https.
pub parse_repositry_lem :
    (ep bucket prefix : Str)
    → Lacks b'/' ep
    → Lacks b'/' bucket
    → (ep ≢ [])
    → (bucket ≢ [])
    → parse_repositry (codes "s3:" ++ (ep ++ b'/' ∷ (bucket ++ b'/' ∷ prefix)))
      ≡ ok (record { endpoint = ep; bucket = bucket; prefix = prefix; scheme = codes "https" })
unfolding parse_repositry
parse_repositry_lem ep [] prefix he hb ne nb = absurd (nb refl)
parse_repositry_lem ep (b ∷ bucket) prefix he hb ne nb =
    rw (cut_prefix_lem ep b (bucket ++ b'/' ∷ prefix) he ne hb.0) (
      rw (cut-append b'/' ep (b ∷ (bucket ++ b'/' ∷ prefix)) he)
        (rw (cut-append b'/' (b ∷ bucket) prefix hb) refl))

-- The same without a prefix.
pub parse_repositry-bucket :
    (ep bucket : Str)
    → Lacks b'/' ep
    → Lacks b'/' bucket
    → (ep ≢ [])
    → (bucket ≢ [])
    → parse_repositry (codes "s3:" ++ (ep ++ b'/' ∷ bucket))
      ≡ ok (record { endpoint = ep; bucket = bucket; prefix = []; scheme = codes "https" })
unfolding parse_repositry
parse_repositry-bucket ep [] he hb ne nb = absurd (nb refl)
parse_repositry-bucket ep (b ∷ bucket) he hb ne nb =
    rw (cut_prefix_lem ep b bucket he ne hb.0)
      (rw (cut-append b'/' ep (b ∷ bucket) he) (rw (cut-lacking b'/' (b ∷ bucket) hb) refl))

-- A repository named by a URL, `s3:https://<rest>`, is read with the endpoint `https:` and an empty
-- bucket, so that the check of the bucket fails on every storage whose buckets have names.
pub check_bucket-url :
    (list_buckets : Str → Str → Outcome (List Str)) (r : Restic) (rest : Str)
    → r.repository ≡ codes "s3:https://" ++ rest
    → ((region url : Str) (buckets : List Str)
        → list_buckets region url ≡ ok buckets
        → ¬ In [] buckets)
    → (u : Done) → check_bucket list_buckets r ≢ ok u
unfolding check_bucket parse_repositry cut_prefix has_prefix cut
check_bucket-url list_buckets r rest h named u =
    rw h (refused (list_buckets (codes "https:") (codes "https://https:")) refl)
  where
    refused :
        (a : Outcome (List Str))
        → list_buckets (codes "https:") (codes "https://https:") ≡ a
        → in_buckets [] a ≢ ok u
    refused (err e) same h' = absurd (cc h')
    refused (ok buckets) same h' = elim (Bool-cases (mem? [] buckets)) [
      | inl there ↦ absurd (named _ _ buckets same (mem?-In [] buckets there))
      | inr missing ↦ absurd (cc (rw missing at h'))
    ]
