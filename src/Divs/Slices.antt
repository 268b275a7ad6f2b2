-- ===== src/Divs/Slices.antt =====
-- The loops over indices and the slices, as a filter: where the blocks to drop stand together, the
-- slices leave out those and nothing else.
use nifcloud_nas_csi_driver.Base.{
  ℕ, zero, suc, ◌+◌, ◌-◌, ◌≤◌, ◌<◌, ◌≡◌, refl, sym, ap, ◌∙◌, ◌⊎◌, inl, inr, Bool, true, false,
  Option, none, some, List, [], ◌∷◌, ◌++◌, append-nil, arith, ◌==◌, if◌then◌else◌, Bool-cases,
  length, take, drop, All,
}
use nifcloud_nas_csi_driver.Net.Mask.{IpNet}
use nifcloud_nas_csi_driver.Divs.{index_from, without_index, range_loop, without_range}

-- The blocks that a test does not hold of.
unfoldable pub rest_of : (IpNet → Bool) → List IpNet → List IpNet
rest_of p [] = []
rest_of p (d ∷ ds) = let rest = rest_of p ds in if p d then rest else d ∷ rest

-- The test holds of no block; of a run at the head; of one run somewhere.
abbrev pub Quiet : (IpNet → Bool) → List IpNet → Type 0
Quiet p = All (λ d. p d ≡ false)

abbrev pub Running : (IpNet → Bool) → List IpNet → Type 0
Running p [] = Unit
Running p (d ∷ ds) = ((p d ≡ true) × Running p ds) ⊎ ((p d ≡ false) × Quiet p ds)

abbrev pub OneRun : (IpNet → Bool) → List IpNet → Type 0
OneRun p [] = Unit
OneRun p (d ∷ ds) = ((p d ≡ true) × Running p ds) ⊎ ((p d ≡ false) × OneRun p ds)

module _ (p : IpNet → Bool) where
  rest_of-Quiet : (ds : List IpNet) → Quiet p ds → rest_of p ds ≡ ds
  unfolding rest_of
  rest_of-Quiet [] q = refl
  rest_of-Quiet (d ∷ ds) (e, q) = ground (arith, rest_of-Quiet ds q)

  range_loop-Quiet :
      (i : ℕ) (ds : List IpNet) (s : Option (ℕ × ℕ)) → Quiet p ds → range_loop i p ds s ≡ s
  unfolding range_loop
  range_loop-Quiet i [] s q = refl
  range_loop-Quiet i (d ∷ ds) s (e, q) = rw e (range_loop-Quiet (i + 1) ds s q)

  -- In the run: k more blocks are dropped, and the last index is the one before i + k.
  running :
      (i f t : ℕ) (ds : List IpNet)
      → Running p ds
      → t + 1 ≡ i
      → (k : ℕ) × (u : ℕ) × (range_loop i p ds (some (f, t)) ≡ some (f, u))
        × (u + 1 ≡ i + k)
        × (drop k ds ≡ rest_of p ds)
        × (k ≤ length ds)
  unfolding range_loop rest_of
  running i f t [] r e = (0, t, refl, omega arith, refl, omega arith)
  running i f t (d ∷ ds) (inl (y, r)) e =
      let (k, u, loop, last, same, fits) = running (i + 1) f i ds r (omega arith) in
      (suc k, u, rw y loop, omega arith, rw y same, omega arith)
  running i f t (d ∷ ds) (inr (n, q)) e = (
    0,
    t,
    rw n (range_loop-Quiet (i + 1) ds (some (f, t)) q),
    omega arith,
    rw n (ap (λ (l : List IpNet). d ∷ l) (sym (rest_of-Quiet ds q))),
    omega arith,
  )

  -- From the start: nothing is dropped, or the blocks from index f up to index u.
  data Outcome1 (i : ℕ) (ds : List IpNet) : Option (ℕ × ℕ) → Type 0 where
    kept : rest_of p ds ≡ ds → Outcome1 i ds none
    cut_out :
        (f k u : ℕ)
        → u + 1 ≡ i + k
        → f < k
        → k ≤ length ds
        → take f ds ++ drop k ds ≡ rest_of p ds
        → (v : ℕ) → v ≡ i + f
        → Outcome1 i ds (some (v, u))

  one_run : (i : ℕ) (ds : List IpNet) → OneRun p ds → Outcome1 i ds (range_loop i p ds none)
  unfolding range_loop rest_of
  one_run i [] r = kept refl
  one_run i (d ∷ ds) (inl (y, r)) =
      let (k, u, loop, last, same, fits) = running (i + 1) i i ds r (omega arith) in
      rw (y, loop)
        (cut_out 0 (suc k) u (omega arith) (omega arith) (omega arith) (rw y same) i (omega arith))
  one_run i (d ∷ ds) (inr (n, r)) =
      rw n (behind (range_loop (i + 1) p ds none) (one_run (i + 1) ds r))
    where
      behind : (o : Option (ℕ × ℕ)) → Outcome1 (i + 1) ds o → Outcome1 i (d ∷ ds) o
      behind o (kept e) = kept (rw n (ap (λ (l : List IpNet). d ∷ l) e))
      behind o (cut_out f k u e b l same v w) =
          cut_out (suc f) (suc k) u (omega arith) (omega arith) (omega arith)
            (rw n (ap (λ (l : List IpNet). d ∷ l) same)) v (omega arith)

  drop_all : (ds : List IpNet) (n : ℕ) → length ds ≤ n → drop n ds ≡ []
  drop_all [] zero h = refl
  drop_all [] (suc n) h = refl
  drop_all (d ∷ ds) zero h = absurd (omega arith)
  drop_all (d ∷ ds) (suc n) h = drop_all ds n (omega arith)

  -- The three slices are one: what stands before the first index, and what stands behind the last.
  slices_of :
      (ds r : List IpNet) (f k : ℕ)
      → f < k
      → k ≤ length ds
      → take f ds ++ drop k ds ≡ r
      → (if f == 0
          then drop k ds
          else if f == length ds - 1
          then take (length ds - 1) ds
          else take f ds ++ drop k ds)
        ≡ r
  slices_of ds r f k b l same = elim (Bool-cases (f == 0)) [
    | inl z ↦ rw z (let e : f ≡ 0 = ground arith in rw e at same)
    | inr nz ↦ elim (Bool-cases (f == length ds - 1)) [
      | inr n ↦ rw (nz, n) same
      | inl y ↦
          rw (nz, y)
            (let e : f ≡ length ds - 1 = ground arith in
              sym (append-nil (take (length ds - 1) ds))
              ∙ (rw (drop_all ds k (omega arith), e) at same))
    ]
  ]

  slices :
      (ds : List IpNet) (o : Option (ℕ × ℕ)) → Outcome1 0 ds o → without_range ds o ≡ rest_of p ds
  unfolding without_range
  slices ds o (kept e) = sym e
  slices ds o (cut_out f k u e b l same v w) =
      let ev : v ≡ f = omega arith in
      let eu : u + 1 ≡ k = omega arith in rw (ev, eu) (slices_of ds (rest_of p ds) f k b l same)

  pub without_range-range_loop :
      (ds : List IpNet) → OneRun p ds → without_range ds (range_loop 0 p ds none) ≡ rest_of p ds
  without_range-range_loop ds r = slices ds (range_loop 0 p ds none) (one_run 0 ds r)

abbrev pair : Option ℕ → Option (ℕ × ℕ)
pair none = none
pair (some i) = some (i, i)

-- The same for one index: where the test holds of one block at most.
abbrev pub OnceAtMost : (IpNet → Bool) → List IpNet → Type 0
OnceAtMost p [] = Unit
OnceAtMost p (d ∷ ds) = ((p d ≡ true) × Quiet p ds) ⊎ ((p d ≡ false) × OnceAtMost p ds)

module _ (p : IpNet → Bool) where
  once : (i : ℕ) (ds : List IpNet) → OnceAtMost p ds → Outcome1 p i ds (pair (index_from i p ds))
  unfolding index_from rest_of
  once i [] q = kept refl
  once i (d ∷ ds) (inl (y, q)) = rw y (
      cut_out 0 1 i (omega arith) (omega arith) (omega arith) (rw y (sym (rest_of-Quiet p ds q))) i
        (omega arith))
  once i (d ∷ ds) (inr (n, q)) = rw n (behind (index_from (i + 1) p ds) (once (i + 1) ds q))
    where
      behind : (o : Option ℕ) → Outcome1 p (i + 1) ds (pair o) → Outcome1 p i (d ∷ ds) (pair o)
      behind none (kept e) = kept (rw n (ap (λ (l : List IpNet). d ∷ l) e))
      behind (some j) (cut_out f k u e b l same v w) =
          cut_out (suc f) (suc k) u (omega arith) (omega arith) (omega arith)
            (rw n (ap (λ (l : List IpNet). d ∷ l) same)) v (omega arith)

  one_slice :
      (ds : List IpNet) (o : Option ℕ)
      → Outcome1 p 0 ds (pair o)
      → without_index ds o ≡ rest_of p ds
  unfolding without_index
  one_slice ds none (kept e) = sym e
  one_slice ds (some i) (cut_out f k u e b l same v w) = go (Bool-cases (i == 0))
    where
      whole : take i ds ++ drop (i + 1) ds ≡ rest_of p ds
      whole =
          let ef : f ≡ i = omega arith in let ek : k ≡ i + 1 = omega arith in rw (ef, ek) at same

      three :
          (if i == 0
            then drop (i + 1) ds
            else if i == length ds - 1
            then take (length ds - 1) ds
            else take i ds ++ drop (i + 1) ds)
          ≡ rest_of p ds
      three = slices_of p ds (rest_of p ds) i (i + 1) (omega arith) (omega arith) whole

      go :
          ((i == 0) ≡ true) ⊎ ((i == 0) ≡ false)
          → (if i == 0
              then drop 1 ds
              else if i == length ds - 1
              then take (length ds - 1) ds
              else take i ds ++ drop (i + 1) ds)
            ≡ rest_of p ds
      go (inl z) = let e0 : i ≡ 0 = ground arith in rw z (rw (z, e0) at three)
      go (inr n) = rw n (rw n at three)

  pub without_index-index_from :
      (ds : List IpNet) → OnceAtMost p ds → without_index ds (index_from 0 p ds) ≡ rest_of p ds
  without_index-index_from ds q = one_slice ds (index_from 0 p ds) (once 0 ds q)
