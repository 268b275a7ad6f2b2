-- ===== src/Queue/Exclusion.antt =====
-- At most one resource is operated on at a time, where other requests come between any two accesses
-- of Queue and UnsetQueue of pkg/driver/utils.go to the map and the mutex.
use nifcloud_nas_csi_driver.Base.{
  ℕ, zero, suc, ◌+◌, ◌≤◌, ◌≡◌, refl, sym, subst, ◌≢◌, ◌⊎◌, inl, inr, Bool, true, false, Option,
  none, some, List, ◌∷◌, ◌++◌, arith, Bool-cases, length, In,
}
use nifcloud_nas_csi_driver.Base.Assoc.{find, put, remove, find-put, find-remove}
use nifcloud_nas_csi_driver.Base.Text.{Str, str_eq, str_eq_iff}
use nifcloud_nas_csi_driver.Queue.{
  OperateResourceQueue, new_operate_resource_queue, is_operating, enter, take_out, lock,
  mark_operating, unlock,
}
use nifcloud_nas_csi_driver.Queue.Steps.{
  System, Step, refused, call, entered, acquire, mark, stray, ended, lost, taken_out, unlocked,
  initial, Reach, start, later, length-taken, In-taken,
}

abbrev one_if : Bool → ℕ
one_if true = 1
one_if false = 0

abbrev holding : Option Str → ℕ
holding none = 0
holding (some name) = 1

-- Those who have to unlock the mutex, or have lost the sight of it.
abbrev tokens : System → ℕ
tokens s = length s.operating + length s.removing + s.unlocking + holding s.holder

abbrev Flagged : List (Str × Bool) → List Str → List Str → Type 0
Flagged resources operating removing =
    (name : Str) → find name resources ≡ some true → In name operating ⊎ In name removing

-- A free mutex has no one to unlock it, a locked one at most one, and a name is marked only while a
-- request operates on it or is about to take it out.
pub record Inv (s : System) : Type 0 where
  pub counted : tokens s ≤ one_if s.state.locked
  pub flagged : Flagged s.state.resources s.operating s.removing

module _ (q : OperateResourceQueue) {r : OperateResourceQueue} where
  lock_inv : lock q ≡ some r → (q.locked ≡ false) × (r ≡ record q { locked = true })
  unfolding lock
  lock_inv h = ground arith

  unlock_inv : unlock q ≡ some r → (q.locked ≡ true) × (r ≡ record q { locked = false })
  unfolding unlock
  unlock_inv h = ground arith

module _ (s : System) (v : Inv s) where
  entered-Inv :
      (name : Str) (rest : List Str)
      → Inv (record s { state = enter s.state name; calling = rest; waiting = name ∷ s.waiting })
  unfolding enter
  entered-Inv name rest = record {
    counted = v.counted;
    flagged = λ n h. v.flagged n (marked_before n h);
  }
    where
      marked_before :
          (n : Str)
          → find n (put name false s.state.resources) ≡ some true
          → find n s.state.resources ≡ some true
      marked_before n h = ground (arith, find-put name n false s.state.resources)

  acquire-Inv :
      (name : Str) (rest : List Str) {q : OperateResourceQueue}
      → lock s.state ≡ some q
      → Inv (record s { state = q; waiting = rest; holder = some name })
  acquire-Inv name rest h =
      let (free, e) = lock_inv s.state h in
      subst (λ q. Inv (record s { state = q; waiting = rest; holder = some name })) (sym e)
        (record { counted = ground (arith, v.counted); flagged = v.flagged })

  mark-Inv :
      (name : Str)
      → s.holder ≡ some name
      → Inv (record s {
        state = mark_operating s.state name;
        holder = none;
        operating = name ∷ s.operating;
      })
  unfolding mark_operating
  mark-Inv name h = record {
    counted = omega (arith, rw h at v.counted);
    flagged = λ n f. elim (Bool-cases (str_eq name n)) [
      | inl same ↦ inl (inl ((str_eq_iff name n).0 same))
      | inr other ↦ kept n (v.flagged n (before n other f))
    ];
  }
    where
      before :
          (n : Str)
          → str_eq name n ≡ false
          → find n (put name true s.state.resources) ≡ some true
          → find n s.state.resources ≡ some true
      before n other f = ground (arith, find-put name n true s.state.resources)

      kept :
          (n : Str)
          → In n s.operating ⊎ In n s.removing
          → In n (name ∷ s.operating) ⊎ In n s.removing
      kept n (inl k) = inl (inr k)
      kept n (inr k) = inr k

  module _ (front : List Str) (name : Str) (back : List Str) where
    ended-Inv :
        s.operating ≡ front ++ name ∷ back
        → Inv (record s { operating = front ++ back; removing = name ∷ s.removing })
    ended-Inv e = record {
      counted = omega (arith, rw e at v.counted, length-taken front name back);
      flagged = λ n f. moved n (subst (λ l. In n l ⊎ In n s.removing) e (v.flagged n f));
    }
      where
        moved :
            (n : Str)
            → In n (front ++ name ∷ back) ⊎ In n s.removing
            → In n (front ++ back) ⊎ In n (name ∷ s.removing)
        moved n (inr k) = inr (inr k)
        moved n (inl k) = elim (In-taken n front name back k) [
          | inl same ↦ inr (inl same)
          | inr m ↦ inl m
        ]

    lost-Inv :
        s.operating ≡ front ++ name ∷ back
        → is_operating (find name s.state.resources) ≡ false
        → Inv (record s { operating = front ++ back })
    lost-Inv e gone = record {
      counted = omega (arith, rw e at v.counted, length-taken front name back);
      flagged = λ n f. moved n f (subst (λ l. In n l ⊎ In n s.removing) e (v.flagged n f));
    }
      where
        moved :
            (n : Str)
            → find n s.state.resources ≡ some true
            → In n (front ++ name ∷ back) ⊎ In n s.removing
            → In n (front ++ back) ⊎ In n s.removing
        moved n f (inr k) = inr k
        moved n f (inl k) = elim (In-taken n front name back k) [
          | inl same ↦ absurd (cc (same, f, gone))
          | inr m ↦ inl m
        ]

    taken_out-Inv :
        s.removing ≡ front ++ name ∷ back
        → Inv (record s {
          state = take_out s.state name;
          removing = front ++ back;
          unlocking = suc s.unlocking;
        })
    unfolding take_out
    taken_out-Inv e = record {
      counted = omega (arith, rw e at v.counted, length-taken front name back);
      flagged = λ n f. moved n f (v.flagged n (before n f));
    }
      where
        before :
            (n : Str)
            → find n (remove name s.state.resources) ≡ some true
            → find n s.state.resources ≡ some true
        before n f = ground (arith, find-remove name n s.state.resources)

        differs : (n : Str) → find n (remove name s.state.resources) ≡ some true → name ≢ n
        differs n f same =
            ground (arith, find-remove name n s.state.resources, (str_eq_iff name n).1 same)

        moved :
            (n : Str)
            → find n (remove name s.state.resources) ≡ some true
            → In n s.operating ⊎ In n s.removing
            → In n s.operating ⊎ In n (front ++ back)
        moved n f (inl k) = inl k
        moved n f (inr k) = elim (In-taken n front name back (subst (In n) e k)) [
          | inl same ↦ absurd (differs n f same)
          | inr m ↦ inr m
        ]

  unlocked-Inv :
      (n : ℕ) {q : OperateResourceQueue}
      → s.unlocking ≡ suc n
      → unlock s.state ≡ some q
      → Inv (record s { state = q; unlocking = n })
  unlocked-Inv n e h =
      let (taken, same) = unlock_inv s.state h in
      subst (λ q. Inv (record s { state = q; unlocking = n })) (sym same)
        (record { counted = omega (arith, rw (e, taken) at v.counted); flagged = v.flagged })

Step-Inv : {s t : System} → Step s t → Inv s → Inv t
Step-Inv (refused s name h) v = v
Step-Inv (call s name h) v = record { counted = v.counted; flagged = v.flagged }
Step-Inv (entered s front name back h) v = entered-Inv s v name (front ++ back)
Step-Inv (acquire s front name back q e h) v = acquire-Inv s v name (front ++ back) h
Step-Inv (mark s name h) v = mark-Inv s v name h
Step-Inv (stray s name h) v = v
Step-Inv (ended s front name back e h) v = ended-Inv s v front name back e
Step-Inv (lost s front name back e h) v = lost-Inv s v front name back e h
Step-Inv (taken_out s front name back e) v = taken_out-Inv s v front name back e
Step-Inv (unlocked s n q e h) v = unlocked-Inv s v n e h

initial-Inv : Inv initial
unfolding new_operate_resource_queue find
initial-Inv = record { counted = omega arith; flagged = λ n h. absurd (cc h) }

Reach-Inv : {s : System} → Reach s → Inv s
Reach-Inv start = initial-Inv
Reach-Inv (later r st) = Step-Inv st (Reach-Inv r)

-- Whatever requests come between any two of the accesses of Queue and UnsetQueue to the map and the
-- mutex, also requests for one name at the same time: if each call of UnsetQueue that finds its name
-- operated on is the one that ends a request that Queue has let in, then at most one request that
-- Queue has let in is operated on, a call of UnsetQueue that has its unlock left finds the mutex
-- locked, and a name that no request operates on, and that no call is taking out, is not found
-- operated on.
pub one_operating :
    {s : System} (name : Str)
    → Reach s
    → (length s.operating ≤ 1)
      × ((s.unlocking ≡ 0) ⊎ (unlock s.state ≢ none))
      × ((is_operating (find name s.state.resources) ≡ false)
          ⊎ (In name s.operating ⊎ In name s.removing))
unfolding unlock
one_operating {s} name r =
    let v : Inv s = Reach-Inv r in
    (
      bounded s.state.locked v.counted,
      held v s.unlocking refl,
      marked v (find name s.state.resources) refl,
    )
  where
    bounded : (b : Bool) → tokens s ≤ one_if b → length s.operating ≤ 1
    bounded true h = omega arith
    bounded false h = omega arith

    held : Inv s → (n : ℕ) → s.unlocking ≡ n → (s.unlocking ≡ 0) ⊎ (unlock s.state ≢ none)
    held v zero e = inl e
    held v (suc n) e = inr (λ h. ground (arith, rw e at v.counted))

    marked :
        Inv s
        → (f : Option Bool) → find name s.state.resources ≡ f
        → (is_operating f ≡ false) ⊎ (In name s.operating ⊎ In name s.removing)
    marked v none e = inl refl
    marked v (some false) e = inl refl
    marked v (some true) e = inr (v.flagged name e)
