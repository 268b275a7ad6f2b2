-- ===== src/Queue/Steps.antt =====
-- The steps of requests that call Queue and UnsetQueue of pkg/driver/utils.go: one for each access to
-- the map and the mutex, so that other requests come between any two of them.
use nifcloud_nas_csi_driver.Base.{
  ℕ, suc, ◌≡◌, ◌⊎◌, inl, inr, true, false, Option, none, some, List, [], ◌∷◌, ◌++◌, arith, length,
  In,
}
use nifcloud_nas_csi_driver.Base.Assoc.{find}
use nifcloud_nas_csi_driver.Base.Text.{Str}
use nifcloud_nas_csi_driver.Queue.{
  OperateResourceQueue, new_operate_resource_queue, present, is_operating, enter, take_out, lock,
  mark_operating, unlock,
}

-- The queue, and where the calls are that have begun: the names that Queue has not found in the map
-- and not entered yet; those that wait for the mutex; the one that has it and is not marked yet; the
-- names whose request Queue has let in and that has not ended; the names that UnsetQueue has found
-- operated on and not taken out yet; and the calls of it that have only the unlock left.
pub record System : Type 0 where
  pub state : OperateResourceQueue
  pub calling : List Str
  pub waiting : List Str
  pub holder : Option Str
  pub operating : List Str
  pub removing : List Str
  pub unlocking : ℕ

pub data Step : System → System → Type 0 where
  -- Queue finds its name in the map, which is an error and changes nothing, or does not find it
  refused : (s : System) (name : Str) → present (find name s.state.resources) ≡ true → Step s s
  call :
      (s : System) (name : Str)
      → present (find name s.state.resources) ≡ false
      → Step s (record s { calling = name ∷ s.calling })
  -- the name is entered, also if another call has entered it since
  entered :
      (s : System) (front : List Str) (name : Str) (back : List Str)
      → s.calling ≡ front ++ name ∷ back
      → Step s (record s {
        state = enter s.state name;
        calling = front ++ back;
        waiting = name ∷ s.waiting;
      })
  -- the mutex goes to any of the calls that wait
  acquire :
      (s : System) (front : List Str) (name : Str) (back : List Str) (q : OperateResourceQueue)
      → s.waiting ≡ front ++ name ∷ back
      → lock s.state ≡ some q
      → Step s (record s { state = q; waiting = front ++ back; holder = some name })
  mark :
      (s : System) (name : Str)
      → s.holder ≡ some name
      → Step s (record s {
        state = mark_operating s.state name;
        holder = none;
        operating = name ∷ s.operating;
      })
  -- UnsetQueue, called for any name at any time, does not find it operated on
  stray : (s : System) (name : Str) → is_operating (find name s.state.resources) ≡ false → Step s s
  -- the end of a request calls UnsetQueue, which finds its name operated on, or not any more
  ended :
      (s : System) (front : List Str) (name : Str) (back : List Str)
      → s.operating ≡ front ++ name ∷ back
      → is_operating (find name s.state.resources) ≡ true
      → Step s (record s { operating = front ++ back; removing = name ∷ s.removing })
  lost :
      (s : System) (front : List Str) (name : Str) (back : List Str)
      → s.operating ≡ front ++ name ∷ back
      → is_operating (find name s.state.resources) ≡ false
      → Step s (record s { operating = front ++ back })
  taken_out :
      (s : System) (front : List Str) (name : Str) (back : List Str)
      → s.removing ≡ front ++ name ∷ back
      → Step s (record s {
        state = take_out s.state name;
        removing = front ++ back;
        unlocking = suc s.unlocking;
      })
  unlocked :
      (s : System) (n : ℕ) (q : OperateResourceQueue)
      → s.unlocking ≡ suc n
      → unlock s.state ≡ some q
      → Step s (record s { state = q; unlocking = n })

abbrev pub initial : System
initial = record {
  state = new_operate_resource_queue;
  calling = [];
  waiting = [];
  holder = none;
  operating = [];
  removing = [];
  unlocking = 0;
}

pub data Reach : System → Type 0 where
  start : Reach initial
  later : {s t : System} → Reach s → Step s t → Reach t

pub length-taken :
    (front : List Str) (name : Str) (back : List Str)
    → length (front ++ name ∷ back) ≡ suc (length (front ++ back))
length-taken [] name back = grind arith
length-taken (x ∷ front) name back = grind (arith, length-taken front name back)

pub In-taken :
    (n : Str) (front : List Str) (name : Str) (back : List Str)
    → In n (front ++ name ∷ back)
    → (name ≡ n) ⊎ In n (front ++ back)
In-taken n [] name back (inl e) = inl e
In-taken n [] name back (inr k) = inr k
In-taken n (x ∷ front) name back (inl e) = inr (inl e)
In-taken n (x ∷ front) name back (inr k) = elim (In-taken n front name back k) [
  | inl e ↦ inl e
  | inr m ↦ inr (inr m)
]
