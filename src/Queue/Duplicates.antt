-- ===== src/Queue/Duplicates.antt =====
-- A request for a name that is already operated on is refused, and the deferred call of that request
-- (CreateVolume and DeleteVolume of pkg/driver/controller.go) then runs UnsetQueue for the name.
use nifcloud_nas_csi_driver.Base.{
  ◌≡◌, refl, ◌≢◌, Bool, true, false, Option, none, some, List, arith,
}
use nifcloud_nas_csi_driver.Base.Assoc.{find, put, remove, find-put, find-remove}
use nifcloud_nas_csi_driver.Base.Text.{Str, str_eq_iff, str_eq_refl}
use nifcloud_nas_csi_driver.Base.Outcome.{Outcome, Done, ok, err, plain}
use nifcloud_nas_csi_driver.Queue.{OperateResourceQueue, unset_queue, queue}

-- A request as the two handlers make it: Queue, and UnsetQueue where Queue returned an error.
abbrev cleaned :
    Str → Outcome Done × OperateResourceQueue → Option (Outcome Done × OperateResourceQueue)
cleaned name (ok u, q) = some (ok u, q)
cleaned name (err e, q) = elim (unset_queue q name) [ none ↦ none | some r ↦ some (err e, r) ]

abbrev after_queue :
    Str
    → Option (Outcome Done × OperateResourceQueue)
    → Option (Outcome Done × OperateResourceQueue)
after_queue name none = none
after_queue name (some r) = cleaned name r

unfoldable pub request : OperateResourceQueue → Str → Option (Outcome Done × OperateResourceQueue)
unfolding queue unset_queue
request q name = after_queue name (queue q name)

-- Queue lets a request in if the mutex is free and the name is not in the map.
queue_free :
    (q : OperateResourceQueue) (name : Str)
    → q.locked ≡ false
    → find name q.resources ≡ none
    → request q name
      ≡ some
          (ok tt, record { resources = put name true (put name false q.resources); locked = true })
unfolding request
queue_free q name l f = ground arith

-- While a resource is operated on, a second request for its name is refused, and its clean-up takes
-- the name out of the map and unlocks the mutex.
duplicate_releases :
    (q : OperateResourceQueue) (name : Str)
    → q.locked ≡ true
    → find name q.resources ≡ some true
    → request q name
      ≡ some (err plain, record { resources = remove name q.resources; locked = false })
unfolding request
duplicate_releases q name l f = ground arith

-- While the mutex is locked, a request for a name that is not in the map waits.
queue_waits :
    (q : OperateResourceQueue) (name : Str)
    → q.locked ≡ true
    → find name q.resources ≡ none
    → request q name ≡ none
unfolding request
queue_waits q name l f = ground arith

-- Take two names that are not in a free queue. After a request for the first is let in, a request
-- for the second waits; but if another request for the first comes between, which is refused, then
-- the request for the second is let in, although nobody has released the first one's turn.
pub duplicate_breaks_exclusion :
    (q : OperateResourceQueue) (a b : Str)
    → a ≢ b
    → q.locked ≡ false
    → find a q.resources ≡ none
    → find b q.resources ≡ none
    → (q1 : OperateResourceQueue) × (q2 : OperateResourceQueue) × (q3 : OperateResourceQueue)
      × (request q a ≡ some (ok tt, q1))
      × (request q1 b ≡ none)
      × (request q1 a ≡ some (err plain, q2))
      × (request q2 b ≡ some (ok tt, q3))
duplicate_breaks_exclusion q a b n l fa fb = (
  record { resources = first; locked = true },
  record { resources = remove a first; locked = false },
  record { resources = put b true (put b false (remove a first)); locked = true },
  queue_free q a l fa,
  queue_waits (record { resources = first; locked = true }) b refl still,
  duplicate_releases (record { resources = first; locked = true }) a refl in_turn,
  queue_free (record { resources = remove a first; locked = false }) b refl gone,
)
  where
    first : List (Str × Bool)
    first = put a true (put a false q.resources)

    in_turn : find a first ≡ some true
    in_turn = simp (find-put, str_eq_refl)

    still : find b first ≡ none
    still = ground (
      arith,
      find-put a b true (put a false q.resources),
      find-put a b false q.resources,
      str_eq_iff a b,
    )

    gone : find b (remove a first) ≡ none
    gone = ground (arith, find-remove a b first, still)
