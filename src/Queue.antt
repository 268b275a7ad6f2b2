-- ===== src/Queue.antt =====
-- OperateResourceQueue of pkg/driver/utils.go: shared volumes are created, and deleted, one at a time.
-- A request waits in Queue for the mutex; the event handlers of PersistentVolumes, and a request that
-- fails, release it by UnsetQueue. Reads and writes of the map outside the mutex are not synchronised,
-- so each is an operation of its own, between which other requests come; a read and a write of the map
-- at the same moment, on which Go may stop the program, are not modelled.
use nifcloud_nas_csi_driver.Base.{
  ℕ, zero, suc, ◌+◌, ◌-◌, ◌*◌, ◌/◌, ◌%◌, ◌^◌, ◌≤◌, ◌<◌, ◌≡◌, refl, sym, ap, ap₂, ◌∙◌, subst, ◌≢◌,
  ◌↔◌, ◌⊎◌, inl, inr, Bool, true, false, not, ◌&&◌, ◌||◌, Option, none, some, List, [], ◌∷◌, ◌++◌,
  map, append-nil, append_assoc, arith, ltb, leb, ◌==◌, if◌then◌else◌, ==_iff, Bool-cases,
  Option-cases, length, take, drop, get_elem?, All, In, In-append_left, In-append_right, bit_and,
}
use nifcloud_nas_csi_driver.Base.Keys.{
  add_key, delete_key, Distinct, In-add_key_self, In-add_key, In-delete_key, delete_key-In,
  delete_key-Distinct,
}
use nifcloud_nas_csi_driver.Base.Assoc.{find, put, remove, find-put, find-remove, map_laws}
use nifcloud_nas_csi_driver.Base.Text.{
  Str, codes, str_eq, str_eq_iff, str_eq_refl, mem?, mem?-In, In-mem?, split, cut, Lacks,
  split-lacking, split-append, cut-append, atoi, byte_text, contains as str_contains, has_prefix,
  digits_from,
}
use nifcloud_nas_csi_driver.Base.Outcome.{
  Code, Error, Outcome, Done, ok, err, plain, status, cloud, not_exist, object_exists,
  invalid_argument, not_found, already_exists, aborted, internal, unimplemented, ◌>>=◌, ◌>>◌,
}
pub mod Steps
pub mod Exclusion
pub mod Duplicates

pub record OperateResourceQueue : Type 0 where
  -- false while a request waits, true while the resource is operated on
  pub resources : List (Str × Bool)
  pub locked : Bool

unfoldable pub new_operate_resource_queue : OperateResourceQueue
new_operate_resource_queue = record { resources = []; locked = false }

abbrev pub present : Option Bool → Bool
present none = false
present (some b) = true

abbrev pub is_operating : Option Bool → Bool
is_operating none = false
is_operating (some b) = b

-- The name is entered as pending, in Queue, and taken out, in UnsetQueue.
unfoldable pub enter : OperateResourceQueue → Str → OperateResourceQueue
unfolding put
enter q name = record q { resources = put name false q.resources }

unfoldable pub take_out : OperateResourceQueue → Str → OperateResourceQueue
unfolding remove
take_out q name = record q { resources = remove name q.resources }

-- Queue up to the lock, where no other request comes between its read and its write: a name that is
-- in the map is refused, another is entered as pending.
unfoldable pub enqueue : OperateResourceQueue → Str → Outcome Done × OperateResourceQueue
unfolding find enter
enqueue q name = if present (find name q.resources) then (err plain, q) else (ok tt, enter q name)

-- queueMutex.Lock() returns when the mutex is free.
unfoldable pub lock : OperateResourceQueue → Option OperateResourceQueue
lock q = if q.locked then none else some (record q { locked = true })

-- The last assignment of Queue.
unfoldable pub mark_operating : OperateResourceQueue → Str → OperateResourceQueue
unfolding put
mark_operating q name = record q { resources = put name true q.resources }

-- queueMutex.Unlock() of a mutex that is not locked is a fatal error, `none`.
unfoldable pub unlock : OperateResourceQueue → Option OperateResourceQueue
unlock q = if q.locked then some (record q { locked = false }) else none

-- UnsetQueue where no other request comes between its read, its write and the unlock.
unfoldable pub unset_queue : OperateResourceQueue → Str → Option OperateResourceQueue
unfolding find take_out unlock
unset_queue q name =
    if is_operating (find name q.resources) then unlock (take_out q name) else some q

-- Queue as a whole, where no other request comes between: `none` where it waits for ever.
abbrev locked_and_marked :
    Str → Option OperateResourceQueue → Option (Outcome Done × OperateResourceQueue)
locked_and_marked name none = none
locked_and_marked name (some q) = some (ok tt, mark_operating q name)

abbrev after_enqueue :
    Str → Outcome Done × OperateResourceQueue → Option (Outcome Done × OperateResourceQueue)
after_enqueue name (ok u, q) = locked_and_marked name (lock q)
after_enqueue name (err e, q) = some (err e, q)

unfoldable pub queue : OperateResourceQueue → Str → Option (Outcome Done × OperateResourceQueue)
unfolding enqueue lock mark_operating
queue q name = after_enqueue name (enqueue q name)
