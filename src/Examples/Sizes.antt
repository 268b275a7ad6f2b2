-- ===== src/Examples/Sizes.antt =====
-- Capacities, names and the queue of pkg/driver at concrete inputs.
use nifcloud_nas_csi_driver.Base.{
  ◌∷◌, length, In, ◌≤◌, ◌≡◌, refl, ◌≢◌, ◌⊎◌, inr, true, false, none, some, [], arith,
}
use nifcloud_nas_csi_driver.Base.Assoc.{find, put}
use nifcloud_nas_csi_driver.Base.Text.{codes, str_eq, str_eq_iff, mem?}
use nifcloud_nas_csi_driver.Base.Outcome.{ok, err, plain}
use nifcloud_nas_csi_driver.Base.Int.{pos, ◌≤ℤ◌}
use nifcloud_nas_csi_driver.Capacity.{
  get_allocated_storage, get_request_capacity, CapacityRange, unit,
}
use nifcloud_nas_csi_driver.Capacity.Bounds.{
  IsTier, get_allocated_storage-IsTier, get_request_capacity_bounds,
}
use nifcloud_nas_csi_driver.Names as Holder
use nifcloud_nas_csi_driver.Queue.{
  OperateResourceQueue, new_operate_resource_queue, enter, is_operating, lock, unlock,
  mark_operating,
}
use nifcloud_nas_csi_driver.Queue.Steps.{
  System, Step, initial, start, later, call, entered, acquire, mark, ended,
}
use nifcloud_nas_csi_driver.Queue.Exclusion.{one_operating}
use nifcloud_nas_csi_driver.Queue.Duplicates.{request, duplicate_breaks_exclusion}

tier_example :
    IsTier (pos 200000000000) (unit (pos 0)) 1 (get_allocated_storage (pos 200000000000) (pos 0))
tier_example = get_allocated_storage-IsTier (pos 200000000000) (pos 0)

abbrev capacity : CapacityRange
capacity = record { required_bytes = pos 5000; limit_bytes = pos 9000 }

capacity_example :
    (pos 5000 ≤ℤ get_request_capacity (some capacity) (pos 7000))
    × ((pos 9000 ≡ pos 0) ⊎ (get_request_capacity (some capacity) (pos 7000) ≤ℤ pos 9000))
    × ((pos 7000 ≤ℤ get_request_capacity (some capacity) (pos 7000))
        ⊎ (get_request_capacity (some capacity) (pos 7000) ≡ pos 9000))
capacity_example =
    get_request_capacity_bounds capacity (pos 7000) (omega arith) (omega arith) (inr (omega arith))

entered_a :
    Holder.set_creating Holder.new_instance_name_holder (codes "a")
    ≡ (ok tt, record { creating_instance_names = codes "a" ∷ [] })
unfolding Holder.set_creating mem? Holder.new_instance_name_holder
entered_a = refl

names_example : Holder.Inv (record {
  holder = record { creating_instance_names = codes "a" ∷ [] };
  working = codes "a" ∷ [];
})
names_example = Holder.names_exclusive (
    Holder.later Holder.start (
      Holder.enter (record { holder = Holder.new_instance_name_holder; working = [] }) (codes "a")
        (record { creating_instance_names = codes "a" ∷ [] }) entered_a))

abbrev a_waits : OperateResourceQueue
a_waits = record { resources = (codes "a", false) ∷ []; locked = false }

abbrev a_locks : OperateResourceQueue
a_locks = record { resources = (codes "a", false) ∷ []; locked = true }

abbrev a_marked : OperateResourceQueue
a_marked = record { resources = (codes "a", true) ∷ []; locked = true }

-- The request for a calls, waits, has the mutex, is let in, and has begun to end.
abbrev called_state : System
called_state = record initial { calling = codes "a" ∷ [] }

abbrev waiting_state : System
waiting_state = record initial { state = a_waits; waiting = codes "a" ∷ [] }

abbrev locked_state : System
locked_state = record initial { state = a_locks; holder = some (codes "a") }

abbrev marked_state : System
marked_state = record initial { state = a_marked; operating = codes "a" ∷ [] }

abbrev ended_state : System
ended_state = record initial { state = a_marked; removing = codes "a" ∷ [] }

call_a : Step initial called_state
unfolding new_operate_resource_queue find
call_a = call initial (codes "a") refl

entered_state : Step called_state waiting_state
unfolding enter new_operate_resource_queue put
entered_state = entered called_state [] (codes "a") [] refl

acquire_a : Step waiting_state locked_state
unfolding lock
acquire_a = acquire waiting_state [] (codes "a") [] a_locks refl refl

mark_a : Step locked_state marked_state
unfolding mark_operating put str_eq
mark_a = mark locked_state (codes "a") refl

end_a : Step marked_state ended_state
unfolding find str_eq
end_a = ended marked_state [] (codes "a") [] refl refl

operating_example :
    (length marked_state.operating ≤ 1)
    × ((marked_state.unlocking ≡ 0) ⊎ (unlock marked_state.state ≢ none))
    × ((is_operating (find (codes "a") marked_state.state.resources) ≡ false)
        ⊎ (In (codes "a") marked_state.operating ⊎ In (codes "a") marked_state.removing))
operating_example =
    one_operating (codes "a")
      (later (later (later (later start call_a) entered_state) acquire_a) mark_a)

distinct_names : codes "a" ≢ codes "b"
unfolding str_eq
distinct_names e =
    let same : str_eq (codes "a") (codes "b") ≡ true = (str_eq_iff (codes "a") (codes "b")).1 e in
    cc

empty_queue : new_operate_resource_queue.locked ≡ false
unfolding new_operate_resource_queue
empty_queue = refl

no_entry : find (codes "a") new_operate_resource_queue.resources ≡ none
unfolding find new_operate_resource_queue
no_entry = refl

no_other_entry : find (codes "b") new_operate_resource_queue.resources ≡ none
unfolding find new_operate_resource_queue
no_other_entry = refl

duplicate_example :
    (q1 : OperateResourceQueue) × (q2 : OperateResourceQueue) × (q3 : OperateResourceQueue)
    × (request new_operate_resource_queue (codes "a") ≡ some (ok tt, q1))
    × (request q1 (codes "b") ≡ none)
    × (request q1 (codes "a") ≡ some (err plain, q2))
    × (request q2 (codes "b") ≡ some (ok tt, q3))
duplicate_example =
    duplicate_breaks_exclusion new_operate_resource_queue (codes "a") (codes "b") distinct_names
      empty_queue no_entry no_other_entry
