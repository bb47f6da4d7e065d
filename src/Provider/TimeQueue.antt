-- ===== src/Provider/TimeQueue.antt =====
-- The provider's time queues (x/vaas/provider/keeper): consumer ids by the time at which something
-- is due, for launches, removals and the end of pauses. A queue is its entries in the order in which
-- the store iterates, which is that of time.
pub mod Consume
pub mod Entries
pub mod Members
pub mod Undo
mod Tests
use vaas.Base.{
  ℕ, ◌-◌, Bool, true, false, not, Option, none, some, List, [], ◌∷◌, ◌++◌, ltb, leb, ◌==◌,
  if◌then◌else◌, value_or, nat_eq, length, take, drop,
}
use vaas.Base.Store.{Store, get, remove}

abbrev pub Queue : Type 0
Queue = Store ℕ (List ℕ)

-- The write of an entry, kept in order of time.
unfoldable pub put : ℕ → List ℕ → Queue → Queue
put ts ids [] = (ts, ids) ∷ []
put ts ids (x ∷ q) =
    if ltb ts x.0 then (ts, ids) ∷ x ∷ q else if ts == x.0 then (ts, ids) ∷ q else x ∷ put ts ids q

-- GetConsumersToBeLaunched, GetConsumersToBeRemoved and GetConsumersToBeAutoStopped.
unfoldable pub get_ids : Queue → ℕ → List ℕ
get_ids q ts = value_or [] (get ts q)

-- AppendConsumerToBeLaunched, AppendConsumerToBeRemoved and AppendConsumerToBeAutoStopped.
unfoldable pub append_id : Queue → ℕ → ℕ → Queue
append_id q consumer ts = put ts (get_ids q ts ++ (consumer ∷ [])) q

-- DeleteAllConsumersToBeLaunched, DeleteAllConsumersToBeRemoved and
-- DeleteAllConsumersToBeAutoStopped.
unfoldable pub delete_all_ids : Queue → ℕ → Queue
delete_all_ids q ts = remove ts q

abbrev pub is_in : ℕ → List ℕ → Bool
is_in i [] = false
is_in i (j ∷ js) = if j == i then true else is_in i js

-- The ids without the first that is the consumer's.
unfoldable pub without : ℕ → List ℕ → List ℕ
without i [] = []
without i (j ∷ js) = if j == i then js else j ∷ without i js

-- removeConsumerFromTimeQueue; `none` is an error.
unfoldable pub remove_consumer_from_time_queue : Queue → ℕ → ℕ → Option Queue
remove_consumer_from_time_queue q consumer ts =
    let ids = get_ids q ts in
    if not (is_in consumer ids)
    then none
    else if length ids == 1
    then some (remove ts q)
    else some (put ts (without consumer ids) q)

-- What the loop of ConsumeIdsFromTimeQueue has gathered: the result, the ids for next time, and the
-- times to delete.
pub record Gathered : Type 0 where
  pub result : List ℕ
  pub next_time : List ℕ
  pub timestamps_to_delete : List ℕ

abbrev pub also_delete : ℕ → Gathered → Gathered
also_delete ts g = record g { timestamps_to_delete = ts ∷ g.timestamps_to_delete }

-- An entry of which only some ids have a slot ends the loop.
abbrev pub taken_part : ℕ → List ℕ → ℕ × List ℕ → Gathered
taken_part limit result x =
    let available_slots = limit - length result in
    record {
      result = result ++ take available_slots x.1;
      next_time = drop available_slots x.1;
      timestamps_to_delete = x.0 ∷ [];
    }

-- The first loop of ConsumeIdsFromTimeQueue, from a result so far.
unfoldable pub gather : ℕ → ℕ → List ℕ → Queue → Gathered
gather now limit result [] = record { result = result; next_time = []; timestamps_to_delete = [] }
gather now limit result (x ∷ q) =
    let available_slots = limit - length result in
    let rest = gather now limit (result ++ x.1) q in
    if leb limit (length result)
    then record { result = result; next_time = []; timestamps_to_delete = [] }
    else if ltb now x.0
    then record { result = result; next_time = []; timestamps_to_delete = [] }
    else if leb (length x.1) available_slots
    then also_delete x.0 rest
    else taken_part limit result x

unfoldable pub append_ids : Queue → ℕ → List ℕ → Queue
append_ids q ts [] = q
append_ids q ts (i ∷ is) = append_ids (append_id q i ts) ts is

-- The second loop: the consumed times are deleted, and under the last of them the ids for next time
-- are stored back.
unfoldable pub delete_consumed : Queue → List ℕ → List ℕ → Queue
delete_consumed q [] next_time = q
delete_consumed q (ts ∷ []) next_time = append_ids (delete_all_ids q ts) ts next_time
delete_consumed q (ts ∷ ts' ∷ later) next_time =
    delete_consumed (delete_all_ids q ts) (ts' ∷ later) next_time

-- ConsumeIdsFromTimeQueue.
unfoldable pub consume_ids_from_time_queue : ℕ → ℕ → Queue → List ℕ × Queue
consume_ids_from_time_queue now limit q =
    let g = gather now limit [] q in
    (g.result, delete_consumed q g.timestamps_to_delete g.next_time)
