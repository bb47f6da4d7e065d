-- ===== src/Provider/TimeQueue/Tests.antt =====
-- Time queues with entries at 10, 20 and 30.
use vaas.Base.{◌≡◌, refl, some, none, [], ◌∷◌, ◌++◌, take, arith, nat_eq}
use vaas.Base.Store.{get, remove, clear}
use vaas.Provider.TimeQueue.{
  Queue, put, get_ids, append_id, without, remove_consumer_from_time_queue, gather, append_ids,
  delete_all_ids, delete_consumed, consume_ids_from_time_queue,
}
use vaas.Provider.TimeQueue.Entries.{Ascending, all_ids, due_ids}
use vaas.Provider.TimeQueue.Undo.{AllFilled, appended_entry_is_removed}
use vaas.Provider.TimeQueue.Consume.{consume_takes_first_due}

abbrev waiting : Queue
waiting = (10, 1 ∷ 2 ∷ []) ∷ (20, 3 ∷ 4 ∷ 5 ∷ []) ∷ (30, 6 ∷ []) ∷ []

-- A limit inside the second entry leaves its last id at its time.
limited :
    consume_ids_from_time_queue 25 4 waiting
    ≡ (1 ∷ 2 ∷ 3 ∷ 4 ∷ [], (20, 5 ∷ []) ∷ (30, 6 ∷ []) ∷ [])
unfolding consume_ids_from_time_queue gather delete_consumed delete_all_ids remove clear append_ids
    append_id put get_ids get
limited = refl

due_only : consume_ids_from_time_queue 25 200 waiting ≡ (1 ∷ 2 ∷ 3 ∷ 4 ∷ 5 ∷ [], (30, 6 ∷ []) ∷ [])
unfolding consume_ids_from_time_queue gather delete_consumed delete_all_ids remove clear append_ids
due_only = refl

removed :
    remove_consumer_from_time_queue waiting 4 20
    ≡ some ((10, 1 ∷ 2 ∷ []) ∷ (20, 3 ∷ 5 ∷ []) ∷ (30, 6 ∷ []) ∷ [])
unfolding remove_consumer_from_time_queue get_ids get put without
removed = refl

not_there : remove_consumer_from_time_queue waiting 4 10 ≡ none
unfolding remove_consumer_from_time_queue get_ids get
not_there = refl

appended_in_order :
    append_id ((10, 1 ∷ []) ∷ (30, 3 ∷ []) ∷ []) 2 20
    ≡ (10, 1 ∷ []) ∷ (20, 2 ∷ []) ∷ (30, 3 ∷ []) ∷ []
unfolding append_id get_ids get put
appended_in_order = refl

waiting-Ascending : Ascending waiting
waiting-Ascending = ((omega arith, (omega arith, tt)), ((omega arith, tt), (tt, tt)))

consume_takes_first_due_example :
    let (taken, left) = consume_ids_from_time_queue 25 4 waiting in
    (taken ≡ take 4 (due_ids 25 waiting))
    × (taken ++ all_ids left ≡ all_ids waiting)
    × Ascending left
consume_takes_first_due_example = consume_takes_first_due 25 4 waiting waiting-Ascending

waiting-AllFilled : AllFilled waiting
waiting-AllFilled = (λ h. ground (arith, h), (λ h. ground (arith, h), (λ h. ground (arith, h), tt)))

appended_entry_is_removed_example :
    remove_consumer_from_time_queue (append_id waiting 9 20) 9 20 ≡ some waiting
unfolding get_ids get
appended_entry_is_removed_example =
    appended_entry_is_removed waiting 9 20 waiting-Ascending waiting-AllFilled refl
