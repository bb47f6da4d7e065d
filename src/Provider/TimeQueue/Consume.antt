-- ===== src/Provider/TimeQueue/Consume.antt =====
-- What ConsumeIdsFromTimeQueue takes, and what it leaves.
use vaas.Base.{
  ℕ, ◌-◌, ◌≤◌, ◌≡◌, refl, sym, ap, ◌∙◌, subst, ◌⊎◌, List, [], ◌∷◌, ◌++◌, arith, ltb, leb, ltb→lt,
  leb→le, take-none, Bool-cases, inl, inr, length, length-append, take, drop, take-drop, take-nil,
  take-append_all, take-append_part, append_assoc, append_nil,
}
use vaas.Provider.TimeQueue.{
  Queue, Gathered, also_delete, taken_part, gather, append_ids, delete_all_ids, delete_consumed,
  consume_ids_from_time_queue,
}
use vaas.Provider.TimeQueue.Entries.{
  Later, Ascending, all_ids, due_ids, due_ids-Later, remove-first, all_ids-append_ids,
  append_ids-Ascending,
}

module _ (now limit : ℕ) where
  -- The result after some ids is these, with the first of what is due, up to the limit.
  gather-result :
      (result : List ℕ) (q : Queue)
      → Ascending q
      → length result ≤ limit
      → (gather now limit result q).result ≡ result ++ take (limit - length result) (due_ids now q)
  unfolding gather due_ids
  gather-result result [] h fits =
      sym (append_nil result)
      ∙ ap (λ (ys : List ℕ). result ++ ys) (sym (take-nil (limit - length result) [] refl))
  gather-result result (x ∷ q) h fits = elim (Bool-cases (leb limit (length result))) [
    | inl full ↦ ground (
      arith,
      append_nil result,
      take-none (limit - length result) (due_ids now (x ∷ q))
          (omega (arith, leb→le limit (length result) full)),
    )
    | inr room ↦ elim (Bool-cases (ltb now x.0)) [
      | inl early ↦ ground (
        arith,
        append_nil result,
        due_ids-Later now x.0 q (ltb→lt now x.0 early) h.0,
        take-nil (limit - length result) (due_ids now q),
      )
      | inr due ↦ elim (Bool-cases (leb (length x.1) (limit - length result))) [
        | inl all ↦ ground (
          arith,
          length-append result x.1,
          gather-result (result ++ x.1) q h.1,
          take-append_all (limit - length result) x.1 (due_ids now q),
          append_assoc result x.1 (take (limit - length (result ++ x.1)) (due_ids now q)),
        )
        | inr some_only ↦
            ground (arith, take-append_part (limit - length result) x.1 (due_ids now q))
      ]
    ]
  ]

  -- The loop stops before an entry, takes it all, or takes the part that fits.
  gather-cases :
      (result : List ℕ) (x : ℕ × List ℕ) (q : Queue)
      → (gather now limit result (x ∷ q)
          ≡ record { result = result; next_time = []; timestamps_to_delete = [] })
        ⊎ ((gather now limit result (x ∷ q) ≡ also_delete x.0 (gather now limit (result ++ x.1) q))
            ⊎ (gather now limit result (x ∷ q) ≡ taken_part limit result x))
  unfolding gather
  gather-cases result x q = elim (Bool-cases (leb limit (length result))) [
    | inl full ↦ inl (rw full refl)
    | inr room ↦ elim (Bool-cases (ltb now x.0)) [
      | inl early ↦ inl (rw (room, early) refl)
      | inr due ↦ elim (Bool-cases (leb (length x.1) (limit - length result))) [
        | inl all ↦ inr (inl (rw (room, due, all) refl))
        | inr part ↦ inr (inr (rw (room, due, part) refl))
      ]
    ]
  ]

  -- Without a time to delete there are no ids for next time.
  gather-nothing :
      (result : List ℕ) (q : Queue)
      → (gather now limit result q).timestamps_to_delete ≡ []
      → (gather now limit result q).next_time ≡ []
  unfolding gather
  gather-nothing result [] h = refl
  gather-nothing result (x ∷ q) h = elim (gather-cases result x q) [
    | inl stop ↦ ap (λ (g : Gathered). g.next_time) stop
    | inr (inl all) ↦ ground (arith, ap (λ (g : Gathered). g.timestamps_to_delete) all, h)
    | inr (inr part) ↦ ground (arith, ap (λ (g : Gathered). g.timestamps_to_delete) part, h)
  ]

  -- The deletions of the first entry and of later ones.
  delete_first :
      (x : ℕ × List ℕ) (q : Queue) (later next_time : List ℕ)
      → Later x.0 q
      → (later ≡ [] → next_time ≡ [])
      → delete_consumed (x ∷ q) (x.0 ∷ later) next_time ≡ delete_consumed q later next_time
  unfolding delete_consumed delete_all_ids append_ids
  delete_first x q [] next_time h none_next = rw (none_next refl, remove-first x q h) refl
  delete_first x q (t ∷ later) next_time h none_next = rw (remove-first x q h) refl

  -- What is gathered and what is left are all ids, in the order of time.
  abbrev Splits : List ℕ → Queue → Gathered → Type 0
  Splits result q g =
      (g.result ++ all_ids (delete_consumed q g.timestamps_to_delete g.next_time)
        ≡ result ++ all_ids q)
      × Ascending (delete_consumed q g.timestamps_to_delete g.next_time)

  take_part-Splits :
      (result : List ℕ) (x : ℕ × List ℕ) (q : Queue)
      → Ascending (x ∷ q)
      → Splits result (x ∷ q) (taken_part limit result x)
  unfolding delete_consumed delete_all_ids all_ids
  take_part-Splits result x q h =
      let slots = limit - length result in
      rw (remove-first x q h.0) (
        rw (all_ids-append_ids (drop slots x.1) x.0 q h.0) (
            append_assoc result (take slots x.1) (drop slots x.1 ++ all_ids q)
            ∙ ap (λ (ys : List ℕ). result ++ ys)
                (sym (append_assoc (take slots x.1) (drop slots x.1) (all_ids q))
                  ∙ ap (λ (ys : List ℕ). ys ++ all_ids q) (take-drop slots x.1))),
        append_ids-Ascending (drop slots x.1) x.0 q h.0 h.1,
      )

  gather-Splits :
      (result : List ℕ) (q : Queue) → Ascending q → Splits result q (gather now limit result q)
  unfolding gather all_ids delete_consumed
  gather-Splits result [] h = (refl, tt)
  gather-Splits result (x ∷ q) h = elim (gather-cases result x q) [
    | inl stop ↦ subst (Splits result (x ∷ q)) (sym stop) (refl, h)
    | inr (inl all) ↦
        let g = gather now limit (result ++ x.1) q in
        let others = gather-Splits (result ++ x.1) q h.1 in
        subst (Splits result (x ∷ q)) (sym all) (
          rw
            (delete_first x q g.timestamps_to_delete g.next_time h.0
              (gather-nothing (result ++ x.1) q))
            (others.0 ∙ append_assoc result x.1 (all_ids q), others.1))
    | inr (inr part) ↦ subst (Splits result (x ∷ q)) (sym part) (take_part-Splits result x q h)
  ]

  -- Of a queue in the order of time, ConsumeIdsFromTimeQueue takes the ids that are due, in the order
  -- of time and up to the limit, and leaves the others: what is taken followed by what is left is what
  -- was in the queue, in order, and the queue stays in the order of time.
  pub consume_takes_first_due :
      (q : Queue)
      → Ascending q
      → let (taken, left) = consume_ids_from_time_queue now limit q in
        (taken ≡ take limit (due_ids now q)) × (taken ++ all_ids left ≡ all_ids q) × Ascending left
  unfolding consume_ids_from_time_queue
  consume_takes_first_due q h =
      let split = gather-Splits [] q h in
      (
        gather-result [] q h (omega arith) ∙ ap (λ (n : ℕ). take n (due_ids now q)) (omega arith),
        split.0,
        split.1,
      )
