-- ===== src/Provider/TimeQueue/Undo.antt =====
-- An entry that is made in a time queue and taken back (x/vaas/provider/keeper/consumer_lifecycle.go
-- and keeper.go).
use vaas.Base.{
  ℕ, ◌≡◌, refl, true, false, none, some, List, [], ◌∷◌, ◌++◌, ltb, ltb→lt, ◌==◌, ==_iff, nat_eq,
  arith, All, length, length-append, Option-cases, Bool-cases, inl, inr,
}
use vaas.Base.Store.{get, remove, clear}
use vaas.Provider.TimeQueue.{
  Queue, put, get_ids, append_id, is_in, without, remove_consumer_from_time_queue,
}
use vaas.Provider.TimeQueue.Entries.{Ascending, get-Later, Later-trans}

get-put : (ts : ℕ) (ids : List ℕ) (q : Queue) → get ts (put ts ids q) ≡ some ids
unfolding get put
get-put ts ids [] = ground arith
get-put ts ids (x ∷ q) = ground (arith, get-put ts ids q)

put-put : (ts : ℕ) (ids ids' : List ℕ) (q : Queue) → put ts ids' (put ts ids q) ≡ put ts ids' q
unfolding put
put-put ts ids ids' [] = ground arith
put-put ts ids ids' (x ∷ q) = ground (arith, put-put ts ids ids' q)

put-same :
    (ts : ℕ) (ids : List ℕ) (q : Queue) → Ascending q → get ts q ≡ some ids → put ts ids q ≡ q
unfolding put get
put-same ts ids [] sorted found = ground (arith, found)
put-same ts ids (x ∷ q) sorted found = elim (Bool-cases (ltb ts x.0)) [
  | inl before ↦
      let absent = get-Later ts q (Later-trans ts x.0 q (ltb→lt ts x.0 before) sorted.0) in
      ground (arith, found, before, absent)
  | inr no_earlier ↦ ground (arith, found, no_earlier, put-same ts ids q sorted.1)
]

remove-absent : (ts : ℕ) (q : Queue) → get ts q ≡ none → remove ts q ≡ q
unfolding remove clear get
remove-absent ts [] h = refl
remove-absent ts (x ∷ q) h = ground (arith, h, remove-absent ts q)

remove-put : (ts : ℕ) (ids : List ℕ) (q : Queue) → get ts q ≡ none → remove ts (put ts ids q) ≡ q
unfolding remove clear get put
remove-put ts ids [] h = ground arith
remove-put ts ids (x ∷ q) h = ground (arith, h, remove-put ts ids q, remove-absent ts q)

is_in-append : (i : ℕ) (ids : List ℕ) → is_in i (ids ++ (i ∷ [])) ≡ true
is_in-append i [] = ground arith
is_in-append i (j ∷ ids) = ground (arith, is_in-append i ids)

without-append : (i : ℕ) (ids : List ℕ) → is_in i ids ≡ false → without i (ids ++ (i ∷ [])) ≡ ids
unfolding without
without-append i [] h = ground arith
without-append i (j ∷ ids) h = ground (arith, h, without-append i ids)

-- No time is stored without ids.
abbrev pub AllFilled : Queue → Type 0
AllFilled q = All (λ x. (length x.1 ≡ 0) → ⊥) q

get-AllFilled :
    (ts : ℕ) (ids : List ℕ) (q : Queue) → AllFilled q → get ts q ≡ some ids → (length ids ≡ 0) → ⊥
unfolding get
get-AllFilled ts ids [] filled found empty = ground (arith, found)
get-AllFilled ts ids (x ∷ q) filled found empty = elim (Bool-cases (x.0 == ts)) [
  | inl here ↦ filled.0 (ground (arith, here, found, empty))
  | inr later ↦ get-AllFilled ts ids q filled.1 (ground (arith, later, found)) empty
]

-- A consumer that is entered under a time, where it was not, and then removed from it, leaves the
-- queue as it was. The times ascend, and none of them is stored without ids.
pub appended_entry_is_removed :
    (q : Queue) (i ts : ℕ)
    → Ascending q
    → AllFilled q
    → is_in i (get_ids q ts) ≡ false
    → remove_consumer_from_time_queue (append_id q i ts) i ts ≡ some q
unfolding remove_consumer_from_time_queue append_id get_ids
appended_entry_is_removed q i ts sorted filled new = elim (Option-cases (get ts q)) [
  | inl absent ↦
      let found = remove-put ts (i ∷ []) q absent in
      rw (absent, get-put ts (i ∷ []) q) (ground (arith, ==_iff i i, found))
  | inr (ids, found) ↦
      let left : is_in i ids ≡ false = ground (arith, found, new) in
      let several : (length (ids ++ (i ∷ [])) == 1) ≡ false =
        ground (arith, get-AllFilled ts ids q filled found, length-append ids (i ∷ [])) in
      rw
        (
          found,
          get-put ts (ids ++ (i ∷ [])) q,
          is_in-append i ids,
          without-append i ids left,
          put-put ts (ids ++ (i ∷ [])) ids q,
          put-same ts ids q sorted found,
          several,
        )
        refl
]
