-- ===== src/Provider/TimeQueue/Members.antt =====
-- Which consumers wait in a time queue, after each operation on it.
use vaas.Base.{
  ℕ, ◌<◌, ◌≡◌, ◌⊎◌, refl, sym, subst, true, false, some, List, [], ◌∷◌, ◌++◌, ltb, ◌==◌, ==_iff,
  ltb→lt, length, nat_eq, pair_eq, arith, Bool-cases, inl, inr, Among, OnSome,
}
use vaas.Base.Store.{get, remove, clear}
use vaas.Provider.TimeQueue.{
  Queue, put, get_ids, append_id, is_in, without, remove_consumer_from_time_queue,
}
use vaas.Provider.TimeQueue.Entries.{Later, Ascending, all_ids, Later-trans, remove-first}

pub Among-append_left : (i : ℕ) (xs ys : List ℕ) → Among i xs → Among i (xs ++ ys)
Among-append_left i [] ys h = absurd h
Among-append_left i (x ∷ xs) ys (inl same) = inl same
Among-append_left i (x ∷ xs) ys (inr later) = inr (Among-append_left i xs ys later)

pub Among-append_right : (i : ℕ) (xs ys : List ℕ) → Among i ys → Among i (xs ++ ys)
Among-append_right i [] ys h = h
Among-append_right i (x ∷ xs) ys h = inr (Among-append_right i xs ys h)

pub Among-append : (i : ℕ) (xs ys : List ℕ) → Among i (xs ++ ys) → Among i xs ⊎ Among i ys
Among-append i [] ys h = inr h
Among-append i (x ∷ xs) ys (inl same) = inl (inl same)
Among-append i (x ∷ xs) ys (inr h) = elim (Among-append i xs ys h) [
  | inl left ↦ inl (inr left)
  | inr right ↦ inr right
]

-- Another id stays.
Among-without : (i j : ℕ) (ids : List ℕ) → (j == i) ≡ false → Among i ids → Among i (without j ids)
unfolding without
Among-without i j [] apart m = absurd m
Among-without i j (x ∷ ids) apart m = elim (Bool-cases (x == j)) [
  | inl same ↦
      rw same (elim m [ inl this ↦ absurd (ground (arith, apart, same, this)) | inr later ↦ later ])
  | inr other ↦
      rw other
        (elim m [ inl this ↦ inl this | inr later ↦ inr (Among-without i j ids apart later) ])
]

get_ids-here : (ts : ℕ) (x : ℕ × List ℕ) (q : Queue) → (ts == x.0) ≡ true → get_ids (x ∷ q) ts ≡ x.1
unfolding get_ids get
get_ids-here ts x q same = ground (arith, same)

get_ids-there :
    (ts : ℕ) (x : ℕ × List ℕ) (q : Queue) → (ts == x.0) ≡ false → get_ids (x ∷ q) ts ≡ get_ids q ts
unfolding get_ids get
get_ids-there ts x q other = ground (arith, other)

-- A write keeps what waits if it keeps what waits under its time.
put-keeps :
    (i ts : ℕ) (ids : List ℕ) (q : Queue)
    → (Among i (get_ids q ts) → Among i ids)
    → Among i (all_ids q)
    → Among i (all_ids (put ts ids q))
unfolding put all_ids
put-keeps i ts ids [] kept m = absurd m
put-keeps i ts ids (x ∷ q) kept m = elim (Bool-cases (ltb ts x.0)) [
  | inl before ↦ rw before (Among-append_right i ids (x.1 ++ all_ids q) m)
  | inr rest ↦ elim (Bool-cases (ts == x.0)) [
    | inl same ↦
        rw (rest, same)
          (elim (Among-append i x.1 (all_ids q) m) [
            | inl here ↦
                Among-append_left i ids (all_ids q)
                  (kept (subst (Among i) (sym (get_ids-here ts x q same)) here))
            | inr there ↦ Among-append_right i ids (all_ids q) there
          ])
    | inr other ↦
        rw (rest, other)
          (elim (Among-append i x.1 (all_ids q) m) [
            | inl here ↦ Among-append_left i x.1 (all_ids (put ts ids q)) here
            | inr there ↦ Among-append_right i x.1 (all_ids (put ts ids q)) (
                put-keeps i ts ids q
                  (λ h. kept (subst (Among i) (sym (get_ids-there ts x q other)) h)) there)
          ])
  ]
]

-- What is written under a time waits.
put-new : (i ts : ℕ) (ids : List ℕ) (q : Queue) → Among i ids → Among i (all_ids (put ts ids q))
unfolding put all_ids
put-new i ts ids [] m = Among-append_left i ids [] m
put-new i ts ids (x ∷ q) m = elim (Bool-cases (ltb ts x.0)) [
  | inl before ↦ rw before (Among-append_left i ids (x.1 ++ all_ids q) m)
  | inr rest ↦ elim (Bool-cases (ts == x.0)) [
    | inl same ↦ rw (rest, same) (Among-append_left i ids (all_ids q) m)
    | inr other ↦
        rw (rest, other) (Among-append_right i x.1 (all_ids (put ts ids q)) (put-new i ts ids q m))
  ]
]

put-still_Later :
    (a ts : ℕ) (ids : List ℕ) (q : Queue) → a < ts → Later a q → Later a (put ts ids q)
unfolding put
put-still_Later a ts ids [] before h = (before, tt)
put-still_Later a ts ids (x ∷ q) before h =
    ground (arith, before, h.0, h.1, put-still_Later a ts ids q before h.1)

put-Ascending : (ts : ℕ) (ids : List ℕ) (q : Queue) → Ascending q → Ascending (put ts ids q)
unfolding put
put-Ascending ts ids [] h = (tt, tt)
put-Ascending ts ids (x ∷ q) h = elim (Bool-cases (ltb ts x.0)) [
  | inl before ↦
      rw before ((ltb→lt ts x.0 before, Later-trans ts x.0 q (ltb→lt ts x.0 before) h.0), h)
  | inr rest ↦ elim (Bool-cases (ts == x.0)) [
    | inl same ↦
        rw (rest, same) (subst (λ (t : ℕ). Later t q) (sym ((==_iff ts x.0).0 same)) h.0, h.1)
    | inr other ↦
        rw (rest, other)
          (
            put-still_Later x.0 ts ids q (ground (arith, rest, other)) h.0,
            put-Ascending ts ids q h.1,
          )
  ]
]

remove-still_Later : (a ts : ℕ) (q : Queue) → Later a q → Later a (remove ts q)
unfolding remove clear
remove-still_Later a ts [] h = tt
remove-still_Later a ts (x ∷ q) h = ground (arith, h.0, h.1, remove-still_Later a ts q h.1)

remove-Ascending : (ts : ℕ) (q : Queue) → Ascending q → Ascending (remove ts q)
unfolding remove clear
remove-Ascending ts [] h = tt
remove-Ascending ts (x ∷ q) h = elim (Bool-cases (x.0 == ts)) [
  | inl same ↦ rw same (remove-Ascending ts q h.1)
  | inr other ↦ rw other (remove-still_Later x.0 ts q h.0, remove-Ascending ts q h.1)
]

remove-here :
    (ts : ℕ) (x : ℕ × List ℕ) (q : Queue) → (ts == x.0) ≡ true → Later x.0 q → remove ts (x ∷ q) ≡ q
remove-here ts x q same h =
    subst (λ (t : ℕ). remove t (x ∷ q) ≡ q) (sym ((==_iff ts x.0).0 same)) (remove-first x q h)

remove-there :
    (ts : ℕ) (x : ℕ × List ℕ) (q : Queue)
    → (ts == x.0) ≡ false
    → remove ts (x ∷ q) ≡ x ∷ remove ts q
unfolding remove clear
remove-there ts x q other = ground (arith, other)

remove-keeps :
    (i ts : ℕ) (q : Queue)
    → Ascending q
    → (Among i (get_ids q ts) → ⊥)
    → Among i (all_ids q)
    → Among i (all_ids (remove ts q))
unfolding all_ids
remove-keeps i ts [] h gone m = absurd m
remove-keeps i ts (x ∷ q) h gone m = elim (Bool-cases (ts == x.0)) [
  | inl same ↦ rw (remove-here ts x q same h.0) (elim (Among-append i x.1 (all_ids q) m) [
    | inl here ↦ absurd (gone (subst (Among i) (sym (get_ids-here ts x q same)) here))
    | inr there ↦ there
  ])
  | inr other ↦ rw (remove-there ts x q other) (elim (Among-append i x.1 (all_ids q) m) [
    | inl here ↦ Among-append_left i x.1 (all_ids (remove ts q)) here
    | inr there ↦ Among-append_right i x.1 (all_ids (remove ts q)) (
        remove-keeps i ts q h.1 (λ g. gone (subst (Among i) (sym (get_ids-there ts x q other)) g))
          there)
  ])
]

-- Who waits besides the consumer, and the order of time, stay.
abbrev pub Keeps : ℕ → Queue → Queue → Type 0
Keeps j q q' =
    Ascending q' × ((i : ℕ) → (j == i) ≡ false → Among i (all_ids q) → Among i (all_ids q'))

-- A consumer that has the only id of a bucket is the only one there.
only_id :
    (i j : ℕ) (ids : List ℕ)
    → is_in j ids ≡ true
    → (length ids == 1) ≡ true
    → (j == i) ≡ false
    → Among i ids
    → ⊥
only_id i j [] found one apart m = m
only_id i j (x ∷ []) found one apart (inl same) = ground (arith, found, apart, same)
only_id i j (x ∷ []) found one apart (inr m) = m
only_id i j (x ∷ y ∷ ids) found one apart m = ground (arith, one)

pub remove_consumer_from_time_queue-Keeps :
    (j ts : ℕ) (q : Queue)
    → Ascending q
    → OnSome (Keeps j q) (remove_consumer_from_time_queue q j ts)
unfolding remove_consumer_from_time_queue
remove_consumer_from_time_queue-Keeps j ts q h = elim (Bool-cases (is_in j (get_ids q ts))) [
  | inr missing ↦ rw missing tt
  | inl found ↦ elim (Bool-cases (length (get_ids q ts) == 1)) [
    | inl one ↦
        rw (found, one)
          (
            remove-Ascending ts q h,
            λ i apart m. remove-keeps i ts q h (only_id i j (get_ids q ts) found one apart) m,
          )
    | inr more ↦
        rw (found, more)
          (
            put-Ascending ts (without j (get_ids q ts)) q h,
            λ i apart m.
                put-keeps i ts (without j (get_ids q ts)) q (Among-without i j (get_ids q ts) apart)
                  m,
          )
  ]
]

-- A consumer that waits under a time can be removed there.
pub remove_consumer_from_time_queue-found :
    (j ts : ℕ) (q : Queue)
    → is_in j (get_ids q ts) ≡ true
    → (q' : Queue) × (remove_consumer_from_time_queue q j ts ≡ some q')
unfolding remove_consumer_from_time_queue
remove_consumer_from_time_queue-found j ts q found =
    elim (Bool-cases (length (get_ids q ts) == 1)) [
      | inl one ↦ (remove ts q, rw (found, one) refl)
      | inr more ↦ (put ts (without j (get_ids q ts)) q, rw (found, more) refl)
    ]

-- Appending keeps all that wait, and the appended id waits.
pub append_id-keeps :
    (i j ts : ℕ) (q : Queue) → Among i (all_ids q) → Among i (all_ids (append_id q j ts))
unfolding append_id
append_id-keeps i j ts q m =
    put-keeps i ts (get_ids q ts ++ (j ∷ [])) q (Among-append_left i (get_ids q ts) (j ∷ [])) m

pub append_id-new : (j ts : ℕ) (q : Queue) → Among j (all_ids (append_id q j ts))
unfolding append_id
append_id-new j ts q =
    put-new j ts (get_ids q ts ++ (j ∷ [])) q
      (Among-append_right j (get_ids q ts) (j ∷ []) (inl refl))

pub append_id-Ascending : (j ts : ℕ) (q : Queue) → Ascending q → Ascending (append_id q j ts)
unfolding append_id
append_id-Ascending j ts q h = put-Ascending ts (get_ids q ts ++ (j ∷ [])) q h
