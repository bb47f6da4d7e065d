-- ===== src/Provider/TimeQueue/Entries.antt =====
-- Queues in the order of time, and their ids.
use vaas.Base.{
  ℕ, ◌<◌, ◌≡◌, refl, ap, ◌∙◌, none, List, [], ◌∷◌, ◌++◌, arith, leb, if◌then◌else◌, nat_eq, All,
  All-map, append_assoc,
}
use vaas.Base.Store.{get, remove, clear}
use vaas.Provider.TimeQueue.{Queue, put, get_ids, append_id, append_ids}

-- Every entry is later.
abbrev pub Later : ℕ → Queue → Type 0
Later ts q = All (λ x. ts < x.0) q

-- The times ascend.
abbrev pub Ascending : Queue → Type 0
Ascending [] = Unit
Ascending (x ∷ q) = Later x.0 q × Ascending q

-- All the ids, in the order of time.
unfoldable pub all_ids : Queue → List ℕ
all_ids [] = []
all_ids (x ∷ q) = x.1 ++ all_ids q

-- The ids whose time has come, in the order of time.
unfoldable pub due_ids : ℕ → Queue → List ℕ
due_ids now [] = []
due_ids now (x ∷ q) = if leb x.0 now then x.1 ++ due_ids now q else due_ids now q

pub Later-trans : (a b : ℕ) (q : Queue) → a < b → Later b q → Later a q
Later-trans a b q h later = All-map q (λ x h'. omega (arith, h, h')) later

-- Nothing is due of what comes after a time that has not come.
pub due_ids-Later : (now : ℕ) (ts : ℕ) (q : Queue) → now < ts → Later ts q → due_ids now q ≡ []
unfolding due_ids
due_ids-Later now ts [] h later = refl
due_ids-Later now ts (x ∷ q) h later = ground (arith, h, later.0, due_ids-Later now ts q h later.1)

pub get-Later : (ts : ℕ) (q : Queue) → Later ts q → get ts q ≡ none
unfolding get
get-Later ts [] h = refl
get-Later ts (x ∷ q) h = ground (arith, h.0, get-Later ts q h.1)

pub remove-Later : (ts : ℕ) (q : Queue) → Later ts q → remove ts q ≡ q
unfolding remove clear
remove-Later ts [] h = refl
remove-Later ts (x ∷ q) h = ground (arith, h.0, remove-Later ts q h.1)

-- The deletion of the first entry.
pub remove-first : (x : ℕ × List ℕ) (q : Queue) → Later x.0 q → remove x.0 (x ∷ q) ≡ q
unfolding remove clear
remove-first x q h = ground (arith, remove-Later x.0 q h)

-- A write before all entries.
pub put-Later : (ts : ℕ) (ids : List ℕ) (q : Queue) → Later ts q → put ts ids q ≡ (ts, ids) ∷ q
unfolding put
put-Later ts ids [] h = refl
put-Later ts ids (x ∷ q) h = ground (arith, h.0)

-- Appending under the time of the first entry.
append_id-first :
    (i ts : ℕ) (ids : List ℕ) (q : Queue)
    → append_id ((ts, ids) ∷ q) i ts ≡ (ts, ids ++ (i ∷ [])) ∷ q
unfolding append_id get_ids put get
append_id-first i ts ids q = ground arith

append_ids-first :
    (is : List ℕ) (ts : ℕ) (ids : List ℕ) (q : Queue)
    → all_ids (append_ids ((ts, ids) ∷ q) ts is) ≡ ids ++ (is ++ all_ids q)
unfolding append_ids all_ids
append_ids-first [] ts ids q = refl
append_ids-first (i ∷ is) ts ids q =
    ap (λ (q' : Queue). all_ids (append_ids q' ts is)) (append_id-first i ts ids q)
    ∙ append_ids-first is ts (ids ++ (i ∷ [])) q
    ∙ append_assoc ids (i ∷ []) (is ++ all_ids q)

-- The ids that are stored back come first.
pub all_ids-append_ids :
    (is : List ℕ) (ts : ℕ) (q : Queue) → Later ts q → all_ids (append_ids q ts is) ≡ is ++ all_ids q
unfolding append_ids append_id get_ids
all_ids-append_ids [] ts q h = refl
all_ids-append_ids (i ∷ is) ts q h =
    rw (get-Later ts q h, put-Later ts (i ∷ []) q h) (append_ids-first is ts (i ∷ []) q)

append_ids-first_Ascending :
    (is : List ℕ) (ts : ℕ) (ids : List ℕ) (q : Queue)
    → Later ts q
    → Ascending q
    → Ascending (append_ids ((ts, ids) ∷ q) ts is)
unfolding append_ids
append_ids-first_Ascending [] ts ids q later h = (later, h)
append_ids-first_Ascending (i ∷ is) ts ids q later h =
    rw (append_id-first i ts ids q) (append_ids-first_Ascending is ts (ids ++ (i ∷ [])) q later h)

pub append_ids-Ascending :
    (is : List ℕ) (ts : ℕ) (q : Queue) → Later ts q → Ascending q → Ascending (append_ids q ts is)
unfolding append_ids append_id get_ids
append_ids-Ascending [] ts q later h = h
append_ids-Ascending (i ∷ is) ts q later h =
    rw (get-Later ts q later, put-Later ts (i ∷ []) q later)
      (append_ids-first_Ascending is ts (i ∷ []) q later h)
