-- ===== src/Provider/Downtime/Prune.antt =====
-- PruneAcceptedDowntimeWindows of x/vaas/provider/keeper/downtime_slash.go. The expired windows are
-- visited in the store's order, in the source by key.
use vaas.Base.{
  ℕ, ◌+◌, Bool, false, not, ◌&&◌, Option, none, some, List, [], ◌∷◌, ltb, leb, ◌==◌, if◌then◌else◌,
  is_some, nat_eq, pair_eq,
}
use vaas.Base.Store.{Store, get, set, remove}
use vaas.Evidence.Decimal.{Decimals}
use vaas.Provider.Downtime.{State, WindowKey, AcceptedDowntimeWindow, PendingDowntimeSlash}

-- The smaller of a height and an optional one.
unfoldable pub least : ℕ → Option ℕ → ℕ
least a none = a
least a (some b) = if leb a b then a else b

-- lowestAcceptedWindowEnd.
unfoldable pub lowest_accepted_window_end :
    ℕ → ℕ → Store WindowKey AcceptedDowntimeWindow → Option ℕ
lowest_accepted_window_end consumer addr [] = none
lowest_accepted_window_end consumer addr (x ∷ m) =
    if x.0.0 == consumer && x.0.1.0 == addr
    then some (least x.0.1.1 (lowest_accepted_window_end consumer addr m))
    else lowest_accepted_window_end consumer addr m

-- The keys of the windows accepted longer ago than the horizon whose slash is not pending.
unfoldable pub expired_keys :
    ℕ
    → ℕ
    → Store WindowKey PendingDowntimeSlash
    → Store WindowKey AcceptedDowntimeWindow
    → List WindowKey
expired_keys now horizon pending [] = []
expired_keys now horizon pending (x ∷ m) =
    if ltb (x.1.accepted_at + horizon) now && not (is_some (get x.0 pending))
    then x.0 ∷ expired_keys now horizon pending m
    else expired_keys now horizon pending m

-- The pair's floor is raised to a window's end, never lowered.
unfoldable pub raise_floor : ℕ × ℕ → ℕ → Store (ℕ × ℕ) ℕ → Store (ℕ × ℕ) ℕ
raise_floor pair end' floors = elim (get pair floors) [
  | none ↦ set pair end' floors
  | some floor ↦ if ltb floor end' then set pair end' floors else floors
]

-- Whether the pair retains a window with a lower end.
unfoldable pub has_lower : WindowKey → Store WindowKey AcceptedDowntimeWindow → Bool
has_lower key m = elim (lowest_accepted_window_end key.0 key.1.0 m) [
  | none ↦ false
  | some lowest ↦ ltb lowest key.1.1
]

module _ (dec : Decimals) where
  -- One window is pruned, unless its pair still has a lower one.
  unfoldable pub prune_window : State dec → WindowKey → State dec
  prune_window s key = if has_lower key s.accepted_downtime_windows then s else record s {
    downtime_window_floors = raise_floor (key.0, key.1.0) key.1.1 s.downtime_window_floors;
    accepted_downtime_windows = remove key s.accepted_downtime_windows;
  }

  unfoldable pub prune_windows : State dec → List WindowKey → State dec
  prune_windows s [] = s
  prune_windows s (key ∷ keys) = prune_windows (prune_window s key) keys

  -- PruneAcceptedDowntimeWindows.
  unfoldable pub prune_accepted_downtime_windows : State dec → ℕ → State dec
  prune_accepted_downtime_windows s now =
      let ip = s.keeper.infraction_params in
      prune_windows s (
        expired_keys now (ip.downtime_challenge_window + ip.downtime_evidence_max_age)
          s.pending_downtime_slashes s.accepted_downtime_windows)
