-- ===== src/Provider/Rotation/Accusations.antt =====
-- A rotation keeps what a validator is accused of (x/vaas/provider/keeper/cons_pubkey_rotation.go).
use vaas.Base.{
  ℕ, ◌≤◌, ◌≡◌, ◌≢◌, true, ◌&&◌, none, some, [], ◌∷◌, ltb, leb, ◌==◌, ==_iff, if◌then◌else◌,
  value_or, nat_eq, pair_eq, arith, Bool-cases, inl, inr,
}
use vaas.Base.Store.{Store, get, set, IsStore, get-set, get-remove, get-behind}
use vaas.Evidence.Decimal.{Decimals}
use vaas.Provider.Bank.{Bank}
use vaas.Provider.Downtime.{WindowKey, AcceptedDowntimeWindow, intersects_accepted}
use vaas.Provider.Downtime.Accept.{intersects_accepted-found}
use vaas.Provider.Lifecycle.{State, with_keeper}
use vaas.Provider.Rotation.{
  with_addr, migrate_downtime_window_floor, move_key, migrate_stored_validator,
  migrate_downtime_acceptance, migrate_fee_exclusion, migrate_consumer,
}
use vaas.Provider.Rotation.Moves.{read_moved, get-moved, get-repointed}
use vaas.Provider.Rotation.Keys.{migrated, migrate_consumer-assigned}

-- A window that intersects is one of those that have been accepted.
found-intersects :
    (c a start end' : ℕ) (m : Store WindowKey AcceptedDowntimeWindow)
    → IsStore m
    → intersects_accepted c a start end' m ≡ true
    → (last : ℕ) × (w : AcceptedDowntimeWindow) × (get (c, (a, last)) m ≡ some w)
      × (start ≤ last)
      × (w.window_start ≤ end')
unfolding intersects_accepted get
found-intersects c a start end' [] stored h = ground (arith, h)
found-intersects c a start end' (x ∷ m) stored h =
    elim (Bool-cases
      (x.0.0 == c && x.0.1.0 == a && (leb start x.0.1.1 && leb x.1.window_start end'))) [
        | inl here ↦ (
          x.0.1.1,
          x.1,
          ground (arith, here, ==_iff x.0.0 c, ==_iff x.0.1.0 a, ==_iff x.0.1.1 x.0.1.1),
          ground (arith, here),
          ground (arith, here),
        )
        | inr behind ↦
            let (last, w, found, before, after) =
              found-intersects c a start end' m stored.1 (ground (arith, h, behind)) in
            (last, w, get-behind x m (c, (a, last)) w stored found, before, after)
      ]

migrated_floor :
    (floors : Store (ℕ × ℕ) ℕ) (c old new floor : ℕ)
    → old ≢ new
    → get (c, old) floors ≡ some floor
    → (floor' : ℕ) × (get (c, new) (migrate_downtime_window_floor floors c old new) ≡ some floor')
      × (floor ≤ floor')
unfolding migrate_downtime_window_floor
migrated_floor floors c old new floor apart found =
    let existing = value_or floor (get (c, new) floors) in
    let raised = if ltb floor existing then existing else floor in
    (
      raised,
      rw (migrate_downtime_window_floor, found)
          (ground (
            arith,
            apart,
            get-remove (c, new) (c, old) (set (c, new) raised floors),
            get-set (c, new) (c, new) raised floors,
          )),
      ground arith,
    )

module _ (dec : Decimals) (bank : Bank) where
  -- What a rotation makes of the accusations of a validator with an assigned key, and of the names of
  -- its consumer addresses.
  pub record IsRotated (s s' : State dec bank) (c old new : ℕ) : Type 0 where
    attributed :
        (i a : ℕ)
        → get (i, a) s'.validator_by_consumer_addr
          ≡ elim (get (i, a) s.validator_by_consumer_addr) [
            | none ↦ none
            | some p ↦ if i == c && p == old then some new else some p
          ]
    pending :
        (key : WindowKey)
        → get key s'.pending_downtime_slashes
          ≡ read_moved (with_addr new) c old new s.pending_downtime_slashes key
    accepted :
        (key : WindowKey)
        → get key s'.accepted_downtime_windows
          ≡ read_moved (λ w. w) c old new s.accepted_downtime_windows key
    floor :
        (floor : ℕ)
        → get (c, old) s.downtime_window_floors ≡ some floor
        → (floor' : ℕ) × (get (c, new) s'.downtime_window_floors ≡ some floor') × (floor ≤ floor')
    refused :
        (start end' : ℕ)
        → intersects_accepted c old start end' s.accepted_downtime_windows ≡ true
        → intersects_accepted c new start end' s'.accepted_downtime_windows ≡ true

  module _ (s : State dec bank) (c old new key : ℕ) (apart : old ≢ new) where
    migrated-IsRotated :
        IsStore s.validator_by_consumer_addr
        → IsStore s.pending_downtime_slashes
        → IsStore s.accepted_downtime_windows
        → IsRotated s (migrated dec bank s c old new key) c old new
    unfolding move_key migrate_downtime_acceptance migrate_stored_validator migrate_fee_exclusion
        with_keeper
    migrated-IsRotated by_addr pending accepted =
        let windows = s.accepted_downtime_windows in
        let moved : (k : WindowKey)
            → get k (migrated dec bank s c old new key).accepted_downtime_windows
              ≡ read_moved (λ w. w) c old new windows k =
          λ k. get-moved (λ w. w) c old new apart windows k accepted in
        record {
          attributed = λ i a. get-repointed c old new i a s.validator_by_consumer_addr by_addr;
          pending =
              λ k. get-moved (with_addr new) c old new apart s.pending_downtime_slashes k pending;
          accepted = moved;
          floor =
              λ floor found. migrated_floor s.downtime_window_floors c old new floor apart found;
          refused = λ start end' met.
              let (last, w, found, before, after) =
                found-intersects c old start end' windows accepted met in
              intersects_accepted-found c new start end'
                (migrated dec bank s c old new key).accepted_downtime_windows last w
                (ground (arith, moved (c, (new, last)), found, ==_iff c c, ==_iff new new)) before
                after;
        }

    -- For a validator with an assigned key on a consumer, the migration of the consumer's state
    -- names the new address in every reverse mapping that named the old one, and keeps the others.
    -- The pending slashes and accepted windows of the old address are found under the new one
    -- instead, a slash with the new address in it, and every other one stays. The new address has a
    -- floor that is not below that of the old one, and a window that met an accepted one of the old
    -- address meets one of the new. The addresses are different, and no entry is stored twice.
    pub rotation_keeps_accusations :
        get (c, old) s.relay.validator_consumer_pub_key ≡ some key
        → IsStore s.validator_by_consumer_addr
        → IsStore s.pending_downtime_slashes
        → IsStore s.accepted_downtime_windows
        → IsRotated s (migrate_consumer dec bank s c old new) c old new
    rotation_keeps_accusations assigned by_addr pending accepted =
        rw (migrate_consumer-assigned dec bank s c old new key assigned)
          (migrated-IsRotated by_addr pending accepted)
