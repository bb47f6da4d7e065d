-- ===== src/Packet.antt =====
-- The packet by which the provider hands a consumer its validator set
-- (ValidatorSetChangePacketData of x/vaas/types/wire.go). Whether CometBFT decodes a public key is a
-- parameter. On the wire a power may be negative; past `validate` it is a natural number.
use vaas.Base.{
  ℕ, ◌≡◌, refl, ap, Bool, true, false, not, ◌&&◌, Option, List, [], ◌∷◌, ◌==◌, if◌then◌else◌,
}
use vaas.Base.Int.{ℤ, pos, pos_part, ltb_ℤ}
use vaas.Evidence.{DowntimeParams}
use vaas.Evidence.Decimal.{Decimals}
use vaas.ValidatorSet.{ValidatorUpdate}

-- abci.ValidatorUpdate.
pub record WireUpdate : Type 0 where
  pub pub_key : ℕ
  pub power : ℤ

unfoldable pub to_wire : List ValidatorUpdate → List WireUpdate
to_wire [] = []
to_wire (u ∷ us) = record { pub_key = u.pub_key; power = pos u.power } ∷ to_wire us

unfoldable pub of_wire : List WireUpdate → List ValidatorUpdate
of_wire [] = []
of_wire (u ∷ us) = record { pub_key = u.pub_key; power = pos_part u.power } ∷ of_wire us

pub of_wire-to_wire : (us : List ValidatorUpdate) → of_wire (to_wire us) ≡ us
unfolding of_wire to_wire
of_wire-to_wire [] = refl
of_wire-to_wire (u ∷ us) = ap (λ (ws : List ValidatorUpdate). u ∷ ws) (of_wire-to_wire us)

-- The loop of Validate.
unfoldable pub valid_updates : (ℕ → Bool) → List WireUpdate → Bool
valid_updates decodes [] = true
valid_updates decodes (u ∷ us) =
    decodes u.pub_key && (not (ltb_ℤ u.power (pos 0)) && valid_updates decodes us)

module _ (dec : Decimals) where
  pub record ValidatorSetChangePacketData : Type 0 where
    pub validator_updates : List WireUpdate
    pub valset_update_id : ℕ
    pub consumer_in_debt : Bool
    pub is_snapshot : Bool
    pub downtime_params : Option (DowntimeParams dec)

  -- Validate.
  unfoldable pub validate : (ℕ → Bool) → ValidatorSetChangePacketData → Bool
  validate decodes vsc =
      if vsc.valset_update_id == 0 then false else valid_updates decodes vsc.validator_updates
