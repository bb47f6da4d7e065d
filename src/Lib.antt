-- ===== src/Lib.antt =====
-- VAAS lets a provider chain secure consumer chains with its own validators. This library models the
-- parts of its two Cosmos SDK modules, x/vaas/provider and x/vaas/consumer, that decide who is paid
-- and who is accused, and proves what they keep.
--
-- The parts, and how they meet. A consumer is funded by depositors, whose claims on its fee pool are
-- shares. Once an epoch the provider pays the bonded validators out of each launched consumer's pool,
-- leaves out the validators that were down, and holds their part back in the pool while they can
-- challenge; a withdrawal may not touch what is held back. Downtime is detected on the consumer,
-- window by window, and reported in evidence packets; the provider checks a packet, marks the epoch,
-- and stores the accepted window, so that no block is charged twice. A validator that disproves an
-- accusation pauses the consumer and cancels all that it has accused. A consumer is registered,
-- initialized, launched, paused and resumed, stopped, and deleted; queues by time say at which block
-- it is launched, stopped after a pause, or removed.
--
-- Base: what the other modules share.
--   Base/Tests: Boolean tests, equality as an interface, a chain of fallible steps; Base/Lists;
--   Base/Int: integers; Base/Store: a keyed collection (collections.Map of the SDK) as an association
--   list. An iteration of a collection visits keys in order in the source and in insertion order
--   here; where a result depends on the order (the earliest run, the oldest packet, the lowest
--   window), the model selects by key.
-- Provider/State: the stored state of x/vaas/provider/keeper/keeper.go as a record, the phases of
--   x/vaas/provider/types/provider.pb.go, and the records of fees.
-- Provider/Bank: x/bank and x/distribution as an interface with laws (the repository does not hold
--   them); Provider/Bank/Toy meets the laws with a table of balances.
-- Provider/FeePool: x/vaas/provider/keeper/fee_pool_shares.go. mint_shares is MintShares,
--   withdraw_shares is WithdrawShares, compute_claim is ComputeClaim, and FeePool/Sweep has
--   SweepConsumerFeePoolDenom; FeePool/Draw is feePoolDraw. Theorems: Ledger and the others.
-- Provider/Fees: x/vaas/provider/keeper/fees.go with debt.go. The small operations stand in
--   Provider/Fees, the runs (distribute_consumer_fees, pay_withheld_fees,
--   sweep_expired_withheld_fee_records) in Fees/Run. x/staking is the record Staking. What a run
--   pays, records and withholds is split over the theorems of Fees/Outcome, Fees/Books and
--   Fees/Withheld, which Fees/Record joins.
-- Evidence: x/vaas/types/wire.go (the packet, validate, max_missed), Evidence/Bitmap: the bitmaps of
--   x/vaas/types/utils.go on bytes, Evidence/Decimal: cosmossdk.io/math's LegacyDec as an interface,
--   met by Evidence/Decimal/Hundredths.
-- Consumer/Downtime: x/vaas/consumer/keeper/downtime.go (track_missed_blocks, close_window,
--   rebase_bitmap, stage_downtime_params), over the state of Consumer/State; Consumer/Queue:
--   the pending evidence of x/vaas/consumer/keeper/evidence_packet.go.
-- Provider/Downtime: x/vaas/provider/keeper/downtime.go (handle_consumer_evidence_packet and its
--   checks in their order), and in Downtime/Prune the pruning of downtime_slash.go. The IBC client,
--   x/staking and the price of a slash are the record Chain.
-- Provider/KeyAssignment: AssignConsumerKey of x/vaas/provider/keeper/key_assignment.go with
--   pendingRotationClaims of cons_pubkey_rotation.go; x/staking is a record Chain of its own.
--   KeyAssignment/Prune: the pruning of retired addresses; the other children hold theorems.
-- ValidatorSet: DiffValidators and FullValSetUpdates of
--   x/vaas/provider/keeper/validator_set_update.go, ApplyVaasValidatorChanges and
--   computeReplaceUpdates of x/vaas/consumer/keeper/validators.go, AccumulateChanges of
--   x/vaas/types/utils.go. Provider/Assembly: CreateConsumerValidators.
-- Packet: ValidatorSetChangePacketData of x/vaas/types/wire.go. Provider/Relay:
--   x/vaas/provider/keeper/relay.go (queueing in Relay and Relay/Loop, sending and EndBlockVSU in
--   Relay/Sending). Consumer/Relay: x/vaas/consumer/keeper/relay.go with the flush in EndBlock of
--   x/vaas/consumer/module.go.
-- Provider/TimeQueue: the queues by time of x/vaas/provider/keeper/keeper.go and
--   ConsumeIdsFromTimeQueue. Provider/Lifecycle: x/vaas/provider/keeper/consumer_lifecycle.go (pause,
--   resumption and stop in Lifecycle, launches in Lifecycle/Launch, deletion in Lifecycle/Removal, the
--   blocks' loops and SetConsumerClient in Lifecycle/BeginBlock), over the relay's state, the bank and
--   what the lifecycle stores. The time queues iterate in the order of time, which is that of their
--   keys for times in UTC.
-- Provider/Challenge: x/vaas/provider/keeper/downtime_challenge.go, over the state of
--   Provider/Lifecycle, whose pause it ends in; the light client and CometBFT's keys are the record
--   Crypto.
-- Provider/Slash: the sweep of matured slashes of x/vaas/provider/keeper/downtime_slash.go, over the
--   same state, with slashableStake and ComputePowerToSlash of consumer_equivocation.go. x/staking
--   and x/slashing, whose state the slashes change, are the record Slashing.
--   The code holds no state on removal votes: the deferral of a matured slash behind such a vote,
--   which docs/consumer-downtime.md and docs/security-model.md describe, is in none of its parts.
-- Provider/Rotation: x/vaas/provider/keeper/cons_pubkey_rotation.go with AfterConsensusPubKeyUpdate of
--   hooks.go: what moves to the new address when a validator rotates its consensus key.
-- Provider/KeyHistory: sequences of assignments, prunings, rotations and deletions, over
--   Provider/KeyAssignment, Provider/Rotation and Provider/Lifecycle.
-- Provider/Params: the changes of parameters in x/vaas/provider/keeper/params.go and msg_server.go
--   (reconcileFeesPerBlockOverrides, SetConsumerFeesPerBlock, SetInfractionParams).
-- Handover: both relays and the network between them as a step relation, in which packets and
--   acknowledgements may be lost, delayed, reordered and repeated. Its invariant is stated in
--   Handover/Protocol between what the provider stores for one consumer (View) and what the consumer
--   has applied; Handover/Agreement ties it to the keepers' functions.
-- The modules called Tests run the definitions at concrete states and apply the theorems there.
--
-- Conventions. Ids, addresses and denominations are only compared, so they are natural numbers, with
-- 0 for an empty address. Amounts, heights, window sizes, times and durations are natural numbers;
-- a subtraction that may go below zero is an integer or is written as a sum on the other side. An
-- error aborts a transaction and its writes are discarded, so that an error has no state; a panic is
-- `none`. Every loop is a structural recursion on a list or on a count that the source computes: no
-- fuel is used.
--
-- Not modelled: the decoding errors of stored collections, logs and events, JSON and protobuf
-- encodings, the 256-bit overflow of math.Int, and negative heights in a packet, which its
-- validation refuses. Within the hand-over the stored set of a consumer changes only by queueing:
-- the re-keying of an entry by a key rotation and the deletion of a consumer are not steps of it.
-- The rest of a client's template in a consumer's genesis, equivocation, the other message handlers,
-- the validation of messages, genesis, IBC callbacks and the application are outside
-- the model.
pub mod Base
pub mod Consumer
pub mod Evidence
pub mod Handover
pub mod Packet
pub mod Provider
pub mod ValidatorSet
