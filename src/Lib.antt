-- ===== src/Lib.antt =====
-- RioChain: the pallets that keep its assets, its price, its bitcoin bridge, its loans, its savings
-- and its fees.
--
-- Parts and files. Each pallet keeps its storage in a record; a call is an `Action`, a function
-- from the storage to an outcome: `ok`, `err` with what was written before the error, or `panic`.
-- - modules/rio-assets/src (Assets): Assets/Types is the data of attributes.rs, permissions.rs and
--   protocol.rs with the storage and events of lib.rs; Assets/Module the methods of `Module`
--   (create_asset, make_transfer, mint_free, burn_free, reserve, unreserve, check_permission);
--   Assets/Imbalances and its two children the tokens of imbalances.rs with their drops;
--   Assets/Currency is `AssetCurrency` of currency.rs and make_transfer_between_assets;
--   Assets/Calls the dispatchable calls and the hooks of traits.rs; Assets/Genesis the genesis build;
--   Assets/Runs sequences of calls. Assets/Ledger is an abstract ledger, in which free and reserved
--   funds are one holding; Assets/Ledger/Effects, Dispatched and Refined show that the calls refine it.
--   Assets/Genesis/Endowment, Built and Backing are about the genesis. Assets/Supply,
--   Assets/Supply/Exchange, Assets/Atomic,
--   Assets/Effects, Assets/Runs/Backing and Assets/Runs/Authority hold the theorems.
-- - modules/rio-oracle/src/lib.rs (Oracle, Oracle/Window): the window in which a reporter counts, and
--   the interface `OracleMixedIn`, a record that Price takes as a parameter.
-- - modules/rio-price/src/lib.rs (Price, Price/Median, Price/Reports, Price/Ending): reports
--   and their median. The
--   listener `OnChange` is a parameter, and `()` in the runtime.
-- - modules/rio-bridge/src/lib.rs (Bridge/Types, Bridge/Module, Bridge/Dispatch): deposits, marks,
--   withdrawals and refunds, and the type of the calls. Bridge/Sound, Bridge/Seen,
--   Bridge/Deposits, Bridge/Release, Bridge/Vault and Bridge/Runs hold the theorems.
-- - modules/rio-loan/src/lib.rs (Loan/Types, Loan/Terms, Loan/Packages, Loan/Lending, Loan/Apply,
--   Loan/Liquidation, Loan/Blocks, Loan/Calls): loans against collateral. Loan/Runs sequences of calls and
--   blocks. Loan/Credit, Safety, Stuck, Repay, Totals, Opening, Liquidating, Liquidated, Books, Kept,
--   Granted, Checked and Runs/Booked hold the theorems.
-- - modules/rio-saving/src/lib.rs: Saving/Types is its storage and data, Saving/Packs the packs of
--   locked shares (create_share_release_pack, release, aggregate_phase_unreleased), Saving/Minting what
--   a saving mints, Saving/Phases staking and the change of phases, Saving/Redeem check_can_redeem and
--   make_redeem, Saving/Shares the book of shares, Saving/Bonus the daily bonus, Saving/Hooks the hooks
--   of the pallet, Saving/Calls the dispatchable calls, on_initialize and the genesis of the phases.
--   Saving/Schedule, Aggregate, Conserved, Book, Staking, Fuel, Redeeming, Redemption and Bonuses hold
--   the theorems, with Saving/Steady, Release and Settling for what an action leaves as it was.
-- - modules/rio-fee/src/lib.rs (Fee, Fee/Charge): the fee account and the purchase of the fee asset,
--   with `FeeExchange` of primitives/src/types.rs.
-- - modules/rio-transaction-payment/src/lib.rs (Payment): the fee of a transaction and its charge, with
--   the multiplier and the conversions as the fields of the record `Config`. Payment/Validity and
--   Payment/Backing hold the theorems.
-- - runtime/src/lib.rs and constants.rs (Runtime): Runtime/Constants are the constants in use,
--   Runtime/Types the storage of the pallets of `construct_runtime!` that are of this repository and
--   their `Trait` implementations, Runtime/Calls the `Call`, the charge of `SignedExtra`, the end of a
--   block and sequences of such steps, Runtime/Genesis the `GenesisConfig` and what it builds.
--   Runtime/Sound and Runtime/Launch hold the theorems. The runtime at this commit has no rio-saving
--   and no rio-loan.
-- - src/chain_spec.rs and src/cli.rs (ChainSpec): ChainSpec/Alternative the alternatives and their ids,
--   ChainSpec/Genesis `testnet_genesis` and `beta_genesis`, ChainSpec/Spec `load`, ChainSpec/Loading
--   `set_address_type` and `load_spec`. ChainSpec/Ids, Loading and Starting hold the theorems.
-- - Prelude and its children: tests on numbers, words, maps, linked maps and outcomes.
-- - The Tests modules apply the theorems to small states.
--
-- How the pallets interact. rio-bridge and rio-loan call rio-assets directly: their storage and that
-- of the assets stand side by side in `Chain X`, and `on_assets` runs an operation of the assets in
-- it. A call of another pallet made as root passes `root_origin`. The hooks round the asset calls are
-- the fields of the record `Trait X`; `no_hooks` is the implementation that the runtime chooses.
-- rio-saving, which the runtime at this commit does not include, implements them: `saving_hooks` are its
-- hooks, and `inner_hooks` those that its own mints and burns run into. The time, the height, the index
-- of the extrinsic and the price that it reads are the fields of the record `Env`.
--
-- Conventions. Balances and prices are `u128`; `+`, `-` and `*` on them wrap at 2 ^ 128, as in a
-- build without overflow checks, and the checked and saturating operations are written out. Loan ids,
-- LTVs and moments are `u64`, heights `u32`. Division by zero, an index out of range and `unwrap` on
-- nothing are panics. Storage is not rolled back when a call returns an error, as in the runtime that
-- the source builds on. An account, an asset id or a hash is only compared, so it is a number. An
-- origin is known by what `ensure_root` and `ensure_signed` answer on it. A map is a function from its
-- keys; a linked map, which the code enumerates, is an association list with new keys in front. Every
-- loop of these pallets runs over a list that the code has read, but one: create_staking calls itself
-- for what exceeds the quota of a phase. It runs on fuel, one more than the number of phases, which is
-- enough as each of its calls but the last enters a later phase. Phase ids and terms are `u32`.
--
-- Not modelled: constants.rs of modules/rio-transaction-payment, the
-- logging of modules/rio-support, src/service.rs and the rest of src/cli.rs, which call the framework
-- alone, the mocks of the tests, and the codecs that the framework derives. The framework's
-- modules (`system`, `timestamp`, `support`) are not read: what is used of
-- them is a parameter, as the time of `timestamp::get`, the height, the answers on an origin, and the
-- keys that stand behind a seed.
pub mod Prelude
pub mod Assets
pub mod Oracle
pub mod Price
pub mod Bridge
pub mod Loan
pub mod Fee
pub mod Payment
pub mod Saving
pub mod Runtime
pub mod ChainSpec
