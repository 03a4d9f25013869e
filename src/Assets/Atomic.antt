-- ===== src/Assets/Atomic.antt =====
-- A failing operation on balances has written nothing.
use riochain.Prelude.{◌≡◌, arith}
use riochain.Prelude.Outcome.{Outcome, err, ok, panic}
use riochain.Assets.Types.{AccountId, AssetId, Balance, WithdrawReasons, Assets}
use riochain.Assets.Module.{make_transfer, make_transfer_with_event, mint_free, burn_free, reserve}
use riochain.Assets.Currency.{make_transfer_between_assets}
use riochain.Assets.Supply.Exchange.{exchange_lem}

-- Any `Err` of the outcome leaves the state `s`.
abbrev pub IsAtomic : {A : Type 0} → Assets → Outcome Assets A → Type 0
IsAtomic s (ok _ _) = Unit
IsAtomic s (err _ s') = s' ≡ s
IsAtomic s panic = ⊥

module _ (s : Assets) (a : AssetId) (amount : Balance) where
  -- No operation on the balances of one asset panics, and where one returns an `Err` the storage
  -- is as before: the transfer with or without its event, minting, burning and reserving.
  pub errors_change_nothing :
      (from to who : AccountId)
      → IsAtomic s (make_transfer a from to amount s)
        × IsAtomic s (make_transfer_with_event a from to amount s)
        × IsAtomic s (mint_free a who to amount s)
        × IsAtomic s (burn_free a who to amount s)
        × IsAtomic s (reserve a who amount s)
  unfolding make_transfer_with_event mint_free burn_free reserve
  errors_change_nothing from to who =
      (ground arith, ground arith, ground arith, ground arith, ground arith)

  -- The transfer between two assets neither panics nor fails after it has begun to write.
  pub make_transfer_between_assets-IsAtomic :
      (from_asset to_asset : AssetId) (from to : AccountId) (reasons : WithdrawReasons)
      → IsAtomic s (make_transfer_between_assets from_asset from to_asset to reasons amount s)
  unfolding make_transfer_between_assets
  make_transfer_between_assets-IsAtomic from_asset to_asset from to reasons =
      ground (arith, exchange_lem from_asset to_asset from to reasons amount s)
