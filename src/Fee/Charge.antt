-- ===== src/Fee/Charge.antt =====
-- What buying the fee asset does, and what collecting a fee does.
use riochain.Prelude.{◌+◌, ◌-◌, ◌<◌, ◌≡◌, true, arith, min}
use riochain.Prelude.Words.{u128_mod}
use riochain.Prelude.Maps.{exists}
use riochain.Prelude.Outcome.{ok}
use riochain.Assets.Types.{AccountId, Balance, rfuel, locked_rfuel}
use riochain.Assets.Currency.{make_transfer_between_assets}
use riochain.Assets.Supply.Exchange.{exchanged, exchange_lem}
use riochain.Assets.Calls.{Chain}
use riochain.Fee.{Fee, FeeExchange, paying, buy_fee_asset}

-- What is bought: the fee, or all that is locked.
abbrev pub bought_for : AccountId → Balance → Chain Fee → Balance
bought_for who fee c = min fee (c.assets.free_balance locked_rfuel who)

pub buy_fee_asset_lem :
    (who : AccountId) (fee : Balance) (c : Chain Fee)
    → fee < u128_mod
    → exists (c.assets.symbols locked_rfuel) ≡ true
    → exists (c.assets.symbols rfuel) ≡ true
    → c.assets.free_balance rfuel who + bought_for who fee c < u128_mod
    → buy_fee_asset who fee (FeeExchange.v1 (u128_mod - 1)) c
      ≡ ok (bought_for who fee c) (record c {
        assets = exchanged locked_rfuel who rfuel who (bought_for who fee c) c.assets;
      })
unfolding buy_fee_asset make_transfer_between_assets
buy_fee_asset_lem who fee c small known_locked known room =
    let bought = bought_for who fee c in
    ground (arith, exchange_lem locked_rfuel rfuel who who paying bought c.assets)
