-- ===== src/Assets/Supply/Exchange.antt =====
-- The transfer between two assets moves the supply with the funds.
use riochain.Prelude.{
  ◌+◌, ◌-◌, ◌<◌, ◌≤◌, ◌≡◌, true, false, some, List, arith, contains, IsDistinct, ◌==◌, ◌&&◌,
}
use riochain.Prelude.Words.{u128_mod, saturating_add}
use riochain.Prelude.Maps.{exists, update, update_at, sum_of-update, le-sum_of}
use riochain.Prelude.Outcome.{ok, Leaves}
use riochain.Assets.Types.{
  AccountId, AssetId, Balance, WithdrawReason, WithdrawReasons, transferable, Assets,
}
use riochain.Assets.Currency.{exchange, make_transfer_between_assets}
use riochain.Assets.Supply.{IsBacked}

-- The state after `amount` of one asset has become as much of the other.
abbrev pub exchanged : AssetId → AccountId → AssetId → AccountId → Balance → Assets → Assets
exchanged from_asset from to_asset to amount s =
    let paid = update_at s.free_balance from_asset from (s.free_balance from_asset from - amount) in
    let raised =
      update s.total_issuance to_asset (saturating_add (s.total_issuance to_asset) amount) in
    record s {
      free_balance = update_at paid to_asset to (paid to_asset to + amount);
      total_issuance = update raised from_asset (raised from_asset - amount);
      from_id = some from_asset;
      to_id = some to_asset;
    }

pub exchange_lem :
    (from_asset to_asset : AssetId) (from to : AccountId) (reasons : WithdrawReasons)
    (amount : Balance) (s : Assets)
    → (from == to && from_asset == to_asset) ≡ false
    → amount ≤ s.free_balance from_asset from
    → s.free_balance to_asset to + amount < u128_mod
    → (reasons WithdrawReason.transfer && s.restrictions from_asset transferable) ≡ false
    → exchange from_asset from to_asset to reasons amount s
      ≡ ok tt (exchanged from_asset from to_asset to amount s)
unfolding exchange
exchange_lem from_asset to_asset from to reasons amount s ne funds room free = ground arith

-- The issuance of the target must have room: the drop of the positive token saturates.
pub exchanged-IsBacked :
    (accounts : List AccountId) (b from_asset to_asset : AssetId) (from to : AccountId)
    (amount : Balance) (s : Assets)
    → IsDistinct accounts
    → contains accounts from ≡ true
    → contains accounts to ≡ true
    → exists (s.symbols to_asset) ≡ true
    → amount ≤ s.free_balance from_asset from
    → s.total_issuance to_asset + amount < u128_mod
    → IsBacked accounts b s
    → IsBacked accounts b (exchanged from_asset from to_asset to amount s)
unfolding saturating_add
exchanged-IsBacked accounts b from_asset to_asset from to amount s d hf ht known funds room h =
    let free = s.free_balance in
    let less = free from_asset from - amount in
    let paid = update (free from_asset) from less in
    ground (
      arith,
      sum_of-update (free from_asset) from less accounts d hf,
      sum_of-update (free to_asset) to (free to_asset to + amount) accounts d ht,
      sum_of-update paid to (paid to + amount) accounts d ht,
      le-sum_of (free from_asset) from accounts hf,
    )

-- Whatever the result, an asset stays backed, if the two accounts are among the listed ones, which
-- are distinct, and the issuance of the target asset has room for the amount.
pub make_transfer_between_assets-IsBacked :
    (accounts : List AccountId) (b from_asset to_asset : AssetId) (from to : AccountId)
    (reasons : WithdrawReasons) (amount : Balance) (s : Assets)
    → IsDistinct accounts
    → contains accounts from ≡ true
    → contains accounts to ≡ true
    → s.total_issuance to_asset + amount < u128_mod
    → IsBacked accounts b s
    → Leaves
        (make_transfer_between_assets from_asset from to_asset to reasons amount s)
        (IsBacked accounts b)
unfolding make_transfer_between_assets
make_transfer_between_assets-IsBacked accounts b from_asset to_asset from to reasons amount s d hf
      ht room h =
    ground (
      arith,
      exchange_lem from_asset to_asset from to reasons amount s,
      exchanged-IsBacked accounts b from_asset to_asset from to amount s d hf ht,
    )
