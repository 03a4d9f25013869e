-- ===== src/Assets/Runs/Authority.antt =====
-- What a call that does not come from root can change.
use riochain.Prelude.{◌-◌, ◌≤◌, ◌≢◌, ◌≡◌, true, List, arith, contains, IsDistinct}
use riochain.Prelude.Maps.{update, sum_of-update, le-sum_of}
use riochain.Prelude.Outcome.{Leaves}
use riochain.Assets.Types.{AccountId, AssetId}
use riochain.Assets.Calls
use riochain.Assets.Calls.{Chain, no_hooks}
use riochain.Assets.Supply.{IsBacked}
use riochain.Assets.Runs.{Call, dispatch}

-- A call that does not come from root changes no issuance, no permission, no restriction and no
-- reserve, and takes funds from nobody but its signer: every other balance stays or grows.
-- The asset is backed by distinct accounts that list both, and the asset hooks do nothing.
pub signed_spends_own :
    {X : Type 0} (root signer : AccountId) (accounts : List AccountId) (b : AssetId)
    (who : AccountId) (call : Call) (c : Chain X)
    → IsDistinct accounts
    → contains accounts signer ≡ true
    → contains accounts who ≡ true
    → who ≢ signer
    → IsBacked accounts b c.assets
    → Leaves (dispatch (no_hooks root) (Calls.signed_by signer) call c) λ c'.
      (c'.assets.total_issuance ≡ c.assets.total_issuance)
      × (c'.assets.permissions ≡ c.assets.permissions)
      × (c'.assets.restrictions ≡ c.assets.restrictions)
      × (c'.assets.reserved_balance ≡ c.assets.reserved_balance)
      × (c.assets.free_balance b who ≤ c'.assets.free_balance b who)
unfolding dispatch Calls.create Calls.transfer Calls.mint Calls.burn Calls.set_reserve
    Calls.set_unreserve Calls.update_permission Calls.update_restriction
signed_spends_own root signer accounts b who (Call.transfer a to amount) c d hs hw ne h = ground (
  arith,
  sum_of-update (c.assets.free_balance a) signer (c.assets.free_balance a signer - amount) accounts
      d hs,
  le-sum_of (c.assets.free_balance a) signer accounts hs,
  le-sum_of (update (c.assets.free_balance a) signer (c.assets.free_balance a signer - amount)) who
      accounts hw,
)
signed_spends_own root signer accounts b who call c d hs hw ne h = ground arith
