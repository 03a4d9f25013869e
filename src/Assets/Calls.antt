-- ===== src/Assets/Calls.antt =====
-- The dispatchable calls of rio-assets/src/lib.rs, and the hooks of traits.rs round them.
-- `Chain X` is the storage of this pallet beside that of another, `X`, which the hooks may reach.
use riochain.Prelude.{ℕ, Bool, Option, none, some, List, not, if◌then◌else◌}
use riochain.Prelude.Maps.{update}
use riochain.Prelude.Outcome.{ok, err, panic, Action, pure, fail, gets, modify, ignore, ◌>>=◌, ◌>>◌}
use riochain.Assets.Types.{
  AccountId, AssetId, Balance, Owner, PermissionsV1, v1, PermissionType, Restriction, transferable,
  Event, Assets, deposit_event,
}
use riochain.Assets.Module.{
  create_asset, check_permission, make_transfer_with_event, mint_free, burn_free, reserve,
  unreserve,
}

pub record Chain (X : Type 0) : Type 0 where
  pub assets : Assets
  pub pallet : X

module _ {X A : Type 0} where
  abbrev pub on_assets : Action Assets A → Action (Chain X) A
  on_assets m c = elim (m c.assets) [
    | ok a s ↦ ok a (record c { assets = s })
    | err e s ↦ err e (record c { assets = s })
    | panic ↦ panic
  ]

  abbrev pub on_pallet : Action X A → Action (Chain X) A
  on_pallet m c = elim (m c.pallet) [
    | ok a x ↦ ok a (record c { pallet = x })
    | err e x ↦ err e (record c { pallet = x })
    | panic ↦ panic
  ]

-- An origin is known by the answers of `ensure_root` and `ensure_signed`, which are not this
-- repository's: `none` is their `Err`.
pub record Origin : Type 0 where
  pub is_root : Option (Unit {0})
  pub signer : Option AccountId

-- `RawOrigin::Root.into()`, which passes `ensure_root`.
abbrev pub root_origin : Origin
root_origin = record { is_root = some tt; signer = none }

abbrev pub signed_by : AccountId → Origin
signed_by who = record { is_root = none; signer = some who }

module _ {S : Type 0} where
  abbrev pub ensure_root : Origin → Action S Unit
  ensure_root origin s = elim origin.is_root [ none ↦ err "bad origin" s | some _ ↦ ok tt s ]

  abbrev pub ensure_signed : Origin → Action S AccountId
  ensure_signed origin s = elim origin.signer [ none ↦ err "bad origin" s | some who ↦ ok who s ]

-- The part of `trait Trait` that the calls use. `RootKey` is the key of the sudo pallet.
pub record Trait (X : Type 0) : Type 0 where
  pub root_key : AccountId
  pub before_asset_transfer : AssetId → AccountId → AccountId → Balance → Action (Chain X) Unit
  pub on_asset_transfer : AssetId → AccountId → AccountId → Balance → Action (Chain X) Unit
  pub before_asset_mint : AssetId → AccountId → Balance → Action (Chain X) Unit
  pub on_asset_mint : AssetId → AccountId → Balance → Action (Chain X) Unit
  pub before_asset_burn : AssetId → AccountId → Balance → Action (Chain X) Unit
  pub on_asset_burn : AssetId → AccountId → Balance → Action (Chain X) Unit

-- The implementations for `()`, which the runtime chooses.
abbrev pub no_hooks : {X : Type 0} → AccountId → Trait X
no_hooks root = record {
  root_key = root;
  before_asset_transfer = λ asset_id from to balance. pure tt;
  on_asset_transfer = λ asset_id from to balance. pure tt;
  before_asset_mint = λ asset_id to balance. pure tt;
  on_asset_mint = λ asset_id to balance. pure tt;
  before_asset_burn = λ asset_id to balance. pure tt;
  on_asset_burn = λ asset_id to balance. pure tt;
}

abbrev pub owned_by : AccountId → PermissionsV1
owned_by who = record {
  update = Owner.address who;
  mint = Owner.address who;
  burn = Owner.address who;
}

-- `map.insert(restriction, ())` if `not_allow`, else `map.remove(&restriction)`
abbrev restrict : (Restriction → Bool) → Restriction → Bool → Restriction → Bool
restrict map transferable not_allow transferable = not_allow

module _ {X : Type 0} (t : Trait X) where
  unfoldable pub create : Origin → Balance → AssetId → List ℕ → Action (Chain X) Unit
  unfolding create_asset
  create origin initial_balance asset_id symbol = do
    ensure_root origin
    on_assets (
        create_asset asset_id symbol (some t.root_key)
          (record { initial_issuance = initial_balance; permissions = owned_by t.root_key }))

  unfoldable pub transfer : Origin → AssetId → AccountId → Balance → Action (Chain X) Unit
  unfolding make_transfer_with_event
  transfer origin asset_id to amount = do
    o ← ensure_signed origin
    t.before_asset_transfer asset_id o to amount
    on_assets (make_transfer_with_event asset_id o to amount)
    ignore (t.on_asset_transfer asset_id o to amount)

  unfoldable pub update_permission : Origin → AssetId → PermissionsV1 → Action (Chain X) Unit
  unfolding check_permission
  update_permission origin asset_id new_permission = do
    ensure_root origin
    allowed ← on_assets (gets (check_permission asset_id t.root_key PermissionType.update))
    if not allowed
        then fail "Origin does not have enough permission to update permissions."
        else on_assets do
          modify (λ s. record s { permissions = update s.permissions asset_id (v1 new_permission) })
          deposit_event (Event.permission_updated asset_id new_permission)

  unfoldable pub update_restriction : Origin → AssetId → Restriction → Bool → Action (Chain X) Unit
  update_restriction origin asset_id restriction not_allow = do
    ensure_root origin
    on_assets (
        modify (λ s.
          let map = restrict (s.restrictions asset_id) restriction not_allow in
          record s { restrictions = update s.restrictions asset_id map }))

  unfoldable pub mint : Origin → AssetId → AccountId → Balance → Action (Chain X) Unit
  unfolding mint_free
  mint origin asset_id to amount = do
    ensure_root origin
    t.before_asset_mint asset_id to amount
    on_assets (mint_free asset_id t.root_key to amount)
    on_assets (deposit_event (Event.minted asset_id to amount))
    ignore (t.on_asset_mint asset_id to amount)

  unfoldable pub burn : Origin → AssetId → AccountId → Balance → Action (Chain X) Unit
  unfolding burn_free
  burn origin asset_id to amount = do
    ensure_root origin
    t.before_asset_burn asset_id to amount
    on_assets (burn_free asset_id t.root_key to amount)
    on_assets (deposit_event (Event.burned asset_id to amount))
    ignore (t.on_asset_burn asset_id to amount)

  unfoldable pub set_reserve : Origin → AssetId → AccountId → Balance → Action (Chain X) Unit
  unfolding reserve
  set_reserve origin asset_id who amount = do
    ensure_root origin
    on_assets (reserve asset_id who amount)

  unfoldable pub set_unreserve : Origin → AssetId → AccountId → Balance → Action (Chain X) Unit
  unfolding unreserve
  set_unreserve origin asset_id who amount = do
    ensure_root origin
    on_assets (unreserve asset_id who amount)
    pure tt
