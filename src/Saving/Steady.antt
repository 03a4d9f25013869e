-- ===== src/Saving/Steady.antt =====
-- Actions that keep a predicate on the storage of the pallet, one rule for each way to build one.
use riochain.Prelude.{String, Bool, true, false, Option, none, some, if◌then◌else◌}
use riochain.Prelude.Outcome.{
  Outcome, ok, err, panic, Action, pure, expect, ensure, ignore, unwrap, Keeps, Keeps->>=, ◌>>=◌,
}
use riochain.Assets.Types.{AccountId, AssetId, Balance, Assets}
use riochain.Assets.Calls
use riochain.Assets.Calls.{Chain, on_assets, root_origin, Trait}
use riochain.Saving.Types.{Saving, Call, pallet, change}

-- Unless it panics, the action keeps the predicate, whether it returns or fails.
pub record IsSteady (P : Saving → Type 0) {A : Type 0} (m : Action (Chain Saving) A) : Type 0 where
  pub at : (c : Chain Saving) → P c.pallet → Keeps (m c) λ c'. P c'.pallet

-- The hooks on minting keep it.
pub record IsQuiet (P : Saving → Type 0) (t : Trait Saving) : Type 0 where
  pub before :
      (asset_id : AssetId) (to : AccountId) (balance : Balance)
      → IsSteady P (t.before_asset_mint asset_id to balance)
  pub after :
      (asset_id : AssetId) (to : AccountId) (balance : Balance)
      → IsSteady P (t.on_asset_mint asset_id to balance)

module _ (P : Saving → Type 0) {A : Type 0} where
  unwrap_after :
      (o : Outcome (Chain Saving) A)
      → Keeps o (λ c'. P c'.pallet)
      → Keeps
          (elim o as (λ _. Outcome (Chain Saving) A) [
            | ok a s' ↦ ok a s'
            | err _ _ ↦ panic
            | panic ↦ panic
          ])
          λ c'. P c'.pallet
  unwrap_after (ok _ c) h = h
  unwrap_after (err _ c) h = tt
  unwrap_after panic h = h

  on_assets_after :
      (c : Chain Saving) (o : Outcome Assets A)
      → P c.pallet
      → Keeps
          (elim o as (λ _. Outcome (Chain Saving) A) [
            | ok a s ↦ ok a (record c { assets = s })
            | err e s ↦ err e (record c { assets = s })
            | panic ↦ panic
          ])
          λ c'. P c'.pallet
  on_assets_after c (ok a s) h = h
  on_assets_after c (err e s) h = h
  on_assets_after c panic h = tt

module _ (P : Saving → Type 0) where
  ignore_after :
      (o : Outcome (Chain Saving) Unit)
      → Keeps o (λ c'. P c'.pallet)
      → Keeps
          (elim o as (λ _. Outcome (Chain Saving) Unit) [
            | ok _ s' ↦ ok tt s'
            | err _ s' ↦ ok tt s'
            | panic ↦ panic
          ])
          λ c'. P c'.pallet
  ignore_after (ok _ c) h = h
  ignore_after (err _ c) h = h
  ignore_after panic h = h

module _ {P : Saving → Type 0} {A : Type 0} where
  pub pure-IsSteady : (a : A) → IsSteady P (pure {S = Chain Saving} a)
  pure-IsSteady a = record { at = λ c h. h }

  pub pallet-IsSteady : (f : Saving → A) → IsSteady P (pallet f)
  pallet-IsSteady f = record { at = λ c h. h }

  pub expect-IsSteady : (o : Option A) → IsSteady P (expect {S = Chain Saving} o)
  expect-IsSteady none = record { at = λ c h. tt }
  expect-IsSteady (some a) = record { at = λ c h. h }

  pub unwrap-IsSteady : (m : Action (Chain Saving) A) → IsSteady P m → IsSteady P (unwrap m)
  unwrap-IsSteady m h = record { at = λ c p. unwrap_after P (m c) (h.at c p) }

  pub if-IsSteady :
      (b : Bool) (m n : Action (Chain Saving) A)
      → IsSteady P m
      → IsSteady P n
      → IsSteady P (if b then m else n)
  if-IsSteady true m n h k = h
  if-IsSteady false m n h k = k

  pub on_assets-IsSteady : (m : Action Assets A) → IsSteady P (on_assets m)
  on_assets-IsSteady m = record { at = λ c h. on_assets_after P c (m c.assets) h }

module _ {P : Saving → Type 0} {A B : Type 0} where
  pub bind-IsSteady :
      (m : Action (Chain Saving) A) (f : A → Action (Chain Saving) B)
      → IsSteady P m
      → ((a : A) → IsSteady P (f a))
      → IsSteady P (m >>= f)
  bind-IsSteady m f h k = record {
    at = λ c p. Keeps->>= f (λ c'. P c'.pallet) m c (h.at c p) (λ a c' p'. (k a).at c' p');
  }

module _ {P : Saving → Type 0} where
  pub ignore-IsSteady : (m : Call) → IsSteady P m → IsSteady P (ignore m)
  ignore-IsSteady m h = record { at = λ c p. ignore_after P (m c) (h.at c p) }

  pub ensure-IsSteady : (b : Bool) (e : String) → IsSteady P (ensure {S = Chain Saving} b e)
  ensure-IsSteady true e = record { at = λ c h. h }
  ensure-IsSteady false e = record { at = λ c h. h }

  pub change-IsSteady :
      (f : Saving → Saving) → ((s : Saving) → P s → P (f s)) → IsSteady P (change f)
  change-IsSteady f h = record { at = λ c p. h c.pallet p }

pub ruleset steady_rules = (
  pure-IsSteady, pallet-IsSteady, expect-IsSteady, unwrap-IsSteady, if-IsSteady, on_assets-IsSteady,
  bind-IsSteady, ignore-IsSteady, ensure-IsSteady, change-IsSteady,
)

module _ {P : Saving → Type 0} (t : Trait Saving) where
  pub mint-IsSteady :
      (q : IsQuiet P t) (asset_id : AssetId) (to : AccountId) (amount : Balance)
      → IsSteady P (Calls.mint t root_origin asset_id to amount)
  unfolding Calls.mint
  mint-IsSteady q asset_id to amount = search (steady_rules, q.before, q.after) depth 12

  pub burn-IsSteady :
      (asset_id : AssetId) (from : AccountId) (amount : Balance)
      → IsSteady P (t.before_asset_burn asset_id from amount)
      → IsSteady P (t.on_asset_burn asset_id from amount)
      → IsSteady P (Calls.burn t root_origin asset_id from amount)
  unfolding Calls.burn
  burn-IsSteady asset_id from amount before after = search steady_rules depth 12
