-- ===== src/Saving/Redeeming.antt =====
-- What a redemption takes, and what it leaves out of the book of shares.
use riochain.Prelude.{◌+◌, ◌≤◌, ◌<◌, ◌≡◌, refl, false, some, List, arith, ◌⊎◌, ◌==◌}
use riochain.Prelude.Words.{u128_mod, wrapping_add}
use riochain.Prelude.Outcome.{Keeps}
use riochain.Assets.Types.{AccountId, AssetId, Balance}
use riochain.Assets.Calls.{Chain}
use riochain.Saving.Types.{PhaseId, ShareReleasePack, BalanceChange, Saving, Env}
use riochain.Saving.Packs.{with_pack, aggregate_phase_unreleased}
use riochain.Saving.Redeem.{
  free, use_returned, Deduct, level, finish_redeem, settle_redeem, make_redeem,
}
use riochain.Saving.Shares.{on_asset_burn}
use riochain.Saving.Hooks.{inner_hooks}
use riochain.Saving.Steady.{IsSteady, steady_rules, burn-IsSteady}

-- What is taken of the two stocks for a requirement, after what was returned in advance.
abbrev pub taken : Balance → Balance → Balance → Balance → Balance → Deduct
taken returned free_required locked_required unreleased free_share =
    let a = use_returned returned free_required locked_required in
    level a.free_to_deduct a.locked_to_deduct unreleased free_share

-- The check that "in & out" match decides whether more shares were returned in advance than the
-- redemption requires: if so it fails; else what was returned and what is taken of the two stocks
-- make up the requirement, and neither stock is overdrawn, unless both with what was returned fall
-- short of the requirement. The requirement and what was returned are balances.
pub taken_matches :
    (returned free_required locked_required unreleased free_share : Balance)
    → free_required + locked_required < u128_mod
    → returned < u128_mod
    → ((returned ≤ free_required + locked_required)
        × ((taken returned free_required locked_required unreleased free_share).from_free
              + (taken returned free_required locked_required unreleased free_share).from_locked
              + returned
            ≡ free_required + locked_required)
        × ((returned + unreleased + free_share < free_required + locked_required)
            ⊎ ((taken returned free_required locked_required unreleased free_share).from_free
                ≤ free_share)
              × ((taken returned free_required locked_required unreleased free_share).from_locked
                  ≤ unreleased)))
      ⊎ ((free_required + locked_required < returned)
          × ((wrapping_add
                  (wrapping_add
                    (taken returned free_required locked_required unreleased free_share).from_free
                    (taken returned free_required locked_required unreleased
                      free_share).from_locked)
                  returned
                == wrapping_add free_required locked_required)
              ≡ false))
unfolding use_returned level wrapping_add
taken_matches returned free_required locked_required unreleased free_share small small' =
    ground arith

abbrev SameBook : Saving → Saving → Type 0
SameBook s₀ s =
    (s.account_shares ≡ s₀.account_shares)
    × (s.shares_circulation ≡ s₀.shares_circulation)
    × (s.collection_account_id ≡ s₀.collection_account_id)

free-IsSteady :
    {P : Saving → Type 0} (asset_id : AssetId) (who : AccountId) → IsSteady P (free asset_id who)
free-IsSteady asset_id who = record { at = λ c h. h }

aggregate-IsSteady :
    {P : Saving → Type 0} (list : List ShareReleasePack) (phase : PhaseId) (a : AssetId)
    (who : AccountId) (value : Balance)
    → IsSteady P (aggregate_phase_unreleased list phase a who (some (BalanceChange.negative value)))
unfolding aggregate_phase_unreleased with_pack
aggregate-IsSteady list phase a who value = search steady_rules depth 12

module _ (root : AccountId) (env : Env) (s₀ : Saving) where
  burned-IsSteady :
      (asset_id : AssetId) (balance : Balance)
      → IsSteady (SameBook s₀) (on_asset_burn env asset_id s₀.collection_account_id balance)
  unfolding on_asset_burn
  burned-IsSteady asset_id balance = record { at = λ c h. ground arith }

  settle_redeem-IsSteady :
      (iou : AssetId) (who : AccountId) (collected : AssetId) (amount : Balance) (share : AssetId)
      (phase : PhaseId) (list : List ShareReleasePack) (to_burn : Balance) (d : Deduct)
      → IsSteady (SameBook s₀) (
          settle_redeem
            (inner_hooks root env)
            iou
            who
            collected
            s₀.collection_account_id
            amount
            share
            phase
            list
            to_burn
            d)
  unfolding settle_redeem finish_redeem
  settle_redeem-IsSteady iou who collected amount share phase list to_burn d =
      search (steady_rules, aggregate-IsSteady, burn-IsSteady, burned-IsSteady) depth 20

  make_redeem-IsSteady :
      (iou : AssetId) (who : AccountId) (collected : AssetId) (amount : Balance) (share : AssetId)
      → IsSteady (SameBook s₀) (
          make_redeem
            (inner_hooks root env)
            iou
            who
            collected
            s₀.collection_account_id
            amount
            share)
  unfolding make_redeem
  make_redeem-IsSteady iou who collected amount share =
      search (steady_rules, free-IsSteady, settle_redeem-IsSteady) depth 40

-- A redemption, whether it returns or fails, leaves the book of shares as it was: the accounts'
-- shares and the circulation, though it burns shares. The hooks of the pallet run, and the account
-- is the collection account.
pub make_redeem_unbooked :
    (root : AccountId) (env : Env) (iou : AssetId) (who : AccountId) (collected : AssetId)
    (amount : Balance) (share : AssetId) (c : Chain Saving)
    → Keeps
        (make_redeem
          (inner_hooks root env)
          iou
          who
          collected
          c.pallet.collection_account_id
          amount
          share
          c)
        λ c'.
          (c'.pallet.account_shares ≡ c.pallet.account_shares)
          × (c'.pallet.shares_circulation ≡ c.pallet.shares_circulation)
          × (c'.pallet.collection_account_id ≡ c.pallet.collection_account_id)
make_redeem_unbooked root env iou who collected amount share c =
    (make_redeem-IsSteady root env c.pallet iou who collected amount share).at c (refl, refl, refl)
