-- ===== src/Saving/Release.antt =====
-- What minting and releasing shares leaves as it was: the phases, the current one and its quota.
use riochain.Prelude.{◌≡◌, Option, none, some, List, [], ◌∷◌, arith, Option-cases}
use riochain.Prelude.Linked.{LinkedMap, lookup}
use riochain.Prelude.Outcome.{unwrap}
use riochain.Assets.Types.{AccountId, AssetId, Balance}
use riochain.Assets.Calls.{Trait}
use riochain.Saving.Types.{PhaseId, PhaseInfo, Iou, ShareReleasePack, Saving, Env}
use riochain.Saving.Packs.{with_pack, aggregate_phase_unreleased}
use riochain.Saving.Minting.{
  mint_share, mint_pack, mint_assets, create_iou, create_release_pack_for_saving,
  register_share_pack,
}
use riochain.Saving.Phases.{
  put_unreleased, stake_in_phase, release_list, release_accounts, shares_release_by_phase_change,
}
use riochain.Prelude.Words.{checked_add}
use riochain.Prelude.Maps.{get_or}
use riochain.Saving.Shares.{pause_at, add_shares, add_circulation, on_asset_mint}
use riochain.Saving.Hooks.{inner_hooks}
use riochain.Saving.Steady.{
  pure-IsSteady, IsSteady, IsQuiet, steady_rules, bind-IsSteady, unwrap-IsSteady, mint-IsSteady,
}

abbrev pub Same : Saving → Saving → Type 0
Same s₀ s =
    (s.phase_infos ≡ s₀.phase_infos)
    × (s.current_phase_id ≡ s₀.current_phase_id)
    × (s.quota_used ≡ s₀.quota_used)

module _ (t : Trait Saving) (s₀ : Saving) (q : IsQuiet (Same s₀) t) where
  mint_share-IsSteady :
      (p : ShareReleasePack) (b : Option Balance) → IsSteady (Same s₀) (mint_share t p b)
  mint_share-IsSteady p none = search steady_rules
  mint_share-IsSteady p (some b) = search (steady_rules, mint-IsSteady t q)

  mint_pack-IsSteady : (p : ShareReleasePack) → IsSteady (Same s₀) (mint_pack t p)
  unfolding mint_pack
  mint_pack-IsSteady p = search (steady_rules, mint_share-IsSteady)

  release_list-IsSteady : (list : List ShareReleasePack) → IsSteady (Same s₀) (release_list t list)
  unfolding release_list
  release_list-IsSteady [] = search steady_rules
  release_list-IsSteady (p ∷ rest) =
      bind-IsSteady (unwrap (mint_pack t p)) _ (unwrap-IsSteady _ (mint_pack-IsSteady p)) λ minted.
        bind-IsSteady (release_list t rest) _ (release_list-IsSteady rest)
          λ left. search steady_rules

  release_accounts-IsSteady :
      (lists : LinkedMap (List ShareReleasePack)) → IsSteady (Same s₀) (release_accounts t lists)
  unfolding release_accounts
  release_accounts-IsSteady [] = search steady_rules
  release_accounts-IsSteady ((account_id, list) ∷ rest) =
      bind-IsSteady _ _ (release_list-IsSteady list) λ left.
        bind-IsSteady (put_unreleased account_id left) _ (record { at = λ c same. same })
          λ _. release_accounts-IsSteady rest

  pub shares_release-IsSteady : IsSteady (Same s₀) (shares_release_by_phase_change t)
  unfolding shares_release_by_phase_change
  shares_release-IsSteady = search (steady_rules, release_accounts-IsSteady)

  aggregate-IsSteady :
      (list : List ShareReleasePack) (phase : PhaseId) (a : AssetId) (who : AccountId)
      → IsSteady (Same s₀) (aggregate_phase_unreleased list phase a who none)
  unfolding aggregate_phase_unreleased with_pack
  aggregate-IsSteady list phase a who = search steady_rules

  register-IsSteady : (p : ShareReleasePack) → IsSteady (Same s₀) (register_share_pack p)
  unfolding register_share_pack
  register-IsSteady p = search (steady_rules, aggregate-IsSteady) depth 12

  create_iou-IsSteady :
      (owner : AccountId) (info : PhaseInfo) (saving : Balance)
      → IsSteady (Same s₀) (create_iou owner info saving)
  unfolding create_iou
  create_iou-IsSteady owner info saving = search steady_rules

  pack_for_saving-IsSteady :
      (owner : AccountId) (a : AssetId) (balance : Balance) (info : PhaseInfo)
      → IsSteady (Same s₀) (create_release_pack_for_saving owner a balance info)
  unfolding create_release_pack_for_saving
  pack_for_saving-IsSteady owner a balance info = search steady_rules depth 12

  mint_assets-IsSteady :
      (iou : Iou) (p : ShareReleasePack) → IsSteady (Same s₀) (mint_assets t iou p)
  unfolding mint_assets
  mint_assets-IsSteady iou p = search (steady_rules, mint-IsSteady t q, mint_pack-IsSteady) depth 12

  pub stake_in_phase-IsSteady :
      (who : AccountId) (info : PhaseInfo) (balance : Balance)
      → IsSteady (Same s₀) (stake_in_phase t who info balance)
  unfolding stake_in_phase
  stake_in_phase-IsSteady who info balance =
      search
        (
          steady_rules, create_iou-IsSteady, pack_for_saving-IsSteady, mint_assets-IsSteady,
          register-IsSteady,
        )
        depth 20

-- The pallet's own hooks leave the phases alone.
pub inner_hooks-IsQuiet :
    (root : AccountId) (env : Env) (s₀ : Saving) → IsQuiet (Same s₀) (inner_hooks root env)
unfolding on_asset_mint add_shares add_circulation pause_at
inner_hooks-IsQuiet root env s₀ = record {
  before = λ asset_id to balance. pure-IsSteady tt;
  after = λ asset_id to balance. record {
    at = λ c h. ground (
      arith,
      Option-cases (checked_add (get_or 0 (lookup to c.pallet.account_shares)) balance),
      Option-cases (checked_add c.pallet.shares_circulation balance),
    );
  };
}
