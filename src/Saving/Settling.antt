-- ===== src/Saving/Settling.antt =====
-- What a redemption that goes through does to the accounts, the issuance and the packs.
use riochain.Prelude.{
  ◌+◌, ◌-◌, ◌≤◌, ◌<◌, ◌≡◌, ◌≢◌, refl, ap, true, false, some, [], List, arith, All, inl, inr, ◌⊎◌,
  ◌==◌, ◌&&◌, if◌then◌else◌,
}
use riochain.Prelude.Words.{u128_mod, wrapping_add}
use riochain.Prelude.Maps.{exists, get_or}
use riochain.Prelude.Linked.{LinkedMap, lookup, insert, lookup-insert}
use riochain.Prelude.Outcome.{Returns, Returns->>=, Returns_imp}
use riochain.Assets.Types.{AccountId, AssetId, Balance, PermissionType, Assets, transferable}
use riochain.Assets.Module.{check_permission, make_transfer_with_event, burn_free}
use riochain.Assets.Effects.{make_transfer_lem}
use riochain.Assets.Calls
use riochain.Assets.Calls.{Chain}
use riochain.Saving.Types.{PhaseId, ShareReleasePack, BalanceChange, Saving, Env}
use riochain.Saving.Packs.{collect, nothing, aggregate_phase_unreleased}
use riochain.Saving.Schedule.{IsMarked}
use riochain.Saving.Aggregate.{total_of, FillsTerms, aggregate_withdraws}
use riochain.Saving.Redeem.{transfer, Deduct, finish_redeem, settle_redeem}
use riochain.Saving.Shares.{on_asset_burn}
use riochain.Saving.Hooks.{inner_hooks}

-- An asset that exists and may be transferred.
abbrev IsOpen : AssetId → Assets → Type 0
IsOpen a s = (exists (s.symbols a) ≡ true) × (s.restrictions a transferable ≡ false)

module _ (root who : AccountId) (env : Env) (share collected : AssetId) where
  -- What the accounts and the assets need for a redemption that takes so many free shares and pays
  -- the amount.
  pub record IsPayable (from_free amount : Balance) (collection : AccountId) (s : Assets)
      : Type 0 where
    pub apart : who ≢ collection
    pub kinds : share ≢ collected
    pub shares_open : IsOpen share s
    pub collected_open : IsOpen collected s
    pub funds : from_free ≤ s.free_balance share who
    pub bounded : s.free_balance share who < u128_mod
    pub room : s.free_balance share collection + from_free < u128_mod
    pub stock : amount ≤ s.free_balance collected collection
    pub bounded_stock : s.free_balance collected collection < u128_mod
    pub room_back : s.free_balance collected who + amount < u128_mod
    pub issued : from_free ≤ s.total_issuance share
    pub bounded_issue : s.total_issuance share < u128_mod
    pub may_burn : check_permission share root PermissionType.burn s ≡ true

  abbrev put_list : LinkedMap (List ShareReleasePack) → Chain Saving → Chain Saving
  put_list list c =
      let s = c.pallet in record c { pallet = record s { share_unreleased_list = list } }

  -- The state once the free shares are with the collection account.
  record HasMoved (from_free : Balance) (c c' : Chain Saving) : Type 0 where
    pallet : c'.pallet ≡ c.pallet
    left : c'.assets.free_balance share who + from_free ≡ c.assets.free_balance share who
    got :
        c'.assets.free_balance share c.pallet.collection_account_id
        ≡ c.assets.free_balance share c.pallet.collection_account_id + from_free
    others :
        (w : AccountId) → c'.assets.free_balance collected w ≡ c.assets.free_balance collected w
    issuance : c'.assets.total_issuance share ≡ c.assets.total_issuance share
    known : exists (c'.assets.symbols share) ≡ true
    opened : IsOpen collected c'.assets
    may_burn : check_permission share root PermissionType.burn c'.assets ≡ true

  move_lem :
      (from_free amount : Balance) (c : Chain Saving)
      → IsPayable from_free amount c.pallet.collection_account_id c.assets
      → Returns
          (transfer share who c.pallet.collection_account_id from_free c)
          λ _. HasMoved from_free c
  unfolding make_transfer_with_event check_permission
  move_lem from_free amount c h =
      let apart : (who == c.pallet.collection_account_id) ≡ false = ground (arith, h.apart) in
      rw
        (
          make_transfer_lem share who c.pallet.collection_account_id from_free c.assets
              h.shares_open.0 h.shares_open.1 h.apart h.funds h.bounded h.room,
          apart,
        )
        (record {
          pallet = refl;
          left = ground arith;
          got = ground arith;
          others = λ w. ground arith;
          issuance = refl;
          known = h.shares_open.0;
          opened = h.collected_open;
          may_burn = h.may_burn;
        })

  finish_lem :
      (iou : AssetId) (from_free amount : Balance) (c₀ c : Chain Saving)
      → IsPayable from_free amount c₀.pallet.collection_account_id c₀.assets
      → HasMoved from_free c₀ c
      → (list : LinkedMap (List ShareReleasePack))
      → Returns
          (finish_redeem
            (inner_hooks root env)
            iou
            who
            collected
            c₀.pallet.collection_account_id
            amount
            share
            from_free
            (put_list list c))
          λ _ c'.
            (c'.assets.free_balance share who + from_free ≡ c₀.assets.free_balance share who)
            × (c'.assets.free_balance collected who ≡ c₀.assets.free_balance collected who + amount)
            × (c'.assets.total_issuance share + from_free ≡ c₀.assets.total_issuance share)
            × (c'.pallet.share_unreleased_list ≡ list)
  unfolding finish_redeem Calls.burn check_permission make_transfer_with_event burn_free
      on_asset_burn
  finish_lem iou from_free amount c₀ c h m list = ground (
    arith,
    m.others who,
    m.others c₀.pallet.collection_account_id,
    ap (λ (s : Saving). s.collection_account_id) m.pallet,
  )

  -- The free shares are taken and burnt, the savings are paid out, and the packs of the phase are
  -- worth less by what was taken of them, the others as much as before.
  abbrev pub HasSettled :
      PhaseId
      → Deduct
      → Balance
      → List ShareReleasePack
      → AssetId
      → PhaseId
      → Chain Saving
      → Chain Saving
      → Type 0
  HasSettled phase d amount list a' phase' c c' =
      (c'.assets.free_balance share who + d.from_free ≡ c.assets.free_balance share who)
      × (c'.assets.free_balance collected who ≡ c.assets.free_balance collected who + amount)
      × (c'.assets.total_issuance share + d.from_free ≡ c.assets.total_issuance share)
      × (total_of a' phase' (get_or [] (lookup who c'.pallet.share_unreleased_list))
          ≡ total_of a' phase' list - (if a' == share && phase' == phase then d.from_locked else 0))

  -- The free shares and the packs are taken, the shares are burnt, and the savings are paid out.
  pub settle_lem :
      (iou : AssetId) (amount : Balance) (phase : PhaseId) (list : List ShareReleasePack)
      (d : Deduct) (c : Chain Saving) (a' : AssetId) (phase' : PhaseId)
      → IsPayable d.from_free amount c.pallet.collection_account_id c.assets
      → All IsMarked list
      → total_of share phase list < u128_mod
      → d.from_locked ≤ total_of share phase list
      → (d.from_locked ≡ total_of share phase list)
        ⊎ FillsTerms
            (collect share phase list nothing).left
            (total_of share phase list - d.from_locked)
      → Returns
          (settle_redeem
            (inner_hooks root env)
            iou
            who
            collected
            c.pallet.collection_account_id
            amount
            share
            phase
            list
            0
            d
            c)
          λ _. HasSettled phase d amount list a' phase' c
  unfolding settle_redeem wrapping_add
  settle_lem iou amount phase list d c a' phase' h marked small fits fills =
      Returns->>= _ (λ _. HasMoved d.from_free c) _
        (transfer share who c.pallet.collection_account_id d.from_free) c
        (move_lem d.from_free amount c h)
        λ _ c₁ m.
          Returns->>= _
            (λ nl c₂.
              (c₂ ≡ c₁)
              × (total_of a' phase' nl
                  ≡ total_of a' phase' list
                    - (if a' == share && phase' == phase then d.from_locked else 0)))
            _
            (aggregate_phase_unreleased list phase share who
              (some (BalanceChange.negative d.from_locked)))
            c₁
            (elim (aggregate_withdraws share phase list who d.from_locked c₁ a' phase' marked small
              fills) [ inl ok ↦ ok.1 | inr short ↦ absurd (omega (arith, short, fits)) ])
            λ nl c₂ w.
              let list' = insert who nl c₁.pallet.share_unreleased_list in
              let e : wrapping_add 0 d.from_free ≡ d.from_free =
                ground (arith, h.funds, h.bounded) in
              rw (w.0, e)
                (Returns_imp (λ _. HasSettled phase d amount list a' phase' c)
                  (finish_redeem (inner_hooks root env) iou who collected
                    c.pallet.collection_account_id amount share d.from_free (put_list list' c₁))
                  (finish_lem iou d.from_free amount c c₁ h m list')
                  (λ _ c' r. (
                    r.0,
                    r.1,
                    r.2,
                    rw (r.3, lookup-insert who who nl c₁.pallet.share_unreleased_list)
                        (ground (arith, w.1)),
                  )))
