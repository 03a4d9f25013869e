-- ===== src/Saving/Conserved.antt =====
-- A change of phases mints what it takes out of the packs, and no more.
use riochain.Prelude.{◌+◌, ◌≡◌, refl, Option, none, some, List, [], ◌∷◌, arith, All}
use riochain.Prelude.Words.{checked_add}
use riochain.Prelude.Outcome.{Ends, Ends->>=, Ends-unwrap, unwrap}
use riochain.Assets.Types.{AccountId, AssetId, Balance}
use riochain.Assets.Module.{mint_free}
use riochain.Assets.Calls
use riochain.Assets.Calls.{Chain, root_origin, Trait}
use riochain.Saving.Types.{ShareReleasePack, Saving, Env}
use riochain.Saving.Packs.{release}
use riochain.Saving.Minting.{mint_share, mint_pack}
use riochain.Saving.Phases.{release_list}
use riochain.Saving.Shares.{pause_at, add_shares, add_circulation, on_asset_mint}
use riochain.Saving.Hooks.{inner_hooks}
use riochain.Saving.Schedule.{worth, paid, IsMarked, release_step, worth_spent}

abbrev pub worths : List ShareReleasePack → Balance
worths [] = 0
worths (p ∷ rest) = worth p + worths rest

module _ (root : AccountId) (env : Env) (share : AssetId) where
  abbrev issued : Chain Saving → Balance
  issued c = c.assets.total_issuance share

  mint_lem :
      (to : AccountId) (amount : Balance) (c : Chain Saving)
      → Ends
          (Calls.mint (inner_hooks root env) root_origin share to amount c)
          (λ _ c'. issued c' ≡ issued c + amount)
          (λ _. Unit)
  unfolding Calls.mint mint_free checked_add on_asset_mint add_shares add_circulation pause_at
  mint_lem to amount c = ground arith

  mint_share_lem :
      (p : ShareReleasePack) (released : Option Balance) (c : Chain Saving)
      → p.asset_id ≡ share
      → Ends
          (mint_share (inner_hooks root env) p released c)
          (λ _ c'. issued c' ≡ issued c + paid released)
          (λ _. Unit)
  mint_share_lem p none c own = omega arith
  mint_share_lem p (some balance) c own = rw own (
      Ends->>= _ _ _ (λ _ c'. issued c' ≡ issued c + balance)
        (Calls.mint (inner_hooks root env) root_origin share p.owner balance) c
        (mint_lem p.owner balance c) (λ _ c' h. h))

  -- What the account's packs were worth is what they are worth now with what was minted.
  abbrev pub IsReleased :
      Chain Saving → List ShareReleasePack → List ShareReleasePack → Chain Saving → Type 0
  IsReleased c list left c' = All IsMarked left × (issued c' + worths left ≡ issued c + worths list)

  mint_pack_lem :
      (p : ShareReleasePack) (c : Chain Saving)
      → p.asset_id ≡ share
      → IsMarked p
      → Ends
          (unwrap (mint_pack (inner_hooks root env) p) c)
          (λ minted c'. IsMarked minted.1 × (issued c' + worth minted.1 ≡ issued c + worth p))
          (λ _. ⊥)
  unfolding mint_pack
  mint_pack_lem p c own marked =
      let step = release_step p marked in
      let P : Balance × ShareReleasePack → Chain Saving → Type 0 =
        λ minted c'. IsMarked minted.1 × (issued c' + worth minted.1 ≡ issued c + worth p) in
      Ends-unwrap P (mint_pack (inner_hooks root env) p) c (
        Ends->>= _ P (λ _. Unit) (λ _ c'. issued c' ≡ issued c + paid (release p).0)
          (mint_share (inner_hooks root env) p (release p).0) c
          (mint_share_lem p (release p).0 c own) (λ _ c' h. (step.2, omega (arith, step.0, h))))

  -- A change of phases conserves shares: what is minted for an account is what its packs are worth
  -- less, and the packs that stay are marked right. All of them are marked right at the start, and
  -- hold the asset. Unless it panics, as it does where a mint fails, the call returns. The pallet's
  -- own hooks run.
  pub release_list_conserves :
      (list : List ShareReleasePack) (c : Chain Saving)
      → All (λ (p : ShareReleasePack). p.asset_id ≡ share) list
      → All IsMarked list
      → Ends (release_list (inner_hooks root env) list c) (IsReleased c list) (λ _. ⊥)
  unfolding release_list
  release_list_conserves [] c own marked = (tt, refl)
  release_list_conserves (p ∷ rest) c own marked =
      Ends->>= _ _ _
        (λ minted c'. IsMarked minted.1 × (issued c' + worth minted.1 ≡ issued c + worth p))
        (unwrap (mint_pack (inner_hooks root env) p)) c (mint_pack_lem p c own.0 marked.0)
        λ minted c' h.
          Ends->>= _ _ _ (IsReleased c' rest) (release_list (inner_hooks root env) rest) c'
            (release_list_conserves rest c' own.1 marked.1)
            (λ left c'' g. ground (arith, worth_spent minted.1))
