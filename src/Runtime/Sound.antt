-- ===== src/Runtime/Sound.antt =====
-- Blocks of the runtime keep its assets backed, and nothing in them panics.
use riochain.Prelude.{ℕ, ◌+◌, ◌%◌, ◌^◌, ◌<◌, ◌≡◌, true, List, [], ◌∷◌, arith, contains, IsDistinct}
use riochain.Prelude.Words.{u128_mod}
use riochain.Prelude.Outcome.{
  Outcome, ok, err, panic, Action, Returns, Leaves, Leaves->>=, ignore, pure, ◌>>◌,
}
use riochain.Assets.Types.{AccountId, AssetId, Balance, rfuel}
use riochain.Assets.Calls.{Origin}
use riochain.Assets.Supply.{IsBacked}
use riochain.Assets.Runs
use riochain.Assets.Runs.{settle, IsSigned}
use riochain.Assets.Runs.Backing
use riochain.Bridge.Dispatch
use riochain.Bridge.Sound
use riochain.Assets.Currency.{rfuel_provider}
use riochain.Oracle.{Oracle}
use riochain.Payment.{DispatchInfo, compute_fee, validate}
use riochain.Payment.Backing.{validate-IsBacked, IsKept}
use riochain.Price
use riochain.Price.{Prices}
use riochain.Price.Ending.{report_ends, on_finalize_returns}
use riochain.Fee
use riochain.Runtime.Types.{
  Framework, Runtime, root_key, assets_trait, payment, Leaves-on_chain, oracle, on_change,
}
use riochain.Runtime.Calls.{
  RuntimeCall, rio_assets, rio_fee_set_account, rio_price_report, rio_bridge, Step, initialized,
  charged, dispatched, rekeyed, finalized, dispatch, charge, on_finalize, step, run, on_rio_price,
}

-- The accounts that a call names are listed.
abbrev pub IsListed : List AccountId → RuntimeCall → Type 0
IsListed accounts (rio_assets call) = Runs.IsListed accounts call
IsListed accounts (rio_fee_set_account who) = contains accounts who ≡ true
IsListed accounts (rio_price_report price) = Unit
IsListed accounts (rio_bridge call) = Dispatch.IsListed accounts call

module _ {M : Type 0} (accounts : List AccountId) (asset : AssetId) where
  -- The asset is backed; the root key, the fee account, the vault of the bridge and the accounts
  -- whose deposits wait are listed.
  abbrev pub IsSound : Runtime M → Type 0
  IsSound r =
      (contains accounts r.sudo_key ≡ true)
      × (contains accounts r.rio_fee.account_id ≡ true)
      × Sound.IsSound accounts asset (record { assets = r.rio_assets; pallet = r.rio_bridge })

module _ {M : Type 0} (framework : Framework M) (accounts : List AccountId) where
  -- The accounts of the step are listed, and a charge has room for twice its fee in the issuance of
  -- fuel.
  abbrev pub IsAllowed : Step → Runtime M → Type 0
  IsAllowed (initialized height) r = Unit
  IsAllowed (charged who info len tip) r =
      let fee = compute_fee (payment framework) r.next_fee_multiplier (len % 2 ^ 32) info tip in
      (contains accounts who ≡ true) × (r.rio_assets.total_issuance rfuel + fee + fee < u128_mod)
  IsAllowed (dispatched origin call) r = IsSigned accounts origin × IsListed accounts call
  IsAllowed (rekeyed key) r = contains accounts key ≡ true
  IsAllowed (finalized current_weight) r = Unit

  -- Each step is allowed where it starts.
  abbrev pub AreAllowed : List Step → Runtime M → Type 0
  AreAllowed [] r = Unit
  AreAllowed (s ∷ rest) r = IsAllowed s r × AreAllowed rest (settle r (step framework s r))

priced :
    {M : Type 0} (accounts : List AccountId) (asset : AssetId) (o : Outcome (Prices Oracle) Unit)
    (r : Runtime M)
    → Leaves o (λ _. Unit)
    → IsSound accounts asset r
    → Leaves
        (elim o as (λ _. Outcome (Runtime M) Unit) [
          | ok a p ↦ ok a (record r { rio_price = p })
          | err e p ↦ err e (record r { rio_price = p })
          | panic ↦ panic
        ])
        (IsSound accounts asset)
priced accounts asset (ok a p) r ends h = h
priced accounts asset (err e p) r ends h = h
priced accounts asset panic r ends h = absurd ends

module _ {M : Type 0} (framework : Framework M) (accounts : List AccountId)
    (distinct : IsDistinct accounts) (asset : AssetId) where
  abbrev StaysSound : Runtime M → Type 0
  StaysSound = IsSound accounts asset

  -- The prices are apart from what is sound.
  on_rio_price-IsSound :
      (m : Action (Prices Oracle) Unit) (r : Runtime M)
      → Leaves (m r.rio_price) (λ _. Unit)
      → StaysSound r
      → Leaves (on_rio_price m r) StaysSound
  on_rio_price-IsSound m r ends h = priced accounts asset (m r.rio_price) r ends h

  dispatch-IsSound :
      (origin : Origin) (call : RuntimeCall) (r : Runtime M)
      → IsSigned accounts origin
      → IsListed accounts call
      → StaysSound r
      → Leaves (dispatch framework origin call r) StaysSound
  unfolding dispatch
  dispatch-IsSound origin (rio_assets call) r hs hl h =
      Leaves-on_chain (λ r. tt) (λ _ r. r) (Runs.dispatch (assets_trait r) origin call)
        (λ c. IsBacked accounts asset c.assets) StaysSound r
        (Backing.dispatch-IsBacked (root_key r) accounts distinct asset origin call _ h.0 hs hl
          h.2.0)
        (λ c k. (h.0, h.1, (k, h.2.1, h.2.2)))
  dispatch-IsSound origin (rio_fee_set_account who) r hs hl h =
      unfold Fee.set_account in ground arith
  dispatch-IsSound origin (rio_price_report price) r hs hl h =
      on_rio_price-IsSound
        (Price.report (oracle r) on_change (framework.ensure_member origin) price) r
        (report_ends (oracle r) on_change (framework.ensure_member origin) price r.rio_price) h
  dispatch-IsSound origin (rio_bridge call) r hs hl h =
      Leaves-on_chain (λ r. r.rio_bridge) (λ b r. record r { rio_bridge = b })
        (Dispatch.dispatch (assets_trait r) origin call) (Sound.IsSound accounts asset) StaysSound r
        (Sound.dispatch-IsSound (root_key r) accounts distinct asset origin call _ hl h.2)
        (λ c k. (h.0, h.1, k))

  charge-IsSound :
      (who : AccountId) (info : DispatchInfo) (len : ℕ) (tip : Balance) (r : Runtime M)
      → IsAllowed framework accounts (charged who info len tip) r
      → StaysSound r
      → Leaves (charge framework who info len tip r) StaysSound
  unfolding charge
  charge-IsSound who info len tip r allowed h =
      Leaves-on_chain (λ r. r.rio_fee) (λ f r. record r { rio_fee = f })
        (validate (payment framework) r.next_fee_multiplier rfuel_provider who info len tip)
        (IsKept accounts asset r.rio_fee.account_id) StaysSound r
        (validate-IsBacked accounts distinct asset who (payment framework) r.next_fee_multiplier
          info len tip (record { assets = r.rio_assets; pallet = r.rio_fee }) allowed.0 h.1
          allowed.1 h.2.0)
        (λ c k. (h.0, rw k.1 h.1, (k.0, h.2.1, h.2.2)))

  on_finalize-IsSound :
      (current_weight : ℕ) (r : Runtime M)
      → StaysSound r
      → Leaves (on_finalize framework current_weight r) StaysSound
  unfolding on_finalize
  on_finalize-IsSound current_weight r h =
      on_rio_price-IsSound (Price.on_finalize (oracle r) on_change) _
        (on_finalize_returns (oracle r) on_change r.rio_price) h

  step-IsSound :
      (s : Step) (r : Runtime M)
      → IsAllowed framework accounts s r
      → StaysSound r
      → Leaves (step framework s r) StaysSound
  unfolding step
  step-IsSound (initialized height) r allowed h = (h.0, h.1, h.2)
  step-IsSound (charged who info len tip) r allowed h =
      Leaves->>= (λ _. pure tt) StaysSound StaysSound (charge framework who info len tip) r
        (charge-IsSound who info len tip r allowed h) (λ r' h'. h') (λ _ r' h'. h')
  step-IsSound (dispatched origin call) r allowed h =
      dispatch-IsSound origin call r allowed.0 allowed.1 h
  step-IsSound (rekeyed key) r allowed h = (allowed, h.1, h.2)
  step-IsSound (finalized current_weight) r allowed h = on_finalize-IsSound current_weight r h

  run_after :
      (o : Outcome (Runtime M) Unit) (r : Runtime M) (rest : List Step)
      → Leaves o StaysSound
      → AreAllowed framework accounts rest (settle r o)
      → ((r' : Runtime M)
          → AreAllowed framework accounts rest r'
          → StaysSound r'
          → Returns (run framework rest r') (λ _. StaysSound))
      → Returns ((ignore (λ (_ : Runtime M). o) >> run framework rest) r) (λ _. StaysSound)
  run_after (ok a s) r rest h allowed ih = ih s allowed h
  run_after (err e s) r rest h allowed ih = ih s allowed h
  run_after panic r rest h allowed ih = absurd h

  pub run-IsSound :
      (steps : List Step) (r : Runtime M)
      → AreAllowed framework accounts steps r
      → StaysSound r
      → Returns (run framework steps r) (λ _. StaysSound)
  unfolding run
  run-IsSound [] r allowed h = h
  run-IsSound (s ∷ rest) r allowed h =
      run_after (step framework s r) r rest (step-IsSound s r allowed.0 h) allowed.1
        (λ r' allowed' h'. run-IsSound rest r' allowed' h')
