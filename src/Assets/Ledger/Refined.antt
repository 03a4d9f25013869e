-- ===== src/Assets/Ledger/Refined.antt =====
-- The calls of rio-assets refine the ledger: a call that returns has the effect that the ledger
-- states, and a sequence of calls leads where possible effects lead.
use riochain.Prelude.{◌≡◌, true, List, [], ◌∷◌, All, contains, IsDistinct}
use riochain.Prelude.Outcome.{Outcome, ok, err, panic, Ends, Leaves}
use riochain.Assets.Types.{AccountId, AssetId}
use riochain.Assets.Calls.{Chain, Origin, no_hooks}
use riochain.Assets.Supply.{IsBacked}
use riochain.Assets.Runs.{Call, dispatch, run, settle, IsSigned, IsListed}
use riochain.Assets.Runs.Backing.{dispatch-IsBacked}
use riochain.Assets.Ledger.{Ledger, ledger, Effect, apply, IsPossible, effect_of, Reach, done, next}
use riochain.Assets.Ledger.Effects.{AgreeAt}
use riochain.Assets.Ledger.Dispatched.{DoesAt, dispatch_at}

-- Ledgers that agree everywhere are the same.
agree_ext : (l l' : Ledger) → ((b : AssetId) (x : AccountId) → AgreeAt b x l l') → l ≡ l'
agree_ext l l' h = λ i. record {
  holding = λ b x. (h b x).0 i;
  issuance = λ b. (h b 0).1 i;
  known = λ b. (h b 0).2 i;
}

-- A call that returns has had the effect, which was possible; one that fails had none.
abbrev pub Does : {X : Type 0} → Effect → Chain X → Outcome (Chain X) Unit → Type 0
Does e c o =
    Ends o (λ _ c'. IsPossible e (ledger c.assets) × (ledger c'.assets ≡ apply e (ledger c.assets)))
      (λ c'. ledger c'.assets ≡ ledger c.assets)

everywhere :
    {X : Type 0} (e : Effect) (c : Chain X) (o : Outcome (Chain X) Unit)
    → ((b : AssetId) (x : AccountId) → DoesAt b x e c o)
    → Does e c o
everywhere e c (ok a c') h = ((h 0 0).0, agree_ext _ _ (λ b x. (h b x).1))
everywhere e c (err m c') h = agree_ext _ _ h
everywhere e c panic h = tt

at_every_asset :
    {X : Type 0} (accounts : List AccountId) (o : Outcome (Chain X) Unit)
    → ((a : AssetId) → Leaves o (λ c. IsBacked accounts a c.assets))
    → Leaves o (λ c. (a : AssetId) → IsBacked accounts a c.assets)
at_every_asset accounts (ok a c) h = h
at_every_asset accounts (err e c) h = h
at_every_asset accounts panic h = h 0

module _ {X : Type 0} (root : AccountId) (accounts : List AccountId)
    (distinct : IsDistinct accounts) where
  -- A call that returns changes the ledger by its effect, which was possible, and one that fails
  -- leaves the ledger as it was. The listed accounts are distinct, and the root key, the signer and
  -- the accounts that the call names are among them; a created asset gets a balance that is a
  -- `u128`; every asset is backed before the call; and the asset hooks do nothing. A panicking call
  -- is left out.
  pub dispatch-Does :
      (origin : Origin) (call : Call) (c : Chain X)
      → contains accounts root ≡ true
      → IsSigned accounts origin
      → IsListed accounts call
      → ((a : AssetId) → IsBacked accounts a c.assets)
      → Does (effect_of root origin.signer call) c (dispatch (no_hooks root) origin call c)
  dispatch-Does origin call c hr hs hl h =
      everywhere (effect_of root origin.signer call) c (dispatch (no_hooks root) origin call c)
        (λ b x. dispatch_at root accounts distinct b x origin call c hr hs hl h)

  reach_after :
      (e : Effect) (c : Chain X) (o : Outcome (Chain X) Unit) (rest : List (Origin × Call))
      → Does e c o
      → Leaves o (λ c'. (a : AssetId) → IsBacked accounts a c'.assets)
      → ((c' : Chain X)
          → ((a : AssetId) → IsBacked accounts a c'.assets)
          → Reach (ledger c'.assets) (ledger (run (no_hooks root) rest c').assets))
      → Reach (ledger c.assets) (ledger (run (no_hooks root) rest (settle c o)).assets)
  reach_after e c (ok a c') rest does backed ih = next e does.0 (rw (← does.1) (ih c' backed))
  reach_after e c (err m c') rest does backed ih = rw (← does) (ih c' backed)
  reach_after e c panic rest does backed ih = absurd backed

  -- Any sequence of calls, by any origins, failing or not, leads from the ledger of the storage to
  -- one that possible effects lead to: transfers of what the sender holds, mints that fit, burns of
  -- what is held, creations of unknown assets. The root key, the signers and the accounts that the
  -- calls name are listed, no account twice, a created asset gets a balance that is a `u128`, every
  -- asset is backed at the start, and the asset hooks do nothing.
  pub run-Reach :
      (calls : List (Origin × Call)) (c : Chain X)
      → contains accounts root ≡ true
      → All (λ e. IsSigned accounts e.0 × IsListed accounts e.1) calls
      → ((a : AssetId) → IsBacked accounts a c.assets)
      → Reach (ledger c.assets) (ledger (run (no_hooks root) calls c).assets)
  unfolding run
  run-Reach [] c hr hl h = done
  run-Reach ((origin, call) ∷ rest) c hr hl h =
      let o = dispatch (no_hooks root) origin call c in
      reach_after (effect_of root origin.signer call) c o rest
        (dispatch-Does origin call c hr hl.0.0 hl.0.1 h)
        (at_every_asset accounts o
          (λ a. dispatch-IsBacked root accounts distinct a origin call c hr hl.0.0 hl.0.1 (h a)))
        (λ c' h'. run-Reach rest c' hr hl.1 h')
