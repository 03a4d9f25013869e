-- ===== src/Assets/Runs.antt =====
-- Sequences of calls, by anyone: a call that fails keeps what it wrote, and the next one runs.
pub mod Backing
pub mod Authority
use riochain.Prelude.{
  Option, some, ℕ, ◌-◌, ◌≤◌, ◌≢◌, ◌<◌, ◌≡◌, refl, Bool, true, none, List, [], ◌∷◌, arith, contains,
  IsDistinct, All,
}
use riochain.Prelude.Words.{u128_mod}
use riochain.Prelude.Maps.{get_or, update, sum_of-update, le-sum_of}
use riochain.Prelude.Outcome.{Outcome, ok, err, panic, Action, Leaves, Keeps}
use riochain.Assets.Types.{AccountId, AssetId, Balance, PermissionsV1, Restriction, Assets}
use riochain.Assets.Calls
use riochain.Assets.Calls.{Chain, Origin, no_hooks, Trait}
use riochain.Assets.Supply.{
  IsBacked, create_asset-IsBacked, make_transfer-IsBacked, mint_free-IsBacked, burn_free-IsBacked,
  reserve-IsBacked, unreserve-IsBacked,
}

-- The `Call` that `decl_module!` derives, one constructor for each dispatchable function.
pub data Call : Type 0 where
  create : Balance → AssetId → List ℕ → Call
  transfer mint burn set_reserve set_unreserve : AssetId → AccountId → Balance → Call
  update_permission : AssetId → PermissionsV1 → Call
  update_restriction : AssetId → Restriction → Bool → Call

abbrev pub contains_signer : List AccountId → Option AccountId → Bool
contains_signer accounts none = true
contains_signer accounts (some who) = contains accounts who

-- The state after a call: what it wrote before an `Err` stays, and a panicking call is left out of
-- the block.
abbrev pub settle : {S A : Type 0} → S → Outcome S A → S
settle s (ok _ s') = s'
settle s (err _ s') = s'
settle s panic = s

pub Leaves-settle :
    {S A : Type 0} (s : S) (o : Outcome S A) (P : S → Type 0) → Leaves o P → P (settle s o)
Leaves-settle s (ok _ s') P h = h
Leaves-settle s (err _ s') P h = h
Leaves-settle s panic P h = absurd h

pub Keeps-settle :
    {S A : Type 0} (s : S) (o : Outcome S A) (P : S → Type 0) → P s → Keeps o P → P (settle s o)
Keeps-settle s (ok _ s') P k h = h
Keeps-settle s (err _ s') P k h = h
Keeps-settle s panic P k h = k

module _ {X : Type 0} (t : Trait X) where
  unfoldable pub dispatch : Origin → Call → Action (Chain X) Unit
  dispatch origin (Call.create balance a symbol) = Calls.create t origin balance a symbol
  dispatch origin (Call.transfer a to amount) = Calls.transfer t origin a to amount
  dispatch origin (Call.mint a to amount) = Calls.mint t origin a to amount
  dispatch origin (Call.burn a to amount) = Calls.burn t origin a to amount
  dispatch origin (Call.set_reserve a who amount) = Calls.set_reserve t origin a who amount
  dispatch origin (Call.set_unreserve a who amount) = Calls.set_unreserve t origin a who amount
  dispatch origin (Call.update_permission a p) = Calls.update_permission t origin a p
  dispatch origin (Call.update_restriction a r not_allow) =
      Calls.update_restriction t origin a r not_allow

  unfoldable pub run : List (Origin × Call) → Chain X → Chain X
  unfolding dispatch
  run [] c = c
  run ((origin, call) ∷ rest) c = run rest (settle c (dispatch origin call c))

-- The accounts that a call names are listed, and its amount is a `u128`.
abbrev pub IsListed : List AccountId → Call → Type 0
IsListed accounts (Call.create balance a symbol) = balance < u128_mod
IsListed accounts (Call.transfer a to amount) = contains accounts to ≡ true
IsListed accounts (Call.mint a to amount) = contains accounts to ≡ true
IsListed accounts (Call.burn a to amount) = contains accounts to ≡ true
IsListed accounts (Call.set_reserve a who amount) = contains accounts who ≡ true
IsListed accounts (Call.set_unreserve a who amount) = contains accounts who ≡ true
IsListed accounts (Call.update_permission a p) = Unit
IsListed accounts (Call.update_restriction a r not_allow) = Unit

abbrev pub IsSigned : List AccountId → Origin → Type 0
IsSigned accounts origin = contains_signer accounts origin.signer ≡ true
