-- ===== src/Assets/Ledger.antt =====
-- What rio-assets promises, without its storage: a ledger of what each account holds, in which free
-- and reserved funds are not told apart, and which permissions, restrictions and events do not enter.
pub mod Effects
pub mod Dispatched
pub mod Refined
use riochain.Prelude.{ℕ, ◌+◌, ◌-◌, ◌≤◌, ◌<◌, ◌≡◌, refl, Bool, true, false, Option, none, some}
use riochain.Prelude.Words.{u128_mod}
use riochain.Prelude.Maps.{update, update_at, exists}
use riochain.Assets.Types.{AccountId, AssetId, Balance, Assets}
use riochain.Assets.Calls.{Origin}
use riochain.Assets.Runs.{Call}

pub record Ledger : Type 0 where
  pub holding : AssetId → AccountId → Balance
  pub issuance : AssetId → Balance
  pub known : AssetId → Bool

abbrev pub ledger : Assets → Ledger
ledger s = record {
  holding = λ a who. s.free_balance a who + s.reserved_balance a who;
  issuance = s.total_issuance;
  known = λ a. exists (s.symbols a);
}

-- What a call may do to the ledger.
pub data Effect : Type 0 where
  nothing : Effect
  moved : AssetId → AccountId → AccountId → Balance → Effect
  minted burned created : AssetId → AccountId → Balance → Effect

abbrev pub raise :
    (AssetId → AccountId → Balance) → AssetId → AccountId → Balance → AssetId → AccountId → Balance
raise holding a who n = update_at holding a who (holding a who + n)

abbrev pub lower :
    (AssetId → AccountId → Balance) → AssetId → AccountId → Balance → AssetId → AccountId → Balance
lower holding a who n = update_at holding a who (holding a who - n)

abbrev pub apply : Effect → Ledger → Ledger
apply nothing l = l
apply (moved a from to n) l = record l { holding = raise (lower l.holding a from n) a to n }
apply (minted a to n) l = record l {
  holding = raise l.holding a to n;
  issuance = update l.issuance a (l.issuance a + n);
}
apply (burned a who n) l = record l {
  holding = lower l.holding a who n;
  issuance = update l.issuance a (l.issuance a - n);
}
apply (created a who n) l = record {
  holding = update_at l.holding a who n;
  issuance = update l.issuance a n;
  known = update l.known a true;
}

-- When the ledger allows it.
abbrev pub IsPossible : Effect → Ledger → Type 0
IsPossible nothing l = Unit
IsPossible (moved a from to n) l = n ≤ l.holding a from
IsPossible (minted a to n) l = (l.known a ≡ true) × (l.issuance a + n < u128_mod)
IsPossible (burned a who n) l = (n ≤ l.holding a who) × (n ≤ l.issuance a)
IsPossible (created a who n) l = l.known a ≡ false

-- The ledgers that possible effects lead to.
pub data Reach : Ledger → Ledger → Type 0 where
  done : {l : Ledger} → Reach l l
  next : {l l' : Ledger} → (e : Effect) → IsPossible e l → Reach (apply e l) l' → Reach l l'

-- What a call that returns has done.
abbrev pub effect_of : AccountId → Option AccountId → Call → Effect
effect_of root signer (Call.create n a symbol) = created a root n
effect_of root none (Call.transfer a to n) = nothing
effect_of root (some who) (Call.transfer a to n) = moved a who to n
effect_of root signer (Call.mint a to n) = minted a to n
effect_of root signer (Call.burn a who n) = burned a who n
effect_of root signer (Call.set_reserve a who n) = nothing
effect_of root signer (Call.set_unreserve a who n) = nothing
effect_of root signer (Call.update_permission a p) = nothing
effect_of root signer (Call.update_restriction a r not_allow) = nothing
