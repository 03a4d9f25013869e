-- ===== src/Bridge/Dispatch.antt =====
-- The dispatchable calls of rio-bridge/src/lib.rs as one type.
use riochain.Prelude.{◌≡◌, true, List, [], ◌∷◌, contains}
use riochain.Assets.Types.{AccountId, Balance}
use riochain.Assets.Calls.{Origin, Trait, Chain}
use riochain.Assets.Runs.{settle}
use riochain.Bridge.Types.{TxHash, Auth, Bridge}
use riochain.Bridge.Module
use riochain.Bridge.Module.{
  Call, simple_deposit_with_event, hold_deposit_with_event, forget, release, set_history,
}

-- The `Call` that `decl_module!` derives, one constructor for each dispatchable function.
pub data BridgeCall : Type 0 where
  pause resume : BridgeCall
  delete_admin mark_black mark_white : AccountId → BridgeCall
  update_admin : AccountId → Auth → BridgeCall
  deposit : AccountId → Balance → TxHash → BridgeCall
  withdraw withdraw_finish refund : AccountId → Balance → BridgeCall

unfoldable pub dispatch : Trait Bridge → Origin → BridgeCall → Call
dispatch t origin BridgeCall.pause = Module.pause origin
dispatch t origin BridgeCall.resume = Module.resume origin
dispatch t origin (BridgeCall.delete_admin who) = Module.delete_admin origin who
dispatch t origin (BridgeCall.update_admin who auth) = Module.update_admin origin who auth
dispatch t origin (BridgeCall.deposit who amount tx) = Module.deposit t origin who amount tx
dispatch t origin (BridgeCall.refund who amount) = Module.refund origin who amount
dispatch t origin (BridgeCall.withdraw_finish who amount) = Module.withdraw_finish origin who amount
dispatch t origin (BridgeCall.withdraw who amount) = Module.withdraw origin who amount
dispatch t origin (BridgeCall.mark_black who) = Module.mark_black origin who
dispatch t origin (BridgeCall.mark_white who) = Module.mark_white t origin who

-- Calls in their order, each from the storage that the one before it left.
unfoldable pub run : Trait Bridge → List (Origin × BridgeCall) → Chain Bridge → Chain Bridge
unfolding dispatch
run t [] c = c
run t ((origin, call) ∷ rest) c = run t rest (settle c (dispatch t origin call c))

-- The account of a call whose funds move is listed.
abbrev pub IsListed : List AccountId → BridgeCall → Type 0
IsListed accounts (BridgeCall.deposit who amount tx) = contains accounts who ≡ true
IsListed accounts (BridgeCall.refund who amount) = contains accounts who ≡ true
IsListed accounts (BridgeCall.withdraw who amount) = contains accounts who ≡ true
IsListed accounts _ = Unit
