-- ===== src/ChainSpec/Tests.antt =====
-- The theorems on the chains, for keys that are the lengths of their texts: Alice is account 5, Eve,
-- who collects the fees, 3, and the vault of the bridge 14. The base fee alone is charged.
use Prim.Native.String
use riochain.Prelude.{◌⊎◌, inl, inr, ◌≡◌, refl, none, some, List, [], ◌∷◌, arith, true, false, ℕ}
use riochain.Prelude.Outcome.{ok, err, Returns, ◌>>◌}
use riochain.Prelude.Words.{saturating_add, saturating_mul, checked_add, wrapping_add}
use riochain.Assets.Module.{
  should_not_exist, should_exist, create_asset, check_permission, mint_free,
}
use riochain.Assets.Calls.{update_restriction, mint}
use riochain.Assets.Genesis.{build, build_asset, forbid, endow, endowed_sum}
use riochain.Bridge.Module.{
  deposit, simple_deposit_with_event, hold_deposit_with_event, is_tx_seen, has_auth, must_check,
}
use riochain.Bridge.Dispatch
use riochain.Runtime.Calls
use riochain.Assets.Types.{AccountId, rfuel}
use riochain.Assets.Calls.{root_origin, signed_by}
use riochain.Assets.Runs
use riochain.Assets.Runs.{settle, IsSigned}
use riochain.Bridge.Dispatch.{BridgeCall}
use riochain.Payment.{DispatchInfo, compute_fee}
use riochain.Runtime.Types.{Framework}
use riochain.Runtime.Calls.{
  Step, initialized, charged, dispatched, finalized, rio_assets, rio_bridge, rio_price_report, run,
  step,
}
use riochain.Runtime.Sound.{IsSound, AreAllowed}
use riochain.Runtime.Genesis.{build_storage, build_bridge, empty}
use riochain.ChainSpec.Alternative.{Alternative, unsupported, str_eq, get_alternative_from_id, from}
use riochain.ChainSpec.Genesis.{Keys, testnet_genesis}
use riochain.ChainSpec.Spec.{load, genesis}
use riochain.ChainSpec.Ids.{id_of, Lists, get_alternative_from_id-id_of}
use riochain.ChainSpec.Loading.{Environment, load_spec, load_spec_file}
use riochain.ChainSpec.Starting.{held_by, AreListed, chain-IsSound}

abbrev keys : Keys
keys = record {
  get_aura_from_seed = String.len;
  get_grandpa_from_seed = String.len;
  get_account_id_from_seed = String.len;
  aura_of_hex = String.len;
  grandpa_of_hex = String.len;
  account_of_hex = String.len;
}

abbrev framework : Framework ℕ
framework = record {
  unit_weight_to_fee = λ w. 0;
  unit_multiplier_update = λ w m. m;
  saturated_multiply_accumulate = λ m fee. fee;
  initial_multiplier = 0;
  ensure_member = λ o. o.signer;
}

abbrev accounts : List AccountId
accounts = 3 ∷ 5 ∷ 14 ∷ []

abbrev normal : DispatchInfo
normal = record { weight = 7; class = 0; pays_fee = true }

-- A deposit that Alice reports, a mint of fuel by the root, a charge to Alice, a price.
abbrev steps : List Step
steps =
    initialized 1
    ∷ dispatched (signed_by 5) (rio_bridge (BridgeCall.deposit 5 60 7))
    ∷ dispatched root_origin (rio_assets (Runs.Call.mint rfuel 5 30000000))
    ∷ charged 5 normal 32 0
    ∷ dispatched (signed_by 5) (rio_price_report 8000)
    ∷ finalized 10
    ∷ []

listed : AreListed accounts (held_by (load keys Alternative.development).genesis)
unfolding load genesis testnet_genesis
listed = (refl, (refl, (refl, tt)))

allowed : AreAllowed framework accounts steps (
    settle
      (empty framework)
      (build_storage (load keys Alternative.development).genesis (empty framework)))
unfolding build_storage load genesis testnet_genesis compute_fee build build_asset create_asset
    should_not_exist should_exist forbid endow endowed_sum update_restriction step Calls.dispatch
    Runs.dispatch Dispatch.dispatch mint mint_free deposit simple_deposit_with_event
    hold_deposit_with_event is_tx_seen has_auth must_check check_permission checked_add wrapping_add
    build_bridge saturating_add saturating_mul
allowed = (tt, ((refl, refl), ((refl, refl), ((refl, ground arith), ((refl, tt), (tt, tt))))))

chain-IsSound_example :
    Returns
      ((build_storage (load keys Alternative.development).genesis >> run framework steps)
        (empty framework))
      λ _. IsSound accounts rfuel
chain-IsSound_example =
    chain-IsSound keys accounts framework Alternative.development rfuel steps (ground arith) listed
      allowed

abbrev order : List Alternative
order =
    Alternative.beta ∷ Alternative.testnet ∷ Alternative.development ∷ Alternative.local_testnet
    ∷ []

complete : (a : Alternative) → Lists order a
complete Alternative.beta = inl refl
complete Alternative.testnet = inr (inl refl)
complete Alternative.development = inr (inr (inl refl))
complete Alternative.local_testnet = inr (inr (inr (inl refl)))

get_alternative_from_id-id_of_example :
    get_alternative_from_id {S = ℕ} order "moniker" 7 ≡ ok Alternative.testnet 7
get_alternative_from_id-id_of_example =
    get_alternative_from_id-id_of order Alternative.testnet 7 (complete Alternative.testnet)

-- Every file holds the specification of the test network.
abbrev env : Environment
env = record {
  order = order;
  from_json_file = λ path. inr (load keys Alternative.testnet);
  address_format = λ text. some 42;
}

from_path : from "rio.json" ≡ none
unfolding from
from_path = refl

load_spec_file_example :
    ((a : Alternative) × (str_eq (id_of a) (load keys Alternative.testnet).id ≡ true)
      × (load_spec env keys "rio.json" 0 ≡ ok none 42))
    ⊎ (((a : Alternative) → str_eq (id_of a) (load keys Alternative.testnet).id ≡ false)
        × (load_spec env keys "rio.json" 0
            ≡ err (unsupported (load keys Alternative.testnet).id) 0))
load_spec_file_example =
    load_spec_file env keys "rio.json" (load keys Alternative.testnet) 42 0 from_path refl refl
      complete
