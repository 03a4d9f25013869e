-- ===== src/ChainSpec/Alternative.antt =====
-- `Alternative` of src/chain_spec.rs, with its names and ids.
use Prim.Native.String
use Prim.Native.Nat.{Ordering}
use riochain.Prelude.{Bool, true, false, Option, none, some, String, List, [], ◌∷◌, if◌then◌else◌}
use riochain.Prelude.Outcome.{Action, pure, fail}

pub data Alternative : Type 0 where
  development local_testnet testnet beta : Alternative

abbrev pub str_eq : String → String → Bool
str_eq a b = elim (String.compare a b) [ Ordering.eq ↦ true | _ ↦ false ]

-- The map CHAIN_TYPE: the name and the id.
abbrev pub chain_type : Alternative → String × String
chain_type Alternative.development = ("Development", "dev")
chain_type Alternative.local_testnet = ("Local Testnet", "local_testnet")
chain_type Alternative.testnet = ("Rio Defi Testnet", "moniker")
chain_type Alternative.beta = ("Rio Beta", "beta")

abbrev pub unsupported : String → String
unsupported id = String.◌++◌ "no support id in current `Alternative`:" id

-- A hash map is iterated in an order of its own, which is a parameter: the list of its keys.
unfoldable pub get_alternative_from_id :
    {S : Type 0} → List Alternative → String → Action S Alternative
get_alternative_from_id [] id = fail (unsupported id)
get_alternative_from_id (k ∷ rest) id =
    let later = get_alternative_from_id rest id in
    if str_eq ((chain_type k).1) id then pure k else later

-- `Alternative::from`
unfoldable pub from : String → Option Alternative
from s =
    if str_eq s "dev"
    then some Alternative.development
    else if str_eq s "local"
    then some Alternative.local_testnet
    else if str_eq s "test"
    then some Alternative.testnet
    else if str_eq s "beta"
    then some Alternative.beta
    else none
