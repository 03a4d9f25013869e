-- ===== src/Saving/Packs.antt =====
-- The packs of locked shares: how a pack is made, what it releases, and how the packs of a phase are
-- put together. `none` is a panic.
use riochain.Prelude.{
  ℕ, ◌+◌, ◌-◌, ◌/◌, ◌%◌, ◌^◌, Bool, true, false, Option, none, some, List, [], ◌∷◌, ◌++◌, ltb, leb,
  ◌==◌, ◌&&◌, if◌then◌else◌,
}
use riochain.Prelude.Words.{wrapping_add, wrapping_sub, wrapping_mul}
use riochain.Prelude.Outcome.{Action, pure, expect, ensure, ◌>>=◌, ◌>>◌}
use riochain.Assets.Types.{AccountId, AssetId, Balance}
use riochain.Saving.Types.{PhaseId, ReleaseTrigger, SharePackage, ShareReleasePack, BalanceChange}

-- `SharePackage::get_total_balance`
unfoldable pub package_total : SharePackage → Balance
unfolding wrapping_mul
package_total p = wrapping_mul p.terms_left p.per_term

abbrev pub minor_total : Option SharePackage → Balance
minor_total none = 0
minor_total (some m) = package_total m

abbrev pub minor_terms : Option SharePackage → ℕ
minor_terms none = 0
minor_terms (some m) = m.terms_left

unfoldable pub get_total_balance : ShareReleasePack → Balance
unfolding wrapping_add package_total
get_total_balance p =
    if p.empty then 0 else wrapping_add (package_total p.major) (minor_total p.minor)

unfoldable pub terms_left : ShareReleasePack → ℕ
terms_left p = (p.major.terms_left + minor_terms p.minor) % 2 ^ 32

abbrev take_term : SharePackage → SharePackage
take_term p = record p { terms_left = p.terms_left - 1 }

-- The part of `release` that comes to the minor package.
abbrev release_minor : ShareReleasePack → Option SharePackage → Option Balance × ShareReleasePack
release_minor p none = (none, record p { empty = true })
release_minor p (some m) =
    if ltb 0 m.terms_left
    then (some m.per_term, record p { minor = some (take_term m); empty = m.terms_left - 1 == 0 })
    else (none, record p { empty = true })

-- The released balance, and the pack afterwards.
unfoldable pub release : ShareReleasePack → Option Balance × ShareReleasePack
release p =
    if p.empty
    then (none, p)
    else if ltb 0 p.major.terms_left
    then (
      some p.major.per_term,
      record p {
        major = take_term p.major;
        empty = p.major.terms_left - 1 == 0 && minor_terms p.minor == 0;
      },
    )
    else release_minor p p.minor

-- The last, smaller term of a pack whose terms do not come out even. The arm for a balance above the
-- sum of the terms is not taken, as the portion is rounded up, unless the sum wraps.
abbrev odd_term : Balance → Balance → Balance → SharePackage
odd_term balance portion virtual = record {
  terms_total = 1;
  terms_left = 1;
  per_term =
      if ltb virtual balance
      then wrapping_sub balance virtual
      else wrapping_sub portion (wrapping_sub virtual balance);
}

-- A count of zero divides by zero.
unfoldable pub create_share_release_pack :
    AccountId → AssetId → PhaseId → Balance → ℕ → Option ShareReleasePack
unfolding wrapping_add wrapping_sub wrapping_mul
create_share_release_pack owner asset_id phase_id balance count =
    let portion = if count == 1 then balance else wrapping_add balance (count - 1) / count in
    let virtual = wrapping_mul portion count in
    let even = balance == virtual in
    if count == 0
    then none
    else some (record {
      asset_id = asset_id;
      owner = owner;
      phase_id = phase_id;
      empty = false;
      major = record {
        terms_total = count;
        terms_left = if even then count else count - 1;
        per_term = portion;
      };
      minor = if even then none else some (odd_term balance portion virtual);
      release_trigger = ReleaseTrigger.phase_change;
    })

-- What the loop of `aggregate_phase_unreleased` has collected.
pub record Collected : Type 0 where
  pub others : List ShareReleasePack
  pub unreleased : Balance
  pub total : ℕ
  pub left : ℕ

unfoldable pub is_of : AssetId → PhaseId → ShareReleasePack → Bool
is_of asset_id phase_id i = i.asset_id == asset_id && i.phase_id == phase_id

unfoldable pub collect_one : AssetId → PhaseId → ShareReleasePack → Collected → Collected
unfolding is_of get_total_balance terms_left wrapping_add
collect_one asset_id phase_id i acc =
    if is_of asset_id phase_id i
    then record acc {
      unreleased = wrapping_add acc.unreleased (get_total_balance i);
      total = i.major.terms_total;
      left = if acc.total == i.major.terms_total then acc.left else terms_left i;
    }
    else record acc { others = acc.others ++ i ∷ [] }

unfoldable pub collect : AssetId → PhaseId → List ShareReleasePack → Collected → Collected
unfolding collect_one
collect asset_id phase_id [] acc = acc
collect asset_id phase_id (i ∷ rest) acc =
    collect asset_id phase_id rest (collect_one asset_id phase_id i acc)

abbrev pub nothing : Collected
nothing = record { others = []; unreleased = 0; total = 0; left = 0 }

-- The aggregated pack, added to the others.
unfoldable pub with_pack :
    {S : Type 0}
    → AccountId
    → AssetId
    → PhaseId
    → Collected
    → Balance
    → Action S (List ShareReleasePack)
unfolding create_share_release_pack
with_pack who asset_id phase_id got balance = do
  pack ← expect (create_share_release_pack who asset_id phase_id balance got.left)
  let major = pack.major
  pure (got.others ++ record pack { major = record major { terms_total = got.total } } ∷ [])

-- `none` is no change. What is left of nothing is no pack.
unfoldable pub aggregate_phase_unreleased :
    {S : Type 0}
    → List ShareReleasePack
    → PhaseId
    → AssetId
    → AccountId
    → Option BalanceChange
    → Action S (List ShareReleasePack)
unfolding collect with_pack wrapping_add
aggregate_phase_unreleased list phase_id asset_id who none =
    let got = collect asset_id phase_id list nothing in
    with_pack who asset_id phase_id got got.unreleased
aggregate_phase_unreleased list phase_id asset_id who (some (BalanceChange.positive value)) =
    let got = collect asset_id phase_id list nothing in
    with_pack who asset_id phase_id got (wrapping_add got.unreleased value)
aggregate_phase_unreleased list phase_id asset_id who (some (BalanceChange.negative value)) =
    let got = collect asset_id phase_id list nothing in
    do
      ensure (leb value got.unreleased) "not enought locked balance"
      if ltb value got.unreleased
          then with_pack who asset_id phase_id got (got.unreleased - value)
          else pure got.others
