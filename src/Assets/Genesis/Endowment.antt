-- ===== src/Assets/Genesis/Endowment.antt =====
-- What the endowments of the genesis build of rio-assets/src/lib.rs add up to.
use riochain.Prelude.{
  ◌+◌, ◌<◌, ◌≡◌, refl, ◌∙◌, true, false, List, [], ◌∷◌, arith, ◌==◌, All, contains, IsDistinct,
  sum_of, Bool-cases, inl, inr, ==→≡,
}
use riochain.Prelude.Words.{wrapping_add, u128_mod}
use riochain.Prelude.Maps.{update, update_at, exists, sum_of-update}
use riochain.Prelude.Linked.{lookup}
use riochain.Prelude.Totals
use riochain.Prelude.Totals.{total}
use riochain.Prelude.Outcome.{ok}
use riochain.Assets.Types.{AccountId, AssetId, Balance, Assets}
use riochain.Assets.Genesis.{endow, endowed_sum}

-- The balances after an endowment.
abbrev pub given :
    AssetId
    → List (AccountId × Balance)
    → (AssetId → AccountId → Balance)
    → AssetId
    → AccountId
    → Balance
given id [] free = free
given id ((who, balance) ∷ rest) free = given id rest (update_at free id who balance)

pub endow-given :
    (id : AssetId) (endowed : List (AccountId × Balance)) (s : Assets)
    → endow id endowed s ≡ ok tt (record s { free_balance = given id endowed s.free_balance })
unfolding endow
endow-given id [] s = refl
endow-given id ((who, balance) ∷ rest) s =
    endow-given id rest (record s { free_balance = update_at s.free_balance id who balance })

pub given_other :
    (id b : AssetId) (endowed : List (AccountId × Balance)) (free : AssetId → AccountId → Balance)
    → (id == b) ≡ false
    → given id endowed free b ≡ free b
given_other id b [] free ne = refl
given_other id b ((who, balance) ∷ rest) free ne =
    given_other id b rest (update_at free id who balance) ne ∙ rw ne refl

-- An endowment of distinct accounts that have nothing adds its total to what is held.
pub sum_of-given :
    (accounts : List AccountId) (id : AssetId) (endowed : List (AccountId × Balance))
    (free : AssetId → AccountId → Balance)
    → IsDistinct accounts
    → Totals.IsDistinct endowed
    → All (λ e. contains accounts e.0 ≡ true) endowed
    → ((who : AccountId) → exists (lookup who endowed) ≡ true → free id who ≡ 0)
    → sum_of (given id endowed free id) accounts ≡ sum_of (free id) accounts + total endowed
sum_of-given accounts id [] free distinct apart listed fresh = ground arith
sum_of-given accounts id ((who, balance) ∷ rest) free distinct apart listed fresh =
    let one = update_at free id who balance in
    let same : one id ≡ update (free id) who balance = ground arith in
    let fresh_one : (j : AccountId) → exists (lookup j rest) ≡ true → one id j ≡ 0 =
      λ j found. rw same (fresh_rest j found) in
    let first = sum_of-update (free id) who balance accounts distinct listed.0 in
    let zero : free id who ≡ 0 = fresh who (ground arith) in
    let more : sum_of (one id) accounts ≡ sum_of (free id) accounts + balance =
      rw same (omega (arith, first, zero)) in
    sum_of-given accounts id rest one distinct apart.1 listed.1 fresh_one ∙ omega (arith, more)
  where
    fresh_rest :
        (j : AccountId) → exists (lookup j rest) ≡ true → update (free id) who balance j ≡ 0
    fresh_rest j found = elim (Bool-cases (who == j)) [
      | inl e ↦ absurd (ground (arith, ==→≡ who j e, apart.0))
      | inr e ↦ ground (arith, fresh j)
    ]

pub endowed_sum-total :
    (sum : Balance) (endowed : List (AccountId × Balance))
    → sum + total endowed < u128_mod
    → endowed_sum sum endowed ≡ sum + total endowed
unfolding endowed_sum wrapping_add
endowed_sum-total sum [] small = ground arith
endowed_sum-total sum ((who, balance) ∷ rest) small =
    ground (arith, endowed_sum-total (sum + balance) rest)
