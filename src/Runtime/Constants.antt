-- ===== src/Runtime/Constants.antt =====
-- The constants of runtime/src/constants.rs and the `parameter_types!` of runtime/src/lib.rs.
use riochain.Prelude.{ℕ, ◌*◌}
use riochain.Assets.Types.{Balance}

-- currency
abbrev pub millicents : Balance
millicents = 1000

abbrev pub cents : Balance
cents = 1000 * millicents

-- blocks
abbrev pub maximum_block_weight : ℕ
maximum_block_weight = 1000000000

-- fees
abbrev pub transaction_base_fee : Balance
transaction_base_fee = 10 * cents

abbrev pub transaction_byte_fee : Balance
transaction_byte_fee = 0

-- the oracle, with the source's spelling of the interval between two reports
abbrev pub report_inteval : ℕ
report_inteval = 10
