-- ===== src/Oracle/Window.antt =====
-- The window in which a reporter counts.
use riochain.Prelude.{ℕ, ◌+◌, ◌^◌, ◌<◌, ◌≡◌, ◌≢◌, arith, leb}
use riochain.Assets.Types.{AccountId}
use riochain.Oracle.{Oracle, on_witnessed, is_valid}

-- A reporter that was witnessed at one height is valid at a later one exactly while the report
-- interval has not passed, and the witness changes the validity of no other reporter.
is_valid-on_witnessed :
    (interval seen height : ℕ) (who other : AccountId) (o : Oracle)
    → other ≢ who
    → seen + interval < 2 ^ 32
    → (is_valid interval height who (on_witnessed interval seen who o)
        ≡ leb height (seen + interval))
      × (is_valid interval height other (on_witnessed interval seen who o)
          ≡ is_valid interval height other o)
unfolding is_valid on_witnessed
is_valid-on_witnessed interval seen height who other o ne small = (ground arith, ground arith)
