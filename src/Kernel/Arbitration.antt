-- ===== src/Kernel/Arbitration.antt =====
-- kernel/src/lib.rs: `ArbitrationType::arbitrate`.
use pomelo.Prelude.{ℕ, Option, none, some, Run, ok, panic, ◌==◌, if◌then◌else◌}
use pomelo.Prelude.Int.{ℤ, ltb_ℤ}

pub data ArbitrationType : Type 0 where
  signal wait_if_less_than decrement_and_wait_if_less_than : ArbitrationType
  wait_if_less_than_timeout decrement_and_wait_if_less_than_timeout : ArbitrationType

pub data ArbitrationAction : Type 0 where
  signal decrement : ArbitrationAction

pub data ArbitrationFail : Type 0 where
  wait wait_timeout : ArbitrationFail

-- `ArbitrationType::from_raw`; any other number is `unreachable!`.
unfoldable pub arbitration_type_from_raw : ℕ → Run ArbitrationType
arbitration_type_from_raw x =
    if x == 0
    then ok ArbitrationType.signal
    else if x == 1
    then ok wait_if_less_than
    else if x == 2
    then ok decrement_and_wait_if_less_than
    else if x == 3
    then ok wait_if_less_than_timeout
    else if x == 4
    then ok decrement_and_wait_if_less_than_timeout
    else panic

-- The action on the word, and `none` for `Ok(())` or `some` for the failure.
abbrev pub Outcome : Type 0
Outcome = Option ArbitrationAction × Option ArbitrationFail

unfoldable pub arbitrate : ArbitrationType → ℤ → ℤ → Outcome
arbitrate ArbitrationType.signal memory value = (some ArbitrationAction.signal, none)
arbitrate wait_if_less_than memory value = (none, if ltb_ℤ memory value then some wait else none)
arbitrate decrement_and_wait_if_less_than memory value =
    if ltb_ℤ memory value then (some decrement, some wait) else (none, none)
arbitrate wait_if_less_than_timeout memory value =
    (none, if ltb_ℤ memory value then some wait_timeout else none)
arbitrate decrement_and_wait_if_less_than_timeout memory value =
    if ltb_ℤ memory value then (some decrement, some wait_timeout) else (none, none)
