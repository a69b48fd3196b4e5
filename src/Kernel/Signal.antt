-- ===== src/Kernel/Signal.antt =====
-- kernel/src/lib.rs: `ResetType`, `Signal` and `Timeout`.
use pomelo.Prelude.{
  ℕ, ◌+◌, ◌%◌, ◌^◌, Bool, true, false, Option, none, some, Run, ok, panic, ◌==◌, if◌then◌else◌,
}

pub data ResetType : Type 0 where
  one_shot sticky pulse : ResetType

-- `ResetType::from_raw`; any other number is `unreachable!`.
unfoldable pub reset_type_from_raw : ℕ → Run ResetType
reset_type_from_raw id =
    if id == 0
    then ok one_shot
    else if id == 1
    then ok sticky
    else if id == 2
    then ok pulse
    else panic

pub record Signal : Type 0 where
  pub reset_type : ResetType
  pub signaled : Bool

unfoldable pub new_signal : ResetType → Signal
new_signal r = record { reset_type = r; signaled = false }

abbrev pub is_pulse : Signal → Bool
is_pulse s = elim s.reset_type [ pulse ↦ true | _ ↦ false ]

abbrev pub is_sticky : Signal → Bool
is_sticky s = elim s.reset_type [ sticky ↦ true | _ ↦ false ]

abbrev pub signal : Signal → Signal
signal s = record s { signaled = true }

-- What `consume` leaves of a signal that is set.
abbrev pub consumed : ResetType → Bool
consumed sticky = true
consumed _ = false

abbrev pub consume : Signal → Signal × Bool
consume s = if s.signaled then (record s { signaled = consumed s.reset_type }, true) else (s, false)

abbrev pub unconsume : Signal → Signal
unconsume s = record s { signaled = true }

abbrev pub reset : Signal → Signal
reset s = record s { signaled = false }

pub data Timeout : Type 0 where
  instant : Timeout
  after : ℕ → Timeout
  forever : Timeout

-- `Timeout::absolute`, a sum of two `u64`.
unfoldable pub absolute : Timeout → ℕ → Option ℕ
absolute instant base = some (base % 2 ^ 64)
absolute (after ns) base = some ((ns + base) % 2 ^ 64)
absolute forever base = none
