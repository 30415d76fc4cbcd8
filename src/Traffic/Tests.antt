-- ===== src/Traffic/Tests.antt =====
-- Tests: a table that hears one glider twice.
use skyblip.Base.{ℕ, true, false}
use skyblip.Base.Int.{ℤ, pos}
use skyblip.Traffic.Table.{
  Observation, Target, TrafficTable, Plausibility, believable, alptas, no_turn, no_liftoff, update,
  clear, set_own_address,
}
use skyblip.Traffic.Table.Addresses.{IsTable, update-IsTable, clear-IsTable}

abbrev glider : Observation ℕ
glider = record {
  address = 0x3ee123;
  address_mapping_table = 5;
  flight_state = 2;
  track_c9 = 128;
  received_at_s = 60;
  at_ms = 60000;
  source = alptas;
  speed_valid = true;
  rest = 0;
}

-- Everything is near, and nothing turns.
abbrev near : ℕ → Observation ℕ → Plausibility × ℕ
near own_ship o = (believable, 900)

abbrev straight : ℕ → ℕ → ℕ → ℤ
straight track reference elapsed_ms = pos 0

abbrev no_target : Target ℕ
no_target = record {
  observation = glider;
  turn = no_turn;
  liftoff = no_liftoff;
  alarmed = false;
  alarm_dismissed = false;
  in_formation = false;
  used = false;
}

abbrev quiet : TrafficTable ℕ ℕ
quiet = set_own_address 5 0x3ee001 (
    clear (record {
      slots = λ _. no_target;
      own = 0;
      own_address = 0;
      own_address_mapping_table = 0;
      implausible = 0;
    }))

update-IsTable_example : IsTable (update near straight glider 60 quiet).0
update-IsTable_example = update-IsTable near straight glider 60 quiet (clear-IsTable quiet)
