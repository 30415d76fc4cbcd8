-- ===== src/Traffic/Table.antt =====
-- firmware/core/traffic/table.h, table.cpp and lease.h: `TrafficTable`, the aircraft heard lately.
-- The slots are a function on the index, read and written below 48 only; -1 of the source is `none`.
-- The range check of sanity.cpp, its slant distance zero without a reference, and the turn rate of
-- flight/turn.cpp are parameters. The alarm level, none or advisory, is `alarmed`.
pub mod Allocated
pub mod Addresses
use skyblip.Base.{
  ℕ, zero, suc, ◌+◌, ◌-◌, ◌*◌, ◌/◌, ◌%◌, ◌^◌, Bool, true, false, not, ◌&&◌, ◌||◌, ltb, leb, ◌==◌,
  if◌then◌else◌, u32, sub32, Option, none, some, List, [], ◌∷◌,
}
use skyblip.Base.Int.{ℤ, pos, ltb_ℤ}
use skyblip.Base.Scans.{write, first, tally}
use skyblip.Flight.State.{FlightState, ground, airborne, state_from}

pub data Source : Type 0 where
  adsl_direct adsl_uplink alptas own : Source

-- What the table reads of an observation, and the rest of it.
pub record Observation (Rest : Type 0) : Type 0 where
  pub address : ℕ
  pub address_mapping_table : ℕ
  pub flight_state : ℕ
  pub track_c9 : ℕ
  pub received_at_s : ℕ
  pub at_ms : ℕ
  pub source : Source
  pub speed_valid : Bool
  pub rest : Rest

pub record TargetTurn : Type 0 where
  pub rate_dps : ℤ
  pub valid : Bool
  pub armed : Bool
  pub reference_at_ms : ℕ
  pub reference_track_c9 : ℕ

abbrev pub no_turn : TargetTurn
no_turn = record {
  rate_dps = pos 0;
  valid = false;
  armed = false;
  reference_at_ms = 0;
  reference_track_c9 = 0;
}

pub record Liftoff : Type 0 where
  pub at_ms : ℕ
  pub valid : Bool

abbrev pub no_liftoff : Liftoff
no_liftoff = record { at_ms = 0; valid = false }

pub record Target (Rest : Type 0) : Type 0 where
  pub observation : Observation Rest
  pub turn : TargetTurn
  pub liftoff : Liftoff
  pub alarmed : Bool
  pub alarm_dismissed : Bool
  pub in_formation : Bool
  pub used : Bool

pub record TrafficTable (Own Rest : Type 0) : Type 0 where
  pub slots : ℕ → Target Rest
  pub own : Own
  pub own_address : ℕ
  pub own_address_mapping_table : ℕ
  pub implausible : ℕ

abbrev pub max_targets : ℕ
max_targets = 48

abbrev pub turn_max_age_ms : ℕ
turn_max_age_ms = 3000

abbrev pub turn_window_ms : ℕ
turn_window_ms = 1000

abbrev pub alert_max_age_ms : ℕ
alert_max_age_ms = 5000

abbrev pub target_forget_reports : ℕ
target_forget_reports = 6

-- `address & kAddressMask`.
abbrev pub masked : ℕ → ℕ
masked address = address % 2 ^ 24

abbrev pub on_ground : ℕ → Bool
on_ground code = elim (state_from code) [ FlightState.ground ↦ true | _ ↦ false ]

abbrev pub airborne_code : ℕ → Bool
airborne_code code = elim (state_from code) [ FlightState.airborne ↦ true | _ ↦ false ]

abbrev pub source_rank : Source → ℕ
source_rank adsl_direct = 3
source_rank alptas = 3
source_rank adsl_uplink = 1
source_rank own = 0

pub data Plausibility : Type 0 where
  believable no_reference too_far : Plausibility

pub record Weight : Type 0 where
  pub on_ground : Bool
  pub slant_m : ℕ
  pub rank : ℕ
  pub age_s : ℕ

abbrev differ : Bool → Bool → Bool
differ a b = if a then not b else b

pub matters_less : Weight → Weight → Bool
matters_less weight other =
    if differ weight.on_ground other.on_ground
    then weight.on_ground
    else if not (weight.slant_m == other.slant_m)
    then ltb other.slant_m weight.slant_m
    else if not (weight.rank == other.rank)
    then ltb weight.rank other.rank
    else ltb other.age_s weight.age_s

abbrev pub better : Weight → Option (ℕ × Weight) → Bool
better weight none = true
better weight (some b) = matters_less weight b.1

-- The victim gives way if it matters less than the aircraft that comes.
abbrev pub displaced : Weight → Option (ℕ × Weight) → Option ℕ
displaced incoming none = none
displaced incoming (some b) = if matters_less b.1 incoming then some b.0 else none

-- A free slot, or else the victim's.
abbrev pub given : Option ℕ → Weight → Option (ℕ × Weight) → Option ℕ
given (some i) incoming best = some i
given none incoming best = displaced incoming best

module _ {Rest : Type 0} where
  abbrev pub report_period_s : Observation Rest → ℕ
  report_period_s o = if on_ground o.flight_state then 10 else 1

  abbrev pub forget_s : Observation Rest → ℕ
  forget_s o = target_forget_reports * report_period_s o

  abbrev pub direct_preferred_max_age_s : Observation Rest → ℕ
  direct_preferred_max_age_s o =
      if ltb (alert_max_age_ms / 1000) (report_period_s o)
      then report_period_s o
      else alert_max_age_ms / 1000

  abbrev pub holds : (ℕ → Target Rest) → ℕ → ℕ → ℕ → Bool
  holds slots address_mapping_table address i =
      (slots i).used
      && ((slots i).observation.address == address)
      && ((slots i).observation.address_mapping_table == address_mapping_table)

  abbrev pub find : (ℕ → Target Rest) → ℕ → ℕ → Option ℕ
  find slots address_mapping_table address =
      first (holds slots address_mapping_table address) max_targets

  pub prefer_new : Observation Rest → Observation Rest → Bool
  prefer_new incoming existing =
      if ltb (source_rank incoming.source) (source_rank existing.source)
        && leb existing.received_at_s incoming.received_at_s
        && leb (incoming.received_at_s - existing.received_at_s)
            (direct_preferred_max_age_s existing)
      then false
      else if not (incoming.received_at_s == existing.received_at_s)
      then ltb existing.received_at_s incoming.received_at_s
      else leb (source_rank existing.source) (source_rank incoming.source)

  abbrev pub watch_liftoff : Target Rest → Observation Rest → Target Rest
  watch_liftoff target incoming =
      if on_ground target.observation.flight_state && airborne_code incoming.flight_state
      then record target { liftoff = record { at_ms = incoming.at_ms; valid = true } }
      else target

  -- The target as `age_out` and `clear` leave it.
  abbrev pub forgotten : Target Rest → Target Rest
  forgotten target = record target {
    used = false;
    turn = no_turn;
    alarmed = false;
    alarm_dismissed = false;
    in_formation = false;
  }

  abbrev pub expired : ℕ → Target Rest → Bool
  expired now_s target =
      target.used
      && ltb (forget_s target.observation) (sub32 now_s target.observation.received_at_s)

module _ {Rest : Type 0} (turn_rate_dps : ℕ → ℕ → ℕ → ℤ) where
  pub sample_turn : TargetTurn → Observation Rest → TargetTurn
  sample_turn turn o =
      let elapsed_ms = sub32 o.at_ms turn.reference_at_ms in
      if not o.speed_valid
      then turn
      else if not turn.armed || ltb turn_max_age_ms elapsed_ms
      then record {
        armed = true;
        valid = false;
        rate_dps = pos 0;
        reference_at_ms = o.at_ms;
        reference_track_c9 = o.track_c9;
      }
      else if ltb elapsed_ms turn_window_ms
      then turn
      else record {
        armed = turn.armed;
        rate_dps = turn_rate_dps o.track_c9 turn.reference_track_c9 elapsed_ms;
        valid = true;
        reference_at_ms = o.at_ms;
        reference_track_c9 = o.track_c9;
      }

  abbrev pub refreshed : Target Rest → Observation Rest → Target Rest
  refreshed target o = record (watch_liftoff target o) {
    observation = o;
    turn = sample_turn target.turn o;
  }

  abbrev pub entered : Observation Rest → Target Rest
  entered o = record {
    used = true;
    observation = o;
    turn = sample_turn no_turn o;
    liftoff = no_liftoff;
    alarmed = false;
    alarm_dismissed = false;
    in_formation = false;
  }

module _ {Own Rest : Type 0} (range_check : Own → Observation Rest → Plausibility × ℕ) where
  pub weight_of : Own → Observation Rest → ℕ → Weight
  weight_of ownship o now_s =
      let checked = range_check ownship o in
      record {
        on_ground = on_ground o.flight_state;
        slant_m = elim (checked.0) [ no_reference ↦ 0 | _ ↦ checked.1 ];
        rank = source_rank o.source;
        age_s = sub32 now_s o.received_at_s;
      }

  -- The scan for a victim at index `i`, with the best one so far.
  pub victim_from : TrafficTable Own Rest → ℕ → ℕ → ℕ → Option (ℕ × Weight) → Option (ℕ × Weight)
  victim_from t now_s i zero best = best
  victim_from t now_s i (suc rounds) best =
      let weight = weight_of t.own (t.slots i).observation now_s in
      victim_from t now_s (i + 1) rounds (
        if (t.slots i).alarmed then best else if better weight best then some (i, weight) else best)

  pub allocate_slot : TrafficTable Own Rest → Observation Rest → ℕ → Option ℕ
  unfolding victim_from
  allocate_slot t incoming now_s =
      given (first (λ i. not (t.slots i).used) max_targets) (weight_of t.own incoming now_s)
        (victim_from t now_s 0 max_targets none)

abbrev pub is_own : {Own Rest : Type 0} → TrafficTable Own Rest → Observation Rest → Bool
is_own t o =
    not (t.own_address == 0)
    && (o.address_mapping_table == t.own_address_mapping_table)
    && (masked o.address == t.own_address)

module _ {Own Rest : Type 0} (turn_rate_dps : ℕ → ℕ → ℕ → ℤ) where
  abbrev pub refresh :
      Observation Rest → TrafficTable Own Rest → ℕ → TrafficTable Own Rest × Option ℕ
  refresh o t i =
      if prefer_new o (t.slots i).observation
      then (record t { slots = write t.slots i (refreshed turn_rate_dps (t.slots i) o) }, some i)
      else (t, some i)

  abbrev pub place :
      Observation Rest → TrafficTable Own Rest → Option ℕ → TrafficTable Own Rest × Option ℕ
  place o t none = (t, none)
  place o t (some i) = (record t { slots = write t.slots i (entered turn_rate_dps o) }, some i)

  abbrev pub settle :
      Observation Rest
      → TrafficTable Own Rest
      → Option ℕ
      → Option ℕ
      → TrafficTable Own Rest × Option ℕ
  settle o t (some i) room = refresh o t i
  settle o t none room = place o t room

module _ {Own Rest : Type 0} (range_check : Own → Observation Rest → Plausibility × ℕ)
    (turn_rate_dps : ℕ → ℕ → ℕ → ℤ) where
  -- What `update` does with an observation that passed its two guards.
  pub admit : Observation Rest → ℕ → TrafficTable Own Rest → TrafficTable Own Rest × Option ℕ
  unfolding allocate_slot
  admit o now_s t =
      settle turn_rate_dps o t (find t.slots o.address_mapping_table o.address)
        (allocate_slot range_check t o now_s)

  -- The verdict of the range check.
  pub checked :
      Observation Rest → ℕ → TrafficTable Own Rest → Plausibility → TrafficTable Own Rest × Option ℕ
  unfolding admit
  checked o now_s t too_far = (record t { implausible = u32 (t.implausible + 1) }, none)
  checked o now_s t no_reference = admit o now_s t
  checked o now_s t believable = admit o now_s t

  pub update : Observation Rest → ℕ → TrafficTable Own Rest → TrafficTable Own Rest × Option ℕ
  unfolding checked
  update o now_s t = if is_own t o then (t, none) else checked o now_s t ((range_check t.own o).0)

module _ {Own Rest : Type 0} where
  abbrev pub age_out : ℕ → TrafficTable Own Rest → TrafficTable Own Rest
  age_out now_s t = record t {
    slots = λ i. if expired now_s (t.slots i) then forgotten (t.slots i) else t.slots i;
  }

  abbrev pub clear : TrafficTable Own Rest → TrafficTable Own Rest
  clear t = record t { slots = λ i. forgotten (t.slots i) }

  abbrev pub count : TrafficTable Own Rest → ℕ
  count t = tally max_targets (λ i. (t.slots i).used)

  abbrev pub set_own_address : ℕ → ℕ → TrafficTable Own Rest → TrafficTable Own Rest
  set_own_address address_mapping_table address t = record t {
    own_address_mapping_table = address_mapping_table;
    own_address = masked address;
  }

  abbrev pub set_own_reference : Own → TrafficTable Own Rest → TrafficTable Own Rest
  set_own_reference ownship t = record t { own = ownship }
