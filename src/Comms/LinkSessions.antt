-- ===== src/Comms/LinkSessions.antt =====
-- firmware/core/comms/link_sessions.h: the table of connected centrals and the events that tell of
-- it, with the event types of firmware/core/events/link.h and the floor of firmware/ports/link.h.
pub mod Slots
pub mod Told
mod Tests
use skyblip.Base.{
  ℕ, zero, suc, ◌+◌, ◌^◌, Bool, true, false, ◌&&◌, ◌||◌, not, Option, none, some, ltb, leb, ◌==◌,
  if◌then◌else◌, u8, u32, min,
}
use skyblip.Base.Scans.{write, first, tally}
use skyblip.Util.Status.{Status, ok}
use skyblip.Util.Fifo.{Fifo, fifo, push, pop, Result, value, error}

abbrev pub minimum_link_payload_bytes : ℕ
minimum_link_payload_bytes = 20

abbrev pub max_sessions : ℕ
max_sessions = 3

abbrev pub max_events : ℕ
max_events = 8

pub data MtuRequest : Type 0 where
  not_asked pending exchanged already_exchanged refused unsent : MtuRequest

pub data MtuExchangeStarter : Type 0 where
  no_one central unit both : MtuExchangeStarter

pub data LinkEventType : Type 0 where
  up down : LinkEventType

pub record LinkEvent : Type 0 where
  pub type : LinkEventType
  pub mtu_exchange_started_by : MtuExchangeStarter
  pub session_id : ℕ
  pub payload_bytes : ℕ

pub record Slot : Type 0 where
  pub session_id : ℕ
  pub payload_bytes : ℕ
  pub mtu_updates : ℕ
  pub exchanged_by_unit : Bool
  pub used : Bool

abbrev pub slot : Slot
slot = record {
  session_id = 0;
  payload_bytes = minimum_link_payload_bytes;
  mtu_updates = 0;
  exchanged_by_unit = false;
  used = false;
}

pub record LinkSessions : Type 0 where
  pub events : Fifo LinkEvent
  pub slots : ℕ → Slot
  pub dropped : ℕ
  pub refused : ℕ

-- `LinkEvent{}`.
abbrev pub link_event : LinkEvent
link_event = record {
  type = up;
  mtu_exchange_started_by = no_one;
  session_id = 0;
  payload_bytes = 0;
}

abbrev pub link_sessions : LinkSessions
link_sessions = record { events = fifo link_event; slots = λ _. slot; dropped = 0; refused = 0 }

abbrev pub starter_of : Slot → MtuExchangeStarter
starter_of s =
    let by_central = ltb (if s.exchanged_by_unit then 1 else 0) s.mtu_updates in
    if by_central && s.exchanged_by_unit
    then both
    else if by_central
    then central
    else if s.exchanged_by_unit
    then unit
    else no_one

abbrev pub floor_payload : ℕ → ℕ
floor_payload bytes =
    if ltb bytes minimum_link_payload_bytes then minimum_link_payload_bytes else bytes

abbrev pub find : ℕ → (ℕ → Slot) → Option ℕ
find session_id slots =
    first (λ i. (slots i).used && ((slots i).session_id == session_id)) max_sessions

abbrev pub free_slot : (ℕ → Slot) → Option ℕ
free_slot slots = first (λ i. not (slots i).used) max_sessions

abbrev pub event_of : LinkEventType → Slot → LinkEvent
event_of up s = record link_event {
  type = up;
  session_id = s.session_id;
  payload_bytes = s.payload_bytes;
}
event_of down s = record {
  type = down;
  mtu_exchange_started_by = starter_of s;
  session_id = s.session_id;
  payload_bytes = s.payload_bytes;
}

pub raise : LinkEventType → Slot → LinkSessions → LinkSessions
raise type s l =
    let (queue, status) = push max_events (event_of type s) l.events in
    elim status [
      | ok ↦ record l { events = queue }
      | _ ↦ record l { events = queue; dropped = u32 (l.dropped + 1) }
    ]

-- The slot that a new connection is written in.
abbrev pub slot_for : ℕ → (ℕ → Slot) → Option ℕ
slot_for session_id slots = elim (find session_id slots) [
  | some i ↦ some i
  | none ↦ free_slot slots
]

abbrev pub connected_slot : ℕ → ℕ → Slot
connected_slot session_id payload_bytes =
    let figure = floor_payload payload_bytes in
    record slot {
      used = true;
      session_id = session_id;
      payload_bytes = figure;
      mtu_updates = if ltb minimum_link_payload_bytes figure then 1 else 0;
    }

pub connected : ℕ → ℕ → LinkSessions → LinkSessions
connected session_id payload_bytes l = elim (slot_for session_id l.slots) [
  | none ↦ record l { refused = u32 (l.refused + 1) }
  | some i ↦
      let s = connected_slot session_id payload_bytes in
      raise up s (record l { slots = write l.slots i s })
]

-- `if (slot->mtu_updates < UINT8_MAX) slot->mtu_updates++;`.
abbrev pub updated : Slot → Slot
updated s = if ltb s.mtu_updates 255 then record s { mtu_updates = s.mtu_updates + 1 } else s

pub payload_changed : ℕ → ℕ → LinkSessions → LinkSessions
payload_changed session_id payload_bytes l = elim (find session_id l.slots) [
  | none ↦ l
  | some i ↦
      let s = updated (l.slots i) in
      let figure = floor_payload payload_bytes in
      let t = record s { payload_bytes = figure } in
      if figure == s.payload_bytes
      then record l { slots = write l.slots i s }
      else raise up t (record l { slots = write l.slots i t })
]

abbrev pub is_exchanged : MtuRequest → Bool
is_exchanged exchanged = true
is_exchanged _ = false

pub mtu_requested : ℕ → MtuRequest → LinkSessions → LinkSessions
mtu_requested session_id outcome l = elim (find session_id l.slots) [
  | none ↦ l
  | some i ↦
      let s = record (l.slots i) { exchanged_by_unit = is_exchanged outcome } in
      record l { slots = write l.slots i s }
]

pub disconnected : ℕ → LinkSessions → LinkSessions
disconnected session_id l = elim (find session_id l.slots) [
  | none ↦ l
  | some i ↦
      let s = record (l.slots i) { used = false } in
      raise down s (record l { slots = write l.slots i s })
]

pub pop_event : LinkSessions → LinkSessions × Option LinkEvent
pop_event l =
    let (queue, result) = pop max_events l.events in
    elim result [
      | error e ↦ (record l { events = queue }, none)
      | value event ↦ (record l { events = queue }, some event)
    ]

pub count : LinkSessions → ℕ
count l = tally max_sessions (λ i. (l.slots i).used)

pub is_up : ℕ → LinkSessions → Bool
is_up session_id l = elim (find session_id l.slots) [ none ↦ false | some i ↦ true ]

-- The least payload of the sessions that are up; zero is none yet.
abbrev pub smallest_of : (ℕ → Slot) → ℕ → ℕ
smallest_of slots zero = 0
smallest_of slots (suc n) =
    let smallest = smallest_of slots n in
    if (slots n).used && ((smallest == 0) || ltb (slots n).payload_bytes smallest)
    then (slots n).payload_bytes
    else smallest

pub payload_bytes : LinkSessions → ℕ
payload_bytes l =
    let smallest = smallest_of l.slots max_sessions in
    if smallest == 0 then minimum_link_payload_bytes else smallest

pub payload_bytes_of : ℕ → LinkSessions → ℕ
payload_bytes_of session_id l = elim (find session_id l.slots) [
  | none ↦ minimum_link_payload_bytes
  | some i ↦ (l.slots i).payload_bytes
]
