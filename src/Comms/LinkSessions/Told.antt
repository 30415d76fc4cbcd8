-- ===== src/Comms/LinkSessions/Told.antt =====
-- What the events tell, against the table itself.
use skyblip.Base.{
  ℕ, suc, ◌+◌, ◌^◌, ◌≤◌, ◌<◌, ◌≡◌, ◌≢◌, refl, ◌∙◌, sym, ap, subst, ◌⊎◌, inl, inr, Bool, true, false,
  Option, none, some, arith, ltb, ◌==◌, if◌then◌else◌, List, [], ◌∷◌, ◌++◌, length, Option-cases,
  Bool-cases,
}
use mathlib.Core.List.{append_assoc}
use skyblip.Base.Scans.{write}
use skyblip.Util.Status.{ok, full, empty}
use skyblip.Util.Fifo.{Fifo, push, pop, value, error}
use skyblip.Util.Fifo.Refine.{
  IsRing, contents, push_refines, pop_refines, push-IsRing, pop-IsRing, dequeue,
}
use skyblip.Comms.LinkSessions.{
  Slot, LinkSessions, link_sessions, LinkEvent, LinkEventType, up, down, MtuRequest, event_of,
  raise, connected, payload_changed, mtu_requested, disconnected, pop_event, find, slot_for,
  connected_slot, updated, floor_payload,
}
use skyblip.Comms.LinkSessions.Slots.{
  IsDistinct, current, IsSlotFor, find-IsSlotFor, slot_for-IsSlotFor, write-IsDistinct,
  current-write, current-write_same, find-some,
}

-- The link's callbacks, and the service that takes an event.
pub data LinkCall : Type 0 where
  connects : ℕ → ℕ → LinkCall
  changes_payload : ℕ → ℕ → LinkCall
  requests_mtu : ℕ → MtuRequest → LinkCall
  disconnects : ℕ → LinkCall
  takes_event : LinkCall

-- The table, with the events that the service has taken so far, oldest first.
pub record Told : Type 0 where
  pub sessions : LinkSessions
  pub taken : List LinkEvent

-- With what a pop gives.
abbrev taking : List LinkEvent → LinkSessions × Option LinkEvent → Told
taking taken (l, none) = record { sessions = l; taken = taken }
taking taken (l, some e) = record { sessions = l; taken = taken ++ e ∷ [] }

abbrev pub step : LinkCall → Told → Told
step (connects id bytes) t = record t { sessions = connected id bytes t.sessions }
step (changes_payload id bytes) t = record t { sessions = payload_changed id bytes t.sessions }
step (requests_mtu id outcome) t = record t { sessions = mtu_requested id outcome t.sessions }
step (disconnects id) t = record t { sessions = disconnected id t.sessions }
step takes_event t = taking t.taken (pop_event t.sessions)

-- A history, the newest call first.
abbrev pub run : List LinkCall → Told
run [] = record { sessions = link_sessions; taken = [] }
run (c ∷ h) = step c (run h)

-- The payload of a session by the last of the events that speaks of it.
abbrev pub payload_told : LinkEvent → Option ℕ
payload_told e = elim e.type [ up ↦ some e.payload_bytes | down ↦ none ]

abbrev pub told : ℕ → Option ℕ → List LinkEvent → Option ℕ
told id so_far [] = so_far
told id so_far (e ∷ es) = told id (if id == e.session_id then payload_told e else so_far) es

told-append :
    (id : ℕ) (so_far : Option ℕ) (xs ys : List LinkEvent)
    → told id so_far (xs ++ ys) ≡ told id (told id so_far xs) ys
told-append id so_far [] ys = refl
told-append id so_far (x ∷ xs) ys =
    told-append id (if id == x.session_id then payload_told x else so_far) xs ys

-- All events that were raised and not dropped.
abbrev pub events_of : Told → List LinkEvent
events_of t = t.taken ++ contents 8 t.sessions.events

-- The invariant, for states that may have dropped events.
pub record IsTold (t : Told) : Type 0 where
  pub ring : IsRing 8 t.sessions.events
  pub distinct : IsDistinct t.sessions.slots
  pub tells :
      t.sessions.dropped ≡ 0 → (id : ℕ) → told id none (events_of t) ≡ current t.sessions.slots id

abbrev is_for_used : LinkEventType → Bool
is_for_used up = true
is_for_used down = false

-- An event that there is room for goes behind the others, and one that there is not is dropped.
push_cases :
    (x : LinkEvent) (f : Fifo LinkEvent)
    → IsRing 8 f
    → let (g, s) = push 8 x f in ((s ≡ ok) × (contents 8 g ≡ contents 8 f ++ x ∷ [])) ⊎ (s ≡ full)
push_cases x f v = elim (Bool-cases (ltb (length (contents 8 f)) 7)) [
  | inl room ↦
      let both : (contents 8 (push 8 x f).0, (push 8 x f).1) ≡ (contents 8 f ++ x ∷ [], ok) =
        push_refines 8 x f v ∙ rw room refl in
      inl (ap (λ r. r.1) both, ap (λ r. r.0) both)
  | inr no_room ↦
      let both : (contents 8 (push 8 x f).0, (push 8 x f).1) ≡ (contents 8 f, full) =
        push_refines 8 x f v ∙ rw no_room refl in
      inr (ap (λ r. r.1) both)
]

told-event :
    (q : ℕ) (type : LinkEventType) (v : Slot) (taken queue : List LinkEvent)
    → v.used ≡ is_for_used type
    → told q none (taken ++ (queue ++ event_of type v ∷ [])) ≡ (
        if q == v.session_id
        then if v.used then some v.payload_bytes else none
        else told q none (taken ++ queue))
told-event q type v taken queue used =
    ap (told q none) (sym (append_assoc taken queue (event_of type v ∷ [])))
    ∙ told-append q none (taken ++ queue) (event_of type v ∷ [])
    ∙ last type used
  where
    last :
        (x : LinkEventType)
        → v.used ≡ is_for_used x
        → told q (told q none (taken ++ queue)) (event_of x v ∷ []) ≡ (
            if q == v.session_id
            then if v.used then some v.payload_bytes else none
            else told q none (taken ++ queue))
    last up u = rw u refl
    last down u = rw u refl

-- Raising an event for a slot that has just been written.
raise-tells :
    (type : LinkEventType) (v : Slot) (i : ℕ) (l : LinkSessions) (taken : List LinkEvent)
    → l.dropped + 1 < 2 ^ 32
    → IsTold (record { sessions = l; taken = taken })
    → IsSlotFor l.slots i v.session_id
    → v.used ≡ is_for_used type
    → IsTold
        (record { sessions = raise type v (record l { slots = write l.slots i v }); taken = taken })
unfolding raise
raise-tells type v i l taken fits t own used = elim (push_cases (event_of type v) l.events t.ring) [
  | inl (s, q) ↦
      rw (s, raise)
        (record {
          ring = push-IsRing 8 (event_of type v) l.events t.ring;
          distinct = write-IsDistinct l.slots i v.session_id v t.distinct own refl;
          tells = λ d x.
              ap (λ c. told x none (taken ++ c)) q
              ∙ told-event x type v taken (contents 8 l.events) used
              ∙ rw (t.tells d x) (sym (current-write l.slots i v.session_id x v own refl));
        })
  | inr s ↦
      rw (s, raise)
        (record {
          ring = push-IsRing 8 (event_of type v) l.events t.ring;
          distinct = write-IsDistinct l.slots i v.session_id v t.distinct own refl;
          tells = λ d x. absurd (omega arith);
        })
]

-- A write that raises nothing, of a slot with its session and payload as they were.
quiet-tells :
    (v : Slot) (i : ℕ) (l : LinkSessions) (taken : List LinkEvent)
    → IsTold (record { sessions = l; taken = taken })
    → i < 3
    → (l.slots i).used ≡ true
    → v.session_id ≡ (l.slots i).session_id
    → v.used ≡ true
    → v.payload_bytes ≡ (l.slots i).payload_bytes
    → IsTold (record { sessions = record l { slots = write l.slots i v }; taken = taken })
quiet-tells v i l taken t lt was e used same = record {
  ring = t.ring;
  distinct = λ j k hj hk uj uk s.
      ground (arith, t.distinct j k hj hk, t.distinct i k lt hk, t.distinct i j lt hj);
  tells = λ d x. t.tells d x ∙ sym (current-write_same l.slots i x v lt (used ∙ sym was) e same);
}

connected-tells :
    (id bytes : ℕ) (l : LinkSessions) (taken : List LinkEvent)
    → l.dropped + 1 < 2 ^ 32
    → IsTold (record { sessions = l; taken = taken })
    → IsTold (record { sessions = connected id bytes l; taken = taken })
unfolding connected
connected-tells id bytes l taken fits t = by_slot (Option-cases (slot_for id l.slots))
  where
    by_slot :
        (slot_for id l.slots ≡ none) ⊎ ((i : ℕ) × (slot_for id l.slots ≡ some i))
        → IsTold (record { sessions = connected id bytes l; taken = taken })
    by_slot (inl e) =
        rw (e, connected) (record { ring = t.ring; distinct = t.distinct; tells = t.tells })
    by_slot (inr (i, e)) =
        rw (e, connected)
          (raise-tells up (connected_slot id bytes) i l taken fits t
            (slot_for-IsSlotFor l.slots id i t.distinct e) refl)

updated_lem :
    (s : Slot)
    → ((updated s).session_id ≡ s.session_id)
      × ((updated s).used ≡ s.used)
      × ((updated s).payload_bytes ≡ s.payload_bytes)
updated_lem s = ground arith

payload_changed-tells :
    (id bytes : ℕ) (l : LinkSessions) (taken : List LinkEvent)
    → l.dropped + 1 < 2 ^ 32
    → IsTold (record { sessions = l; taken = taken })
    → IsTold (record { sessions = payload_changed id bytes l; taken = taken })
unfolding payload_changed
payload_changed-tells id bytes l taken fits t = by_slot (Option-cases (find id l.slots))
  where
    by_figure :
        (i : ℕ)
        → find id l.slots ≡ some i
        → ((floor_payload bytes == (updated (l.slots i)).payload_bytes) ≡ true)
          ⊎ ((floor_payload bytes == (updated (l.slots i)).payload_bytes) ≡ false)
        → IsTold (record { sessions = payload_changed id bytes l; taken = taken })
    by_figure i e (inl f) =
        let (lt, used, same) = find-some l.slots id i e in
        let (id_kept, used_kept, payload_kept) = updated_lem (l.slots i) in
        rw (e, f, payload_changed)
          (quiet-tells _ i l taken t lt used id_kept (used_kept ∙ used) payload_kept)
    by_figure i e (inr f) =
        let (lt, used, same) = find-some l.slots id i e in
        let (id_kept, used_kept, payload_kept) = updated_lem (l.slots i) in
        rw (e, f, payload_changed)
          (raise-tells up _ i l taken fits t
            (subst (IsSlotFor l.slots i) (sym (id_kept ∙ same))
              (find-IsSlotFor l.slots id i t.distinct e))
            (used_kept ∙ used))

    by_slot :
        (find id l.slots ≡ none) ⊎ ((i : ℕ) × (find id l.slots ≡ some i))
        → IsTold (record { sessions = payload_changed id bytes l; taken = taken })
    by_slot (inl e) = rw (e, payload_changed) t
    by_slot (inr (i, e)) =
        by_figure i e (Bool-cases (floor_payload bytes == (updated (l.slots i)).payload_bytes))

mtu_requested-tells :
    (id : ℕ) (outcome : MtuRequest) (l : LinkSessions) (taken : List LinkEvent)
    → IsTold (record { sessions = l; taken = taken })
    → IsTold (record { sessions = mtu_requested id outcome l; taken = taken })
unfolding mtu_requested
mtu_requested-tells id outcome l taken t = by_slot (Option-cases (find id l.slots))
  where
    by_slot :
        (find id l.slots ≡ none) ⊎ ((i : ℕ) × (find id l.slots ≡ some i))
        → IsTold (record { sessions = mtu_requested id outcome l; taken = taken })
    by_slot (inl e) = rw (e, mtu_requested) t
    by_slot (inr (i, e)) =
        let (lt, used, same) = find-some l.slots id i e in
        rw (e, mtu_requested) (quiet-tells _ i l taken t lt used refl used refl)

disconnected-tells :
    (id : ℕ) (l : LinkSessions) (taken : List LinkEvent)
    → l.dropped + 1 < 2 ^ 32
    → IsTold (record { sessions = l; taken = taken })
    → IsTold (record { sessions = disconnected id l; taken = taken })
unfolding disconnected
disconnected-tells id l taken fits t = by_slot (Option-cases (find id l.slots))
  where
    by_slot :
        (find id l.slots ≡ none) ⊎ ((i : ℕ) × (find id l.slots ≡ some i))
        → IsTold (record { sessions = disconnected id l; taken = taken })
    by_slot (inl e) = rw (e, disconnected) t
    by_slot (inr (i, e)) =
        let same = (find-some l.slots id i e).2 in
        rw (e, disconnected)
          (raise-tells down _ i l taken fits t
            (subst (IsSlotFor l.slots i) (sym same) (find-IsSlotFor l.slots id i t.distinct e))
            refl)

-- A pop takes the oldest event of the queue, or finds none.
pop_cases :
    (f : Fifo LinkEvent)
    → IsRing 8 f
    → let (g, r) = pop 8 f in
      ((r ≡ error empty) × (contents 8 g ≡ contents 8 f))
      ⊎ ((x : LinkEvent) × (r ≡ value x) × (contents 8 f ≡ x ∷ contents 8 g))
pop_cases f v = by_list (contents 8 f) refl
  where
    by_list :
        (q : List LinkEvent)
        → contents 8 f ≡ q
        → (((pop 8 f).1 ≡ error empty) × (contents 8 (pop 8 f).0 ≡ contents 8 f))
          ⊎ ((x : LinkEvent) × ((pop 8 f).1 ≡ value x)
              × (contents 8 f ≡ x ∷ contents 8 (pop 8 f).0))
    by_list [] e =
        let both : (contents 8 (pop 8 f).0, (pop 8 f).1) ≡ ([], error empty) =
          pop_refines 8 f v ∙ ap dequeue e in
        inl (ap (λ r. r.1) both, ap (λ r. r.0) both ∙ sym e)
    by_list (x ∷ q) e =
        let both : (contents 8 (pop 8 f).0, (pop 8 f).1) ≡ (q, value x) =
          pop_refines 8 f v ∙ ap dequeue e in
        inr (x, ap (λ r. r.1) both, e ∙ ap (λ r. x ∷ r.0) (sym both))

-- An event that is taken moves from the queue to those that have been taken.
pop_event-tells :
    (l : LinkSessions) (taken : List LinkEvent)
    → IsTold (record { sessions = l; taken = taken })
    → IsTold (step takes_event (record { sessions = l; taken = taken }))
unfolding pop_event
pop_event-tells l taken t = elim (pop_cases l.events t.ring) [
  | inl (r, q) ↦
      let refused : pop_event l ≡ (record l { events = (pop 8 l.events).0 }, none) =
        rw (r, pop_event) refl in
      subst (λ p. IsTold (taking taken p)) (sym refused)
        (record {
          ring = pop-IsRing 8 l.events t.ring;
          distinct = t.distinct;
          tells = λ d x. ap (λ c. told x none (taken ++ c)) q ∙ t.tells d x;
        })
  | inr (x, r, q) ↦
      let given : pop_event l ≡ (record l { events = (pop 8 l.events).0 }, some x) =
        rw (r, pop_event) refl in
      subst (λ p. IsTold (taking taken p)) (sym given)
        (record {
          ring = pop-IsRing 8 l.events t.ring;
          distinct = t.distinct;
          tells = λ d y.
              ap (told y none) (append_assoc taken (x ∷ []) (contents 8 (pop 8 l.events).0))
              ∙ ap (λ c. told y none (taken ++ c)) (sym q)
              ∙ t.tells d y;
        })
]

-- A call drops one event at most.
dropped-step : (c : LinkCall) (t : Told) → (step c t).sessions.dropped ≤ suc t.sessions.dropped
unfolding connected payload_changed mtu_requested disconnected pop_event raise
dropped-step (connects id bytes) t = ground arith
dropped-step (changes_payload id bytes) t = ground arith
dropped-step (requests_mtu id outcome) t = ground arith
dropped-step (disconnects id) t = ground arith
dropped-step takes_event t = ground arith

dropped-run : (h : List LinkCall) → (run h).sessions.dropped ≤ length h
dropped-run [] = omega arith
dropped-run (c ∷ h) = omega (arith, dropped-step c (run h), dropped-run h)

step-IsTold :
    (c : LinkCall) (t : Told) → t.sessions.dropped + 1 < 2 ^ 32 → IsTold t → IsTold (step c t)
step-IsTold (connects id bytes) t fits v = connected-tells id bytes t.sessions t.taken fits v
step-IsTold (changes_payload id bytes) t fits v =
    payload_changed-tells id bytes t.sessions t.taken fits v
step-IsTold (requests_mtu id outcome) t fits v = mtu_requested-tells id outcome t.sessions t.taken v
step-IsTold (disconnects id) t fits v = disconnected-tells id t.sessions t.taken fits v
step-IsTold takes_event t fits v = pop_event-tells t.sessions t.taken v

run-IsTold : (h : List LinkCall) → length h < 2 ^ 32 → IsTold (run h)
run-IsTold [] fits = record {
  ring = record { roomy = omega arith; head_in = omega arith; tail_in = omega arith };
  distinct = λ i j p q u. cc;
  tells = λ d id. refl;
}
run-IsTold (c ∷ h) fits =
    step-IsTold c (run h) (omega (arith, dropped-run h)) (run-IsTold h (omega arith))

-- The events tell the table: after any history of the link's calls shorter than 2^32 of which no
-- event was dropped, the last event that speaks of a session, taken or still queued, gives the
-- payload that the table has for it if it is up, and is a Down, or missing, if it is not. No session
-- stands in two slots, dropped events or not.
pub run_tells :
    (h : List LinkCall) (id : ℕ)
    → length h < 2 ^ 32
    → IsDistinct (run h).sessions.slots
      × (((run h).sessions.dropped ≢ 0)
          ⊎ (told id none (events_of (run h)) ≡ current (run h).sessions.slots id))
run_tells h id fits =
    let v = run-IsTold h fits in
    (
      v.distinct,
      elim (Bool-cases ((run h).sessions.dropped == 0)) [
        | inl e ↦ inr (v.tells (ground arith) id)
        | inr e ↦ inl (ground arith)
      ],
    )
