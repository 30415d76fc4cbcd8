-- ===== src/Comms/LinkSessions/Tests.antt =====
-- Tests on two centrals, one of which negotiates a larger payload and goes.
use skyblip.Base.{◌≡◌, ◌≢◌, refl, ◌⊎◌, none, List, [], ◌∷◌, arith}
use skyblip.Util.Fifo.{push, pop}
use skyblip.Comms.LinkSessions.{
  connected, payload_changed, mtu_requested, disconnected, pop_event, raise, exchanged, count,
}
use skyblip.Comms.LinkSessions.Slots.{IsDistinct, current}
use skyblip.Comms.LinkSessions.Told.{
  LinkCall, connects, changes_payload, requests_mtu, disconnects, takes_event, run, told, events_of,
  run_tells,
}

abbrev two_centrals : List LinkCall
two_centrals =
    disconnects 4
    ∷ takes_event
    ∷ changes_payload 9 244
    ∷ requests_mtu 9 exchanged
    ∷ connects 9 20
    ∷ connects 4 100
    ∷ []

one_left : count (run two_centrals).sessions ≡ 1
unfolding connected payload_changed mtu_requested disconnected pop_event raise count push pop
one_left = refl

run_tells_example :
    IsDistinct (run two_centrals).sessions.slots
    × (((run two_centrals).sessions.dropped ≢ 0)
        ⊎ (told 9 none (events_of (run two_centrals))
            ≡ current (run two_centrals).sessions.slots 9))
run_tells_example = run_tells two_centrals 9 (omega arith)
