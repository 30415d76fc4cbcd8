-- ===== src/Util/Fifo/Tests.antt =====
-- Tests on a ring of three places, which holds two items.
use skyblip.Base.{ℕ, ◌≡◌, refl, List, [], ◌∷◌, arith, ◌-◌}
use skyblip.Util.Status.{ok, full, empty}
use skyblip.Util.Fifo.{value, error, fifo, push, pop, Call, put, get, pushed, popped, run}
use skyblip.Util.Fifo.Refine.{run_refines, queue_run}

abbrev calls : List (Call ℕ)
calls = put 7 ∷ put 8 ∷ put 9 ∷ get ∷ put 9 ∷ get ∷ get ∷ get ∷ []

goes_round :
    run 3 (fifo 0) calls
    ≡ pushed ok
      ∷ pushed ok
      ∷ pushed full
      ∷ popped (value 7)
      ∷ pushed ok
      ∷ popped (value 8)
      ∷ popped (value 9)
      ∷ popped (error empty)
      ∷ []
unfolding push pop
goes_round = refl

run_refines_example : run 3 (fifo 0) calls ≡ queue_run (3 - 1) [] calls
run_refines_example = run_refines 3 0 calls (omega arith)
