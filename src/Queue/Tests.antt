-- ===== src/Queue/Tests.antt =====
-- The queue's theorem on a schedule of two threads.
use swift_net.Base.{ℕ, ◌≡◌, refl, none, some, List, [], ◌∷◌, arith}
use swift_net.Queue.{Memory, empty}
use swift_net.Queue.Fifo.{Op, insert, wait, run, serve, run_refines}

abbrev no_nodes : Memory ℕ
no_nodes p = none

abbrev schedule : List (Op ℕ)
schedule = insert 64 7 ∷ insert 96 8 ∷ wait ∷ insert 32 9 ∷ wait ∷ wait ∷ wait ∷ []

serve-schedule : serve schedule [] ≡ 64 ∷ 96 ∷ 32 ∷ 0 ∷ []
unfolding serve
serve-schedule = refl

run_refines_example : run schedule empty no_nodes ≡ some (serve schedule [])
run_refines_example = run_refines schedule [] empty no_nodes (omega arith) (refl, refl)
