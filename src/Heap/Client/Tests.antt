-- ===== src/Heap/Client/Tests.antt =====
-- A client with three areas, which writes into the second one.
use simple_kernel.Base.{◌+◌, ◌≤◌, ◌⊎◌, arith, List, [], ◌∷◌}
use simple_kernel.Heap.{padded}
use simple_kernel.Heap.Samples.{counting, fresh, fresh_blocks, fresh-Heap, fresh_kernel}
use simple_kernel.Heap.Client.{Action, malloc, pages, write, cost, total_cost, AllFine}
use simple_kernel.Heap.Client.Kept.{IsSafe}
use simple_kernel.Heap.Client.Safe.{Ended, Stopped, run-IsSafe}

abbrev script : List Action
script = malloc 50 ∷ pages 2 ∷ write 1 3 0x2A ∷ malloc 5000 ∷ []

script-AllFine : AllFine script
script-AllFine = omega arith

supplied : 3 + total_cost script ≤ 100
unfolding cost padded
supplied = omega arith

fresh-IsSafe : IsSafe fresh []
fresh-IsSafe = record { layout = fresh_blocks; heap = fresh-Heap; held = tt; disjoint = tt }

run-IsSafe_example :
    Ended counting 3 script (fresh_kernel, []) ⊎ Stopped counting script (fresh_kernel, [])
run-IsSafe_example =
    run-IsSafe counting 3 script fresh_kernel [] fresh-IsSafe script-AllFine supplied
