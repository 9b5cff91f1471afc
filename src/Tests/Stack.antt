-- ===== src/Tests/Stack.antt =====
-- Runs of the stack of idle workers.
use gocommon.Base.{zero, suc, ◌≡◌, refl, some, [], ◌∷◌, keep, arith}
use gocommon.Gpool.Worker.{GoWorker, is_fresh, is_expired}
use gocommon.Gpool.WorkerStack.{WorkerStack, binary_search, retrieve_expiry}
use gocommon.Gpool.WorkerStack.Search.{IsSorted, ExpiredBelow, FreshFrom}
use gocommon.Gpool.WorkerStack.Laws.{retrieve_expiry_exact}

abbrev early : GoWorker
early = record { id = 1; recycle_time = 10 }

abbrev late : GoWorker
late = record { id = 2; recycle_time = 90 }

abbrev two : WorkerStack
two = record { items = early ∷ late ∷ []; expiry = []; size = 0 }

two-IsSorted : IsSorted two.items
two-IsSorted zero zero v w le a b = ground arith
two-IsSorted zero (suc zero) v w le a b = ground arith
two-IsSorted zero (suc (suc j)) v w le a b = absurd (ground arith)
two-IsSorted (suc zero) zero v w le a b = absurd (omega arith)
two-IsSorted (suc zero) (suc zero) v w le a b = ground arith
two-IsSorted (suc zero) (suc (suc j)) v w le a b = absurd (ground arith)
two-IsSorted (suc (suc i)) j v w le a b = absurd (ground arith)

retrieve_expiry_exact_example :
    (left : WorkerStack) × (retrieve_expiry 100 50 two
      ≡ some (keep (is_expired 100 50) two.items, left))
    × (left.items ≡ keep (is_fresh 100 50) two.items)
retrieve_expiry_exact_example = retrieve_expiry_exact 100 50 two two-IsSorted

retrieve_expiry_run : keep (is_expired 100 50) two.items ≡ early ∷ []
unfolding is_expired is_fresh
retrieve_expiry_run = refl

search_run : binary_search 3 two.items 0 2 100 50 ≡ some 1
unfolding binary_search is_fresh
search_run = refl

below_none : ExpiredBelow 100 50 two.items 0
below_none i w lt e = absurd (omega arith)

from_two : FreshFrom 100 50 two.items 2
from_two zero w le e = absurd (omega arith)
from_two (suc zero) w le e = absurd (omega arith)
from_two (suc (suc i)) w le e = absurd (ground arith)
