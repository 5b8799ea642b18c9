-- ===== src/Tests/Utilities.antt =====
-- Runs of sync/SafeQueue.h.
use lightdb.Common.Int.{pos}
use lightdb.Common.{ℕ, [], ◌∷◌, ◌++◌, some, ◌≡◌, refl}
use lightdb.Sync.{SafeQueue, IsCounted, enqueue_step, dequeue_step, queue_lem}

abbrev two : SafeQueue ℕ
two = record { queue = 4 ∷ 7 ∷ []; size = pos 2 }

queue_lem_example :
    IsCounted (enqueue_step two 9)
    × ((enqueue_step two 9).queue ≡ two.queue ++ 9 ∷ [])
    × (dequeue_step two ≡ some (4, record { queue = 7 ∷ []; size = pos 1 }))
queue_lem_example = queue_lem two 9 refl
