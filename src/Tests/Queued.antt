-- ===== src/Tests/Queued.antt =====
-- week5/workshop5/threads/msgq.c on examples.
use cab403work.MessageQueue.{Queue, Reach}
use cab403work.MessageQueue.Filled.{start_closes}
use cab403work.MessageQueue.Blocked.{IsBlocked, Closing-IsBlocked}

-- The program has come from its start to a full buffer.
abbrev filled : Queue
filled = (start_closes (λ j. 7)).0

Closing-IsBlocked_example :
    (q' : Queue) × Reach filled q' × IsBlocked q' × ((q'' : Queue) → Reach q' q'' → IsBlocked q'')
Closing-IsBlocked_example = Closing-IsBlocked 5 filled (start_closes (λ j. 7)).2
