-- ===== src/Numa/Allocate/Order.antt =====
-- The order in which `allocate` prefers its candidates.
use nodepilot.Common.{arith}
use nodepilot.Common.Sort.{StrictOrder}
use nodepilot.Numa.Allocate.{candidate_less}

pub candidate_less-StrictOrder : StrictOrder candidate_less
unfolding candidate_less
candidate_less-StrictOrder = record {
  asymm = λ a b h. ground arith;
  not_less_trans = λ a b c h k. ground arith;
}
