-- ===== src/Cgroups/Limits.antt =====
-- The throttle of a scope against its hard ceiling, and the range of the OOM scores.
use nodepilot.Common.{ℤ, pos, negsuc, pos_part, neg_part, ◌≡◌, ℕ, ◌+◌, ◌≤◌, ◌<◌, ◌↔◌, arith}
use nodepilot.Config.{gib}
use nodepilot.Cgroups.{memory_high, clamp_score}

-- The throttle lies below the ceiling of a scope exactly when the ceiling exceeds 1 GiB, and never
-- by more than the 4 GiB of headroom.
pub memory_high_lem :
    (ram_gb : ℕ)
    → ((memory_high ram_gb < ram_gb) ↔ (gib < ram_gb)) × (ram_gb ≤ memory_high ram_gb + 4294967296)
unfolding memory_high
memory_high_lem ram_gb = ((λ h. ground arith, λ h. ground arith), ground arith)

-- The score that is written is from -1000 to 1000, and it is the given one exactly when that is in
-- this range.
pub clamp_score_lem :
    (value : ℤ)
    → (pos_part (clamp_score value) ≤ 1000)
      × (neg_part (clamp_score value) ≤ 1000)
      × ((clamp_score value ≡ value) ↔ ((pos_part value ≤ 1000) × (neg_part value ≤ 1000)))
unfolding clamp_score
clamp_score_lem (pos n) = (ground arith, ground arith, (λ e. ground arith, λ r. ground arith))
clamp_score_lem (negsuc n) = (ground arith, ground arith, (λ e. ground arith, λ r. ground arith))
