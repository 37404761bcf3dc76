-- ===== src/Numa/CpuList/Samples.antt =====
-- The examples of the doc strings, and texts that are refused.
use nodepilot.Common.{◌≡◌, refl, ◌∷◌, [], ok, err, value_error}
use nodepilot.Common.Text.{codes, strip, split_on, split_once, join, is_empty}
use nodepilot.Common.Decimal.{int, decimal}
use nodepilot.Numa.Cores.{update, range}
use nodepilot.Numa.CpuList.{parse_cpu_list, format_cpu_list}

parse_samples :
    (parse_cpu_list (codes "0-3,8,12-13") ≡ ok (0 ∷ 1 ∷ 2 ∷ 3 ∷ 8 ∷ 12 ∷ 13 ∷ []))
    × (parse_cpu_list (codes " 5, ,2 ") ≡ ok (2 ∷ 5 ∷ []))
    × (parse_cpu_list (codes "  ") ≡ ok [])
    × (parse_cpu_list (codes "3-1") ≡ err value_error)
    × (parse_cpu_list (codes "-4") ≡ err value_error)
    × (parse_cpu_list (codes "1-2-3") ≡ err value_error)
unfolding parse_cpu_list strip split_on split_once is_empty int update range
parse_samples = (refl, refl, refl, refl, refl, refl)

format_sample : format_cpu_list (8 ∷ 2 ∷ 0 ∷ 1 ∷ 2 ∷ 3 ∷ []) ≡ codes "0-3,8"
unfolding format_cpu_list join decimal update
format_sample = refl
