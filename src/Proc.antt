-- ===== src/Proc.antt =====
-- The lines of /proc/meminfo, as nodepilot/admission.py and nodepilot/config.py read them.
use nodepilot.Common.{
  ℕ, ◌*◌, List, [], ◌∷◌, Option, none, some, if◌then◌else◌, ok, err, pos, negsuc, get_elem?,
}
use nodepilot.Common.Text.{Text, codes, starts_with, words, lines}
use nodepilot.Common.Decimal.{int}
use nodepilot.Host.{Host}

-- `int(w) * 1024`, as bytes, if the word is there and is a number. (A line without a second word is
-- an IndexError in the source; the kernel prints none, and no negative number.)
kib : Option Text → Option ℕ
kib none = none
kib (some w) = elim (int w) [
  | ok n ↦ elim n [ pos k ↦ some (k * 1024) | negsuc k ↦ none ]
  | err e ↦ none
]

-- The loop over the lines: the value of the first line that starts with the key.
unfoldable pub meminfo_value : Text → List Text → Option ℕ
unfolding kib
meminfo_value key [] = none
meminfo_value key (line ∷ rest) =
    let later = meminfo_value key rest in
    if starts_with line key then kib (get_elem? (words line) 1) else later

unfoldable pub read_meminfo : Host → Text → Option ℕ
read_meminfo h key = elim (h.read_text (codes "/proc/meminfo")) [
  | none ↦ none
  | some text ↦ meminfo_value key (lines text)
]
