-- ===== src/App/Text.antt =====
-- `strings.TrimSpace`, on the bytes of UTF-8.
pub mod Trimming
use p2papp.Prelude.{
  ℕ, zero, suc, Option, none, some, List, [], ◌∷◌, ◌++◌, map, Str, length, ◌==◌, if◌then◌else◌,
}

-- What `unicode.IsSpace` accepts, in UTF-8: the six of ASCII, U+0085, U+00A0, U+1680, U+2000 to U+200A,
-- U+2028, U+2029, U+202F, U+205F and U+3000.
abbrev pub white_space : List Str
white_space =
    (9 ∷ [])
    ∷ (10 ∷ [])
    ∷ (11 ∷ [])
    ∷ (12 ∷ [])
    ∷ (13 ∷ [])
    ∷ (32 ∷ [])
    ∷ (194 ∷ 133 ∷ [])
    ∷ (194 ∷ 160 ∷ [])
    ∷ (225 ∷ 154 ∷ 128 ∷ [])
    ∷ (226 ∷ 128 ∷ 128 ∷ [])
    ∷ (226 ∷ 128 ∷ 129 ∷ [])
    ∷ (226 ∷ 128 ∷ 130 ∷ [])
    ∷ (226 ∷ 128 ∷ 131 ∷ [])
    ∷ (226 ∷ 128 ∷ 132 ∷ [])
    ∷ (226 ∷ 128 ∷ 133 ∷ [])
    ∷ (226 ∷ 128 ∷ 134 ∷ [])
    ∷ (226 ∷ 128 ∷ 135 ∷ [])
    ∷ (226 ∷ 128 ∷ 136 ∷ [])
    ∷ (226 ∷ 128 ∷ 137 ∷ [])
    ∷ (226 ∷ 128 ∷ 138 ∷ [])
    ∷ (226 ∷ 128 ∷ 168 ∷ [])
    ∷ (226 ∷ 128 ∷ 169 ∷ [])
    ∷ (226 ∷ 128 ∷ 175 ∷ [])
    ∷ (226 ∷ 129 ∷ 159 ∷ [])
    ∷ (227 ∷ 128 ∷ 128 ∷ [])
    ∷ []

-- A text without the bytes that it begins with, and without the first of some runes.
unfoldable pub strip : Str → Str → Option Str
strip [] s = some s
strip (c ∷ r) [] = none
strip (c ∷ r) (d ∷ s) = let rest = strip r s in if c == d then rest else none

abbrev pub or_else : Option Str → Option Str → Option Str
or_else (some s) o = some s
or_else none o = o

unfoldable pub strip_any : List Str → Str → Option Str
strip_any [] s = none
strip_any (r ∷ rs) s = or_else (strip r s) (strip_any rs s)

-- A text without the runes at its front, on fuel; and read backwards.
unfoldable pub trim_front : List Str → ℕ → Str → Str
trim_front rs zero s = s
trim_front rs (suc fuel) s = elim (strip_any rs s) [
  | none ↦ s
  | some rest ↦ trim_front rs fuel rest
]

unfoldable pub backwards : Str → Str
backwards [] = []
backwards (c ∷ cs) = backwards cs ++ c ∷ []

unfoldable pub trim_back : Str → Str
trim_back s = backwards (trim_front (map backwards white_space) (length s) (backwards s))

-- `strings.TrimSpace`
unfoldable pub trim_space : Str → Str
trim_space s = trim_back (trim_front white_space (length s) s)
