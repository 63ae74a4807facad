-- ===== src/Path.antt =====
-- Package path/filepath on Unix: `Clean` and `Join` of two parts, by the components of a path.
pub mod Joining
use p2papp.Prelude.{
  ℕ, Bool, true, false, ◌||◌, List, [], ◌∷◌, ◌++◌, Str, str_dec, codes, holds, ◌==◌, if◌then◌else◌,
}

abbrev pub slash : ℕ
slash = b'/'

abbrev pub dots : Str
dots = codes ".."

abbrev pub dot : Str
dot = codes "."

-- The components of a path, empty ones too: the first is `first` in front of what the path has up to
-- its first slash.
abbrev pub before : ℕ → List Str → List Str
before c [] = (c ∷ []) ∷ []
before c (s ∷ ss) = (c ∷ s) ∷ ss

unfoldable pub split_path : Str → List Str
split_path [] = [] ∷ []
split_path (c ∷ cs) = let rest = split_path cs in if c == slash then [] ∷ rest else before c rest

-- A component `..` takes the last component away, except that it stays where there is none or it
-- follows another `..`; under the root it is dropped. The stack has the last component in front.
abbrev pub step_up : Bool → List Str → List Str
step_up true [] = []
step_up false [] = dots ∷ []
step_up rooted (s ∷ ss) = if holds (str_dec s dots) then dots ∷ s ∷ ss else ss

unfoldable pub resolve : Bool → List Str → List Str → List Str
resolve rooted stack [] = stack
resolve rooted stack (s ∷ ss) =
    resolve rooted
      (if holds (str_dec s []) || holds (str_dec s dot)
        then stack
        else if holds (str_dec s dots)
        then step_up rooted stack
        else s ∷ stack)
      ss

-- The stack as a path without a leading slash, last component first.
unfoldable pub render : List Str → Str
render [] = []
render (s ∷ []) = s
render (s ∷ t ∷ ss) = render (t ∷ ss) ++ slash ∷ s

unfoldable pub rooted_path : List Str → Str
rooted_path stack = slash ∷ render stack

unfoldable pub relative_path : List Str → Str
relative_path [] = dot
relative_path (s ∷ ss) = render (s ∷ ss)

-- `Clean`
unfoldable pub clean : Str → Str
clean [] = dot
clean (c ∷ cs) =
    if c == slash
    then rooted_path (resolve true [] (split_path (c ∷ cs)))
    else relative_path (resolve false [] (split_path (c ∷ cs)))

-- `Join` of two parts.
unfoldable pub join : Str → Str → Str
join [] [] = []
join [] (c ∷ cs) = clean (c ∷ cs)
join (a ∷ rest) b = clean ((a ∷ rest) ++ slash ∷ b)
