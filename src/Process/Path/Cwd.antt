-- ===== src/Process/Path/Cwd.antt =====
-- The working directory reads back as what the path makes of it.
use queen.Base.{◌≡◌, Bool, true, false, not, ◌&&◌, List, [], ◌∷◌, ◌++◌, All}
use queen.Process.Path.{Bytes, is_dot, is_dot_dot, no_slash}

abbrev pub is_segment : Bytes → Bool
is_segment [] = false
is_segment (c ∷ cs) = no_slash (c ∷ cs)

-- A segment that is no `.` and no `..`.
abbrev pub is_plain : Bytes → Bool
is_plain seg = is_segment seg && (not (is_dot seg) && not (is_dot_dot seg))

abbrev pub AllPlain : List Bytes → Type 0
AllPlain = All (λ seg. is_plain seg ≡ true)

abbrev prepend : Bytes → List Bytes → List Bytes
prepend s [] = s ∷ []
prepend s (part ∷ parts) = (s ++ part) ∷ parts
