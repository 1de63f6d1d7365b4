-- ===== src/Base/FilePath.antt =====
-- `filepath.Clean` on a system whose separator is a slash.
use Prim.Native.Nat.{ℕ}
use mathlib.Core.Bool.{Bool, ◌||◌}
use mathlib.Core.List.{List, [], ◌∷◌, ◌++◌, reverse}
use bpc.Base.Tests.{◌==◌, if◌then◌else◌}
use bpc.Base.Text.{Bytes, bytes_eq, has_prefix}
use bpc.Base.Lists.{length}

abbrev pub slash : ℕ
slash = 47

abbrev pub dot : Bytes
dot = 46 ∷ []

abbrev pub dots : Bytes
dots = 46 ∷ 46 ∷ []

extend_first : ℕ → List Bytes → List Bytes
extend_first c [] = (c ∷ []) ∷ []
extend_first c (s ∷ ss) = (c ∷ s) ∷ ss

unfoldable pub split_slash : Bytes → List Bytes
unfolding extend_first
split_slash [] = [] ∷ []
split_slash (c ∷ cs) =
    let rest = split_slash cs in if c == slash then [] ∷ rest else extend_first c rest

unfoldable pub join_slash : List Bytes → Bytes
join_slash [] = []
join_slash (s ∷ []) = s
join_slash (s ∷ t ∷ ss) = s ++ (slash ∷ join_slash (t ∷ ss))

-- One element back: at the root there is none, and above the start `..` stays.
unfoldable pub go_back : Bool → List Bytes → List Bytes
go_back rooted [] = if rooted then [] else dots ∷ []
go_back rooted (s ∷ out) = if bytes_eq s dots then dots ∷ s ∷ out else out

unfoldable pub clean_step : Bool → List Bytes → Bytes → List Bytes
unfolding go_back
clean_step rooted out s =
    if length s == 0 || bytes_eq s dot
    then out
    else if bytes_eq s dots
    then go_back rooted out
    else s ∷ out

-- The last element first.
unfoldable pub clean_parts : Bool → List Bytes → List Bytes → List Bytes
unfolding clean_step
clean_parts rooted out [] = out
clean_parts rooted out (s ∷ ss) = clean_parts rooted (clean_step rooted out s) ss

unfoldable pub clean_path : Bytes → Bytes
clean_path path =
    let rooted = has_prefix path (slash ∷ []) in
    let body = join_slash (reverse (clean_parts rooted [] (split_slash path))) in
    if rooted then slash ∷ body else if length body == 0 then dot else body
