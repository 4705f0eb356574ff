-- ===== src/Base/Filepath.antt =====
-- Package path/filepath on a system whose separator is the slash.
use mathlib.Core.Bool.{Bool, not, ◌&&◌, ◌||◌}
use mathlib.Core.List.{List, [], ◌∷◌, ◌++◌, reverse}
use fidorix.Base.Tests.{◌==◌, if◌then◌else◌}
use fidorix.Base.Strings.{Text, codes, text_eq, is_empty, has_prefix, split, contains}

abbrev pub slash : Text
slash = codes "/"

-- The parts with a slash between each two.
unfoldable pub join_slash : List Text → Text
join_slash [] = []
join_slash (p ∷ []) = p
join_slash (p ∷ q ∷ ps) = p ++ (slash ++ join_slash (q ∷ ps))

-- One part of a path; the stack has its top at the head.
unfoldable pub clean_part : Bool → List Text → Text → List Text
clean_part rooted stack part =
    if is_empty part || text_eq part (codes ".")
    then stack
    else if text_eq part (codes "..")
    then climb stack
    else part ∷ stack
  where
    climb : List Text → List Text
    climb [] = if rooted then [] else part ∷ []
    climb (top ∷ rest) = if text_eq top (codes "..") then part ∷ top ∷ rest else rest

unfoldable pub clean_parts : Bool → List Text → List Text → List Text
unfolding clean_part
clean_parts rooted stack [] = reverse stack
clean_parts rooted stack (part ∷ parts) = clean_parts rooted (clean_part rooted stack part) parts

abbrev pub or_dot : Text → Text
or_dot [] = codes "."
or_dot (c ∷ s) = c ∷ s

-- filepath.Clean
unfoldable pub clean_path : Text → Text
unfolding clean_parts join_slash
clean_path path =
    let rooted = has_prefix path slash in
    let parts = join_slash (clean_parts rooted [] (split path b'/')) in
    if rooted then slash ++ parts else or_dot parts

abbrev pub non_empty : List Text → List Text
non_empty [] = []
non_empty (p ∷ ps) = if is_empty p then non_empty ps else p ∷ non_empty ps

abbrev pub clean_joined : List Text → Text
clean_joined [] = []
clean_joined (p ∷ ps) = clean_path (join_slash (p ∷ ps))

-- filepath.Join: elements that are empty do not count.
unfoldable pub join_path : List Text → Text
unfolding clean_path
join_path parts = clean_joined (non_empty parts)

-- filepath.Ext: from the last dot of the last element.
unfoldable pub ext : Text → Text
unfolding contains
ext [] = []
ext (c ∷ s) =
    let later = ext s in
    if not (is_empty later)
    then later
    else if c == b'.' && not (contains s slash)
    then c ∷ s
    else []

-- The text up to its last slash, and the text behind it.
unfoldable pub cut_last : Text → Text × Text
unfolding contains
cut_last [] = ([], [])
cut_last (c ∷ s) =
    let (before, behind) = cut_last s in
    if c == b'/' || contains s slash then (c ∷ before, behind) else ([], c ∷ behind)

-- filepath.Dir
unfoldable pub dir_path : Text → Text
unfolding clean_path cut_last
dir_path path = clean_path (cut_last path).0

-- Without the slashes at the end.
unfoldable pub strip_slashes : Text → Text
strip_slashes [] = []
strip_slashes (c ∷ s) =
    let rest = strip_slashes s in if is_empty rest && c == b'/' then [] else c ∷ rest

abbrev or_slash : Text → Text
or_slash s = if is_empty s then slash else s

-- filepath.Base
unfoldable pub base_path : Text → Text
unfolding strip_slashes cut_last
base_path path = if is_empty path then codes "." else or_slash (cut_last (strip_slashes path)).1
