-- ===== src/Recordings/PathSafety/Place.antt =====
-- The place in a file system that a POSIX path names: the names on the way to it from the root, the
-- last one first.
use Prim.Native.Char.{Char, code}
use reolink_station.Prelude.{
  String, Bool, true, false, ◌||◌, List, [], ◌∷◌, ◌++◌, ◌≡◌, ◌==◌, same_text, join_text,
  if◌then◌else◌,
}
use reolink_station.Prelude.Split.{is_empty, split_at, is_free}

abbrev pub slash : Char
slash = "/"

unfoldable pub segments : String → List String
unfolding split_at
segments = split_at b'/'

abbrev pub parent : List String → List String
parent [] = []
parent (n ∷ ns) = ns

-- One segment of a path: an empty one and "." stay, ".." goes up, and a name goes down.
unfoldable pub enter : List String → String → List String
enter ns n =
    if is_empty n || same_text n "." then ns else if same_text n ".." then parent ns else n ∷ ns

unfoldable pub walk : List String → List String → List String
walk ns [] = ns
walk ns (s ∷ ss) = walk (enter ns s) ss

unfoldable pub place : String → List String
unfolding walk segments enter
place p = walk [] (segments p)

-- A name of a file.
unfoldable pub is_name : String → Bool
unfolding is_free
is_name n =
    if is_empty n || same_text n "."
    then false
    else if same_text n ".."
    then false
    else is_free b'/' n

abbrev pub AllNames : List String → Type 0
AllNames [] = Unit {0}
AllNames (n ∷ ns) = (is_name n ≡ true) × AllNames ns

-- The absolute path of a place: the empty text for the root.
unfoldable pub render : List String → String
render [] = ""
render (n ∷ ns) = join_text (render ns) (String.◌∷◌ slash n)

-- with a slash behind it, if it is wanted or the place is the root
unfoldable pub rendered : List String → Bool → String
unfolding render
rendered [] wanted = "/"
rendered (n ∷ ns) wanted = if wanted then join_text (render (n ∷ ns)) "/" else render (n ∷ ns)

unfoldable pub starts_slash : String → Bool
starts_slash String.[] = false
starts_slash (String.◌∷◌ c s) = code c == b'/'

unfoldable pub ends_slash : String → Bool
ends_slash String.[] = false
ends_slash (String.◌∷◌ c s) = let rest = ends_slash s in if is_empty s then code c == b'/' else rest

-- The second place is the first or lies below it.
abbrev pub IsUnder : List String → List String → Type 0
IsUnder base ns = (below : List String) × (ns ≡ below ++ base)
