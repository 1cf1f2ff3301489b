-- ===== src/Names.antt =====
-- Lists of names as Python's sets, and the normal form in which names are kept: trimmed, none empty,
-- no two equal.
use tu_ft.Base.{
  String, Bool, true, not, ◌&&◌, Option, none, some, List, [], ◌∷◌, map, if◌then◌else◌,
}
use tu_ft.Dict.{elem}
use tu_ft.Text.{strip, is_empty}

-- set(xs) <= set(ys)
unfoldable pub all_in : List String → List String → Bool
unfolding elem
all_in [] ys = true
all_in (x ∷ xs) ys = elem ys x && all_in xs ys

-- set(xs) == set(ys)
unfoldable pub same_set : List String → List String → Bool
unfolding all_in
same_set xs ys = all_in xs ys && all_in ys xs

-- len(set(names)) == len(names)
unfoldable pub is_distinct : List String → Bool
unfolding elem
is_distinct [] = true
is_distinct (x ∷ xs) = not (elem xs x) && is_distinct xs

-- all(name.strip() for name in names)
unfoldable pub no_blank : List String → Bool
unfolding strip is_empty
no_blank [] = true
no_blank (x ∷ xs) = not (is_empty (strip x)) && no_blank xs

-- [name.strip() for name in names]
unfoldable pub normalized : List String → List String
unfolding strip
normalized xs = map strip xs

-- The names without the blanks around them, if none is blank and no two are then equal.
unfoldable pub valid_names : List String → Option (List String)
unfolding no_blank normalized is_distinct
valid_names xs = if no_blank xs && is_distinct (normalized xs) then some (normalized xs) else none
