-- ===== src/Url/Join.antt =====
-- path.Clean, path.Join and url.JoinPath.
use Prim.Native.String.{[], ◌∷◌, ◌++◌}
use mathlib.Core.List.{reverse}
use concrnt_playground.Prelude.{
  String, code, Bool, true, false, ◌||◌, Option, none, some, List, ◌==◌, nat_eq, string_eq, split,
  join, if◌then◌else◌,
}
use concrnt_playground.Url.{Url}
use concrnt_playground.Url.Parse.{parse, set_path}
use concrnt_playground.Url.Print.{escaped_path, to_string}

-- A step up from the segments kept so far, the last one first.
up : Bool → List String → List String
up true List.[] = List.[]
up false List.[] = List.◌∷◌ ".." List.[]
up true (List.◌∷◌ s ss) = ss
up false (List.◌∷◌ s ss) = if s == ".." then List.◌∷◌ ".." (List.◌∷◌ s ss) else ss

abbrev keep : Bool → List String → String → List String
keep rooted stack s =
    if s == "" || s == "." then stack else if s == ".." then up rooted stack else List.◌∷◌ s stack

segments : Bool → List String → List String → List String
segments rooted stack List.[] = reverse stack
segments rooted stack (List.◌∷◌ s ss) = segments rooted (keep rooted stack s) ss

abbrev or_dot : String → String
or_dot s = if s == "" then "." else s

-- path.Clean
unfoldable pub clean : String → String
unfolding segments up split join
clean [] = "."
clean (c ∷ s) =
    if code c == b'/'
    then "/" ++ join "/" (segments true List.[] (split "/" s))
    else or_dot (join "/" (segments false List.[] (split "/" (c ∷ s))))

-- path.Join of two elements
unfoldable pub join_two : String → String → String
unfolding clean
join_two a b =
    if a == ""
    then (if b == "" then "" else clean b)
    else if b == ""
    then clean a
    else clean (a ++ ("/" ++ b))

abbrev drop_first : String → String
drop_first [] = ""
drop_first (c ∷ s) = s

-- The joined path of URL.JoinPath("..").
abbrev parent_path : String → String
parent_path [] = drop_first (join_two "/" "..")
parent_path (c ∷ s) =
    if code c == b'/' then join_two (c ∷ s) ".." else drop_first (join_two ("/" ++ (c ∷ s)) "..")

abbrev or_same : Url → Option Url → Url
or_same u none = u
or_same u (some v) = v

-- url.JoinPath(base, ".."): an error of setPath is ignored.
unfoldable pub join_parent : String → Option String
unfolding join_two parse set_path escaped_path to_string
join_parent base = elim (parse base) [
  | none ↦ none
  | some u ↦ some (to_string (or_same u (set_path u (parent_path (escaped_path u)))))
]
