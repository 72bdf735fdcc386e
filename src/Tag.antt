-- ===== src/Tag.antt =====
-- tag.go: tags with values, written `key:value,key`. A map is a list of its pairs, and the order in
-- which Go ranges over one is that of any list of them.
pub mod Laws
mod Tests
use Prim.Native.String.{[], ◌∷◌, ◌++◌}
use concrnt_playground.Prelude.{
  ℕ, String, code, Bool, true, false, Option, none, some, List, lookup, insert, remove, split, ◌==◌,
  nat_eq, string_eq, if◌then◌else◌,
}
use concrnt_playground.Prelude.Int.{ℤ, pos}
use concrnt_playground.Jwt.{parse_int}

-- concrnt.Tags
abbrev pub Tags : Type 0
Tags = List (String × String)

abbrev pub new_tags : Tags
new_tags = List.[]

-- The body of the loop of ParseTags: a piece with two colons or more is passed over.
abbrev pub put : List String → Tags → Tags
put (List.◌∷◌ key List.[]) tags = insert key "" tags
put (List.◌∷◌ key (List.◌∷◌ value List.[])) tags = insert key value tags
put pair tags = tags

abbrev pub parse_from : Tags → List String → Tags
parse_from tags List.[] = tags
parse_from tags (List.◌∷◌ piece pieces) = parse_from (put (split ":" piece) tags) pieces

-- ParseTags
unfoldable pub parse_tags : String → Tags
parse_tags input = parse_from new_tags (split "," input)

-- Tags.Add
unfoldable pub add : String → String → Tags → Tags
add key value tags = insert key value tags

abbrev pub is_some {ℓ} : {A : Type ℓ} → Option A → Bool
is_some none = false
is_some (some a) = true

-- Tags.Has
unfoldable pub has : String → Tags → Bool
has key tags = is_some (lookup key tags)

-- Tags.Remove, whose `remove` is the map's `delete`
unfoldable pub drop_tag : String → Tags → Tags
drop_tag key tags = remove key tags

abbrev pub or_empty : Option String → String
or_empty none = ""
or_empty (some s) = s

-- Tags.Get
unfoldable pub get : String → Tags → String
get key tags = or_empty (lookup key tags)

-- strconv.Atoi on a 64-bit machine, where it reads what ParseInt reads.
abbrev or_zero : Option ℤ → ℤ × Bool
or_zero none = (pos 0, false)
or_zero (some n) = (n, true)

abbrev as_int : Option String → ℤ × Bool
as_int none = (pos 0, false)
as_int (some value) = or_zero (parse_int value)

-- Tags.GetAsInt
unfoldable pub get_as_int : String → Tags → ℤ × Bool
get_as_int key tags = as_int (lookup key tags)

abbrev pub show_value : String → String
show_value value = if value == "" then "" else ":" ∷ value

-- The loop of ToString, from the text so far.
abbrev pub to_string_from : String → Tags → String
to_string_from result List.[] = result
to_string_from result (List.◌∷◌ (key, value) tags) =
    to_string_from ((if result == "" then result else result ++ ",") ++ (key ++ show_value value))
      tags

-- Tags.ToString
unfoldable pub to_string : Tags → String
to_string tags = to_string_from "" tags
