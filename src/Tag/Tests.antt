-- ===== src/Tag/Tests.antt =====
-- Concrete tags, and the properties of tag.go applied to them.
use concrnt_playground.Prelude.{true, ◌≡◌, refl, [], ◌∷◌, lookup, insert, split, string_eq}
use concrnt_playground.Prelude.Int.{pos}
use concrnt_playground.Jwt.{parse_int}
use concrnt_playground.Uri.{has_char}
use concrnt_playground.Uri.Ids.{Lacks-of_has_char}
use concrnt_playground.Tag.{Tags, parse_tags, has, get, get_as_int, to_string}
use concrnt_playground.Tag.Laws.{IsPlain, parse_tags-to_string}

abbrev two : Tags
two = ("rank", "12") ∷ ("bot", "") ∷ []

written : to_string two ≡ "rank:12,bot"
unfolding to_string
written = refl

read : parse_tags "rank:12,bot,a:b:c" ≡ two
unfolding parse_tags split insert
read = refl

-- The text of no tags reads as a tag with an empty key.
empty_read : has "" (parse_tags (to_string [])) ≡ true
unfolding has parse_tags to_string split insert lookup
empty_read = refl

rank : get_as_int "rank" two ≡ (pos 12, true)
unfolding get_as_int lookup parse_int
rank = refl

rank-IsPlain : IsPlain ("rank", "12")
unfolding has_char
rank-IsPlain = (
  (λ e. cc),
  Lacks-of_has_char "rank" "," refl,
  Lacks-of_has_char "rank" ":" refl,
  Lacks-of_has_char "12" "," refl,
  Lacks-of_has_char "12" ":" refl,
)

bot-IsPlain : IsPlain ("bot", "")
unfolding has_char
bot-IsPlain =
    ((λ e. cc), Lacks-of_has_char "bot" "," refl, Lacks-of_has_char "bot" ":" refl, tt, tt)

parse_tags-to_string_example :
    (has "bot" (parse_tags (to_string two)) ≡ has "bot" two)
    × (get "bot" (parse_tags (to_string two)) ≡ get "bot" two)
parse_tags-to_string_example =
    parse_tags-to_string ("rank", "12") (("bot", "") ∷ []) "bot" (rank-IsPlain, (bot-IsPlain, tt))
      ((refl, tt), (tt, tt))
