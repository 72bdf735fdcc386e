-- ===== src/Store/Like.antt =====
-- LIKE of PostgreSQL on texts in UTF-8: `%` stands for any text, `_` for any character, and a
-- backslash makes the next byte stand for itself.
use Prim.Native.String.{[], ◌∷◌, ◌++◌}
use text.Mathlib.TextLemmas.{cons-append}
use concrnt_playground.Prelude.{
  ℕ, String, string_eq, Char, code, Bool, true, false, not, ◌&&◌, ◌||◌, ◌≡◌, refl, List, ◌==◌,
  nat_eq, leb, ltb, if◌then◌else◌, arith,
}
use concrnt_playground.Url.Bytes.{every, strip_prefix}
use concrnt_playground.Uri.{starts_with}

pub data Item : Type 0 where
  any : Item
  one : Item
  byte : Char → Item

abbrev push_item : Bool → Char → List Item → List Item
push_item escaped c items =
    if escaped
    then List.◌∷◌ (byte c) items
    else if code c == b'%'
    then List.◌∷◌ any items
    else if code c == b'_'
    then List.◌∷◌ one items
    else if code c == b'\\'
    then items
    else List.◌∷◌ (byte c) items

-- The items of a pattern, of which the first byte is escaped or not.
unfoldable pub compile : Bool → String → List Item
compile escaped [] = List.[]
compile escaped (c ∷ pattern) =
    push_item escaped c (compile (not escaped && code c == b'\\') pattern)

abbrev pub is_continuation : Char → Bool
is_continuation c = leb 128 (code c) && ltb (code c) 192

unfoldable pub drop_continuation : String → String
drop_continuation [] = ""
drop_continuation (c ∷ s) =
    let rest = drop_continuation s in if is_continuation c then rest else c ∷ s

unfoldable pub any_tail : (String → Bool) → String → Bool
any_tail f [] = f ""
any_tail f (c ∷ s) = (not (is_continuation c) && f (c ∷ s)) || any_tail f s

unfoldable pub matches : List Item → String → Bool
unfolding any_tail drop_continuation
matches List.[] text = text == ""
matches (List.◌∷◌ any items) text = any_tail (matches items) text
matches (List.◌∷◌ one items) [] = false
matches (List.◌∷◌ one items) (d ∷ text) = matches items (drop_continuation text)
matches (List.◌∷◌ (byte c) items) [] = false
matches (List.◌∷◌ (byte c) items) (d ∷ text) = (code d == code c) && matches items text

unfoldable pub like : String → String → Bool
unfolding compile matches
like pattern text = matches (compile false pattern) text

-- A byte that no pattern gives a meaning.
abbrev pub is_literal : ℕ → Bool
is_literal c = not (c == b'%') && not (c == b'_') && not (c == b'\\')

any_tail-any : (text : String) → any_tail (matches (List.[])) text ≡ true
unfolding any_tail matches
any_tail-any [] = refl
any_tail-any (c ∷ text) = ground (arith, any_tail-any text)

matches-literal :
    (prefix text : String)
    → every is_literal prefix ≡ true
    → matches (compile false (prefix ++ "%")) text ≡ starts_with prefix text
unfolding compile matches every strip_prefix
matches-literal [] text h = any_tail-any text
matches-literal (c ∷ prefix) [] h = rw cons-append (ground arith)
matches-literal (c ∷ prefix) (d ∷ text) h =
    rw cons-append (ground (arith, matches-literal prefix text))

-- A text without these bytes, followed by a percent sign, matches what it is a prefix of.
pub like-starts_with :
    (prefix text : String)
    → every is_literal prefix ≡ true
    → like (prefix ++ "%") text ≡ starts_with prefix text
unfolding like
like-starts_with prefix text h = matches-literal prefix text h
