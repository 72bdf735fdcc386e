-- ===== src/Tag/Laws.antt =====
-- What the operations of tag.go make of a set of tags.
use Prim.Native.String.{[], ◌∷◌, ◌++◌}
use text.Mathlib.TextLemmas.{append_assoc, nil-append, cons-append, append-nil, cons≢nil}
use concrnt_playground.Prelude.{
  inr, inl, subst, String, Char, code, Bool, true, false, ◌≡◌, ◌≢◌, refl, sym, ap, ◌∙◌, Option,
  none, some, List, map, lookup, insert, lookup-insert, split, join, split-join, All, Lacks, ◌==◌,
  nat_eq, string_eq, eq_iff, arith, Bool-cases, if◌then◌else◌,
}
use concrnt_playground.Tag.{
  is_some, or_empty, Tags, put, parse_from, parse_tags, has, get, show_value, to_string_from,
  to_string,
}

-- A tag whose key is not empty, and that holds neither a comma nor a colon.
abbrev pub IsPlain : String × String → Type 0
IsPlain (key, value) =
    (key ≢ "") × Lacks "," key × Lacks ":" key × Lacks "," value × Lacks ":" value

-- No two tags share a key.
abbrev pub IsDistinct : Tags → Type 0
IsDistinct List.[] = Unit
IsDistinct (List.◌∷◌ t tags) = All (λ u. (u.0 == t.0) ≡ false) tags × IsDistinct tags

-- A tag as it is written.
abbrev shown : String × String → String
shown (key, value) = key ++ show_value value

Lacks-append : (c : Char) (s t : String) → Lacks c s → Lacks c t → Lacks c (s ++ t)
Lacks-append c [] t h k = subst (Lacks c) (sym (nil-append t)) k
Lacks-append c (d ∷ s) t (p, h) k =
    subst (Lacks c) (sym (cons-append d s t)) (p, Lacks-append c s t h k)

colon_ne : code ":" ≢ code ","
colon_ne e = cc

value-Lacks : (v : String) (b : Bool) → Lacks "," v → Lacks "," (if b then "" else ":" ∷ v)
value-Lacks v true h = tt
value-Lacks v false h = (colon_ne, h)

shown-Lacks : (t : String × String) → IsPlain t → Lacks "," (shown t)
shown-Lacks t p = Lacks-append "," t.0 (show_value t.1) p.1 (value-Lacks t.1 (t.1 == "") p.3)

-- Reading one written tag puts it in.
put-shown :
    (t : String × String) (tags : Tags)
    → IsPlain t
    → put (split ":" (shown t)) tags ≡ insert t.0 t.1 tags
unfolding join
put-shown (key, value) tags (n, a, b, c, d) = elim (Bool-cases (value == "")) [
  | inl t ↦
      ap (λ s. put (split ":" (key ++ (if s then "" else ":" ∷ value))) tags) t
      ∙ ap (λ s. put (split ":" s) tags) (append-nil key)
      ∙ ap (λ pieces. put pieces tags) (split-join ":" key List.[] b tt)
      ∙ ap (λ v. insert key v tags) (sym ((eq_iff value "").0 t))
  | inr f ↦
      ap (λ s. put (split ":" (key ++ (if s then "" else ":" ∷ value))) tags) f
      ∙ ap (λ pieces. put pieces tags) (split-join ":" key (List.◌∷◌ value List.[]) b (d, tt))
]

append_ne : (s t : String) → s ≢ "" → s ++ t ≢ ""
append_ne [] t n e = n refl
append_ne (c ∷ s) t n e = cons≢nil (sym (cons-append c s t) ∙ e)

ne_empty : (s : String) → s ≢ "" → (s == "") ≡ false
ne_empty s n = elim (Bool-cases (s == "")) [ inl t ↦ absurd (n ((eq_iff s "").0 t)) | inr f ↦ f ]

-- One more tag after a text that is not empty.
after_comma : (r s rest : String) → ((r ++ ",") ++ s) ++ rest ≡ r ++ ("," ∷ (s ++ rest))
after_comma r s rest =
    append_assoc (r ++ ",") s rest
    ∙ append_assoc r "," (s ++ rest)
    ∙ ap (λ x. r ++ x) (cons-append "," "" (s ++ rest) ∙ ap (λ x. "," ∷ x) (nil-append (s ++ rest)))

to_string_from-join :
    (r : String) (t : String × String) (tags : Tags)
    → r ≢ ""
    → to_string_from r (List.◌∷◌ t tags) ≡ r ++ ("," ∷ join "," (map shown (List.◌∷◌ t tags)))
unfolding join
to_string_from-join r t List.[] n =
    ap (λ b. (if b then r else r ++ ",") ++ shown t) (ne_empty r n)
    ∙ append_assoc r "," (shown t)
    ∙ ap (λ x. r ++ x) (cons-append "," "" (shown t) ∙ ap (λ x. "," ∷ x) (nil-append (shown t)))
to_string_from-join r t (List.◌∷◌ u tags) n =
    ap (λ b. to_string_from ((if b then r else r ++ ",") ++ shown t) (List.◌∷◌ u tags))
      (ne_empty r n)
    ∙ to_string_from-join ((r ++ ",") ++ shown t) u tags
        (append_ne (r ++ ",") (shown t) (append_ne r "," n))
    ∙ after_comma r (shown t) ("," ∷ join "," (map shown (List.◌∷◌ u tags)))

to_string-join :
    (t : String × String) (tags : Tags)
    → IsPlain t
    → to_string (List.◌∷◌ t tags) ≡ join "," (map shown (List.◌∷◌ t tags))
unfolding to_string join
to_string-join t List.[] p = nil-append (shown t)
to_string-join (key, value) (List.◌∷◌ u tags) (n, a, b, c, d) =
    ap (λ r. to_string_from r (List.◌∷◌ u tags)) (nil-append (shown (key, value)))
    ∙ to_string_from-join (shown (key, value)) u tags (append_ne key (show_value value) n)

shown-All : (tags : Tags) → All IsPlain tags → All (Lacks ",") (map shown tags)
shown-All List.[] h = tt
shown-All (List.◌∷◌ t tags) (p, h) = (shown-Lacks t p, shown-All tags h)

abbrev or_else : Option String → Option String → Option String
or_else none o = o
or_else (some v) o = some v

lookup-absent :
    (k : String) (tags : Tags) → All (λ u. (u.0 == k) ≡ false) tags → lookup k tags ≡ none
unfolding lookup
lookup-absent k List.[] h = refl
lookup-absent k (List.◌∷◌ (j, v) tags) (p, h) = ground (arith, lookup-absent k tags h)

lookup-parse_from :
    (k : String) (acc tags : Tags)
    → All IsPlain tags
    → IsDistinct tags
    → lookup k (parse_from acc (map shown tags)) ≡ or_else (lookup k tags) (lookup k acc)
unfolding lookup
lookup-parse_from k acc List.[] p d = refl
lookup-parse_from k acc (List.◌∷◌ (j, v) tags) (p, ps) (d, ds) =
    ap (λ a. lookup k (parse_from a (map shown tags))) (put-shown (j, v) acc p)
    ∙ lookup-parse_from k (insert j v acc) tags ps ds
    ∙ (elim (Bool-cases (j == k)) [
      | inl t ↦
          let none_left =
            lookup-absent k tags
              (subst (λ i. All (λ u. (u.0 == i) ≡ false) tags) ((eq_iff j k).0 t) d) in
          ground (arith, lookup-insert j k v acc, none_left)
      | inr f ↦ ground (arith, lookup-insert j k v acc)
    ])

or_else-none : (key : String) (o : Option String) → or_else o (lookup key List.[]) ≡ o
unfolding lookup
or_else-none key none = refl
or_else-none key (some v) = refl

-- The text of a set of tags parses to a set with the same keys and values, in whatever order ToString
-- ranges over it, where the set is not empty, its keys are distinct and not empty, and neither its
-- keys nor its values hold a comma or a colon.
pub parse_tags-to_string :
    (t : String × String) (tags : Tags) (key : String)
    → All IsPlain (List.◌∷◌ t tags)
    → IsDistinct (List.◌∷◌ t tags)
    → (has key (parse_tags (to_string (List.◌∷◌ t tags))) ≡ has key (List.◌∷◌ t tags))
      × (get key (parse_tags (to_string (List.◌∷◌ t tags))) ≡ get key (List.◌∷◌ t tags))
unfolding parse_tags has get
parse_tags-to_string t tags key p d = (ap is_some same, ap or_empty same)
  where
    same : lookup key (parse_tags (to_string (List.◌∷◌ t tags))) ≡ lookup key (List.◌∷◌ t tags)
    same =
        ap (λ s. lookup key (parse_from List.[] (split "," s))) (to_string-join t tags p.0)
        ∙ ap (λ pieces. lookup key (parse_from List.[] pieces))
            (split-join "," (shown t) (map shown tags) (shown-Lacks t p.0) (shown-All tags p.1))
        ∙ lookup-parse_from key List.[] (List.◌∷◌ t tags) p d
        ∙ or_else-none key (lookup key (List.◌∷◌ t tags))
