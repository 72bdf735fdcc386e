-- ===== src/Uri/Plain.antt =====
-- Texts whose bytes no part of a URL escapes, and the owners and keys made of them.
use Prim.Native.String.{◌∷◌, [], ◌++◌}
use text.Mathlib.TextLemmas.{nil-append, cons-append, cons≢nil}
use concrnt_playground.Prelude.{
  subst, Char, string_eq, Bool-cases, inl, inr, eq_iff, eq_iff, ◌≢◌, code, ℕ, String, Bool, true,
  false, ◌||◌, ◌≡◌, refl, ◌==◌, nat_eq, ==_iff, arith, none, some,
}
use concrnt_playground.Url.Bytes.{every, cut, cut_last, is_one_of, is_lower, is_upper, is_digit}
use concrnt_playground.Url.Escape.{
  Mode, path, host, query, escape, unescape, should_escape, allows_plain,
}
use concrnt_playground.Url.Print.{escaped_path}
use concrnt_playground.Uri.{blank}

-- The bytes of a class `p`, none of which a mode escapes.
pub record IsInert (m : Mode) (p : ℕ → Bool) : Type 0 where
  no_space : p b' ' ≡ false
  kept : (c : ℕ) → p c ≡ true → should_escape m c ≡ false

-- The bytes of a class `p`, each of which stands for itself in a mode.
pub record IsRaw (m : Mode) (p : ℕ → Bool) : Type 0 where
  no_percent : p b'%' ≡ false
  no_plus : p b'+' ≡ false
  allowed : (c : ℕ) → p c ≡ true → allows_plain m c ≡ true

pub cut-none : (p : ℕ → Bool) (x : ℕ) (s : String) → every p s ≡ true → p x ≡ false → cut x s ≡ none
unfolding cut every
cut-none p x [] h k = refl
cut-none p x (d ∷ s) h k = ground (arith, cut-none p x s, ==_iff (code d) x)

pub cut_last-none :
    (p : ℕ → Bool) (x : ℕ) (s : String) → every p s ≡ true → p x ≡ false → cut_last x s ≡ none
unfolding cut_last every
cut_last-none p x [] h k = refl
cut_last-none p x (d ∷ s) h k = ground (arith, cut_last-none p x s, ==_iff (code d) x)

pub cut-append :
    (p : ℕ → Bool) (s t : String)
    → every p s ≡ true
    → p b'/' ≡ false
    → cut b'/' (s ++ ("/" ++ t)) ≡ some (s, t)
unfolding cut every
cut-append p [] t h k = rw (nil-append, cons-append, nil-append) refl
cut-append p (d ∷ s) t h k = rw cons-append (ground (arith, cut-append p s t, ==_iff (code d) b'/'))

pub every-append :
    (p : ℕ → Bool) (s t : String) → every p s ≡ true → every p t ≡ true → every p (s ++ t) ≡ true
unfolding every
every-append p [] t h k = rw nil-append k
every-append p (c ∷ s) t h k = rw cons-append (ground (arith, every-append p s t))

pub escape-inert :
    (m : Mode) (p : ℕ → Bool) (s : String) → IsInert m p → every p s ≡ true → escape m s ≡ s
unfolding escape every
escape-inert m p [] i h = refl
escape-inert m p (c ∷ s) i h =
    ground (arith, escape-inert m p s i, i.kept (code c), i.no_space, ==_iff (code c) b' ')

pub unescape-raw :
    (m : Mode) (p : ℕ → Bool) (s : String) → IsRaw m p → every p s ≡ true → unescape m s ≡ some s
unfolding unescape every
unescape-raw m p [] i h = refl
unescape-raw m p (c ∷ []) i h =
    ground (
      arith,
      i.allowed (code c),
      i.no_percent,
      i.no_plus,
      ==_iff (code c) b'%',
      ==_iff (code c) b'+',
    )
unescape-raw m p (c ∷ d ∷ []) i h = ground (
  arith,
  unescape-raw m p (d ∷ []) i,
  i.allowed (code c),
  i.no_percent,
  i.no_plus,
  ==_iff (code c) b'%',
  ==_iff (code c) b'+',
)
unescape-raw m p (c ∷ d ∷ e ∷ s) i h = ground (
  arith,
  unescape-raw m p (d ∷ e ∷ s) i,
  i.allowed (code c),
  i.no_percent,
  i.no_plus,
  ==_iff (code c) b'%',
  ==_iff (code c) b'+',
)

-- Letters, digits and `-_.~`, which no part of a URL escapes.
abbrev pub is_plain : ℕ → Bool
is_plain c = is_lower c || is_upper c || is_digit c || is_one_of c "-_.~"

abbrev pub is_key_byte : ℕ → Bool
is_key_byte c = is_plain c || c == b'/'

abbrev pub is_uri_byte : ℕ → Bool
is_uri_byte c = is_key_byte c || c == b':'

plain_kept : (m : Mode) (c : ℕ) → is_plain c ≡ true → should_escape m c ≡ false
unfolding should_escape
plain_kept host c h = ground arith
plain_kept path c h = ground arith
plain_kept _ c h = ground arith

pub IsInert-plain : IsInert host is_plain
unfolding is_one_of
IsInert-plain = record { no_space = refl; kept = plain_kept host }

pub IsRaw-plain : IsRaw host is_plain
unfolding is_one_of
IsRaw-plain = record {
  no_percent = refl;
  no_plus = refl;
  allowed = λ c h. ground (arith, plain_kept host c);
}

slash_kept : (c : ℕ) → (c == b'/') ≡ true → should_escape path c ≡ false
unfolding should_escape
slash_kept c h = rw ((==_iff c b'/').0 h)

pub IsInert-key : IsInert path is_key_byte
unfolding is_one_of
IsInert-key = record {
  no_space = refl;
  kept = λ c h. ground (arith, plain_kept path c, slash_kept c);
}

pub IsRaw-key : IsRaw path is_key_byte
unfolding is_one_of
IsRaw-key = record { no_percent = refl; no_plus = refl; allowed = λ c h. refl }

pub IsRaw-uri : IsRaw query is_uri_byte
unfolding is_one_of
IsRaw-uri = record { no_percent = refl; no_plus = refl; allowed = λ c h. refl }

pub every_mono :
    (p q : ℕ → Bool) (s : String)
    → ((c : ℕ) → p c ≡ true → q c ≡ true)
    → every p s ≡ true
    → every q s ≡ true
unfolding every
every_mono p q [] i h = refl
every_mono p q (c ∷ s) i h = ground (arith, every_mono p q s i, i (code c))

-- An owner: a text of plain bytes that is not empty.
abbrev pub IsOwner : String → Type 0
IsOwner [] = ⊥
IsOwner (c ∷ s) = every is_plain (c ∷ s) ≡ true

-- A key: plain bytes and slashes, not empty and with no slash in front.
abbrev pub IsKey : String → Type 0
IsKey [] = ⊥
IsKey (c ∷ s) = (code c ≢ b'/') × (every is_key_byte (c ∷ s) ≡ true)

pub key_bytes : (key : String) → IsKey key → every is_key_byte key ≡ true
key_bytes [] k = elim k [ ]
key_bytes (c ∷ key) (r, k) = k

pub owner_bytes : (owner : String) → IsOwner owner → every is_plain owner ≡ true
owner_bytes [] k = elim k [ ]
owner_bytes (c ∷ owner) k = k

abbrev pub composed : String → String → String
composed owner key = "cc://" ++ (owner ++ ("/" ++ key))

pub ne_star : (p : ℕ → Bool) (s : String) → every p s ≡ true → p b'*' ≡ false → (s == "*") ≡ false
unfolding every
ne_star p s h k = elim (Bool-cases (s == "*")) [
  | inl e ↦ cc (k, subst (λ t. every p t ≡ true) ((eq_iff s "*").0 e) h)
  | inr e ↦ e
]

pub escaped_path-key :
    (host key : String)
    → every is_key_byte key ≡ true
    → escaped_path (record blank { scheme = "cc"; host = host; path = key }) ≡ key
unfolding escaped_path
escaped_path-key h key k =
    rw (ne_star is_key_byte key k (unfold is_one_of in refl))
      (escape-inert path is_key_byte key IsInert-key k)

pub cons_ne_nil : (c : Char) (s : String) → ((c ∷ s) == "") ≡ false
cons_ne_nil c s = elim (Bool-cases ((c ∷ s) == "")) [
  | inl e ↦ absurd (cons≢nil ((eq_iff (c ∷ s) "").0 e))
  | inr e ↦ e
]
