-- ===== src/Uri/Ids.antt =====
-- The forms of ids.
use Prim.Native.String.{count, ◌∷◌, []}
use concrnt_playground.Prelude.{code, Char, String, true, false, ◌≡◌, nat_eq, arith, Lacks}
use concrnt_playground.Url.Bytes.{strip_prefix}
use concrnt_playground.Uri.{has_char, is_ccid, is_csid, is_ckid, starts_with}

pub Lacks-of_has_char : (s : String) (c : Char) → has_char s (code c) ≡ false → Lacks c s
unfolding has_char
Lacks-of_has_char [] c h = tt
Lacks-of_has_char (d ∷ s) c h = (ground arith, Lacks-of_has_char s c (ground arith))

-- The prefixes exclude each other: of a text that begins with one, neither other is a prefix.
starts_con :
    (s : String)
    → starts_with "con" s ≡ true
    → (starts_with "ccs" s ≡ false) × (starts_with "cck" s ≡ false)
unfolding strip_prefix
starts_con [] h = ground arith
starts_con (a ∷ []) h = ground arith
starts_con (a ∷ b ∷ []) h = ground arith
starts_con (a ∷ b ∷ c ∷ s) h = ground arith

starts_ccs :
    (s : String)
    → starts_with "ccs" s ≡ true
    → (starts_with "con" s ≡ false) × (starts_with "cck" s ≡ false)
unfolding strip_prefix
starts_ccs [] h = ground arith
starts_ccs (a ∷ []) h = ground arith
starts_ccs (a ∷ b ∷ []) h = ground arith
starts_ccs (a ∷ b ∷ c ∷ s) h = ground arith

-- An id of an entity has forty-two bytes and no dot, so it is no domain name, and it is the id of
-- neither a server nor a key.
pub is_ccid_excludes :
    (id : String)
    → is_ccid id ≡ true
    → (count id ≡ 42) × Lacks "." id × (is_csid id ≡ false) × (is_ckid id ≡ false)
unfolding is_ccid is_csid is_ckid
is_ccid_excludes id h =
    let (not_ccs, not_cck) = starts_con id (ground arith) in
    (ground arith, Lacks-of_has_char id "." (ground arith), ground arith, ground arith)
