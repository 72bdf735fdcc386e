-- ===== src/Uri/Printed.antt =====
-- A URI that was parsed prints as it was.
use Prim.Native.String.{◌∷◌, [], ◌++◌}
use text.Mathlib.TextLemmas.{nil-append, cons-append, append-nil, append_assoc}
use concrnt_playground.Prelude.{◌≡◌, refl, String, string_eq, nat_eq}
use concrnt_playground.Url.Escape.{host}
use concrnt_playground.Url.Print.{to_string}
use concrnt_playground.Uri.Plain.{
  IsKey, is_plain, IsOwner, escape-inert, IsInert-plain, key_bytes, composed, escaped_path-key,
  cons_ne_nil,
}
use concrnt_playground.Uri.RoundTrip.{every-slash, parsed, scheme-append}

slash_cons : (key : String) → "/" ++ key ≡ "/" ∷ key
slash_cons key = rw (cons-append, nil-append) refl

pub to_string-parsed :
    (owner key : String)
    → IsOwner owner
    → IsKey key
    → to_string (parsed owner key) ≡ composed owner key
unfolding to_string
to_string-parsed [] key o k = elim o [ ]
to_string-parsed (a ∷ owner) key o k =
    rw
      (
        escaped_path-key (a ∷ owner) ("/" ++ key) (every-slash key (key_bytes key k)),
        escape-inert host is_plain (a ∷ owner) IsInert-plain o,
        cons_ne_nil a owner,
        slash_cons key,
        cons_ne_nil "/" key,
      )
      (simp (nil-append, cons-append, append-nil, append_assoc) (scheme-append _))
