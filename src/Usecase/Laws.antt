-- ===== src/Usecase/Laws.antt =====
-- What `Commit` of internal/usecase/record.go lets through.
use concrnt_playground.Prelude.{
  if◌then◌else◌, subst, on_ok, ℕ, String, Bool, true, false, ◌≡◌, ◌≢◌, ◌↔◌, refl, sym, ap, ◌∙◌,
  Option, none, some, Result, ok, err, panic, lost, message, List, >>=-ok, ◌==◌, string_eq, eq_iff,
  arith,
}
use concrnt_playground.Document.{Document, SignedDocument, Codec, proof_type_ecrecover, delete_url}
use concrnt_playground.Url.{Url}
use concrnt_playground.Url.Parse.{parse}
use concrnt_playground.Crypto.{Curve, decode_hex, or_fail}
use concrnt_playground.Crypto.Laws.{or_fail-ok, IsSigner, verify_signature-ok}
use concrnt_playground.Usecase.{RecordRepository, commit, validate, accept, or_required}

-- The proof carries a hexadecimal signature of the document by this address.
abbrev pub IsSigned : Curve → SignedDocument → String → Type 0
IsSigned curve sd author =
    (text : String) × (signature : List ℕ) × (sd.proof.type ≡ proof_type_ecrecover)
    × (sd.proof.signature ≡ some text)
    × (decode_hex text ≡ some signature)
    × IsSigner curve sd.document signature author

or_required-ok : (o : Option String) (s : String) → or_required o ≡ ok s → o ≡ some s
or_required-ok none s h = absurd cc
or_required-ok (some t) s h = cc

if-ok :
    {A : Type 0} (b : Bool) (r : Result A) (e : String) (a : A)
    → (if b then r else err (message e)) ≡ ok a
    → (b ≡ true) × (r ≡ ok a)
if-ok true r e a h = (refl, h)
if-ok false r e a h = absurd cc

-- Validation succeeds for a document that its author signed, and for no other.
pub validate-IsSigned :
    (curve : Curve) (sd : SignedDocument) (author : String)
    → (validate curve sd author ≡ ok tt) ↔ IsSigned curve sd author
unfolding validate
validate-IsSigned curve sd author = (sound, complete)
  where
    sound : validate curve sd author ≡ ok tt → IsSigned curve sd author
    sound h =
        let (t, h1) = if-ok (sd.proof.type == proof_type_ecrecover) _ _ tt h in
        let (text, s, h2) = >>=-ok (or_required sd.proof.signature) _ h1 in
        let (signature, d, h3) = >>=-ok (or_fail (decode_hex text) _) _ h2 in
        (
          text,
          signature,
          (eq_iff sd.proof.type proof_type_ecrecover).0 t,
          or_required-ok _ _ s,
          or_fail-ok _ _ _ d,
          (verify_signature-ok curve sd.document signature author).0 h3,
        )

    complete : IsSigned curve sd author → validate curve sd author ≡ ok tt
    complete (text, signature, t, s, d, i) =
        rw (t, s, d, validate) ((verify_signature-ok curve sd.document signature author).1 i)

-- A commit whose document does not parse or is not signed by its author does not return nil, and
-- leaves the repository as it was, whatever the repository is.
pub commit-unsigned :
    {S : Type 0} (repo : RecordRepository S) (codec : Codec) (curve : Curve) (sd : SignedDocument)
    (s : S)
    → ((doc : Document) → codec.unmarshal sd.document ≡ ok doc → ¬ IsSigned curve sd doc.author)
    → ((commit repo codec curve sd s).0 ≢ ok tt) × ((commit repo codec curve sd s).1 ≡ s)
unfolding commit
commit-unsigned {S} repo codec curve sd s h = read (codec.unmarshal sd.document) h
  where
    checked :
        (r : Result (Unit {0})) (k : S → Result (Unit {0}) × S)
        → r ≢ ok tt
        → ((on_ok r (λ _. k) s).0 ≢ ok tt) × ((on_ok r (λ _. k) s).1 ≡ s)
    checked (ok u) k n = absurd (n refl)
    checked (err e) k n = (λ f. cc, refl)
    checked panic k n = (λ f. cc, refl)
    checked lost k n = (λ f. cc, refl)

    read :
        (r : Result Document)
        → ((doc : Document) → r ≡ ok doc → ¬ IsSigned curve sd doc.author)
        → let o =
            on_ok r (λ doc. on_ok (validate curve sd doc.author) (λ _. accept repo doc sd)) s in
          (o.0 ≢ ok tt) × (o.1 ≡ s)
    read (ok doc) n =
        checked _ (accept repo doc sd)
          (λ f. n doc refl ((validate-IsSigned curve sd doc.author).0 f))
    read (err e) n = (λ f. cc, refl)
    read panic n = (λ f. cc, refl)
    read lost n = (λ f. cc, refl)

-- The operation that a document calls for.
abbrev pub Dispatches :
    {S : Type 0}
    → RecordRepository S
    → Document
    → SignedDocument
    → S
    → Result (Unit {0}) × S
    → Type 0
Dispatches repo doc sd s o =
    (doc.schema ≡ delete_url → o ≡ repo.delete sd s)
    × (doc.schema ≢ delete_url → doc.associate ≡ none → o ≡ repo.create_record sd s)
    × ((target : String) (u : Url)
        → doc.schema ≢ delete_url
        → doc.associate ≡ some target
        → parse target ≡ some u
        → o ≡ (if u.path == "" then repo.create_ack sd s else repo.create_association sd s))

-- A commit that its author signed comes to what the repository returns for the one operation that
-- the schema and `associate` call for.
pub commit-signed :
    {S : Type 0} (repo : RecordRepository S) (codec : Codec) (curve : Curve) (sd : SignedDocument)
    (doc : Document) (s : S)
    → codec.unmarshal sd.document ≡ ok doc
    → IsSigned curve sd doc.author
    → Dispatches repo doc sd s (commit repo codec curve sd s)
unfolding commit accept
commit-signed repo codec curve sd doc s h i =
    subst (Dispatches repo doc sd s)
      (sym (
        ap (λ r. on_ok r (λ doc. on_ok (validate curve sd doc.author) (λ _. accept repo doc sd)) s)
          h
        ∙ ap (λ r. on_ok r (λ _. accept repo doc sd) s)
            ((validate-IsSigned curve sd doc.author).1 i)))
      (
        (λ d. ground (arith, eq_iff doc.schema delete_url, d)),
        (λ n a. ground (arith, eq_iff doc.schema delete_url, n, a)),
        (λ target u n a p. ground (arith, eq_iff doc.schema delete_url, n, a, p)),
      )

-- A commit that returns nil, of a document that is neither a deletion nor associated, is what the
-- repository returns for its creation.
pub commit-created :
    {S : Type 0} (repo : RecordRepository S) (codec : Codec) (curve : Curve) (sd : SignedDocument)
    (doc : Document) (s : S)
    → codec.unmarshal sd.document ≡ ok doc
    → doc.schema ≢ delete_url
    → doc.associate ≡ none
    → (commit repo codec curve sd s).0 ≡ ok tt
    → commit repo codec curve sd s ≡ repo.create_record sd s
unfolding commit accept
commit-created {S} repo codec curve sd doc s h n a e =
    read ∙ checked (validate curve sd doc.author) (sym (ap (λ o. o.0) read) ∙ e)
  where
    read :
        commit repo codec curve sd s
        ≡ on_ok (validate curve sd doc.author) (λ _. accept repo doc sd) s
    read =
        ap (λ r. on_ok r (λ doc. on_ok (validate curve sd doc.author) (λ _. accept repo doc sd)) s)
          h

    checked :
        (r : Result (Unit {0}))
        → (on_ok r (λ _. accept repo doc sd) s).0 ≡ ok tt
        → on_ok r (λ _. accept repo doc sd) s ≡ repo.create_record sd s
    checked (ok u) e = ground (arith, eq_iff doc.schema delete_url, n, a)
    checked (err x) e = absurd cc
    checked panic e = absurd cc
    checked lost e = absurd cc
