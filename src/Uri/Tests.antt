-- ===== src/Uri/Tests.antt =====
-- Concrete URIs and ids, and the properties applied to them.
use concrnt_playground.Prelude.{◌≡◌, refl, ok, err, message, some, false, Lacks, Lacks}
use Prim.Native.String.{count}
use concrnt_playground.Url.Bytes.{every, is_one_of}
use concrnt_playground.Uri.{is_ccid, is_csid, is_ckid}
use concrnt_playground.Url.Join.{join_parent}
use concrnt_playground.Url.Parse.{split_authority}
use concrnt_playground.Uri.{
  is_ccid, is_ckid, is_csid, count, compose_cc_uri, parse_cc_uri, parse_cc_uri_with_hint,
}
use concrnt_playground.Uri.Ids.{is_ccid_excludes}
use concrnt_playground.Uri.RoundTrip.{parse_cc_uri-compose_cc_uri}

-- A plus sign in a key comes back as a space: the URI is unescaped as a query first.
plus_lost : parse_cc_uri (compose_cc_uri "con1abc" "a+b") ≡ ok ("con1abc", "a b")
unfolding parse_cc_uri compose_cc_uri split_authority
plus_lost = refl

percent_refused : parse_cc_uri (compose_cc_uri "con1abc" "50%") ≡ err (message "invalid uri")
unfolding parse_cc_uri compose_cc_uri split_authority
percent_refused = refl

hint : parse_cc_uri_with_hint "cc://con1abc@example.com/a" ≡ ok ("con1abc", "a", "example.com")
unfolding parse_cc_uri_with_hint split_authority
hint = refl

parent : join_parent "cc://con1abc/a/b" ≡ some "cc://con1abc/a"
unfolding join_parent split_authority
parent = refl

parent_of_key : join_parent "cc://con1abc/a" ≡ some "cc://con1abc/"
unfolding join_parent split_authority
parent_of_key = refl

parent_of_owner : join_parent "cc://con1abc" ≡ some "cc://con1abc"
unfolding join_parent split_authority
parent_of_owner = refl

parse_cc_uri-compose_cc_uri_example :
    parse_cc_uri_with_hint (compose_cc_uri "con1abc" "notes/first")
    ≡ ok ("con1abc", "notes/first", "")
unfolding every is_one_of
parse_cc_uri-compose_cc_uri_example =
    parse_cc_uri-compose_cc_uri "con1abc" "notes/first" refl ((λ e. cc), refl)

is_ccid_excludes_test :
    (count "con1abcdefghijklmnopqrstuvwxyz0123456789ab" ≡ 42)
    × Lacks "." "con1abcdefghijklmnopqrstuvwxyz0123456789ab"
    × (is_csid "con1abcdefghijklmnopqrstuvwxyz0123456789ab" ≡ false)
    × (is_ckid "con1abcdefghijklmnopqrstuvwxyz0123456789ab" ≡ false)
is_ccid_excludes_test =
    is_ccid_excludes "con1abcdefghijklmnopqrstuvwxyz0123456789ab" (unfold is_ccid in refl)
