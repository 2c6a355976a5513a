-- ===== src/Utils/Tests.antt =====
-- URLs and queries at concrete values.
use universe.Base.{[], ◌∷◌, codes, none, some, ◌≡◌, ◌≢◌, refl, ltb→lt, All}
use universe.Base.Maps.{insert}
use universe.Base.Text.{bytes_eq, bytes_before}
use universe.Reader.{find_char}
use universe.Utils.{parse_url, split, join, merge_url_query}
use universe.Utils.Split.{IsPiece, split-join, split-ends}
use universe.Utils.Url.{Url, IsUrl, print, parts_of, parse_url-print}

abbrev a_url : Url
a_url = record {
  schema = codes "http";
  host = codes "a.b";
  port = codes "80";
  path = codes "c";
  query = codes "d=e";
  fragment = codes "f";
}

a_url-IsUrl : IsUrl a_url
unfolding find_char
a_url-IsUrl = record {
  schema_clear = (refl, (refl, (refl, (refl, tt))));
  host_clear = (refl, (refl, (refl, tt)));
  authority_clear = (refl, (refl, (refl, (refl, (refl, (refl, tt))))));
  path_clear = (refl, (refl, tt));
  query_clear = (refl, (refl, (refl, tt)));
  some_fragment = ltb→lt _ _ refl;
}

pieces-IsPiece : All (IsPiece 38) (codes "a=b" ∷ codes "c" ∷ [])
unfolding find_char
pieces-IsPiece =
    ((ltb→lt _ _ refl, (refl, (refl, (refl, tt)))), ((ltb→lt _ _ refl, (refl, tt)), tt))

-- The second query wins, and the keys are sorted.
merged : merge_url_query (codes "b=1&a=2") (codes "b=3") ≡ some (codes "a=2&b=3")
unfolding merge_url_query insert bytes_eq bytes_before
merged = refl

-- A token that is a lone `=` has no key.
no_key : merge_url_query (codes "a=2&=") (codes "b=3") ≡ none
unfolding merge_url_query
no_key = refl

parse_url-print_example : parse_url (print a_url) ≡ parts_of a_url
parse_url-print_example = parse_url-print a_url a_url-IsUrl

split-join_example :
    split (join (38 ∷ []) (codes "a=b" ∷ codes "c" ∷ [])) (38 ∷ [])
    ≡ some (codes "a=b" ∷ codes "c" ∷ [])
split-join_example = split-join 38 (codes "a=b") (codes "c" ∷ []) pieces-IsPiece

split-ends_example : split (codes "a&b") (38 ∷ []) ≢ none
split-ends_example = split-ends (codes "a&b") 38 []
