-- ===== src/Utils.antt =====
-- The functions on text of Utils.cpp that the HTTP gateway uses: URLs and queries. A position in a
-- string is the rest of the string from there on.
pub mod Search
pub mod Split
pub mod Url
mod Tests
use universe.Base.{
  ℕ, zero, suc, ◌+◌, ltb, ◌==◌, ◌&&◌, Bool, true, false, if◌then◌else◌, List, [], ◌∷◌, ◌++◌, length,
  take, drop, Option, none, some, codes,
}
use universe.Base.Maps.{insert, lookup}
use universe.Base.Text.{bytes_key}
use universe.Reader.{find_char}

unfoldable pub starts_with : List ℕ → List ℕ → Bool
starts_with [] xs = true
starts_with (p ∷ ps) [] = false
starts_with (p ∷ ps) (x ∷ xs) = p == x && starts_with ps xs

abbrev pub step_on : Option ℕ → Option ℕ
step_on none = none
step_on (some i) = some (suc i)

-- `xs.find(pattern)`, and `xs.find_first_of(set)`; none is `npos`.
unfoldable pub find : List ℕ → List ℕ → Option ℕ
unfolding starts_with
find pattern [] = if starts_with pattern [] then some 0 else none
find pattern (x ∷ xs) =
    let later = find pattern xs in if starts_with pattern (x ∷ xs) then some 0 else step_on later

unfoldable pub find_first_of : List ℕ → List ℕ → Option ℕ
find_first_of set [] = none
find_first_of set (x ∷ xs) =
    let later = find_first_of set xs in if find_char set x then some 0 else step_on later

abbrev pub or_length : List ℕ → Option ℕ → ℕ
or_length xs none = length xs
or_length xs (some i) = i

abbrev pub unless_empty : List ℕ → List (List ℕ) → List (List ℕ)
unless_empty [] tokens = tokens
unless_empty (c ∷ cs) tokens = (c ∷ cs) ∷ tokens

abbrev pub add_token : List ℕ → Option (List (List ℕ)) → Option (List (List ℕ))
add_token token none = none
add_token token (some tokens) = some (unless_empty token tokens)

-- A round of `split` with the next `prev`, and what the later rounds come to.
unfoldable pub split_round : List ℕ → ℕ → ℕ → Option (List (List ℕ)) → Option (List (List ℕ))
split_round rest pos prev later =
    if ltb pos (length rest) && ltb prev (length rest)
    then add_token (take pos rest) later
    else add_token (take pos rest) (some [])

-- The loop of `split` on what stands from `prev` on; none where it has not ended, which an empty
-- delimiter brings about.
unfoldable pub split_loop : ℕ → List ℕ → List ℕ → Option (List (List ℕ))
unfolding find split_round
split_loop zero delim rest = none
split_loop (suc fuel) delim rest =
    let pos = or_length rest (find delim rest) in
    let prev = pos + length delim in
    split_round rest pos prev (split_loop fuel delim (drop prev rest))

unfoldable pub split : List ℕ → List ℕ → Option (List (List ℕ))
unfolding split_loop
split str delim = split_loop (suc (length str)) delim str

unfoldable pub join : List ℕ → List (List ℕ) → List ℕ
join glue [] = []
join glue (piece ∷ []) = piece
join glue (piece ∷ p ∷ pieces) = piece ++ (glue ++ join glue (p ∷ pieces))

abbrev pub UrlParts : Type 0
UrlParts = List (List ℕ × List ℕ)

abbrev pub put : List ℕ → List ℕ → UrlParts → UrlParts
put name value parts = insert name value parts

-- `schema`, and the rest of the URL behind it.
unfoldable pub take_schema : List ℕ → UrlParts × List ℕ
unfolding find
take_schema url = elim (find (codes "://") url) [
  | some idx ↦ (put (codes "schema") (take idx url) [], drop (idx + 3) url)
  | none ↦ ([], url)
]

unfoldable pub take_port : List ℕ → UrlParts → UrlParts
unfolding find
take_port host_port parts = elim (find (codes ":") host_port) [
  | some colon_idx ↦
      put (codes "port") (drop (colon_idx + 1) host_port)
        (put (codes "host") (take colon_idx host_port) parts)
  | none ↦ put (codes "host") host_port parts
]

-- `host` and `port`, where there is something before the first `/`.
unfoldable pub take_host : UrlParts × List ℕ → UrlParts × List ℕ
unfolding find take_port
take_host (parts, url) = elim (find (codes "/") url) [
  | some idx ↦ if ltb 0 idx then (take_port (take idx url) parts, drop idx url) else (parts, url)
  | none ↦ (parts, url)
]

abbrev pub put_fragment : List ℕ → UrlParts → UrlParts
put_fragment [] parts = parts
put_fragment (c ∷ cs) parts = put (codes "fragment") (c ∷ cs) parts

unfoldable pub take_query : List ℕ → UrlParts → UrlParts
unfolding find
take_query rest parts = elim (find (codes "#") rest) [
  | some idx ↦ put_fragment (drop (idx + 1) rest) (put (codes "query") (take idx rest) parts)
  | none ↦ put (codes "query") rest parts
]

-- `path`, `query` and `fragment`.
unfoldable pub take_path : UrlParts × List ℕ → UrlParts
unfolding find_first_of take_query
take_path (parts, url) = elim (find_first_of (codes "?#") url) [
  | some idx ↦
      let with_path = put (codes "path") (take idx url) parts in
      let rest = drop (idx + 1) url in
      elim (drop idx url) [
        | [] ↦ with_path
        | c ∷ cs ↦ if c == 63 then take_query rest with_path else put_fragment rest with_path
      ]
  | none ↦ put (codes "path") url parts
]

unfoldable pub parse_url : List ℕ → UrlParts
unfolding take_schema take_host take_path
parse_url url = take_path (take_host (take_schema url))

-- `query_map[kv[0]] = kv.size() > 1 ? kv[1] : ""` for each token; none where `kv` is empty and
-- `kv[0]` is read past its end.
unfoldable pub put_tokens : List (List ℕ) → UrlParts → Option UrlParts
unfolding split
put_tokens [] done = some done
put_tokens (token ∷ tokens) done = elim (split token (codes "=")) [
  | some (key ∷ value ∷ more) ↦ put_tokens tokens (insert key value done)
  | some (key ∷ []) ↦ put_tokens tokens (insert key [] done)
  | some [] ↦ none
  | none ↦ none
]

unfoldable pub query_map : List ℕ → Option UrlParts
unfolding split put_tokens
query_map query = elim (split query (codes "&")) [
  | some tokens ↦ put_tokens tokens []
  | none ↦ none
]

unfoldable pub put_all : UrlParts → UrlParts → UrlParts
put_all [] done = done
put_all ((key, value) ∷ items) done = put_all items (insert key value done)

unfoldable pub query_of : UrlParts → List (List ℕ)
query_of [] = []
query_of ((key, value) ∷ items) = (key ++ (codes "=" ++ value)) ∷ query_of items

unfoldable pub merge_url_query : List ℕ → List ℕ → Option (List ℕ)
unfolding query_map put_all query_of join
merge_url_query query1 [] = some query1
merge_url_query query1 (c ∷ cs) = elim (query_map query1) [
  | none ↦ none
  | some query_map1 ↦ elim (query_map (c ∷ cs)) [
    | none ↦ none
    | some query_map2 ↦ some (join (codes "&") (query_of (put_all query_map2 query_map1)))
  ]
]
