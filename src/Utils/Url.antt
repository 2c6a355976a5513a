-- ===== src/Utils/Url.antt =====
-- Utils::parse_url takes a URL apart into the parts that it was put together of.
use universe.Base.{
  ℕ, suc, ◌+◌, ◌<◌, ltb, true, List, [], ◌∷◌, ◌++◌, length, drop, codes, ◌≡◌, refl, sym, ap, ◌∙◌,
  arith, take-append, drop-append,
}
use universe.Base.Text.{bytes_key}
use universe.Reader.{find_char}
use universe.Reader.Scans.{Clear}
use universe.Utils.{
  UrlParts, put, parse_url, take_schema, take_host, take_port, take_path, take_query, put_fragment,
}
use universe.Utils.Search.{find-append, find_first_of-append}

pub record Url : Type 0 where
  pub schema : List ℕ
  pub host : List ℕ
  pub port : List ℕ
  pub path : List ℕ
  pub query : List ℕ
  pub fragment : List ℕ

abbrev pub print_tail : List ℕ → List ℕ → List ℕ → List ℕ
print_tail path query fragment = (47 ∷ path) ++ (63 ∷ (query ++ (35 ∷ fragment)))

-- `schema://host:port/path?query#fragment`
abbrev pub print : Url → List ℕ
print u =
    u.schema ++ (codes "://" ++ ((u.host ++ (58 ∷ u.port)) ++ print_tail u.path u.query u.fragment))

abbrev pub parts_of : Url → UrlParts
parts_of u = put (codes "fragment") u.fragment (
    put (codes "query") u.query (
      put (codes "path") (47 ∷ u.path)
        (put (codes "port") u.port (put (codes "host") u.host (put (codes "schema") u.schema [])))))

-- No part has the byte in it that ends it, and there is a fragment.
pub record IsUrl (u : Url) : Type 0 where
  pub schema_clear : Clear (codes ":") u.schema
  pub host_clear : Clear (codes ":") u.host
  pub authority_clear : Clear (codes "/") (u.host ++ (58 ∷ u.port))
  pub path_clear : Clear (codes "?#") (47 ∷ u.path)
  pub query_clear : Clear (codes "#") u.query
  pub some_fragment : 0 < length u.fragment

drop_more :
    (n : ℕ) (used rest : List ℕ) (k : ℕ)
    → length used ≡ n
    → drop (n + k) (used ++ rest) ≡ drop k rest
drop_more n used rest k e = ap (λ m. drop (m + k) (used ++ rest)) (sym e) ∙ behind used
  where
    refl_drop : drop (0 + k) rest ≡ drop k rest
    refl_drop = let same : 0 + k ≡ k = omega arith in ap (λ m. drop m rest) same

    behind : (used : List ℕ) → drop (length used + k) (used ++ rest) ≡ drop k rest
    behind [] = refl_drop
    behind (x ∷ used) =
        let next : suc (length used) + k ≡ suc (length used + k) = omega arith in
        ap (λ m. drop m (x ∷ (used ++ rest))) next ∙ behind used

take_schema-at :
    (schema rest : List ℕ)
    → Clear (codes ":") schema
    → take_schema (schema ++ (codes "://" ++ rest)) ≡ (put (codes "schema") schema [], rest)
unfolding take_schema
take_schema-at schema rest clear =
    rw
      (
        find-append 58 (47 ∷ 47 ∷ []) schema rest clear,
        take_schema,
        take-append schema (codes "://" ++ rest),
        drop_more (length schema) schema (codes "://" ++ rest) 3 refl,
      )
      refl

take_port-at :
    (host port : List ℕ) (parts : UrlParts)
    → Clear (codes ":") host
    → take_port (host ++ (58 ∷ port)) parts
      ≡ put (codes "port") port (put (codes "host") host parts)
unfolding take_port
take_port-at host port parts clear =
    rw
      (
        find-append 58 [] host port clear,
        take_port,
        take-append host (58 ∷ port),
        drop_more (length host) host (58 ∷ port) 1 refl,
      )
      refl

take_host-at :
    (authority rest : List ℕ) (parts : UrlParts)
    → Clear (codes "/") authority
    → 0 < length authority
    → take_host (parts, authority ++ (47 ∷ rest)) ≡ (take_port authority parts, 47 ∷ rest)
unfolding take_host
take_host-at authority rest parts clear some_bytes =
    let positive : ltb 0 (length authority) ≡ true = ground arith in
    rw
      (
        find-append 47 [] authority rest clear,
        take_host,
        positive,
        take-append authority (47 ∷ rest),
        drop-append authority (47 ∷ rest),
      )
      refl

put_fragment-at :
    (fragment : List ℕ) (parts : UrlParts)
    → 0 < length fragment
    → put_fragment fragment parts ≡ put (codes "fragment") fragment parts
put_fragment-at [] parts h = absurd (omega arith)
put_fragment-at (c ∷ cs) parts h = refl

take_query-at :
    (query fragment : List ℕ) (parts : UrlParts)
    → Clear (codes "#") query
    → 0 < length fragment
    → take_query (query ++ (35 ∷ fragment)) parts
      ≡ put (codes "fragment") fragment (put (codes "query") query parts)
unfolding take_query
take_query-at query fragment parts clear some_bytes =
    rw
      (
        find-append 35 [] query fragment clear,
        take_query,
        take-append query (35 ∷ fragment),
        drop_more (length query) query (35 ∷ fragment) 1 refl,
      )
      (put_fragment-at fragment _ some_bytes)

take_path-at :
    (path rest : List ℕ) (parts : UrlParts)
    → Clear (codes "?#") path
    → take_path (parts, path ++ (63 ∷ rest)) ≡ take_query rest (put (codes "path") path parts)
unfolding take_path find_char
take_path-at path rest parts clear =
    rw
      (
        find_first_of-append (codes "?#") path 63 rest clear refl,
        take_path,
        drop-append path (63 ∷ rest),
        take-append path (63 ∷ rest),
      )
      (ap (λ r. take_query r (put (codes "path") path parts))
        (drop_more (length path) path (63 ∷ rest) 1 refl))

-- A URL with all its parts, none of them with the byte in it that ends it, is taken apart into its
-- parts.
pub parse_url-print : (u : Url) → IsUrl u → parse_url (print u) ≡ parts_of u
unfolding parse_url
parse_url-print u h =
    ap (λ p. take_path (take_host p))
      (take_schema-at u.schema ((u.host ++ (58 ∷ u.port)) ++ print_tail u.path u.query u.fragment)
        h.schema_clear)
    ∙ ap take_path (
        take_host-at (u.host ++ (58 ∷ u.port)) (u.path ++ (63 ∷ (u.query ++ (35 ∷ u.fragment)))) _
          h.authority_clear (not_empty u.host))
    ∙ take_path-at (47 ∷ u.path) (u.query ++ (35 ∷ u.fragment)) _ h.path_clear
    ∙ take_query-at u.query u.fragment _ h.query_clear h.some_fragment
    ∙ ap
        (λ p.
          put (codes "fragment") u.fragment
            (put (codes "query") u.query (put (codes "path") (47 ∷ u.path) p)))
        (take_port-at u.host u.port _ h.host_clear)
  where
    not_empty : (host : List ℕ) → 0 < length (host ++ (58 ∷ u.port))
    not_empty [] = omega arith
    not_empty (x ∷ host) = omega arith
