-- ===== src/Mqtt/Topics/Queries.antt =====
-- Topics with a query that names a request.
use golang_iothub.Base.{
  ℕ, ◌^◌, ◌<◌, ◌≡◌, ◌≢◌, refl, ap, ◌∙◌, [], ◌∷◌, ◌++◌, none, some, arith, Bytes, codes, All-append,
  Lacks, lookup, insert, same, pos, inl, inr, Result, ok,
}
use golang_iothub.Std.Strings.{split_two, split_two-Lacks, split_two-append}
use golang_iothub.Std.Strconv.{format_int}
use golang_iothub.Std.Strconv.Parse.{format_int-IsDigit, IsDigit-Lacks, atoi-format_int}
use golang_iothub.Std.Url.{query_unescape}
use golang_iothub.Std.Url.PathSegment.{path_unescape}
use golang_iothub.Std.Url.Plain.{query_unescape-Lacks, checked_path-Lacks, split_parts-Lacks}
use golang_iothub.Std.Url.Query.{
  Url, parse_url, parse_query, split_parts, add_parts, add_part, add_pair, append_value, or_empty,
}
use golang_iothub.Mqtt.Topics.{read_rid}

-- `$rid={rid}`.
abbrev pub query_text : ℕ → Bytes
query_text rid = codes "$rid=" ++ format_int rid

pub number-Lacks : (c n : ℕ) → c < b'0' → Lacks c (format_int n)
number-Lacks c n l = IsDigit-Lacks c (format_int n) (inl l) (format_int-IsDigit n)

pub number-Lacks_above : (c n : ℕ) → b'9' < c → Lacks c (format_int n)
number-Lacks_above c n l = IsDigit-Lacks c (format_int n) (inr l) (format_int-IsDigit n)

pub query_text-Lacks :
    (c rid : ℕ) → Lacks c (codes "$rid=") → Lacks c (format_int rid) → Lacks c (query_text rid)
query_text-Lacks c rid h n = All-append _ (codes "$rid=") (format_int rid) h n

-- A path that begins with `$` and holds no byte with a meaning.
abbrev pub IsPath : Bytes → Type 0
IsPath p = Lacks b'#' p × Lacks b'?' p × Lacks b':' p × Lacks b'%' p

whole-Lacks : (p q : Bytes) → Lacks b'#' p → Lacks b'#' q → Lacks b'#' (p ++ b'?' ∷ q)
whole-Lacks p q front back =
    let mark : b'?' ≢ b'#' = omega arith in All-append _ p (b'?' ∷ q) front (mark, back)

pub query_text-no_fragment : (rid : ℕ) → Lacks b'#' (query_text rid)
query_text-no_fragment rid =
    query_text-Lacks b'#' rid (omega arith) (number-Lacks b'#' rid (omega arith))

pub parse_url-query :
    (other : Bytes → Result Url) (p q : Bytes)
    → IsPath (b'$' ∷ p)
    → Lacks b'#' q
    → parse_url other ((b'$' ∷ p) ++ b'?' ∷ q) ≡ ok (record { path = b'$' ∷ p; raw_query = q })
unfolding parse_url path_unescape
parse_url-query other p q (hash, mark, colon, percent) back =
    let no_fragment : split_two b'#' ((b'$' ∷ p) ++ b'?' ∷ q) ≡ ((b'$' ∷ p) ++ b'?' ∷ q, none) =
      split_two-Lacks b'#' ((b'$' ∷ p) ++ b'?' ∷ q) (whole-Lacks (b'$' ∷ p) q hash back) in
    let cut : split_two b'?' ((b'$' ∷ p) ++ b'?' ∷ q) ≡ (b'$' ∷ p, some q) =
      split_two-append b'?' (b'$' ∷ p) q mark in
    rw (no_fragment, cut, checked_path-Lacks (b'$' ∷ p) colon percent) refl

-- The one pair of the query.
pub parse_query-query_text :
    (rid : ℕ) → parse_query (query_text rid) ≡ ((codes "$rid", format_int rid ∷ []) ∷ [], none)
unfolding parse_query add_parts add_part add_pair append_value insert lookup
parse_query-query_text rid =
    let one : split_parts (query_text rid) ≡ query_text rid ∷ [] =
      split_parts-Lacks (query_text rid)
        (query_text-Lacks b'&' rid (omega arith) (number-Lacks b'&' rid (omega arith)))
        (query_text-Lacks b';' rid (omega arith) (number-Lacks_above b';' rid (omega arith))) in
    let cut : split_two b'=' (query_text rid) ≡ (codes "$rid", some (format_int rid)) =
      split_two-append b'=' (codes "$rid") (format_int rid) (omega arith) in
    let key : query_unescape (codes "$rid") ≡ ok (codes "$rid") =
      query_unescape-Lacks (codes "$rid") (omega arith) (omega arith) in
    let value : query_unescape (format_int rid) ≡ ok (format_int rid) =
      query_unescape-Lacks (format_int rid) (number-Lacks b'%' rid (omega arith))
        (number-Lacks b'+' rid (omega arith)) in
    rw (one, cut, key, value) refl

pub read_rid-format_int : (rid : ℕ) → rid < 2 ^ 63 → read_rid (format_int rid ∷ []) ≡ ok (pos rid)
unfolding read_rid
read_rid-format_int rid h = rw (read_rid, atoi-format_int rid h) refl

pub read_rid-query :
    (rid : ℕ)
    → rid < 2 ^ 63
    → read_rid (or_empty (lookup (codes "$rid") (parse_query (query_text rid)).0)) ≡ ok (pos rid)
unfolding lookup same
read_rid-query rid h =
    ap (λ q. read_rid (or_empty (lookup (codes "$rid") q.0))) (parse_query-query_text rid)
    ∙ read_rid-format_int rid h
