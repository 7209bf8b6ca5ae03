-- ===== src/Mqtt/Topics/Responses.antt =====
-- The topics of twin responses, and the requests that they answer.
use golang_iothub.Base.{
  ℕ, ◌^◌, ◌<◌, ◌≡◌, refl, ap, sym, ◌∙◌, ◌∷◌, ◌++◌, append_assoc, arith, Bytes, codes, All-append,
  Lacks, lookup, same, pos, Result, ok,
}
use golang_iothub.Std.Strings.{
  trim, trim_left, trim_right-Lacks, trim_right-last, has_prefix-append, trim_right,
}
use golang_iothub.Std.Strconv.{format_int}
use golang_iothub.Std.Strconv.Parse.{format_int-ne-nil, atoi-format_int}
use golang_iothub.Std.Url.Query.{Url, parse_url, parse_query}
use golang_iothub.Mqtt.Topics.Queries.{
  IsPath, query_text, number-Lacks, number-Lacks_above, parse_url-query, query_text-no_fragment,
  parse_query-query_text, read_rid-query,
}
use golang_iothub.Mqtt.Topics.{
  parse_twin_props_topic, behind, read_version, read_code, responses_prefix, or_empty,
}

-- `$iothub/twin/res/{rc}/?$rid={rid}`, the documented form of a response's topic.
pub response_topic : ℕ → ℕ → Bytes
response_topic rc rid =
    codes "$iothub/twin/res/" ++ (format_int rc ++ (codes "/?$rid=" ++ format_int rid))

-- The path of such a topic, and its query.
abbrev pub path_text : ℕ → Bytes
path_text rc = codes "$iothub/twin/res/" ++ (format_int rc ++ codes "/")

path_text-Lacks :
    (c rc : ℕ)
    → Lacks c (codes "$iothub/twin/res/")
    → Lacks c (format_int rc)
    → Lacks c (codes "/")
    → Lacks c (path_text rc)
path_text-Lacks c rc h n t =
    All-append _ (codes "$iothub/twin/res/") (format_int rc ++ codes "/") h
      (All-append _ (format_int rc) (codes "/") n t)

-- A topic is its path, a question mark and its query.
response_topic-split : (rc rid : ℕ) → response_topic rc rid ≡ path_text rc ++ b'?' ∷ query_text rid
unfolding response_topic
response_topic-split rc rid =
    ap (λ t. codes "$iothub/twin/res/" ++ t)
      (sym (append_assoc (format_int rc) (codes "/") (b'?' ∷ query_text rid)))

pub path_text-IsPath : (rc : ℕ) → IsPath (path_text rc)
path_text-IsPath rc = (
  path_text-Lacks b'#' rc (omega arith) (number-Lacks b'#' rc (omega arith)) (omega arith),
  path_text-Lacks b'?' rc (omega arith) (number-Lacks_above b'?' rc (omega arith)) (omega arith),
  path_text-Lacks b':' rc (omega arith) (number-Lacks_above b':' rc (omega arith)) (omega arith),
  path_text-Lacks b'%' rc (omega arith) (number-Lacks b'%' rc (omega arith)) (omega arith),
)

parse_url-response :
    (other : Bytes → Result Url) (rc rid : ℕ)
    → parse_url other (path_text rc ++ b'?' ∷ query_text rid)
      ≡ ok (record { path = path_text rc; raw_query = query_text rid })
parse_url-response other rc rid =
    parse_url-query other (codes "iothub/twin/res/" ++ (format_int rc ++ codes "/"))
      (query_text rid) (path_text-IsPath rc) (query_text-no_fragment rid)

-- The path without its slash.
pub trim-path : (rc : ℕ) → trim b'/' (path_text rc) ≡ codes "$iothub/twin/res/" ++ format_int rc
unfolding trim trim_left
trim-path rc =
    let apart : path_text rc ≡ (codes "$iothub/twin/res/" ++ format_int rc) ++ codes "/" =
      sym (append_assoc (codes "$iothub/twin/res/") (format_int rc) (codes "/")) in
    ap (trim_right b'/') apart
    ∙ trim_right-last b'/' (codes "$iothub/twin/res/" ++ format_int rc)
    ∙ trim_right-Lacks b'/' (codes "$iothub/twin/res/") (format_int rc)
        (number-Lacks b'/' rc (omega arith)) (format_int-ne-nil rc)

pub behind-path :
    (rc : ℕ)
    → behind responses_prefix (codes "$iothub/twin/res/" ++ format_int rc) ≡ ok (format_int rc)
unfolding behind
behind-path rc = rw (has_prefix-append (codes "$iothub/twin/res/") (format_int rc)) refl

pub read_code-format_int : (rc : ℕ) → rc < 2 ^ 63 → read_code (format_int rc) ≡ ok (pos rc)
read_code-format_int rc h = rw (read_code, atoi-format_int rc h) refl

read_version-query :
    (rid : ℕ)
    → read_version (or_empty (lookup (codes "$version") (parse_query (query_text rid)).0))
      ≡ ok (pos 0)
unfolding lookup same read_version
read_version-query rid =
    ap (λ q. read_version (or_empty (lookup (codes "$version") q.0))) (parse_query-query_text rid)

-- A response's topic `$iothub/twin/res/{rc}/?$rid={rid}`, whose code and number fit a signed 64-bit
-- integer, is read as this code, this number and version 0; what reads other addresses does not
-- matter.
pub parse_twin_props_topic-response_topic :
    (other : Bytes → Result Url) (rc rid : ℕ)
    → rc < 2 ^ 63
    → rid < 2 ^ 63
    → parse_twin_props_topic other (response_topic rc rid) ≡ ok (pos rc, pos rid, pos 0)
unfolding parse_twin_props_topic
parse_twin_props_topic-response_topic other rc rid code_fits rid_fits =
    rw
      (
        response_topic-split rc rid,
        parse_url-response other rc rid,
        trim-path rc,
        behind-path rc,
        read_code-format_int rc code_fits,
        read_rid-query rid rid_fits,
        read_version-query rid,
      )
      refl
