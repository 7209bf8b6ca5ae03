-- ===== src/Mqtt/Topics/Versions.antt =====
-- The topics of twin responses that carry a version, as those to updates do.
use golang_iothub.Base.{
  ℕ, ◌^◌, ◌<◌, ◌≡◌, ◌≢◌, refl, ap, ◌∙◌, [], ◌∷◌, ◌++◌, none, some, arith, Bytes, codes, All-append,
  Lacks, lookup, insert, same, pos, Result, ok,
}
use golang_iothub.Std.Strings.{split_two, split_two-append}
use golang_iothub.Std.Strconv.{format_int}
use golang_iothub.Std.Strconv.Parse.{atoi-format_int}
use golang_iothub.Std.Url.{query_unescape}
use golang_iothub.Std.Url.Plain.{query_unescape-Lacks, split_parts-Lacks, split_parts-append}
use golang_iothub.Std.Url.Query.{
  Url, parse_query, split_parts, add_parts, add_part, add_pair, append_value, or_empty,
}
use golang_iothub.Mqtt.Topics.Queries.{
  query_text, query_text-Lacks, query_text-no_fragment, number-Lacks, number-Lacks_above,
  parse_url-query, read_rid-format_int,
}
use golang_iothub.Mqtt.Topics.Responses.{
  path_text, path_text-IsPath, trim-path, behind-path, read_code-format_int,
}
use golang_iothub.Mqtt.Topics.{parse_twin_props_topic, read_version, read_rid}

-- `$version={ver}`.
abbrev version_text : ℕ → Bytes
version_text ver = codes "$version=" ++ format_int ver

-- `$rid={rid}&$version={ver}`.
abbrev both_text : ℕ → ℕ → Bytes
both_text rid ver = query_text rid ++ b'&' ∷ version_text ver

-- `$iothub/twin/res/{rc}/?$rid={rid}&$version={ver}`, the documented form of such a topic.
abbrev pub versioned_topic : ℕ → ℕ → ℕ → Bytes
versioned_topic rc rid ver = path_text rc ++ b'?' ∷ both_text rid ver

version_text-Lacks :
    (c ver : ℕ)
    → Lacks c (codes "$version=")
    → Lacks c (format_int ver)
    → Lacks c (version_text ver)
version_text-Lacks c ver h n = All-append _ (codes "$version=") (format_int ver) h n

both_text-no_fragment : (rid ver : ℕ) → Lacks b'#' (both_text rid ver)
both_text-no_fragment rid ver =
    let back : Lacks b'#' (version_text ver) =
      version_text-Lacks b'#' ver (omega arith) (number-Lacks b'#' ver (omega arith)) in
    let mark : b'&' ≢ b'#' = omega arith in
    All-append _ (query_text rid) (b'&' ∷ version_text ver) (query_text-no_fragment rid)
      (mark, back)

split_parts-both_text :
    (rid ver : ℕ) → split_parts (both_text rid ver) ≡ query_text rid ∷ version_text ver ∷ []
split_parts-both_text rid ver =
    let last : split_parts (version_text ver) ≡ version_text ver ∷ [] =
      split_parts-Lacks (version_text ver)
        (version_text-Lacks b'&' ver (omega arith) (number-Lacks b'&' ver (omega arith)))
        (version_text-Lacks b';' ver (omega arith) (number-Lacks_above b';' ver (omega arith))) in
    split_parts-append (query_text rid) (version_text ver)
      (query_text-Lacks b'&' rid (omega arith) (number-Lacks b'&' rid (omega arith)))
      (query_text-Lacks b';' rid (omega arith) (number-Lacks_above b';' rid (omega arith)))
    ∙ ap (λ ps. query_text rid ∷ ps) last

number-plain : (n : ℕ) → query_unescape (format_int n) ≡ ok (format_int n)
number-plain n =
    query_unescape-Lacks (format_int n) (number-Lacks b'%' n (omega arith))
      (number-Lacks b'+' n (omega arith))

-- The two pairs of the query.
parse_query-both_text :
    (rid ver : ℕ)
    → parse_query (both_text rid ver)
      ≡ ((codes "$rid", format_int rid ∷ []) ∷ (codes "$version", format_int ver ∷ []) ∷ [], none)
unfolding parse_query add_parts add_part add_pair append_value insert lookup same
parse_query-both_text rid ver =
    let cut : split_two b'=' (query_text rid) ≡ (codes "$rid", some (format_int rid)) =
      split_two-append b'=' (codes "$rid") (format_int rid) (omega arith) in
    let cut' : split_two b'=' (version_text ver) ≡ (codes "$version", some (format_int ver)) =
      split_two-append b'=' (codes "$version") (format_int ver) (omega arith) in
    let key : query_unescape (codes "$rid") ≡ ok (codes "$rid") =
      query_unescape-Lacks (codes "$rid") (omega arith) (omega arith) in
    let key' : query_unescape (codes "$version") ≡ ok (codes "$version") =
      query_unescape-Lacks (codes "$version") (omega arith) (omega arith) in
    rw (split_parts-both_text rid ver, cut, cut', key, key', number-plain rid, number-plain ver)
      refl

read_rid-both_text :
    (rid ver : ℕ)
    → rid < 2 ^ 63
    → read_rid (or_empty (lookup (codes "$rid") (parse_query (both_text rid ver)).0)) ≡ ok (pos rid)
unfolding lookup same
read_rid-both_text rid ver h =
    ap (λ q. read_rid (or_empty (lookup (codes "$rid") q.0))) (parse_query-both_text rid ver)
    ∙ read_rid-format_int rid h

read_version-both_text :
    (rid ver : ℕ)
    → ver < 2 ^ 63
    → read_version (or_empty (lookup (codes "$version") (parse_query (both_text rid ver)).0))
      ≡ ok (pos ver)
unfolding lookup same read_version
read_version-both_text rid ver h =
    ap (λ q. read_version (or_empty (lookup (codes "$version") q.0)))
      (parse_query-both_text rid ver)
    ∙ rw (read_version, atoi-format_int ver h) refl

-- A response's topic with a version, all three numbers of which fit a signed 64-bit integer, is
-- read as its code, its number and its version.
pub parse_twin_props_topic-versioned_topic :
    (other : Bytes → Result Url) (rc rid ver : ℕ)
    → rc < 2 ^ 63
    → rid < 2 ^ 63
    → ver < 2 ^ 63
    → parse_twin_props_topic other (versioned_topic rc rid ver) ≡ ok (pos rc, pos rid, pos ver)
unfolding parse_twin_props_topic
parse_twin_props_topic-versioned_topic other rc rid ver code_fits rid_fits ver_fits =
    rw
      (
        parse_url-query other (codes "iothub/twin/res/" ++ (format_int rc ++ codes "/"))
            (both_text rid ver) (path_text-IsPath rc) (both_text-no_fragment rid ver),
        trim-path rc,
        behind-path rc,
        read_code-format_int rc code_fits,
        read_rid-both_text rid ver rid_fits,
        read_version-both_text rid ver ver_fits,
      )
      refl
