-- ===== src/Std/Url/Query.antt =====
-- Package net/url: ParseQuery, Values.Encode, and Parse of an address that starts with `$`.
use golang_iothub.Base.{
  List, [], ◌∷◌, ◌++◌, Option, none, some, Bool, true, false, ◌||◌, Bytes, Dict, lookup, insert,
  ltb, ◌==◌, if◌then◌else◌, Result, ok, err, panic, Error, ◌>>=◌,
}
use golang_iothub.Std.Strings.{split_two, with_head}
use golang_iothub.Std.Url.{query_escape, query_unescape}
use golang_iothub.Std.Url.PathSegment.{path_unescape}

-- `url.Values`.
abbrev pub Values : Type 0
Values = Dict (List Bytes)

-- The parts between `&` and `;`.
unfoldable pub split_parts : Bytes → List Bytes
split_parts [] = [] ∷ []
split_parts (c ∷ s) =
    let ps = split_parts s in if c == b'&' || c == b';' then [] ∷ ps else with_head c ps

abbrev pub or_empty : Option (List Bytes) → List Bytes
or_empty none = []
or_empty (some vs) = vs

abbrev pub or_blank : Option Bytes → Bytes
or_blank none = []
or_blank (some v) = v

-- `m[key] = append(m[key], value)`.
unfoldable pub append_value : Bytes → Bytes → Values → Values
append_value k v m = insert k (or_empty (lookup k m) ++ v ∷ []) m

-- The first error is kept.
abbrev pub first_error : Option Error → Error → Option Error
first_error none e = some e
first_error (some x) e = some x

-- One round on a part that is not empty: a part that cannot be unescaped is left out.
unfoldable pub add_pair :
    Result Bytes → Result Bytes → Values × Option Error → Values × Option Error
unfolding append_value
add_pair (ok k) (ok v) (m, e) = (append_value k v m, e)
add_pair (ok k) (err x) (m, e) = (m, first_error e x)
add_pair (ok k) panic (m, e) = (m, e)
add_pair (err x) v (m, e) = (m, first_error e x)
add_pair panic v (m, e) = (m, e)

unfoldable pub add_part : Bytes → Values × Option Error → Values × Option Error
unfolding add_pair
add_part [] r = r
add_part (c ∷ s) r =
    let (k, v) = split_two b'=' (c ∷ s) in
    add_pair (query_unescape k) (query_unescape (or_blank v)) r

unfoldable pub add_parts : List Bytes → Values × Option Error → Values × Option Error
unfolding add_part
add_parts [] r = r
add_parts (p ∷ ps) r = add_parts ps (add_part p r)

-- `url.ParseQuery(s)`: the values, and the first error.
unfoldable pub parse_query : Bytes → Values × Option Error
unfolding split_parts add_parts
parse_query s = add_parts (split_parts s) ([], none)

-- `a < b` on strings.
unfoldable pub str_lt : Bytes → Bytes → Bool
str_lt [] [] = false
str_lt [] (b ∷ t) = true
str_lt (a ∷ s) [] = false
str_lt (a ∷ s) (b ∷ t) =
    let rest = str_lt s t in if ltb a b then true else if a == b then rest else false

-- `sort.Strings(keys)`, on the keys with their values.
unfoldable pub put_sorted : Bytes × Bytes → Dict Bytes → Dict Bytes
put_sorted p [] = p ∷ []
put_sorted p (q ∷ d) = let rest = put_sorted p d in if str_lt q.0 p.0 then q ∷ rest else p ∷ q ∷ d

unfoldable pub sort_keys : Dict Bytes → Dict Bytes
unfolding put_sorted str_lt
sort_keys [] = []
sort_keys (p ∷ d) = put_sorted p (sort_keys d)

-- `QueryEscape(k) + "=" + QueryEscape(v)`.
unfoldable pub pair_text : Bytes × Bytes → Bytes
pair_text p = query_escape p.0 ++ b'=' ∷ query_escape p.1

unfoldable pub join_pairs : Dict Bytes → Bytes
unfolding pair_text
join_pairs [] = []
join_pairs (p ∷ []) = pair_text p
join_pairs (p ∷ q ∷ d) = pair_text p ++ b'&' ∷ join_pairs (q ∷ d)

-- `Encode` of values that are one to a key.
unfoldable pub encode_query : Dict Bytes → Bytes
unfolding join_pairs sort_keys
encode_query d = join_pairs (sort_keys d)

pub record Url : Type 0 where
  pub path : Bytes
  pub raw_query : Bytes

-- A colon before the first slash.
unfoldable pub colon_first : Bytes → Bool
colon_first [] = false
colon_first (c ∷ s) =
    let rest = colon_first s in if c == b':' then true else if c == b'/' then false else rest

unfoldable pub checked_path : Bytes → Result Bytes
unfolding colon_first
checked_path s = if colon_first s then err Error.invalid_url_escape else path_unescape s

-- `url.Parse(s)` where s starts with `$`: no scheme and no host, a fragment behind `#`, a query
-- behind `?`. Of any other text it is what the parameter says.
unfoldable pub parse_url : (Bytes → Result Url) → Bytes → Result Url
unfolding checked_path
parse_url other [] = other []
parse_url other (c ∷ s) =
    let (rest, fragment) = split_two b'#' (c ∷ s) in
    let (path, query) = split_two b'?' rest in
    let parsed =
      (checked_path path >>= λ p. path_unescape (or_blank fragment) >>= λ _.
      ok (record { path = p; raw_query = or_blank query })) in
    if c == b'$' then parsed else other (c ∷ s)
