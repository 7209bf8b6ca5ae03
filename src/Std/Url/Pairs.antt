-- ===== src/Std/Url/Pairs.antt =====
-- `url.ParseQuery` of a text that is written as pairs.
use golang_iothub.Base.{
  ◌≡◌, refl, sym, ap, ◌∙◌, List, [], ◌∷◌, ◌++◌, map, append_assoc, append-nil, Option, none, false,
  arith, Bytes, Dict, lookup, insert, same, same_iff, Lacks, All, Distinct, Bool-cases, inl, inr,
  ok, Error,
}
use golang_iothub.Std.Strings.{split_two-append}
use golang_iothub.Std.Url.{query_unescape}
use golang_iothub.Std.Url.Plain.{split_parts-Lacks, split_parts-append}
use golang_iothub.Std.Url.Query.{
  Values, split_parts, or_empty, append_value, add_pair, add_part, add_parts, parse_query,
}

-- `key=value`.
abbrev pub raw_text : Bytes × Bytes → Bytes
raw_text p = p.0 ++ b'=' ∷ p.1

-- The pairs with `&` between them.
unfoldable pub join_raw : Dict Bytes → Bytes
join_raw [] = []
join_raw (p ∷ []) = raw_text p
join_raw (p ∷ q ∷ ps) = raw_text p ++ b'&' ∷ join_raw (q ∷ ps)

-- The written pair `p` is cut where it was joined, and is the escaped form of `q`.
pub record Writes (p q : Bytes × Bytes) : Type 0 where
  pub no_amp : Lacks b'&' (raw_text p)
  pub no_semicolon : Lacks b';' (raw_text p)
  pub no_equals : Lacks b'=' p.0
  pub key : query_unescape p.0 ≡ ok q.0
  pub value : query_unescape p.1 ≡ ok q.1

abbrev pub AllWrites : Dict Bytes → Dict Bytes → Type 0
AllWrites [] [] = Unit
AllWrites [] (q ∷ qs) = ⊥
AllWrites (p ∷ ps) [] = ⊥
AllWrites (p ∷ ps) (q ∷ qs) = Writes p q × AllWrites ps qs

unfoldable add_all : Dict Bytes → Values → Values
add_all [] m = m
add_all ((k, v) ∷ qs) m = add_all qs (append_value k v m)

add_part-raw_text :
    (k v : Bytes) (r : Values × Option Error)
    → Lacks b'=' k
    → add_part (k ++ b'=' ∷ v) r ≡ add_pair (query_unescape k) (query_unescape v) r
unfolding add_part
add_part-raw_text [] v r h = rw (split_two-append b'=' [] v h) refl
add_part-raw_text (c ∷ k) v r h = rw (split_two-append b'=' (c ∷ k) v h) refl

add_part-Writes :
    (p q : Bytes × Bytes) (m : Values)
    → Writes p q
    → add_part (raw_text p) (m, none) ≡ (append_value q.0 q.1 m, none)
unfolding add_pair
add_part-Writes p q m w = add_part-raw_text p.0 p.1 (m, none) w.no_equals ∙ rw (w.key, w.value) refl

parts-AllWrites :
    (ps qs : Dict Bytes) (m : Values)
    → AllWrites ps qs
    → add_parts (map raw_text ps) (m, none) ≡ (add_all qs m, none)
unfolding add_parts add_all
parts-AllWrites [] [] m w = refl
parts-AllWrites [] (q ∷ qs) m w = absurd w
parts-AllWrites (p ∷ ps) [] m w = absurd w
parts-AllWrites (p ∷ ps) ((k, v) ∷ qs) m (w, ws) =
    ap (add_parts (map raw_text ps)) (add_part-Writes p (k, v) m w)
    ∙ parts-AllWrites ps qs (append_value k v m) ws

split_parts-join_raw :
    (p q : Bytes × Bytes) (ps qs : Dict Bytes)
    → AllWrites (p ∷ ps) (q ∷ qs)
    → split_parts (join_raw (p ∷ ps)) ≡ map raw_text (p ∷ ps)
unfolding join_raw
split_parts-join_raw p q [] qs (w, ws) = split_parts-Lacks (raw_text p) w.no_amp w.no_semicolon
split_parts-join_raw p q (p' ∷ ps) [] (w, ws) = absurd ws
split_parts-join_raw p q (p' ∷ ps) (q' ∷ qs) (w, ws) =
    split_parts-append (raw_text p) (join_raw (p' ∷ ps)) w.no_amp w.no_semicolon
    ∙ ap (λ l. raw_text p ∷ l) (split_parts-join_raw p' q' ps qs ws)

parse_query-add_all :
    (ps qs : Dict Bytes) → AllWrites ps qs → parse_query (join_raw ps) ≡ (add_all qs [], none)
unfolding parse_query
parse_query-add_all [] [] w = unfold join_raw split_parts add_parts add_part add_all in refl
parse_query-add_all [] (q ∷ qs) w = absurd w
parse_query-add_all (p ∷ ps) [] w = absurd w
parse_query-add_all (p ∷ ps) (q ∷ qs) w =
    rw (split_parts-join_raw p q ps qs w) (parts-AllWrites (p ∷ ps) (q ∷ qs) [] w)

-- A key with its one value.
abbrev pub single : Bytes × Bytes → Bytes × List Bytes
single q = (q.0, q.1 ∷ [])

-- The keys of `qs` are not in `m`.
abbrev Fresh : Dict Bytes → Values → Type 0
Fresh qs m = All (λ q. lookup q.0 m ≡ none) qs

insert-fresh :
    (k : Bytes) (vs : List Bytes) (m : Values)
    → lookup k m ≡ none
    → insert k vs m ≡ m ++ (k, vs) ∷ []
unfolding insert lookup
insert-fresh k vs [] h = refl
insert-fresh k vs ((j, ws) ∷ m) h = elim (Bool-cases (same j k)) [
  | inl e ↦ cc (rw e at h)
  | inr e ↦ rw e (ap (λ l. (j, ws) ∷ l) (insert-fresh k vs m (rw e at h)))
]

lookup-append :
    (k j : Bytes) (vs : List Bytes) (m : Values)
    → lookup k m ≡ none
    → same j k ≡ false
    → lookup k (m ++ (j, vs) ∷ []) ≡ none
unfolding lookup
lookup-append k j vs [] h n = rw n refl
lookup-append k j vs ((i, ws) ∷ m) h n = elim (Bool-cases (same i k)) [
  | inl e ↦ cc (rw e at h)
  | inr e ↦ rw e (lookup-append k j vs m (rw e at h) n)
]

still-Fresh :
    (k : Bytes) (vs : List Bytes) (m : Values) (qs : Dict Bytes)
    → lookup k qs ≡ none
    → Fresh qs m
    → Fresh qs (m ++ (k, vs) ∷ [])
unfolding lookup
still-Fresh k vs m [] h f = tt
still-Fresh k vs m ((j, v) ∷ qs) h (f, fs) = elim (Bool-cases (same j k)) [
  | inl e ↦ cc (rw e at h)
  | inr e ↦
      let other : same k j ≡ false = ground (arith, same_iff j k, same_iff k j) in
      (lookup-append j k vs m f other, still-Fresh k vs m qs (rw e at h) fs)
]

add_all-Distinct :
    (qs : Dict Bytes) (m : Values) → Distinct qs → Fresh qs m → add_all qs m ≡ m ++ map single qs
unfolding add_all append_value
add_all-Distinct [] m d f = sym (append-nil m)
add_all-Distinct ((k, v) ∷ qs) m (n, d) (f, fs) =
    let added : insert k (or_empty (lookup k m) ++ v ∷ []) m ≡ m ++ (k, v ∷ []) ∷ [] =
      rw f (insert-fresh k (v ∷ []) m f) in
    rw added (
      add_all-Distinct qs (m ++ (k, v ∷ []) ∷ []) d (still-Fresh k (v ∷ []) m qs n fs)
      ∙ append_assoc m ((k, v ∷ []) ∷ []) (map single qs))

none_held : (qs : Dict Bytes) → Fresh qs []
unfolding lookup
none_held [] = tt
none_held (q ∷ qs) = (refl, none_held qs)

-- A query of distinct keys is read as these keys, each with its value, in order.
pub parse_query-join_raw :
    (ps qs : Dict Bytes)
    → AllWrites ps qs
    → Distinct qs
    → parse_query (join_raw ps) ≡ (map single qs, none)
parse_query-join_raw ps qs w d =
    parse_query-add_all ps qs w ∙ ap (λ m. (m, none)) (add_all-Distinct qs [] d (none_held qs))
