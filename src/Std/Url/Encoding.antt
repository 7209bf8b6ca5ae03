-- ===== src/Std/Url/Encoding.antt =====
-- `url.ParseQuery` undoes `Encode`.
use mathlib.Core.Option
use golang_iothub.Base.{
  ℕ, ◌≡◌, ◌≢◌, refl, ap, ◌∙◌, [], ◌∷◌, ◌++◌, map, none, some, false, arith, Bytes, Dict, lookup,
  same, same_iff, Lacks, All, All-append, Distinct, Bool-cases, inl, inr, if◌then◌else◌,
}
use golang_iothub.Std.Url.{query_escape}
use golang_iothub.Std.Url.RoundTrip.{
  IsBytes, IsPlain, query_unescape-query_escape, query_escape-IsPlain, query_escape-Lacks,
}
use golang_iothub.Std.Url.Query.{
  Values, parse_query, encode_query, sort_keys, put_sorted, join_pairs, pair_text, str_lt,
}
use golang_iothub.Std.Url.Pairs.{
  raw_text, join_raw, Writes, AllWrites, single, parse_query-join_raw,
}

abbrev escaped : Bytes × Bytes → Bytes × Bytes
escaped p = (query_escape p.0, query_escape p.1)

-- Every key and value is a text of bytes.
abbrev pub AreBytes : Dict Bytes → Type 0
AreBytes [] = Unit
AreBytes (p ∷ d) = (IsBytes p.0 × IsBytes p.1) × AreBytes d

join_pairs-escaped : (d : Dict Bytes) → join_pairs d ≡ join_raw (map escaped d)
unfolding join_pairs join_raw
join_pairs-escaped [] = refl
join_pairs-escaped (p ∷ []) = refl
join_pairs-escaped (p ∷ q ∷ d) = ap (λ t. pair_text p ++ b'&' ∷ t) (join_pairs-escaped (q ∷ d))

plain-Lacks_amp : (s : Bytes) → All IsPlain s → Lacks b'&' s
plain-Lacks_amp [] h = tt
plain-Lacks_amp (c ∷ s) (h, hs) = (h.0, plain-Lacks_amp s hs)

plain-Lacks_equals : (s : Bytes) → All IsPlain s → Lacks b'=' s
plain-Lacks_equals [] h = tt
plain-Lacks_equals (c ∷ s) (h, hs) = (h.1, plain-Lacks_equals s hs)

pub raw_text-Lacks :
    (c : ℕ) (p : Bytes × Bytes) → Lacks c p.0 → b'=' ≢ c → Lacks c p.1 → Lacks c (raw_text p)
raw_text-Lacks c p h e k = All-append _ p.0 (b'=' ∷ p.1) h (e, k)

escaped-Writes : (p : Bytes × Bytes) → IsBytes p.0 → IsBytes p.1 → Writes (escaped p) p
escaped-Writes p h k =
    let key = query_escape-IsPlain p.0 h in
    let value = query_escape-IsPlain p.1 k in
    record {
      no_amp =
          raw_text-Lacks b'&' (escaped p) (plain-Lacks_amp _ key) (omega arith)
            (plain-Lacks_amp _ value);
      no_semicolon =
          raw_text-Lacks b';' (escaped p) (query_escape-Lacks p.0 h) (omega arith)
            (query_escape-Lacks p.1 k);
      no_equals = plain-Lacks_equals _ key;
      key = query_unescape-query_escape p.0 h;
      value = query_unescape-query_escape p.1 k;
    }

escaped-AllWrites : (d : Dict Bytes) → AreBytes d → AllWrites (map escaped d) d
escaped-AllWrites [] h = tt
escaped-AllWrites (p ∷ d) (h, hs) = (escaped-Writes p h.0 h.1, escaped-AllWrites d hs)

-- Sorting moves keys with their values.
lookup-put_sorted :
    (k j v : Bytes) (d : Dict Bytes)
    → lookup j d ≡ none
    → lookup k (put_sorted (j, v) d) ≡ (if same j k then some v else lookup k d)
unfolding lookup put_sorted
lookup-put_sorted k j v [] h = refl
lookup-put_sorted k j v ((i, w) ∷ d) h = elim (Bool-cases (same i j)) [
  | inl e ↦ cc (rw e at h)
  | inr e ↦
      let later = lookup-put_sorted k j v d (rw e at h) in
      ground (arith, same_iff i j, same_iff i k, same_iff j k)
]

-- The first key of a dictionary that lacks `j` is another.
first_other :
    (j i w : Bytes) (d : Dict Bytes)
    → lookup j ((i, w) ∷ d) ≡ none
    → (same i j ≡ false) × (lookup j d ≡ none)
unfolding lookup
first_other j i w d h = elim (Bool-cases (same i j)) [
  | inl e ↦ cc (rw e at h)
  | inr e ↦ (e, rw e at h)
]

Distinct-put_sorted :
    (j v : Bytes) (d : Dict Bytes) → lookup j d ≡ none → Distinct d → Distinct (put_sorted (j, v) d)
unfolding put_sorted
Distinct-put_sorted j v [] h d = (h, tt)
Distinct-put_sorted j v ((i, w) ∷ d) h (n, ds) = elim (Bool-cases (str_lt i j)) [
  | inr e ↦ rw e (h, (n, ds))
  | inl e ↦
      let (other, h') = first_other j i w d h in
      let other' : same j i ≡ false = ground (arith, same_iff i j, same_iff j i) in
      let absent : lookup i (put_sorted (j, v) d) ≡ none =
        lookup-put_sorted i j v d h' ∙ rw other' n in
      rw e (absent, Distinct-put_sorted j v d h' ds)
]

AreBytes-put_sorted :
    (p : Bytes × Bytes) (d : Dict Bytes)
    → IsBytes p.0 × IsBytes p.1
    → AreBytes d
    → AreBytes (put_sorted p d)
unfolding put_sorted
AreBytes-put_sorted p [] h hs = (h, tt)
AreBytes-put_sorted p (q ∷ d) h (k, ks) = elim (Bool-cases (str_lt q.0 p.0)) [
  | inl e ↦ rw e (k, AreBytes-put_sorted p d h ks)
  | inr e ↦ rw e (h, (k, ks))
]

lookup-sort_keys : (k : Bytes) (d : Dict Bytes) → Distinct d → lookup k (sort_keys d) ≡ lookup k d
unfolding sort_keys lookup
lookup-sort_keys k [] h = refl
lookup-sort_keys k ((j, v) ∷ d) (n, ds) =
    let absent : lookup j (sort_keys d) ≡ none = lookup-sort_keys j d ds ∙ n in
    lookup-put_sorted k j v (sort_keys d) absent
    ∙ ap (λ r. if same j k then some v else r) (lookup-sort_keys k d ds)

Distinct-sort_keys : (d : Dict Bytes) → Distinct d → Distinct (sort_keys d)
unfolding sort_keys
Distinct-sort_keys [] h = tt
Distinct-sort_keys ((j, v) ∷ d) (n, ds) =
    Distinct-put_sorted j v (sort_keys d) (lookup-sort_keys j d ds ∙ n) (Distinct-sort_keys d ds)

AreBytes-sort_keys : (d : Dict Bytes) → AreBytes d → AreBytes (sort_keys d)
unfolding sort_keys
AreBytes-sort_keys [] h = tt
AreBytes-sort_keys (p ∷ d) (h, hs) = AreBytes-put_sorted p (sort_keys d) h (AreBytes-sort_keys d hs)

lookup-single :
    (k : Bytes) (d : Dict Bytes) → lookup k (map single d) ≡ Option.map (λ v. v ∷ []) (lookup k d)
unfolding lookup
lookup-single k [] = refl
lookup-single k ((j, v) ∷ d) = elim (Bool-cases (same j k)) [
  | inl e ↦ rw e refl
  | inr e ↦ rw e (lookup-single k d)
]

-- What `Encode` writes of distinct keys is parsed without an error, and each key has its value.
pub parse_query-encode_query :
    (d : Dict Bytes)
    → Distinct d
    → AreBytes d
    → (q : Values) × (parse_query (encode_query d) ≡ (q, none))
      × ((k : Bytes) → lookup k q ≡ Option.map (λ v. v ∷ []) (lookup k d))
unfolding encode_query
parse_query-encode_query d h b =
    let sorted = sort_keys d in
    let read : parse_query (join_pairs sorted) ≡ (map single sorted, none) =
      ap parse_query (join_pairs-escaped sorted)
      ∙ parse_query-join_raw (map escaped sorted) sorted
          (escaped-AllWrites sorted (AreBytes-sort_keys d b)) (Distinct-sort_keys d h) in
    (
      map single sorted,
      read,
      λ k. lookup-single k sorted ∙ ap (Option.map (λ v. v ∷ [])) (lookup-sort_keys k d h),
    )
