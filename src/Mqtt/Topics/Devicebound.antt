-- ===== src/Mqtt/Topics/Devicebound.antt =====
-- The topics of cloud-to-device messages.
use golang_iothub.Base.{
  ℕ, ◌≡◌, refl, sym, ap, ◌∙◌, [], ◌∷◌, ◌++◌, map, append_assoc, Option, some, arith, Bytes, codes,
  Dict, length, drop, Lacks, All-append, Distinct, Result, ok, err, panic, Error, append-nil, none,
  ◌>>=◌,
}
use golang_iothub.Std.Strings.{index, has_prefix}
use golang_iothub.Std.Url.{query_escape, query_unescape, unescape_from, escape_byte, plain}
use golang_iothub.Std.Url.RoundTrip.{
  IsBytes, then_ok, unescape_from-escape_byte, unescape_from_plain,
}
use golang_iothub.Std.Url.Plain.{query_unescape-Lacks}
use golang_iothub.Std.Url.Query.{parse_query, join_pairs, pair_text}
use golang_iothub.Std.Url.Encoding.{AreBytes, raw_text-Lacks}
use golang_iothub.Std.Url.Pairs.{
  raw_text, join_raw, Writes, AllWrites, single, parse_query-join_raw,
}
use golang_iothub.Mqtt.Topics.{single_values, checked_values, parse_cloud_to_device_topic}

-- `devices/{did}/messages/devicebound/`.
unfoldable pub devicebound_prefix : Bytes → Bytes
devicebound_prefix did = codes "devices/" ++ (did ++ codes "/messages/devicebound/")

-- The documented form: the prefix, and the pairs with their keys and values escaped.
unfoldable pub devicebound_topic : Bytes → Dict Bytes → Bytes
unfolding devicebound_prefix
devicebound_topic did d = devicebound_prefix did ++ join_pairs d

-- `s` in front of what is unescaped.
abbrev in_front : Bytes → Result Bytes → Result Bytes
in_front s m = m >>= λ r. ok (s ++ r)

in_front-cons :
    (c : ℕ) (s : Bytes) (m : Result Bytes) → then_ok c (in_front s m) ≡ in_front (c ∷ s) m
in_front-cons c s (ok r) = refl
in_front-cons c s (err e) = refl
in_front-cons c s panic = refl

in_front-nil : (m : Result Bytes) → m ≡ in_front [] m
in_front-nil (ok r) = refl
in_front-nil (err e) = refl
in_front-nil panic = refl

unescape-nil : unescape_from plain [] ≡ ok []
unfolding unescape_from
unescape-nil = refl

-- Unescaping goes through what was escaped, and through text with nothing to unescape.
unescape-query_escape :
    (s t : Bytes)
    → IsBytes s
    → unescape_from plain (query_escape s ++ t) ≡ in_front s (unescape_from plain t)
unfolding query_escape
unescape-query_escape [] t h = in_front-nil (unescape_from plain t)
unescape-query_escape (c ∷ s) t h =
    ap (unescape_from plain) (append_assoc (escape_byte c) (query_escape s) t)
    ∙ unescape_from-escape_byte c (query_escape s ++ t) h.0
    ∙ ap (then_ok c) (unescape-query_escape s t h.1)
    ∙ in_front-cons c s (unescape_from plain t)

unescape-Lacks :
    (s t : Bytes)
    → Lacks b'%' s
    → Lacks b'+' s
    → unescape_from plain (s ++ t) ≡ in_front s (unescape_from plain t)
unescape-Lacks [] t h p = in_front-nil (unescape_from plain t)
unescape-Lacks (c ∷ s) t h p =
    unescape_from_plain c (s ++ t) h.0 p.0
    ∙ ap (then_ok c) (unescape-Lacks s t h.1 p.1)
    ∙ in_front-cons c s (unescape_from plain t)

in_front-append : (s t : Bytes) (m : Result Bytes) → in_front s (in_front t m) ≡ in_front (s ++ t) m
in_front-append s t (ok r) = ap ok (sym (append_assoc s t r))
in_front-append s t (err e) = refl
in_front-append s t panic = refl

unescape-pair_text :
    (p : Bytes × Bytes) (t : Bytes)
    → IsBytes p.0
    → IsBytes p.1
    → unescape_from plain (pair_text p ++ t) ≡ in_front (raw_text p) (unescape_from plain t)
unfolding pair_text
unescape-pair_text p t h k =
    ap (unescape_from plain) (append_assoc (query_escape p.0) (b'=' ∷ query_escape p.1) t)
    ∙ unescape-query_escape p.0 (b'=' ∷ (query_escape p.1 ++ t)) h
    ∙ ap (in_front p.0) (
        unescape_from_plain b'=' (query_escape p.1 ++ t) (omega arith) (omega arith)
        ∙ ap (then_ok b'=') (unescape-query_escape p.1 t k)
        ∙ in_front-cons b'=' p.1 (unescape_from plain t))
    ∙ in_front-append p.0 (b'=' ∷ p.1) (unescape_from plain t)

unescape-join_pairs :
    (d : Dict Bytes) → AreBytes d → unescape_from plain (join_pairs d) ≡ ok (join_raw d)
unfolding join_pairs join_raw
unescape-join_pairs [] h = unescape-nil
unescape-join_pairs (p ∷ []) (h, hs) =
    ap (unescape_from plain) (sym (append-nil (pair_text p)))
    ∙ unescape-pair_text p [] h.0 h.1
    ∙ ap (in_front (raw_text p)) unescape-nil
    ∙ ap ok (append-nil (raw_text p))
unescape-join_pairs (p ∷ q ∷ d) (h, hs) =
    unescape-pair_text p (b'&' ∷ join_pairs (q ∷ d)) h.0 h.1
    ∙ ap (in_front (raw_text p)) (
        unescape_from_plain b'&' (join_pairs (q ∷ d)) (omega arith) (omega arith)
        ∙ ap (then_ok b'&') (unescape-join_pairs (q ∷ d) hs))

-- A key or a value with none of the bytes that a query is read by.
pub record IsClean (p : Bytes × Bytes) : Type 0 where
  pub no_amp : Lacks b'&' p.0 × Lacks b'&' p.1
  pub no_semicolon : Lacks b';' p.0 × Lacks b';' p.1
  pub no_percent : Lacks b'%' p.0 × Lacks b'%' p.1
  pub no_plus : Lacks b'+' p.0 × Lacks b'+' p.1
  pub no_equals : Lacks b'=' p.0

abbrev pub AreClean : Dict Bytes → Type 0
AreClean [] = Unit
AreClean (p ∷ d) = IsClean p × AreClean d

clean-Writes : (p : Bytes × Bytes) → IsClean p → Writes p p
clean-Writes p c = record {
  no_amp = raw_text-Lacks b'&' p c.no_amp.0 (omega arith) c.no_amp.1;
  no_semicolon = raw_text-Lacks b';' p c.no_semicolon.0 (omega arith) c.no_semicolon.1;
  no_equals = c.no_equals;
  key = query_unescape-Lacks p.0 c.no_percent.0 c.no_plus.0;
  value = query_unescape-Lacks p.1 c.no_percent.1 c.no_plus.1;
}

clean-AllWrites : (d : Dict Bytes) → AreClean d → AllWrites d d
clean-AllWrites [] h = tt
clean-AllWrites (p ∷ d) (h, hs) = (clean-Writes p h, clean-AllWrites d hs)

single_values-single : (n : ℕ) (d : Dict Bytes) → single_values n (map single d) ≡ ok d
unfolding single_values
single_values-single n [] = refl
single_values-single n (p ∷ d) = rw (single_values-single n d) refl

-- The first place of `$.` behind a text that has no dollar sign.
index-Lacks :
    (p t : Bytes) → Lacks b'$' p → index (p ++ b'$' ∷ b'.' ∷ t) (codes "$.") ≡ some (length p)
unfolding index has_prefix
index-Lacks [] t h = refl
index-Lacks (c ∷ p) t h = let rest = index-Lacks p t h.1 in ground (arith, rest)

drop-append : (p t : Bytes) → drop (length p) (p ++ t) ≡ t
drop-append [] t = refl
drop-append (c ∷ p) t = drop-append p t

prefix-Lacks :
    (c : ℕ) (did : Bytes)
    → Lacks c (codes "devices/")
    → Lacks c did
    → Lacks c (codes "/messages/devicebound/")
    → Lacks c (devicebound_prefix did)
unfolding devicebound_prefix
prefix-Lacks c did h n t =
    All-append _ (codes "devices/") (did ++ codes "/messages/devicebound/") h
      (All-append _ did (codes "/messages/devicebound/") n t)

-- A device's id with nothing to unescape and no dollar sign.
abbrev pub IsPlainId : Bytes → Type 0
IsPlainId did = Lacks b'%' did × Lacks b'+' did × Lacks b'$' did

join_raw-starts :
    (k v : Bytes) (d : Dict Bytes)
    → (t : Bytes) × (join_raw ((b'$' ∷ b'.' ∷ k, v) ∷ d) ≡ b'$' ∷ b'.' ∷ t)
unfolding join_raw
join_raw-starts k v [] = (k ++ b'=' ∷ v, refl)
join_raw-starts k v (q ∷ d) = ((k ++ b'=' ∷ v) ++ b'&' ∷ join_raw (q ∷ d), refl)

checked_at :
    (topic s : Bytes) (i : ℕ)
    → query_unescape topic ≡ ok s
    → index s (codes "$.") ≡ some i
    → parse_cloud_to_device_topic topic ≡ checked_values (parse_query (drop i s))
unfolding parse_cloud_to_device_topic
checked_at topic s i e f =
    let behind_prefix : Bytes → Option ℕ → Result (Dict Bytes) = λ s o. elim o [
      | none ↦ err Error.malformed_topic
      | some i ↦ checked_values (parse_query (drop i s))
    ] in
    ap (λ m. m >>= λ s. behind_prefix s (index s (codes "$."))) e ∙ ap (behind_prefix s) f

-- The topic of a cloud-to-device message, whose first key begins with `$.` and whose keys and
-- values are escaped as documented, is read as these keys with these values, in order, if the keys
-- are distinct and neither keys nor values hold `&`, `;`, `%` or `+`, nor a key `=`.
pub parse_cloud_to_device_topic-devicebound_topic :
    (did k v : Bytes) (d : Dict Bytes)
    → IsPlainId did
    → AreBytes ((b'$' ∷ b'.' ∷ k, v) ∷ d)
    → AreClean ((b'$' ∷ b'.' ∷ k, v) ∷ d)
    → Distinct ((b'$' ∷ b'.' ∷ k, v) ∷ d)
    → parse_cloud_to_device_topic (devicebound_topic did ((b'$' ∷ b'.' ∷ k, v) ∷ d))
      ≡ ok ((b'$' ∷ b'.' ∷ k, v) ∷ d)
unfolding devicebound_topic query_unescape checked_values
parse_cloud_to_device_topic-devicebound_topic did k v d (percent, plus, dollar) bytes clean apart =
    let all : Dict Bytes = (b'$' ∷ b'.' ∷ k, v) ∷ d in
    let pre : Bytes = devicebound_prefix did in
    let (t, starts) = join_raw-starts k v d in
    let read : unescape_from plain (pre ++ join_pairs all) ≡ ok (pre ++ join_raw all) =
      unescape-Lacks pre (join_pairs all)
        (prefix-Lacks b'%' did (omega arith) percent (omega arith))
        (prefix-Lacks b'+' did (omega arith) plus (omega arith))
      ∙ ap (in_front pre) (unescape-join_pairs all bytes) in
    let place : index (pre ++ join_raw all) (codes "$.") ≡ some (length pre) =
      ap (λ x. index (pre ++ x) (codes "$.")) starts
      ∙ index-Lacks pre t (prefix-Lacks b'$' did (omega arith) dollar (omega arith)) in
    let values : parse_query (join_raw all) ≡ (map single all, none) =
      parse_query-join_raw all all (clean-AllWrites all clean) apart in
    checked_at (devicebound_topic did all) (pre ++ join_raw all) (length pre) read place
    ∙ ap (λ x. checked_values (parse_query x)) (drop-append pre (join_raw all))
    ∙ ap checked_values values
    ∙ single_values-single (length (map single all)) all
