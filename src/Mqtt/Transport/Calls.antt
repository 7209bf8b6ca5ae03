-- ===== src/Mqtt/Transport/Calls.antt =====
-- Direct-method calls, from their topic to the response.
use golang_iothub.Base.{
  ℕ, ◌^◌, ◌<◌, ◌≡◌, ◌≢◌, refl, ap, sym, ◌∙◌, [], ◌∷◌, ◌++◌, append_assoc, some, true, arith, Bytes,
  codes, All-append, Lacks, pos, Result, ok, err, Error,
}
use golang_iothub.Std.Strings.{trim_right, trim_right-Lacks, trim_right-last, has_prefix-append}
use golang_iothub.Std.Strconv.{format_int}
use golang_iothub.Std.Url.{query_unescape}
use golang_iothub.Std.Url.Plain.{query_unescape-Lacks}
use golang_iothub.Std.Url.Query.{Url}
use golang_iothub.Device.Mux.Methods as Methods
use golang_iothub.Device.Mux.Methods.{MethodMux, Codec}
use golang_iothub.Mqtt.Topics.{
  Publication, send, method_response_topic, parse_direct_method_topic, behind, methods_prefix,
}
use golang_iothub.Mqtt.Topics.Queries.{
  IsPath, query_text, query_text-Lacks, number-Lacks, parse_url-query, query_text-no_fragment,
  read_rid-query,
}
use golang_iothub.Mqtt.Transport.{on_method, respond, published, response_topic_of}
use golang_iothub.Std.Strconv.{format_signed}

-- A method's name that is not blank and holds no byte with a meaning in a topic.
abbrev pub IsPlain : Bytes → Type 0
IsPlain s = (s ≢ []) × Lacks b'/' s × Lacks b'+' s × IsPath s

-- `$iothub/methods/POST/{name}/?$rid={rid}`, the documented form of a call's topic.
pub call_topic : Bytes → ℕ → Bytes
call_topic name rid = codes "$iothub/methods/POST/" ++ (name ++ (codes "/?$rid=" ++ format_int rid))

abbrev call_path : Bytes → Bytes
call_path name = codes "$iothub/methods/POST/" ++ (name ++ codes "/")

call_path-Lacks :
    (c : ℕ) (name : Bytes)
    → Lacks c (codes "$iothub/methods/POST/")
    → Lacks c name
    → Lacks c (codes "/")
    → Lacks c (call_path name)
call_path-Lacks c name h n t =
    All-append _ (codes "$iothub/methods/POST/") (name ++ codes "/") h
      (All-append _ name (codes "/") n t)

call_path-IsPath : (name : Bytes) → IsPlain name → IsPath (call_path name)
call_path-IsPath name (some_byte, slash, plus, (hash, mark, colon, percent)) = (
  call_path-Lacks b'#' name (omega arith) hash (omega arith),
  call_path-Lacks b'?' name (omega arith) mark (omega arith),
  call_path-Lacks b':' name (omega arith) colon (omega arith),
  call_path-Lacks b'%' name (omega arith) percent (omega arith),
)

call_topic-split :
    (name : Bytes) (rid : ℕ) → call_topic name rid ≡ call_path name ++ b'?' ∷ query_text rid
unfolding call_topic
call_topic-split name rid =
    ap (λ t. codes "$iothub/methods/POST/" ++ t)
      (sym (append_assoc name (codes "/") (b'?' ∷ query_text rid)))

split-Lacks :
    (c : ℕ) (name : Bytes) (rid : ℕ)
    → Lacks c (call_path name)
    → b'?' ≢ c
    → Lacks c (query_text rid)
    → Lacks c (call_path name ++ b'?' ∷ query_text rid)
split-Lacks c name rid front mark back =
    All-append _ (call_path name) (b'?' ∷ query_text rid) front (mark, back)

unescaped :
    (name : Bytes) (rid : ℕ)
    → IsPlain name
    → query_unescape (call_path name ++ b'?' ∷ query_text rid)
      ≡ ok (call_path name ++ b'?' ∷ query_text rid)
unescaped name rid (some_byte, slash, plus, (hash, mark, colon, percent)) =
    query_unescape-Lacks (call_path name ++ b'?' ∷ query_text rid)
      (split-Lacks b'%' name rid (call_path-Lacks b'%' name (omega arith) percent (omega arith))
        (omega arith)
        (query_text-Lacks b'%' rid (omega arith) (number-Lacks b'%' rid (omega arith))))
      (split-Lacks b'+' name rid (call_path-Lacks b'+' name (omega arith) plus (omega arith))
        (omega arith)
        (query_text-Lacks b'+' rid (omega arith) (number-Lacks b'+' rid (omega arith))))

trim-call_path :
    (name : Bytes)
    → IsPlain name
    → trim_right b'/' (call_path name) ≡ codes "$iothub/methods/POST/" ++ name
trim-call_path name (some_byte, slash, plus, path) =
    let apart : call_path name ≡ (codes "$iothub/methods/POST/" ++ name) ++ codes "/" =
      sym (append_assoc (codes "$iothub/methods/POST/") name (codes "/")) in
    ap (trim_right b'/') apart
    ∙ trim_right-last b'/' (codes "$iothub/methods/POST/" ++ name)
    ∙ trim_right-Lacks b'/' (codes "$iothub/methods/POST/") name slash some_byte

behind-call_path :
    (name : Bytes) → behind methods_prefix (codes "$iothub/methods/POST/" ++ name) ≡ ok name
unfolding behind
behind-call_path name = rw (has_prefix-append (codes "$iothub/methods/POST/") name) refl

parse_direct_method_topic-call_topic :
    (other : Bytes → Result Url) (name : Bytes) (rid : ℕ)
    → IsPlain name
    → rid < 2 ^ 63
    → parse_direct_method_topic other (call_topic name rid) ≡ ok (name, pos rid)
unfolding parse_direct_method_topic
parse_direct_method_topic-call_topic other name rid plain fits =
    rw
      (
        call_topic-split name rid,
        unescaped name rid plain,
        parse_url-query other (codes "iothub/methods/POST/" ++ (name ++ codes "/")) (query_text rid)
            (call_path-IsPath name plain) (query_text-no_fragment rid),
        trim-call_path name plain,
        behind-call_path name,
        read_rid-query rid fits,
      )
      refl

-- A call of the documented form, of a plain method name and with a number below 2^63, to a connected
-- transport: if the mux answers it with a status and a body, exactly this body is published, on the topic of
-- the response with this status and the number of the call; if the mux fails, nothing is.
pub on_method_lem :
    (other : Bytes → Result Url) (publish : Publication → Result (Unit {0})) (codec : Codec)
    (mux : MethodMux) (name payload : Bytes) (rid : ℕ)
    → IsPlain name
    → rid < 2 ^ 63
    → ((p : Publication) → publish p ≡ ok tt)
    → ((rc : ℕ) (body : Bytes)
        → Methods.dispatch codec mux name payload ≡ ok (rc, body)
        → on_method other publish true codec mux (call_topic name rid) payload
          ≡ ok (record { topic = method_response_topic rc rid; qos = 1; payload = some body } ∷ []))
      × ((e : Error)
          → Methods.dispatch codec mux name payload ≡ err e
          → on_method other publish true codec mux (call_topic name rid) payload ≡ ok [])
unfolding on_method respond published send response_topic_of format_signed method_response_topic
on_method_lem other publish codec mux name payload rid plain fits sends = (
  λ rc body answered.
      rw
        (on_method, parse_direct_method_topic-call_topic other name rid plain fits, answered, sends)
        refl,
  λ e failed.
      rw (on_method, parse_direct_method_topic-call_topic other name rid plain fits, failed) refl,
)
