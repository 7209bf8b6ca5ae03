-- ===== src/Mqtt/Twins/Filters.antt =====
-- Which messages the filters of the transport's subscriptions match.
use golang_iothub.Base.{
  ℕ, ◌≡◌, ◌≢◌, inl, inr, refl, sym, ap, ◌∙◌, [], ◌∷◌, ◌++◌, append_assoc, Bool, true, ◌||◌, Bytes,
  codes, same, length, Bool-cases, arith, get_elem?, some, ◌==◌, ==_iff, same→eq, append-nil, take,
  length-append, ◌-◌, ◌+◌,
}
use golang_iothub.Std.Strings.{has_prefix}
use golang_iothub.Mqtt.Twins.{events_filter, twin_updates_filter, methods_filter, responses_filter}

-- MQTT's rule for a level and a topic: the level itself and everything below it.
unfoldable pub is_below : Bytes → Bytes → Bool
is_below level topic = same topic level || has_prefix topic (level ++ codes "/")

-- And for a filter, which is a level with `/#` behind it and has no other wildcard.
unfoldable pub matches : Bytes → Bytes → Bool
unfolding is_below
matches filter topic = is_below (take (length filter - 2) filter) topic

-- The four subscriptions, by what stands before the `/#`.
pub data Subscription : Type 0 where
  events twin_updates methods responses : Subscription

level : Bytes → Subscription → Bytes
level did events = codes "devices/" ++ (did ++ codes "/messages/devicebound")
level did twin_updates = codes "$iothub/twin/PATCH/properties/desired"
level did methods = codes "$iothub/methods/POST"
level did responses = codes "$iothub/twin/res"

unfoldable pub filter_of : Bytes → Subscription → Bytes
filter_of did events = events_filter did
filter_of did twin_updates = twin_updates_filter
filter_of did methods = methods_filter
filter_of did responses = responses_filter

filter-level : (did : Bytes) (k : Subscription) → filter_of did k ≡ level did k ++ codes "/#"
unfolding filter_of level events_filter twin_updates_filter methods_filter responses_filter
filter-level did events =
    ap (λ t. codes "devices/" ++ t)
      (sym (append_assoc did (codes "/messages/devicebound") (codes "/#")))
filter-level did twin_updates = refl
filter-level did methods = refl
filter-level did responses = refl

take_whole : (s t : Bytes) → take (length s) (s ++ t) ≡ s
take_whole [] [] = refl
take_whole [] (c ∷ t) = refl
take_whole (c ∷ s) t = ap (λ r. c ∷ r) (take_whole s t)

matches-filter_of :
    (did topic : Bytes) (k : Subscription)
    → matches (filter_of did k) topic ≡ true
    → is_below (level did k) topic ≡ true
unfolding matches
matches-filter_of did topic k h =
    let long : length (level did k ++ codes "/#") ≡ length (level did k) + 2 =
      length-append (level did k) (codes "/#") in
    let short : length (level did k ++ codes "/#") - 2 ≡ length (level did k) = omega arith in
    let open_up : is_below (take (length (filter_of did k) - 2) (filter_of did k)) topic ≡ true =
      h in
    rw (filter-level did k, short, take_whole (level did k) (codes "/#")) at open_up

-- A topic that is matched begins with the level.
has_prefix_lem : (s p : Bytes) → has_prefix s p ≡ true → (r : Bytes) × (s ≡ p ++ r)
unfolding has_prefix
has_prefix_lem s [] h = (s, refl)
has_prefix_lem [] (p ∷ ps) h = cc h
has_prefix_lem (c ∷ s) (p ∷ ps) h = elim (Bool-cases (c == p)) [
  | inl e ↦
      let (r, q) = has_prefix_lem s ps (rw e at h) in
      let one : c ≡ p = (==_iff c p).0 e in (r, rw (one, q) refl)
  | inr e ↦ cc (rw e at h)
]

begins :
    (level topic : Bytes) → is_below level topic ≡ true → (rest : Bytes) × (topic ≡ level ++ rest)
unfolding is_below
begins level topic h = elim (Bool-cases (same topic level)) [
  | inl e ↦ ([], same→eq topic level e ∙ sym (append-nil level))
  | inr e ↦
      let (r, p) = has_prefix_lem topic (level ++ codes "/") (ground arith) in
      (codes "/" ++ r, p ∙ append_assoc level (codes "/") r)
]

-- The bytes that tell the levels apart: the first one, and the fourteenth of those that begin with
-- `$iothub`.
abbrev first_byte : Subscription → ℕ
first_byte events = b'd'
first_byte twin_updates = b'$'
first_byte methods = b'$'
first_byte responses = b'$'

abbrev fourteenth_byte : Subscription → ℕ
fourteenth_byte events = b'd'
fourteenth_byte twin_updates = b'P'
fourteenth_byte methods = b'd'
fourteenth_byte responses = b'r'

first : (did r : Bytes) (k : Subscription) → get_elem? (level did k ++ r) 0 ≡ some (first_byte k)
unfolding level
first did r events = refl
first did r twin_updates = refl
first did r methods = refl
first did r responses = refl

fourteenth :
    (did r : Bytes) (k : Subscription)
    → k ≢ events
    → get_elem? (level did k ++ r) 13 ≡ some (fourteenth_byte k)
unfolding level
fourteenth did r events h = absurd (h refl)
fourteenth did r twin_updates h = refl
fourteenth did r methods h = refl
fourteenth did r responses h = refl

-- Two levels with these bytes in common are one.
told_apart :
    (j k : Subscription)
    → first_byte j ≡ first_byte k
    → (j ≢ events → k ≢ events → fourteenth_byte j ≡ fourteenth_byte k)
    → j ≡ k
told_apart events events h g = refl
told_apart events twin_updates h g = absurd (omega arith)
told_apart events methods h g = absurd (omega arith)
told_apart events responses h g = absurd (omega arith)
told_apart twin_updates events h g = absurd (omega arith)
told_apart methods events h g = absurd (omega arith)
told_apart responses events h g = absurd (omega arith)
told_apart twin_updates twin_updates h g = refl
told_apart twin_updates methods h g = let e = g (λ x. cc) (λ x. cc) in absurd (omega arith)
told_apart twin_updates responses h g = let e = g (λ x. cc) (λ x. cc) in absurd (omega arith)
told_apart methods twin_updates h g = let e = g (λ x. cc) (λ x. cc) in absurd (omega arith)
told_apart methods methods h g = refl
told_apart methods responses h g = let e = g (λ x. cc) (λ x. cc) in absurd (omega arith)
told_apart responses twin_updates h g = let e = g (λ x. cc) (λ x. cc) in absurd (omega arith)
told_apart responses methods h g = let e = g (λ x. cc) (λ x. cc) in absurd (omega arith)
told_apart responses responses h g = refl

-- No topic is matched by two of the filters that the transport subscribes, whatever the device's
-- id is: a message goes to one handler.
one_subscription :
    (did topic : Bytes) (j k : Subscription)
    → matches (filter_of did j) topic ≡ true
    → matches (filter_of did k) topic ≡ true
    → j ≡ k
one_subscription did topic j k h g =
    let (r, e) = begins (level did j) topic (matches-filter_of did topic j h) in
    let (q, d) = begins (level did k) topic (matches-filter_of did topic k g) in
    let same_topic : level did j ++ r ≡ level did k ++ q = sym e ∙ d in
    let at : (i : ℕ) → get_elem? (level did j ++ r) i ≡ get_elem? (level did k ++ q) i =
      λ i. ap (λ t. get_elem? t i) same_topic in
    told_apart j k (cc (at 0, first did r j, first did q k))
      (λ a b. cc (at 13, fourteenth did r j a, fourteenth did q k b))
