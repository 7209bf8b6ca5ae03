-- ===== src/Std/Url/Plain.antt =====
-- Text that holds none of the bytes with a meaning in an address.
use golang_iothub.Base.{◌≡◌, refl, [], ◌∷◌, ◌++◌, false, arith, Bytes, Lacks, ok}
use golang_iothub.Std.Url.{query_unescape, unescape_from}
use golang_iothub.Std.Url.PathSegment.{path_unescape-Lacks}
use golang_iothub.Std.Url.Query.{colon_first, split_parts, checked_path}

pub query_unescape-Lacks : (s : Bytes) → Lacks b'%' s → Lacks b'+' s → query_unescape s ≡ ok s
unfolding query_unescape unescape_from
query_unescape-Lacks [] h p = refl
query_unescape-Lacks (c ∷ s) h p = ground (arith, query_unescape-Lacks s h.1 p.1)

pub colon_first-Lacks : (s : Bytes) → Lacks b':' s → colon_first s ≡ false
unfolding colon_first
colon_first-Lacks [] h = refl
colon_first-Lacks (c ∷ s) h = ground (arith, colon_first-Lacks s h.1)

pub checked_path-Lacks : (s : Bytes) → Lacks b':' s → Lacks b'%' s → checked_path s ≡ ok s
unfolding checked_path
checked_path-Lacks s colon percent =
    rw (checked_path, colon_first-Lacks s colon) (path_unescape-Lacks s percent)

pub split_parts-Lacks : (s : Bytes) → Lacks b'&' s → Lacks b';' s → split_parts s ≡ s ∷ []
unfolding split_parts
split_parts-Lacks [] h p = refl
split_parts-Lacks (c ∷ s) h p = ground (arith, split_parts-Lacks s h.1 p.1)

pub split_parts-append :
    (s t : Bytes) → Lacks b'&' s → Lacks b';' s → split_parts (s ++ b'&' ∷ t) ≡ s ∷ split_parts t
unfolding split_parts
split_parts-append [] t h p = ground arith
split_parts-append (c ∷ s) t h p = ground (arith, split_parts-append s t h.1 p.1)
