-- ===== src/Common/Credentials/Parse.antt =====
-- What the parser of connection strings returns, on every string.
use golang_iothub.Base.{
  ◌≡◌, ◌≢◌, refl, subst, sym, ◌⊎◌, inl, inr, List, [], ◌∷◌, ◌++◌, map, Bool, true, false, ◌||◌,
  arith, Bytes, codes, same, same→eq, same_other, any, length, All, Lacks, if◌then◌else◌, ok, err,
  panic, Error, Bool-cases, ok_of_ne,
}
use golang_iothub.Std.Strings.{
  split, split_two, split-Lacks, split-append, split_two-append, split_two-none,
}
use golang_iothub.Common.Credentials.{
  Credentials, blank, assign, assign_all, parse_connection_string,
}

-- `key=value;key=value;…`, the form of a connection string.
abbrev pub chunk_of : Bytes × Bytes → Bytes
chunk_of (k, v) = k ++ b'=' ∷ v

unfoldable pub render : List (Bytes × Bytes) → Bytes
render [] = []
render (f ∷ []) = chunk_of f
render (f ∷ fs) = chunk_of f ++ b';' ∷ render fs

-- The value that stands last under a key, and `d` where none does.
unfoldable pub last_value : Bytes → Bytes → List (Bytes × Bytes) → Bytes
last_value k d [] = d
last_value k d ((j, v) ∷ fs) = last_value k (if same j k then v else d) fs

-- No key holds `=`, and neither keys nor values hold `;`.
abbrev pub IsField : Bytes × Bytes → Type 0
IsField (k, v) = Lacks b'=' k × Lacks b';' (chunk_of (k, v))

length-map : (fs : List (Bytes × Bytes)) → length (map chunk_of fs) ≡ length fs
length-map [] = refl
length-map (f ∷ fs) = omega (arith, length-map fs)

split-render :
    (f : Bytes × Bytes) (fs : List (Bytes × Bytes))
    → All IsField (f ∷ fs)
    → split b';' (render (f ∷ fs)) ≡ map chunk_of (f ∷ fs)
unfolding render
split-render f [] h = split-Lacks b';' (chunk_of f) h.0.1
split-render f (g ∷ fs) h =
    rw (split-append b';' (chunk_of f) (render (g ∷ fs)) h.0.1, split-render g fs h.1)

-- What the loop makes of the values behind the credentials so far.
abbrev pub last_values : Credentials → List (Bytes × Bytes) → Credentials
last_values m fs = record m {
  host_name = last_value (codes "HostName") m.host_name fs;
  device_id = last_value (codes "DeviceId") m.device_id fs;
  shared_access_key = last_value (codes "SharedAccessKey") m.shared_access_key fs;
  shared_access_key_name = last_value (codes "SharedAccessKeyName") m.shared_access_key_name fs;
}

-- One chunk sets the field of its key, and no other.
assign_lem :
    (m : Credentials) (k v : Bytes)
    → Lacks b'=' k
    → assign m (chunk_of (k, v)) ≡ ok (last_values m ((k, v) ∷ []))
unfolding assign last_value
assign_lem m k v h =
    rw (split_two-append b'=' k v h, assign)
      (ground (
        arith,
        same_other k (codes "HostName") (codes "DeviceId") (unfold same in refl),
        same_other k (codes "HostName") (codes "SharedAccessKey") (unfold same in refl),
        same_other k (codes "HostName") (codes "SharedAccessKeyName") (unfold same in refl),
        same_other k (codes "DeviceId") (codes "SharedAccessKey") (unfold same in refl),
        same_other k (codes "DeviceId") (codes "SharedAccessKeyName") (unfold same in refl),
        same_other k (codes "SharedAccessKey") (codes "SharedAccessKeyName") (unfold same in refl),
      ))

assign_all-last_values :
    (m : Credentials) (fs : List (Bytes × Bytes))
    → All IsField fs
    → assign_all m (map chunk_of fs) ≡ ok (last_values m fs)
unfolding assign_all last_value
assign_all-last_values m [] h = refl
assign_all-last_values m ((k, v) ∷ fs) h =
    rw (assign_lem m k v h.0.0) (assign_all-last_values (last_values m ((k, v) ∷ [])) fs h.1)

-- A connection string of three or four `key=value` parts is parsed to the credentials whose fields
-- are the last values given under their names, whatever the order of the parts and whatever other
-- keys stand among them; a value may hold `=`. Keys are free of `=`, and keys and values of `;`.
pub parse_connection_string-render :
    (fs : List (Bytes × Bytes))
    → (length fs ≡ 3) ⊎ (length fs ≡ 4)
    → All IsField fs
    → parse_connection_string (render fs) ≡ ok (last_values blank fs)
unfolding parse_connection_string
parse_connection_string-render [] n h = absurd (omega arith)
parse_connection_string-render (f ∷ fs) n h =
    rw (split-render f fs h)
      (ground (arith, length-map fs, assign_all-last_values blank (f ∷ fs) h))

-- The chunks at which the source reads `c[1]` out of range: a known key alone.
pub is_bare_key : Bytes → Bool
is_bare_key chunk =
    same chunk (codes "HostName")
    || same chunk (codes "DeviceId")
    || same chunk (codes "SharedAccessKey")
    || same chunk (codes "SharedAccessKeyName")

bare_cases :
    (chunk : Bytes)
    → is_bare_key chunk ≡ true
    → (chunk ≡ codes "HostName")
      ⊎ (chunk ≡ codes "DeviceId")
      ⊎ (chunk ≡ codes "SharedAccessKey")
      ⊎ (chunk ≡ codes "SharedAccessKeyName")
unfolding is_bare_key
bare_cases chunk h = ground (
  arith,
  same→eq chunk (codes "HostName"),
  same→eq chunk (codes "DeviceId"),
  same→eq chunk (codes "SharedAccessKey"),
  same→eq chunk (codes "SharedAccessKeyName"),
)

assign_bare : (m : Credentials) (chunk : Bytes) → is_bare_key chunk ≡ true → assign m chunk ≡ panic
unfolding assign split_two same
assign_bare m chunk h = elim (bare_cases chunk h) [
  | inl e ↦ subst (λ c. assign m c ≡ panic) (sym e) refl
  | inr (inl e) ↦ subst (λ c. assign m c ≡ panic) (sym e) refl
  | inr (inr (inl e)) ↦ subst (λ c. assign m c ≡ panic) (sym e) refl
  | inr (inr (inr e)) ↦ subst (λ c. assign m c ≡ panic) (sym e) refl
]

assign-ne-panic :
    (m : Credentials) (chunk : Bytes) → is_bare_key chunk ≡ false → assign m chunk ≢ panic
unfolding assign is_bare_key
assign-ne-panic m chunk h = ground (arith, split_two-none b'=' chunk)

assign-ne-err : (m : Credentials) (chunk : Bytes) (e : Error) → assign m chunk ≢ err e
unfolding assign
assign-ne-err m chunk e = ground arith

assign_all_bare :
    (m : Credentials) (chunks : List Bytes)
    → any is_bare_key chunks ≡ true
    → assign_all m chunks ≡ panic
unfolding assign_all any
assign_all_bare m [] h = cc
assign_all_bare m (chunk ∷ chunks) h = elim (Bool-cases (is_bare_key chunk)) [
  | inl bare ↦ rw (assign_bare m chunk bare)
  | inr whole ↦
      let (m', e) = ok_of_ne _ (assign-ne-panic m chunk whole) (assign-ne-err m chunk) in
      rw e (assign_all_bare m' chunks (ground arith))
]

assign_all_whole :
    (m : Credentials) (chunks : List Bytes)
    → any is_bare_key chunks ≡ false
    → (m' : Credentials) × (assign_all m chunks ≡ ok m')
unfolding assign_all any
assign_all_whole m [] h = (m, refl)
assign_all_whole m (chunk ∷ chunks) h =
    let whole : is_bare_key chunk ≡ false = ground arith in
    let (m', e) = ok_of_ne _ (assign-ne-panic m chunk whole) (assign-ne-err m chunk) in
    rw e (assign_all_whole m' chunks (ground arith))

-- Every string has one of three outcomes: unless it has three or four parts between `;`, it is
-- refused as malformed; if it has, and some part is one of the four names with no `=` behind it,
-- the parser panics; otherwise it returns credentials.
pub parse_connection_string_outcome :
    (cs : Bytes)
    → let chunks = split b';' cs in
      (length chunks ≢ 3
        → length chunks ≢ 4
        → parse_connection_string cs ≡ err Error.malformed_connection_string)
      × ((length chunks ≡ 3) ⊎ (length chunks ≡ 4)
          → any is_bare_key chunks ≡ true
          → parse_connection_string cs ≡ panic)
      × ((length chunks ≡ 3) ⊎ (length chunks ≡ 4)
          → any is_bare_key chunks ≡ false
          → (m : Credentials) × (parse_connection_string cs ≡ ok m))
unfolding parse_connection_string
parse_connection_string_outcome cs =
    let chunks = split b';' cs in
    (
      λ p q. ground arith,
      λ n h. ground (arith, assign_all_bare blank chunks h),
      λ n h. let (m, e) = assign_all_whole blank chunks h in (m, ground arith),
    )
