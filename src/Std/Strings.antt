-- ===== src/Std/Strings.antt =====
-- Package strings: Split and SplitN at one byte, HasPrefix, Index.
use golang_iothub.Base.{
  ℕ, suc, ◌≡◌, ◌≢◌, refl, ◌++◌, List, [], ◌∷◌, Option, none, some, Bool, true, false, ◌&&◌, arith,
  Bytes, Lacks, ◌==◌, if◌then◌else◌,
}
use mathlib.Core.Option

abbrev pub with_head : ℕ → List Bytes → List Bytes
with_head c [] = (c ∷ []) ∷ []
with_head c (p ∷ ps) = (c ∷ p) ∷ ps

-- `strings.Split(s, sep)`: at every separator, at least one part.
unfoldable pub split : ℕ → Bytes → List Bytes
split sep [] = [] ∷ []
split sep (c ∷ s) = let ps = split sep s in if c == sep then [] ∷ ps else with_head c ps

-- `strings.SplitN(s, sep, 2)`: what stands before the first separator, and behind it if there is
-- one.
unfoldable pub split_two : ℕ → Bytes → Bytes × Option Bytes
split_two sep [] = ([], none)
split_two sep (c ∷ s) =
    let (p, q) = split_two sep s in if c == sep then ([], some s) else (c ∷ p, q)

unfoldable pub has_prefix : Bytes → Bytes → Bool
has_prefix s [] = true
has_prefix [] (p ∷ ps) = false
has_prefix (c ∷ s) (p ∷ ps) = c == p && has_prefix s ps

-- `strings.Contains(s, sub)`.
unfoldable pub contains : Bytes → Bytes → Bool
contains [] sub = has_prefix [] sub
contains (c ∷ s) sub = if has_prefix (c ∷ s) sub then true else contains s sub

-- `strings.Index(s, sub)`; `none` is -1.
unfoldable pub index : Bytes → Bytes → Option ℕ
index [] sub = if has_prefix [] sub then some 0 else none
index (c ∷ s) sub =
    let later = Option.map suc (index s sub) in if has_prefix (c ∷ s) sub then some 0 else later

-- `strings.TrimRight(s, "c")`.
unfoldable pub trim_right : ℕ → Bytes → Bytes
trim_right c [] = []
trim_right c (b ∷ s) = elim (trim_right c s) [
  | [] ↦ if b == c then [] else b ∷ []
  | k ∷ r ↦ b ∷ k ∷ r
]

-- `strings.TrimLeft(s, "c")`.
unfoldable pub trim_left : ℕ → Bytes → Bytes
trim_left c [] = []
trim_left c (b ∷ s) = let rest = trim_left c s in if b == c then rest else b ∷ s

-- `strings.Trim(s, "c")`.
unfoldable pub trim : ℕ → Bytes → Bytes
unfolding trim_left trim_right
trim c s = trim_right c (trim_left c s)

pub split-Lacks : (sep : ℕ) (p : Bytes) → Lacks sep p → split sep p ≡ p ∷ []
unfolding split
split-Lacks sep [] h = refl
split-Lacks sep (c ∷ p) h = ground (arith, split-Lacks sep p h.1)

pub split-append :
    (sep : ℕ) (p s : Bytes) → Lacks sep p → split sep (p ++ sep ∷ s) ≡ p ∷ split sep s
unfolding split
split-append sep [] s h = ground arith
split-append sep (c ∷ p) s h = ground (arith, split-append sep p s h.1)

pub split_two-append :
    (sep : ℕ) (p s : Bytes) → Lacks sep p → split_two sep (p ++ sep ∷ s) ≡ (p, some s)
unfolding split_two
split_two-append sep [] s h = ground arith
split_two-append sep (c ∷ p) s h = ground (arith, split_two-append sep p s h.1)

pub split_two-Lacks : (sep : ℕ) (p : Bytes) → Lacks sep p → split_two sep p ≡ (p, none)
unfolding split_two
split_two-Lacks sep [] h = refl
split_two-Lacks sep (c ∷ p) h = ground (arith, split_two-Lacks sep p h.1)

pub split_two-none : (sep : ℕ) (s : Bytes) → (split_two sep s).1 ≡ none → (split_two sep s).0 ≡ s
unfolding split_two
split_two-none sep [] h = refl
split_two-none sep (c ∷ s) h = ground (arith, split_two-none sep s)

pub trim_right-Lacks : (c : ℕ) (s t : Bytes) → Lacks c t → t ≢ [] → trim_right c (s ++ t) ≡ s ++ t
unfolding trim_right
trim_right-Lacks c [] [] h some_byte = absurd (some_byte refl)
trim_right-Lacks c [] (b ∷ []) h some_byte = ground (arith, h.0)
trim_right-Lacks c [] (b ∷ k ∷ t) h some_byte = rw (trim_right-Lacks c [] (k ∷ t) h.1 (λ e. cc))
trim_right-Lacks c (b ∷ []) [] h some_byte = absurd (some_byte refl)
trim_right-Lacks c (b ∷ []) (k ∷ t) h some_byte = rw (trim_right-Lacks c [] (k ∷ t) h (λ e. cc))
trim_right-Lacks c (b ∷ k ∷ s) t h some_byte = rw (trim_right-Lacks c (k ∷ s) t h some_byte)

pub trim_right-last : (c : ℕ) (s : Bytes) → trim_right c (s ++ c ∷ []) ≡ trim_right c s
unfolding trim_right
trim_right-last c [] = ground arith
trim_right-last c (b ∷ s) = rw (trim_right-last c s)

pub has_prefix-append : (s t : Bytes) → has_prefix (s ++ t) s ≡ true
unfolding has_prefix
has_prefix-append [] [] = refl
has_prefix-append [] (c ∷ t) = refl
has_prefix-append (c ∷ s) t = ground (arith, has_prefix-append s t)
