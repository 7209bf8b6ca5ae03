-- ===== src/Device/Mux/Methods/Registry.antt =====
-- The methodMux against the history of its calls: each name has its first handler since it was
-- last removed.
use golang_iothub.Base.{
  ◌≡◌, ◌↔◌, refl, ◌∙◌, List, [], ◌∷◌, Option, none, some, Bytes, lookup, insert, lookup-insert,
  lookup-erase, same, same_iff, arith, if◌then◌else◌, Option-cases, inl, inr, Result, ok, Error,
  ◌>>=◌,
}
use golang_iothub.Device.Mux.Methods.{Method, MethodMux, entries, handle, remove}

pub data Op : Type 0 where
  handles : Bytes → Method → Op
  removes : Bytes → Op

step : MethodMux → Op → Result MethodMux
step m (handles name fn) = handle name (some fn) m >>= λ r. ok r.0
step m (removes name) = ok (remove name m)

pub run : MethodMux → List Op → Result MethodMux
run m [] = ok m
run m (op ∷ ops) = step m op >>= λ m'. run m' ops

-- Who answers to a name behind one more call, and behind a history.
owner_after : Bytes → Option Method → Op → Option Method
owner_after name o (handles j fn) =
    if same j name then (elim o [ none ↦ some fn | some f ↦ some f ]) else o
owner_after name o (removes j) = if same j name then none else o

pub owner : Bytes → Option Method → List Op → Option Method
owner name o [] = o
owner name o (op ∷ ops) = owner name (owner_after name o op) ops

abbrev pub registered : Bytes → MethodMux → Option Method
registered name m = lookup name (entries m.m)

step_handles :
    (m : MethodMux) (j name : Bytes) (fn : Method)
    → (m' : MethodMux) × (step m (handles j fn) ≡ ok m')
      × (registered name m' ≡ owner_after name (registered name m) (handles j fn))
unfolding step handle owner_after
step_handles m j name fn =
    let d = entries m.m in
    elim (Option-cases (lookup j d)) [
      | inl free ↦ (
        record m { m = some (insert j fn d) },
        rw (free, handle),
        ground (arith, lookup-insert j name fn d, same_iff j name),
      )
      | inr (f, taken) ↦
          (record m { m = some d }, rw (taken, handle), ground (arith, same_iff j name))
    ]

step_removes :
    (m : MethodMux) (j name : Bytes)
    → registered name (remove j m) ≡ owner_after name (registered name m) (removes j)
unfolding remove owner_after lookup
step_removes m j name = ground (arith, lookup-erase j name (entries m.m))

step-owner :
    (m : MethodMux) (op : Op) (name : Bytes)
    → (m' : MethodMux) × (step m op ≡ ok m')
      × (registered name m' ≡ owner_after name (registered name m) op)
unfolding step
step-owner m (handles j fn) name = step_handles m j name fn
step-owner m (removes j) name = (remove j m, refl, step_removes m j name)

-- Behind any history of registrations and removals, which never panics, a name is answered by the
-- first handler registered under it since its last removal, and by none if there is no such one.
pub run-owner :
    (ops : List Op) (m : MethodMux) (name : Bytes)
    → (m' : MethodMux) × (run m ops ≡ ok m')
      × (registered name m' ≡ owner name (registered name m) ops)
unfolding run owner
run-owner [] m name = (m, refl, refl)
run-owner (op ∷ ops) m name =
    let (m', e, o) = step-owner m op name in
    let (m'', e', o') = run-owner ops m' name in (m'', rw e e', o' ∙ rw o refl)

-- `handle` reports an error exactly when the name is registered already, and then every name keeps
-- its handler; otherwise the name is answered by the new handler, and the others as before.
handle_lem :
    (m : MethodMux) (name j : Bytes) (fn : Method)
    → (r : MethodMux × Option Error) × (handle name (some fn) m ≡ ok r)
      × ((registered name m ≡ none) ↔ (r.1 ≡ none))
      × ((f : Method) → registered name m ≡ some f → registered j r.0 ≡ registered j m)
      × (registered name m ≡ none
          → registered j r.0 ≡ (if same name j then some fn else registered j m))
unfolding handle
handle_lem m name j fn =
    let d = entries m.m in
    elim (Option-cases (lookup name d)) [
      | inl free ↦ (
        (record m { m = some (insert name fn d) }, none),
        rw (free, handle),
        (λ _. refl, λ _. free),
        λ f e. cc,
        λ _. lookup-insert name j fn d,
      )
      | inr (f, taken) ↦ (
        (record m { m = some d }, some (Error.already_registered name)),
        rw (taken, handle),
        (λ e. cc, λ e. cc),
        λ _ _. refl,
        λ e. cc,
      )
    ]
