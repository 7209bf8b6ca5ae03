-- ===== src/Device/Mux/Messages/History.antt =====
-- The messageMux against the history of its calls.
use golang_iothub.Base.{
  ◌≡◌, refl, ap, ◌∙◌, List, [], ◌∷◌, ◌++◌, append_assoc, append-nil, map, some, Bool, false, not,
  ◌||◌, arith, if◌then◌else◌, keep_if, Result, ok, ◌>>=◌,
}
use golang_iothub.Common.Message.{Message}
use golang_iothub.Device.Mux.Handlers.{Handler, ptreq, without, remove_from_lem, keep_if-append}
use golang_iothub.Device.Mux.Messages.{MessageMux, empty_mux, add, remove, dispatch}

pub data Op : Type 0 where
  adds removes : Handler → Op

unfoldable pub step : MessageMux → Op → Result MessageMux
step m (adds fn) = add (some fn) m
step m (removes fn) = remove fn m

unfoldable pub run : MessageMux → List Op → Result MessageMux
unfolding step
run m [] = ok m
run m (op ∷ ops) = step m op >>= λ m'. run m' ops

-- Whether a removal in the history hits a handler.
pub is_removed : Handler → List Op → Bool
is_removed h [] = false
is_removed h (adds fn ∷ ops) = is_removed h ops
is_removed h (removes fn ∷ ops) = ptreq h fn || is_removed h ops

-- The handlers added, in order, that no later removal hits.
unfoldable pub survivors : List Op → List Handler
survivors [] = []
survivors (adds fn ∷ ops) = if is_removed fn ops then survivors ops else fn ∷ survivors ops
survivors (removes fn ∷ ops) = survivors ops

abbrev spared : List Op → Handler → Bool
spared ops h = not (is_removed h ops)

spared-nil : (s : List Handler) → keep_if (spared []) s ≡ s
unfolding keep_if is_removed
spared-nil [] = refl
spared-nil (h ∷ s) = rw (spared-nil s)

spared_of_without :
    (fn : Handler) (ops : List Op) (s : List Handler)
    → keep_if (spared ops) (without fn s) ≡ keep_if (spared (removes fn ∷ ops)) s
unfolding keep_if is_removed
spared_of_without fn ops [] = refl
spared_of_without fn ops (h ∷ s) = ground (arith, spared_of_without fn ops s)

spared_one :
    (fn : Handler) (ops : List Op)
    → keep_if (spared ops) (fn ∷ []) ++ survivors ops ≡ survivors (adds fn ∷ ops)
unfolding keep_if survivors
spared_one fn ops = ground arith

after_adds :
    (fn : Handler) (ops : List Op) (s : List Handler)
    → keep_if (spared ops) s ++ survivors (adds fn ∷ ops)
      ≡ keep_if (spared (adds fn ∷ ops)) s ++ survivors (adds fn ∷ ops)
unfolding is_removed
after_adds fn ops s = refl

after_removes :
    (fn : Handler) (ops : List Op) (s : List Handler)
    → keep_if (spared (removes fn ∷ ops)) s ++ survivors ops
      ≡ keep_if (spared (removes fn ∷ ops)) s ++ survivors (removes fn ∷ ops)
unfolding survivors
after_removes fn ops s = refl

add_lem : (fn : Handler) (m : MessageMux) → add (some fn) m ≡ ok (record m { s = m.s ++ fn ∷ [] })
unfolding add
add_lem fn m = refl

remove_lem : (fn : Handler) (m : MessageMux) → remove fn m ≡ ok (record m { s = without fn m.s })
unfolding remove
remove_lem fn m = rw (remove_from_lem fn m.s)

pub run-survivors :
    (ops : List Op) (m : MessageMux)
    → run m ops ≡ ok (record m { s = keep_if (spared ops) m.s ++ survivors ops })
unfolding run step
run-survivors [] m = unfold survivors in rw (append-nil (keep_if (spared []) m.s), spared-nil m.s)
run-survivors (adds fn ∷ ops) m = rw (add_lem fn m) (
    run-survivors ops (record m { s = m.s ++ fn ∷ [] })
    ∙ ap (λ l. ok (record m { s = l }))
        (rw (keep_if-append (spared ops) m.s (fn ∷ []), append_assoc, spared_one fn ops)
          (after_adds fn ops m.s)))
run-survivors (removes fn ∷ ops) m = rw (remove_lem fn m) (
    run-survivors ops (record m { s = without fn m.s })
    ∙ ap (λ l. ok (record m { s = l }))
        (rw (spared_of_without fn ops m.s) (after_removes fn ops m.s)))

-- After any history of additions and removals, which never panics, `Dispatch` calls the handlers
-- that were added and not removed later, in the order in which they were added, each once for every
-- time it was added, with the message. A removal hits every handler that points to the same code.
pub dispatch-run :
    (ops : List Op) (msg : Message)
    → (m : MessageMux) × (run empty_mux ops ≡ ok m)
      × (dispatch m msg ≡ map (λ h. (h, msg)) (survivors ops))
unfolding dispatch keep_if
dispatch-run ops msg = (record empty_mux { s = survivors ops }, run-survivors ops empty_mux, refl)
