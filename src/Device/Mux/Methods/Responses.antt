-- ===== src/Device/Mux/Methods/Responses.antt =====
-- What `Dispatch` of methodMux answers.
use golang_iothub.Base.{
  ℕ, ◌≡◌, ◌↔◌, ◌≢◌, refl, ap, sym, ◌⊎◌, inl, inr, ◌++◌, none, some, Bytes, codes, arith, Result, ok,
  err, panic, Error, Option-cases,
}
use golang_iothub.Device.Mux.Methods.{Method, MethodMux, Codec, reply, answer, dispatch}
use golang_iothub.Device.Mux.Methods.Registry.{registered}

pub error_body : Codec → Error → Bytes
error_body codec e = codes "{\"error\":" ++ (codec.quote (codec.error_text e) ++ codes "}")

-- What a status and a body say of the answer behind them.
abbrev pub Explains : Codec → Result Bytes → ℕ → Bytes → Type 0
Explains codec r rc body =
    (rc ≡ 200) × (r ≡ ok body)
    ⊎ (rc ≡ 500) × ((x : Error) × (r ≡ err x) × (body ≡ error_body codec x))

reply-Explains :
    (codec : Codec) (r : Result Bytes) (rc : ℕ) (body : Bytes)
    → reply codec r ≡ ok (rc, body)
    → Explains codec r rc body
unfolding reply error_body
reply-Explains codec (ok b) rc body h = inl (ground arith, ground arith)
reply-Explains codec (err x) rc body h = inr (ground arith, (x, refl, ground arith))
reply-Explains codec panic rc body h = cc

reply-ne-err : (codec : Codec) (r : Result Bytes) (e : Error) → reply codec r ≢ err e
unfolding reply
reply-ne-err codec (ok b) e h = cc
reply-ne-err codec (err x) e h = cc
reply-ne-err codec panic e h = cc

-- A dispatch fails exactly when the method is not registered, and then names it. A status and a body
-- come back only from a registered handler: 200 with the body that it answered with, or 500 with
-- `{"error":…}` of the error of the first stage that failed (request, handler or response).
dispatch_outcome :
    (codec : Codec) (m : MethodMux) (method b : Bytes)
    → ((e : Error)
        → (dispatch codec m method b ≡ err e)
          ↔ ((registered method m ≡ none) × (e ≡ Error.not_registered method)))
      × ((rc : ℕ) (body : Bytes)
          → dispatch codec m method b ≡ ok (rc, body)
          → (f : Method) × (registered method m ≡ some f)
            × Explains codec (answer codec f b) rc body)
unfolding dispatch
dispatch_outcome codec m method b = elim (Option-cases (registered method m)) [
  | inl e ↦ (
    λ x.
        (λ h. (e, ground (arith, rw (e, dispatch) at h)), λ h. rw (e, dispatch) (ap err (sym h.1))),
    λ rc body h. cc (rw (e, dispatch) at h),
  )
  | inr (f, e) ↦ (
    λ x. (λ h. absurd (reply-ne-err codec _ x (rw (e, dispatch) at h)), λ h. cc (e, h.0)),
    λ rc body h. (f, e, reply-Explains codec _ rc body (rw (e, dispatch) at h)),
  )
]
