-- ===== src/Cli/DeviceTool/Prompt/Moves.antt =====
-- One goroutine at a time moves between lock and unlock.
use golang_iothub.Base.{
  ℕ, ◌≡◌, ◌≢◌, ◌⊎◌, refl, sym, ap, subst, ◌∙◌, List, [], ◌∷◌, ◌++◌, append_assoc, Option, none,
  some, Bool, true, false, ◌==◌, ==_iff, Bool-cases, arith, inl, inr, Bytes, update, Result, ok,
  err, panic, Error,
}
use golang_iothub.Device.Mux.States.{TwinState}
use golang_iothub.Cli.DeviceTool.Prompt.{
  Pc, idle, called, locked, prompted, reporting, finishing, returned, Event, prompt, line, System,
  move, behind_marshal,
}

-- Between `mu.Lock()` and `mu.Unlock()`.
abbrev pub inside : Pc → Bool
inside idle = false
inside (called p) = false
inside (locked p) = true
inside (prompted p) = true
inside (reporting p shown e) = true
inside (finishing p r) = true
inside (returned p r) = false

-- The call that was answered, and its answer.
abbrev pub given : Pc → Option (TwinState × TwinState)
given (finishing p (ok v)) = some (p, v)
given (returned p (ok v)) = some (p, v)
given _ = none

module _ (marshal : TwinState → Result Bytes) (unmarshal : Bytes → Result TwinState) where
  -- On the terminal a line that unmarshals to `v` stands directly behind the prompt for `p`.
  abbrev pub Answered : List Event → ℕ → TwinState → TwinState → Type 0
  Answered log g p v =
      (text : Bytes) × (later before : List Event) × (unmarshal text ≡ ok v)
      × (log ≡ later ++ line g (ok text) ∷ prompt g p ∷ before)

  pub record InTurns (s : System) : Type 0 where
    pub held : (g : ℕ) → inside (s.pcs g) ≡ true → s.mu ≡ some g
    pub asked :
        (g : ℕ) (p : TwinState)
        → s.pcs g ≡ prompted p
        → (before : List Event) × (s.log ≡ prompt g p ∷ before)
    pub gave : (g : ℕ) (p v : TwinState) → given (s.pcs g) ≡ some (p, v) → Answered s.log g p v

  -- A goroutine with no other between lock and unlock goes on.
  pub record Moves (s s' : System) (g : ℕ) (pc : Pc) : Type 0 where
    pub pcs : s'.pcs ≡ update s.pcs g pc
    pub alone : (h : ℕ) → inside (s.pcs h) ≡ true → h ≡ g
    pub held : inside pc ≡ true → s'.mu ≡ some g
    pub asked :
        (p : TwinState) → pc ≡ prompted p → (before : List Event) × (s'.log ≡ prompt g p ∷ before)
    pub gave : (p v : TwinState) → given pc ≡ some (p, v) → Answered s'.log g p v
    pub log : (earlier : List Event) × (s'.log ≡ earlier ++ s.log)

  Answered-append :
      (earlier log log' : List Event) (g : ℕ) (p v : TwinState)
      → log' ≡ earlier ++ log
      → Answered log g p v
      → Answered log' g p v
  Answered-append earlier log log' g p v e (text, later, before, reads, at) = (
    text,
    earlier ++ later,
    before,
    reads,
    e ∙ ap (λ x. earlier ++ x) at ∙ sym (append_assoc earlier later _),
  )

  pcs_cases :
      (pcs pcs' : ℕ → Pc) (g : ℕ) (pc : Pc)
      → pcs' ≡ update pcs g pc
      → (h : ℕ) → (g ≡ h) × (pcs' h ≡ pc) ⊎ (h ≢ g) × (pcs' h ≡ pcs h)
  pcs_cases pcs pcs' g pc e h = elim (Bool-cases (g == h)) [
    | inl f ↦ inl ((==_iff g h).0 f, ap (λ k. k h) e ∙ rw f refl)
    | inr f ↦ inr (λ x. ground (arith, ==_iff g h, f, x), ap (λ k. k h) e ∙ rw f refl)
  ]

  pub Moves-InTurns : (s s' : System) (g : ℕ) (pc : Pc) → InTurns s → Moves s s' g pc → InTurns s'
  Moves-InTurns s s' g pc v m =
      let (earlier, grown) = m.log in
      record {
        held = λ h i. elim (pcs_cases s.pcs s'.pcs g pc m.pcs h) [
          | inl (same, at) ↦ m.held (sym (ap inside at) ∙ i) ∙ ap some same
          | inr (other, at) ↦ absurd (other (m.alone h (sym (ap inside at) ∙ i)))
        ];
        asked = λ h p i. elim (pcs_cases s.pcs s'.pcs g pc m.pcs h) [
          | inl (same, at) ↦
              let (before, top) = m.asked p (sym at ∙ i) in
              (before, top ∙ ap (λ k. prompt k p ∷ before) same)
          | inr (other, at) ↦ absurd (other (m.alone h (ap inside (sym at ∙ i))))
        ];
        gave = λ h p w i. elim (pcs_cases s.pcs s'.pcs g pc m.pcs h) [
          | inl (same, at) ↦
              subst (λ k. Answered s'.log k p w) same (m.gave p w (sym (ap given at) ∙ i))
          | inr (other, at) ↦
              Answered-append earlier s.log s'.log h p w grown
                (v.gave h p w (sym (ap given at) ∙ i))
        ];
      }

  -- One goroutine at most is between lock and unlock.
  pub alone_by :
      (s : System) (g : ℕ) (pc : Pc)
      → InTurns s
      → s.pcs g ≡ pc
      → inside pc ≡ true
      → (h : ℕ) → inside (s.pcs h) ≡ true
      → h ≡ g
  alone_by s g pc v at i h j =
      let a : s.mu ≡ some g = v.held g (ap inside at ∙ i) in
      let b : s.mu ≡ some h = v.held h j in cc (a, b)

  pub call-InTurns :
      (s : System) (g : ℕ) (p : TwinState)
      → s.pcs g ≡ idle
      → InTurns s
      → InTurns (move s g (called p))
  call-InTurns s g p at v =
      let s' = move s g (called p) in
      record {
        held = λ h i. elim (pcs_cases s.pcs s'.pcs g (called p) refl h) [
          | inl (_, f) ↦ cc (sym (ap inside f) ∙ i)
          | inr (_, f) ↦ v.held h (sym (ap inside f) ∙ i)
        ];
        asked = λ h q i. elim (pcs_cases s.pcs s'.pcs g (called p) refl h) [
          | inl (_, f) ↦ cc (sym f ∙ i)
          | inr (_, f) ↦ v.asked h q (sym f ∙ i)
        ];
        gave = λ h q w i. elim (pcs_cases s.pcs s'.pcs g (called p) refl h) [
          | inl (_, f) ↦ cc (sym (ap given f) ∙ i)
          | inr (_, f) ↦ v.gave h q w (sym (ap given f) ∙ i)
        ];
      }

  pub lock-Moves :
      (s : System) (g : ℕ) (p : TwinState)
      → s.mu ≡ none
      → InTurns s
      → Moves s (record (move s g (locked p)) { mu = some g }) g (locked p)
  lock-Moves s g p free v = record {
    pcs = refl;
    alone = λ h i. let a : s.mu ≡ some h = v.held h i in cc (a, free);
    held = λ i. refl;
    asked = λ q i. cc;
    gave = λ q w i. cc;
    log = ([], refl);
  }

  pub ask-Moves :
      (s : System) (g : ℕ) (p : TwinState) (b : Result Bytes)
      → s.pcs g ≡ locked p
      → InTurns s
      → Moves s
          (record (move s g (behind_marshal marshal unmarshal p b).0) {
            log = (behind_marshal marshal unmarshal p b).1 g ++ s.log;
          })
          g
          (behind_marshal marshal unmarshal p b).0
  unfolding behind_marshal
  ask-Moves s g p (ok b) at v = record {
    pcs = refl;
    alone = alone_by s g (locked p) v at refl;
    held = λ i. v.held g (ap inside at);
    asked = λ q i. (s.log, ap (λ x. prompt g x ∷ s.log) (cc i));
    gave = λ q w i. cc;
    log = (prompt g p ∷ [], refl);
  }
  ask-Moves s g p (err e) at v = record {
    pcs = refl;
    alone = alone_by s g (locked p) v at refl;
    held = λ i. v.held g (ap inside at);
    asked = λ q i. cc;
    gave = λ q w i. cc;
    log = ([], refl);
  }
  ask-Moves s g p panic at v = record {
    pcs = refl;
    alone = alone_by s g (locked p) v at refl;
    held = λ i. v.held g (ap inside at);
    asked = λ q i. cc;
    gave = λ q w i. cc;
    log = ([], refl);
  }

  pub report-Moves :
      (s : System) (g : ℕ) (p : TwinState) (shown e : Error) (errs : List Error)
      → s.pcs g ≡ reporting p shown e
      → InTurns s
      → Moves s (record (move s g (finishing p (err e))) { errc = errs }) g (finishing p (err e))
  report-Moves s g p shown e errs at v = record {
    pcs = refl;
    alone = alone_by s g (reporting p shown e) v at refl;
    held = λ i. v.held g (ap inside at);
    asked = λ q i. cc;
    gave = λ q w i. cc;
    log = ([], refl);
  }

  pub unlock-Moves :
      (s : System) (g : ℕ) (p : TwinState) (r : Result TwinState)
      → s.pcs g ≡ finishing p r
      → InTurns s
      → Moves s (record (move s g (returned p r)) { mu = none }) g (returned p r)
  unlock-Moves s g p r at v = record {
    pcs = refl;
    alone = alone_by s g (finishing p r) v at refl;
    held = λ i. cc;
    asked = λ q i. cc;
    gave = λ q w i. v.gave g q w (ap given at ∙ i);
    log = ([], refl);
  }
