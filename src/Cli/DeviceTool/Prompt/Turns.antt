-- ===== src/Cli/DeviceTool/Prompt/Turns.antt =====
-- Calls of `direct-method` take turns at the terminal.
use golang_iothub.Base.{ℕ, ◌≡◌, refl, ap, ◌∙◌, [], ◌∷◌, some, true, Bytes, Result, ok, err, panic}
use golang_iothub.Device.Mux.States.{TwinState}
use golang_iothub.Cli.DeviceTool.Prompt.{
  Pc, locked, prompted, returned, prompt, line, System, move, behind_line, behind_unmarshal, Step,
  call, lock, ask, read, report, unlock, ends, init, Reach, here, next,
}
use golang_iothub.Cli.DeviceTool.Prompt.Moves.{
  inside, given, Answered, InTurns, Moves, Moves-InTurns, alone_by, call-InTurns, lock-Moves,
  ask-Moves, report-Moves, unlock-Moves,
}

module _ (marshal : TwinState → Result Bytes) (unmarshal : Bytes → Result TwinState) where
  -- Behind a line a call is still inside, at no prompt, and has an answer only from that line.
  abbrev Settled : TwinState → Result TwinState → Pc → Type 0
  Settled p u pc =
      (inside pc ≡ true)
      × ((q : TwinState) → pc ≡ prompted q → ⊥)
      × ((q w : TwinState) → given pc ≡ some (q, w) → (u ≡ ok w) × (p ≡ q))

  unmarshal-Settled :
      (p : TwinState) (u : Result TwinState) → Settled p u (behind_unmarshal marshal unmarshal p u)
  unfolding behind_unmarshal
  unmarshal-Settled p (ok v) = (refl, λ q i. cc, λ q w i. (cc i, cc i))
  unmarshal-Settled p (err e) = (refl, λ q i. cc, λ q w i. cc)
  unmarshal-Settled p panic = (refl, λ q i. cc, λ q w i. cc)

  read-Moves :
      (s : System) (g : ℕ) (p : TwinState) (r : Result Bytes)
      → s.pcs g ≡ prompted p
      → InTurns marshal unmarshal s
      → Moves marshal unmarshal s
          (record (move s g (behind_line marshal unmarshal p r)) { log = line g r ∷ s.log })
          g
          (behind_line marshal unmarshal p r)
  unfolding behind_line
  read-Moves s g p (ok text) at v =
      let (within, quiet, answers) = unmarshal-Settled p (unmarshal text) in
      let (before, top) = v.asked g p at in
      record {
        pcs = refl;
        alone = alone_by marshal unmarshal s g (prompted p) v at refl;
        held = λ i. v.held g (ap inside at);
        asked = λ q i. absurd (quiet q i);
        gave = λ q w i.
            let (reads, same) = answers q w i in
            (
              text,
              [],
              before,
              reads,
              ap (λ l. line g (ok text) ∷ l) (top ∙ ap (λ x. prompt g x ∷ before) same),
            );
        log = (line g (ok text) ∷ [], refl);
      }
  read-Moves s g p (err e) at v = record {
    pcs = refl;
    alone = alone_by marshal unmarshal s g (prompted p) v at refl;
    held = λ i. v.held g (ap inside at);
    asked = λ q i. cc;
    gave = λ q w i. cc;
    log = (line g (err e) ∷ [], refl);
  }
  read-Moves s g p panic at v = record {
    pcs = refl;
    alone = alone_by marshal unmarshal s g (prompted p) v at refl;
    held = λ i. v.held g (ap inside at);
    asked = λ q i. cc;
    gave = λ q w i. cc;
    log = (line g panic ∷ [], refl);
  }

  init-InTurns : InTurns marshal unmarshal (init marshal unmarshal)
  init-InTurns = record { held = λ g i. cc; asked = λ g p i. cc; gave = λ g p v i. cc }

  Step-InTurns :
      (s s' : System)
      → Step marshal unmarshal s s'
      → InTurns marshal unmarshal s
      → InTurns marshal unmarshal s'
  Step-InTurns s s' (call g p at e) v = rw e (call-InTurns marshal unmarshal s g p at v)
  Step-InTurns s s' (lock g p at free e) v = rw e (
      Moves-InTurns marshal unmarshal s _ g (locked p) v
        (lock-Moves marshal unmarshal s g p free v))
  Step-InTurns s s' (ask g p at e) v = rw e (
      Moves-InTurns marshal unmarshal s _ g _ v
        (ask-Moves marshal unmarshal s g p (marshal p) at v))
  Step-InTurns s s' (read g p r at e) v =
      rw e (Moves-InTurns marshal unmarshal s _ g _ v (read-Moves s g p r at v))
  Step-InTurns s s' (report g p shown x at room e) v = rw e (
      Moves-InTurns marshal unmarshal s _ g _ v
        (report-Moves marshal unmarshal s g p shown x _ at v))
  Step-InTurns s s' (unlock g p r at e) v =
      rw e (Moves-InTurns marshal unmarshal s _ g _ v (unlock-Moves marshal unmarshal s g p r at v))
  Step-InTurns s s' (ends x rest m f e) v =
      rw e (record { held = v.held; asked = v.asked; gave = v.gave })

  Reach-InTurns : (s : System) → Reach marshal unmarshal s → InTurns marshal unmarshal s
  Reach-InTurns s here = init-InTurns
  Reach-InTurns s (next {s = before} r t) = Step-InTurns before s t (Reach-InTurns before r)

  -- In every state that calls of `direct-method` reach, whatever the scheduler and the terminal do,
  -- two calls are never at once between lock and unlock, and a call of goroutine `g` for `p` that has
  -- returned `v` returned what a line unmarshals to that stands on the terminal directly behind the
  -- prompt of `g` for `p`.
  pub takes_turns :
      (s : System)
      → Reach marshal unmarshal s
      → ((g h : ℕ) → inside (s.pcs g) ≡ true → inside (s.pcs h) ≡ true → g ≡ h)
        × ((g : ℕ) (p v : TwinState)
            → s.pcs g ≡ returned p (ok v)
            → Answered marshal unmarshal s.log g p v)
  takes_turns s r =
      let v = Reach-InTurns s r in
      (
        λ g h i j. let a = v.held g i in let b = v.held h j in cc (a, b),
        λ g p w at. v.gave g p w (ap given at),
      )
