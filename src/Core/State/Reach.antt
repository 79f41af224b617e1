-- ===== src/Core/State/Reach.antt =====
-- qedl-core/src/state.rs: which states a sequence of transitions reaches.
use qedl_rs.Prelude.{
  ◌≡◌, refl, ap, ◌∙◌, sym, ◌⊎◌, inl, inr, List, [], ◌∷◌, ◌++◌, ok, ◌>>=◌, >>=-eq-ok, ok_inj, arith,
}
use qedl_rs.Core.State.{
  DeviceState, disconnected, connected, ready, busy, resetting, error, is_listed, transition,
  run_transitions,
}

-- A transition that is allowed ends in its target.
transition-eq-ok : (s t : DeviceState) {u : DeviceState} → transition s t ≡ ok u → t ≡ u
unfolding transition is_listed
transition-eq-ok s t h = ground arith

-- Only a ready device becomes busy.
busy_from_ready : (s : DeviceState) → transition s busy ≡ ok busy → s ≡ ready
unfolding transition is_listed
busy_from_ready disconnected h = cc
busy_from_ready connected h = cc
busy_from_ready ready h = refl
busy_from_ready busy h = cc
busy_from_ready resetting h = cc
busy_from_ready error h = cc

run_step :
    (s t : DeviceState) (rest : List DeviceState) {u : DeviceState}
    → run_transitions s (t ∷ rest) ≡ ok u
    → (transition s t ≡ ok t) × (run_transitions t rest ≡ ok u)
unfolding run_transitions
run_step s t rest {u} h =
    let (v, e, f) = >>=-eq-ok (transition s t) (λ w. run_transitions w rest) h in
    let g = transition-eq-ok s t e in (e ∙ ap ok (sym g), ap (λ w. run_transitions w rest) g ∙ f)

run_next :
    (s t : DeviceState) (rest : List DeviceState)
    → transition s t ≡ ok t
    → run_transitions s (t ∷ rest) ≡ run_transitions t rest
unfolding run_transitions
run_next s t rest h = ap (λ m. m >>= λ u. run_transitions u rest) h

-- A device that a sequence of allowed transitions made busy, and was not so before, was ready at
-- some point of the sequence.
pub run_transitions_through_ready :
    (s : DeviceState) (path : List DeviceState)
    → run_transitions s path ≡ ok busy
    → (s ≡ busy)
      ⊎ ((before : List DeviceState) × (after : List DeviceState) × (path ≡ before ++ after)
          × (run_transitions s before ≡ ok ready))
unfolding run_transitions
run_transitions_through_ready s [] h = inl (ok_inj refl h)
run_transitions_through_ready s (t ∷ rest) h =
    let (e, f) = run_step s t rest h in
    elim (run_transitions_through_ready t rest f) [
      | inl was_busy ↦
          let g =
            busy_from_ready s (ap (λ x. transition s x) (sym was_busy) ∙ e ∙ ap ok was_busy) in
          inr ([], t ∷ rest, refl, ap ok g)
      | inr (before, after, p, r) ↦
          inr (t ∷ before, after, ap (λ x. t ∷ x) p, run_next s t before e ∙ r)
    ]
