-- ===== src/Control/Manager/Ending.antt =====
-- internal/control/manager.go: what is known of an instance, and of the rest, once its runner ended.
use slipway.Common.{
  ℕ, ◌-◌, ◌≤◌, Text, ◌≡◌, ◌↔◌, refl, sym, ◌∙◌, Bool, true, ◌||◌, ◌&&◌, Option, none, some, [], ◌⊎◌,
  Bool-cases, inl, inr, arith, length, take, length-take, length-append, leb, leb→le, and_true,
}
use slipway.Control.Manager.Types.{State, RuntimeInstance, Manager}
use slipway.Control.Manager.Causes.{GoError, ends, IsAll, cancellation_from, cancellation_from_lem}
use slipway.Control.Manager.Lifecycle.{
  Outcome, canceled, bounded_error, truncated_suffix, invoke_runner, is_expected, ended, final_view,
}

bounded_error_le : (text : Text) → length (bounded_error text) ≤ 16384
unfolding bounded_error
bounded_error_le text = elim (Bool-cases (leb (length text) 16384)) [
  | inl e ↦ rw e (leb→le (length text) 16384 e)
  | inr e ↦ rw e (
      omega (
        arith,
        length-append (take (16384 - length truncated_suffix) text) truncated_suffix,
        length-take (16384 - length truncated_suffix) text,
      ))
]

-- The runner's error is more than that the context of the instance ended.
abbrev pub IsFailure : Manager → RuntimeInstance → Option (GoError × Text) → Type 0
IsFailure m r none = ⊥
IsFailure m r (some (e, text)) = ¬ (((m.cancelled || r.cancelled) ≡ true) × IsAll canceled (ends e))

expected_eq :
    (m : Manager) (r : RuntimeInstance) (e : GoError)
    → is_expected m r e ≡ ((m.cancelled || r.cancelled) && cancellation_from e canceled)
expected_eq m r e = ground arith

true_and : {a b : Bool} → a ≡ true → b ≡ true → (a && b) ≡ true
true_and h k = rw (h, k) refl

expected_iff :
    (m : Manager) (r : RuntimeInstance) (e : GoError)
    → (is_expected m r e ≡ true) ↔ (((m.cancelled || r.cancelled) ≡ true) × IsAll canceled (ends e))
expected_iff m r e = (
  λ h.
      let (cancelled, only) = and_true (sym (expected_eq m r e) ∙ h) in
      (cancelled, (cancellation_from_lem e canceled).0 only),
  λ h. expected_eq m r e ∙ true_and h.0 ((cancellation_from_lem e canceled).1 h.1),
)

-- A view is terminal, and tells a failure from an exit.
abbrev pub Tells : Manager → RuntimeInstance → Option (GoError × Text) → RuntimeInstance → Type 0
Tells m r error r' =
    ((r'.view.state ≡ State.failed) × IsFailure m r error)
    ⊎ ((r'.view.state ≡ State.exited) × (r'.view.error ≡ []) × ¬ IsFailure m r error)

state_told :
    (m : Manager) (r : RuntimeInstance) (outcome : Outcome) (now : ℕ)
    (error : Option (GoError × Text))
    → invoke_runner outcome ≡ error
    → Tells m r error (ended m r outcome now) × (length (ended m r outcome now).view.error ≤ 16384)
unfolding final_view
state_told m r outcome now none h = rw h (inr (refl, refl, λ f. f), omega arith)
state_told m r outcome now (some (e, text)) h = elim (Bool-cases (is_expected m r e)) [
  | inl x ↦ rw (h, x) (inr (refl, refl, λ f. f ((expected_iff m r e).0 x)), omega arith)
  | inr x ↦
      rw (h, x) (inl (refl, λ both. cc (x, (expected_iff m r e).1 both)), bounded_error_le text)
]

noted :
    (m : Manager) (r : RuntimeInstance) (outcome : Outcome) (now : ℕ)
    → (ended m r outcome now).view.finished_at ≡ some now
unfolding final_view
noted m r outcome now = refl

-- When a runner ends, its instance has failed if the runner panicked or returned an error that is
-- more than the report of its own cancelled context: some error at the end of its wrappers and joins
-- is another one, or the context was not cancelled. Otherwise it has exited, with no error. The
-- retained text of an error is bounded, the time is noted, and whoever waits for the instance is let
-- go.
pub ended_lem :
    (m : Manager) (r : RuntimeInstance) (outcome : Outcome) (now : ℕ)
    → Tells m r (invoke_runner outcome) (ended m r outcome now)
      × (length (ended m r outcome now).view.error ≤ 16384)
      × ((ended m r outcome now).view.finished_at ≡ some now)
      × ((ended m r outcome now).done ≡ true)
ended_lem m r outcome now =
    let (told, bound) = state_told m r outcome now (invoke_runner outcome) refl in
    (told, bound, noted m r outcome now, refl)
