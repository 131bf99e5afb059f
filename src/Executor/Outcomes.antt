-- ===== src/Executor/Outcomes.antt =====
-- What `Local.Execute` of internal/executor/executor.go reports of a command.
use slipway.Common.{
  true, false, not, ◌&&◌, Option, none, some, [], ◌∷◌, ◌≡◌, ◌⊎◌, ◌↔◌, inl, inr, refl, sym, ◌∙◌,
  arith, Text, Option-cases, Bool-cases,
}
use slipway.Executor.Execute.{
  Execution, run_opened, Command, Ran, Host, ExecuteError, Opened, program_required, not_opened,
  is_empty, command_label, open_output, close_output, process_of, capture, not_run, settle, execute,
  join_errors, is_deadline, no_output, output_at, open_error, error_of,
}

-- The child ended in time, and nothing went wrong.
pub record IsClean (o : Opened) (r : Ran) : Type 0 where
  pub in_time : r.run_context ≡ none
  pub run : r.run_error ≡ none
  pub cleanup : r.cleanup_error ≡ none
  pub close : close_output o r.close_error ≡ none

-- The command's own time ran out, not that of its caller.
pub record IsLate (r : Ran) : Type 0 where
  pub own : is_deadline r.run_context ≡ true
  pub callers : is_deadline r.context ≡ false

settle-IsLate :
    (label : Text) (o : Opened) (r : Ran) → ((settle label o r).0.timed_out ≡ true) ↔ IsLate r
unfolding settle
settle-IsLate label o r = elim (Option-cases r.run_context) [
  | inl e ↦ (λ h. absurd (ground (arith, e, h)), λ l. absurd (ground (arith, e, l.own)))
  | inr (x, e) ↦ elim (Bool-cases (is_deadline r.run_context && not (is_deadline r.context))) [
    | inl b ↦ (
      λ h. record { own = ground (arith, b); callers = ground (arith, b) },
      λ l. ground (arith, e, b, l.own, l.callers),
    )
    | inr b ↦ (
      λ h. absurd (ground (arith, e, b, h)),
      λ l. absurd (ground (arith, e, b, l.own, l.callers)),
    )
  ]
]

no_errors :
    (label : Text) (a b c : Option Text)
    → error_of (join_errors (a ∷ b ∷ c ∷ [])) label ≡ none
    → (a ≡ none) × (b ≡ none) × (c ≡ none)
no_errors label none none none h = (refl, refl, refl)
no_errors label none none (some z) h = cc
no_errors label none (some y) c h = cc
no_errors label (some x) b c h = cc

settle_in_time :
    (label : Text) (o : Opened) (r : Ran)
    → r.run_context ≡ none
    → (settle label o r).1
      ≡ error_of
          (join_errors (r.run_error ∷ r.cleanup_error ∷ close_output o r.close_error ∷ []))
          label
unfolding settle
settle_in_time label o r e = rw e refl

settle-IsClean : (label : Text) (o : Opened) (r : Ran) → ((settle label o r).1 ≡ none) ↔ IsClean o r
unfolding settle
settle-IsClean label o r = (
  λ h. elim (Option-cases r.run_context) [
    | inl e ↦
        let (run, cleanup, close) =
          no_errors label r.run_error r.cleanup_error (close_output o r.close_error)
            (sym (settle_in_time label o r e) ∙ h) in
        record { in_time = e; run = run; cleanup = cleanup; close = close }
    | inr (x, e) ↦
        absurd (elim (Bool-cases (is_deadline r.run_context && not (is_deadline r.context))) [
          | inl b ↦ ground (arith, e, b, h)
          | inr b ↦ ground (arith, e, b, h)
        ])
  ],
  λ c. settle_in_time label o r c.in_time ∙ rw (c.run, c.cleanup, c.close) refl,
)

-- There is no program, or the output cannot be opened.
abbrev pub IsRefused : Command → Opened → Type 0
IsRefused c o = (is_empty c.program ≡ true) ⊎ ((path : Text) × (e : Text) × (o ≡ open_error path e))

-- What is reported of a command whose output was opened, or was not.
abbrev pub IsReported : Host → Command → Opened → Execution → Type 0
IsReported h c o x =
    IsRefused c o × ((e : ExecuteError) × (x ≡ ((not_run, some e), none)))
    ⊎ ((x.1 ≡ some (process_of h c))
        × (x.0.0.stdout ≡ capture (h.run_process (process_of h c)).stdout)
        × (x.0.0.stderr ≡ capture (h.run_process (process_of h c)).stderr)
        × ((x.0.0.timed_out ≡ true) ↔ IsLate (h.run_process (process_of h c)))
        × ((x.0.1 ≡ none) ↔ IsClean o (h.run_process (process_of h c))))

settle_output :
    (label : Text) (o : Opened) (r : Ran)
    → ((settle label o r).0.stdout ≡ capture r.stdout)
      × ((settle label o r).0.stderr ≡ capture r.stderr)
unfolding settle
settle_output label o r = elim (Option-cases r.run_context) [
  | inl e ↦ rw e (refl, refl)
  | inr (x, e) ↦ elim (Bool-cases (is_deadline r.run_context && not (is_deadline r.context))) [
    | inl b ↦ (ground (arith, e, b), ground (arith, e, b))
    | inr b ↦ (ground (arith, e, b), ground (arith, e, b))
  ]
]

reported :
    (h : Host) (c : Command) (o : Opened)
    → IsReported h c o
        (settle (command_label c) o (h.run_process (process_of h c)), some (process_of h c))
reported h c o =
    let (out, err) = settle_output (command_label c) o (h.run_process (process_of h c)) in
    inr (
      refl,
      out,
      err,
      settle-IsLate (command_label c) o (h.run_process (process_of h c)),
      settle-IsClean (command_label c) o (h.run_process (process_of h c)),
    )

run_opened-IsReported : (h : Host) (c : Command) (o : Opened) → IsReported h c o (run_opened h c o)
unfolding run_opened
run_opened-IsReported h c no_output = reported h c no_output
run_opened-IsReported h c (output_at path) = reported h c (output_at path)
run_opened-IsReported h c (open_error path e) =
    inl (inr (path, e, refl), (not_opened (command_label c) path e, refl))

execute_program :
    (h : Host) (c : Command)
    → is_empty c.program ≡ false
    → execute h c ≡ run_opened h c (open_output h c)
unfolding execute
execute_program h c e = rw e

execute_no_program :
    (h : Host) (c : Command)
    → is_empty c.program ≡ true
    → execute h c ≡ ((not_run, some program_required), none)
unfolding execute
execute_no_program h c e = rw e

-- Nothing is started only if there is no program or its output cannot be opened; then there is an
-- error and the result is blank. Otherwise the process is started that the command and the merged
-- environment say, and its captured output is in the result, whatever became of it; the result says
-- that it timed out exactly if the command's own time ran out and not that of its caller, and there
-- is no error exactly if the child ended in time with no error of its run, its clean-up or its output.
pub execute-IsReported : (h : Host) (c : Command) → IsReported h c (open_output h c) (execute h c)
execute-IsReported h c = elim (Bool-cases (is_empty c.program)) [
  | inl e ↦ inl (inl e, (program_required, execute_no_program h c e))
  | inr e ↦ rw (execute_program h c e) (run_opened-IsReported h c (open_output h c))
]
