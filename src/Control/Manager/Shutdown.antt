-- ===== src/Control/Manager/Shutdown.antt =====
-- internal/control/manager.go: what `Shutdown` settles for all that comes after it.
use slipway.Common.{
  ℕ, Text, ◌≡◌, ◌≢◌, refl, sym, ap, ◌∙◌, Bool, true, false, Option, none, some, List, [], ◌∷◌, get,
  put, get-delete-eq-some, get-map_values-eq-some, Result, Result-cases, ok, err, Option-cases, inl,
  inr, arith, if◌then◌else◌, if_both,
}
use slipway.Control.Manager.Types.{
  Instance, is_running, RuntimeInstance, Manager, Error, is_live, is_closing,
}
use slipway.Control.Manager.Names.{resolve}
use slipway.Control.Manager.Lifecycle.{
  Outcome, forget, forget_all, excess, trim, persist, ended, final_view, finish_of, finish,
}
use slipway.Control.Manager.Stopping.{
  Stopped, told, tell, with_runtime, stop_runtime, stop, begin_shutdown, end_shutdown,
}
use slipway.Control.Manager.Every.{Every, put-Every, trim-Every}
use slipway.Control.Manager.Start.{Request, start_many}
use slipway.Control.Manager.Selection.{resolve-Selects}
use slipway.Control.Manager.Invariant.Defs.{IsSound}
use slipway.Control.Manager.Invariant.Starting.{Started, start_many-Started}
use slipway.Control.Manager.Invariant.Stops.{begin_shutdown-IsSound}
use slipway.Control.Manager.Invariant.Finishing.{Entry, persist_maps, trim-cases}
use slipway.Control.Manager.System.{
  Op, starts, stops, finishes, begins_shutdown, ends_shutdown, parent_ends, perform,
  perform-IsSound, run,
}

-- An instance that was there before, and does not run on.
abbrev IsWindingDown : Manager → Text → RuntimeInstance → Type 0
IsWindingDown start k r = (is_running r.view.state ≡ false) × (get k start.instances ≢ none)

-- What holds from the beginning of a shutdown on.
record IsClosed (start m : Manager) : Type 0 where
  refuses : m.shutting_down ≡ true
  winding : Every (IsWindingDown start) m.instances

ended_not_running :
    (m : Manager) (r : RuntimeInstance) (outcome : Outcome) (now : ℕ)
    → is_running (ended m r outcome now).view.state ≡ false
unfolding final_view
ended_not_running m r outcome now = ground arith

persist-shutting_down :
    (refused : Option Text) (v : Instance) (m : Manager)
    → (persist refused v m).shutting_down ≡ m.shutting_down
unfolding persist
persist-shutting_down refused v m = ground arith

forget_all-shutting_down :
    (es : List Entry) (m : Manager) → (forget_all es m).shutting_down ≡ m.shutting_down
unfolding forget_all forget
forget_all-shutting_down [] m = refl
forget_all-shutting_down ((id, r) ∷ es) m = forget_all-shutting_down es (forget id r m)

forget-IsClosed :
    (start : Manager) (id : Text) (r : RuntimeInstance) (m : Manager)
    → IsClosed start m
    → IsClosed start (forget id r m)
unfolding forget
forget-IsClosed start id r m c = record {
  refuses = c.refuses;
  winding = λ k q found. c.winding k q (get-delete-eq-some id k m.instances found).1;
}

trim-IsClosed :
    (start : Manager) (current : Text) (m : Manager)
    → IsClosed start m
    → IsClosed start (trim current m)
trim-IsClosed start current m c = record {
  refuses =
      trim-cases (λ m'. m'.shutting_down ≡ true) current m c.refuses
        (forget_all-shutting_down (excess current m) m ∙ c.refuses);
  winding = trim-Every (IsWindingDown start) current m c.winding;
}

finish_of-IsClosed :
    (start : Manager) (refused : Option Text) (outcome : Outcome) (now : ℕ) (id : Text)
    (r : RuntimeInstance) (m : Manager)
    → get id m.instances ≡ some r
    → IsClosed start m
    → IsClosed start (finish_of refused outcome now id r m)
unfolding finish_of
finish_of-IsClosed start refused outcome now id r m at c =
    let r' = ended m r outcome now in
    let published = record m { instances = put id r' m.instances } in
    let (is, ns, cs, ds) = persist_maps refused r'.view published in
    let all =
      put-Every (IsWindingDown start) id r' m.instances
        (ended_not_running m r outcome now, (c.winding id r at).1) c.winding in
    let freed : IsClosed start _ = record {
      refuses = persist-shutting_down refused r'.view published ∙ c.refuses;
      winding = rw is all;
    } in
    if_both (IsClosed start) r.remove_on_exit _ _ (forget-IsClosed start id r' _ freed)
      (trim-IsClosed start id _ freed)

finish-IsClosed :
    (start : Manager) (refused : Option Text) (outcome : Outcome) (now : ℕ) (id : Text)
    (m : Manager)
    → IsClosed start m
    → IsClosed start (finish refused outcome now id m)
unfolding finish
finish-IsClosed start refused outcome now id m c = elim (Option-cases (get id m.instances)) [
  | inl e ↦ rw (e, finish) c
  | inr (r, e) ↦
      rw (e, finish)
        (if_both (IsClosed start) (is_live r) _ _
          (finish_of-IsClosed start refused outcome now id r m e c) c)
]

with_runtime-IsClosed :
    (start : Manager) (r r' : RuntimeInstance) (m : Manager)
    → get r.view.id m.instances ≡ some r
    → r'.view.id ≡ r.view.id
    → is_running r'.view.state ≡ false
    → IsClosed start m
    → IsClosed start (with_runtime r' m)
with_runtime-IsClosed start r r' m at same stopped c = record {
  refuses = c.refuses;
  winding =
      put-Every (IsWindingDown start) r'.view.id r' m.instances
        (
          stopped,
          λ none_there.
              (c.winding r.view.id r at).1
                (ap (λ i. get i start.instances) (sym same) ∙ none_there),
        )
        c.winding;
}

told_not_running : (r : RuntimeInstance) → is_running (told r).view.state ≡ false
told_not_running r = ground arith

abbrev LeavesClosed : Manager → Result Error Stopped × Manager → Type 0
LeavesClosed start x = IsClosed start x.1

stop_runtime-IsClosed :
    (start : Manager) (r : RuntimeInstance) (m : Manager)
    → get r.view.id m.instances ≡ some r
    → IsClosed start m
    → IsClosed start (stop_runtime r m).1
stop_runtime-IsClosed start r m at c =
    if_both (LeavesClosed start) (is_live r) _ _
      (with_runtime-IsClosed start r (told r) m at refl (told_not_running r) c) c

closing : (m : Manager) → m.shutting_down ≡ true → is_closing m ≡ true
closing m h = ground (arith, h)

taken {ℓ κ} :
    {A : Type ℓ} (P : A → Type κ) (b : Bool) (x y : A) → b ≡ true → P x → P (if b then x else y)
taken P true x y h p = p
taken P false x y h p = cc

-- A closed supervisor with a registry refuses to stop anything.
stop-IsClosed :
    (start : Manager) (refused : Option Text) (selector : Text) (m : Manager)
    → IsSound m
    → IsClosed start m
    → IsClosed start (stop refused selector m).1
unfolding stop
stop-IsClosed start refused selector m s c = elim (Result-cases (resolve m selector)) [
  | inr (e, h) ↦ rw (h, stop) c
  | inl (r, h) ↦
      let (ne, at, how) = (resolve-Selects m selector r s).0 h in
      elim (Option-cases m.registry) [
        | inl e ↦ rw (h, e, stop) (stop_runtime-IsClosed start r m at c)
        | inr (g, e) ↦
            rw (h, e, stop) (taken (LeavesClosed start) (is_closing m) _ _ (closing m c.refuses) c)
      ]
]

tell_not_running : (r : RuntimeInstance) → is_running (tell r).view.state ≡ false
unfolding tell
tell_not_running r = ground arith

begin_shutdown-winding :
    (start m : Manager)
    → ((k : Text) (r : RuntimeInstance) → get k m.instances ≡ some r → get k start.instances ≢ none)
    → IsClosed start (begin_shutdown m)
unfolding begin_shutdown
begin_shutdown-winding start m there = record {
  refuses = refl;
  winding = λ k q found.
      let (r, at, e) = get-map_values-eq-some tell k m.instances found in
      (ap (λ (x : RuntimeInstance). is_running x.view.state) e ∙ tell_not_running r, there k r at);
}

refused_start :
    (q : Request) (m : Manager) (x : Result Error (List Instance) × Manager)
    → m.shutting_down ≡ true
    → Started q m x
    → x.1 ≡ m
refused_start q m (err e, m') closed h = h
refused_start q m (ok views, m') closed (cs, ps, v, e, f) =
    absurd (ground (arith, closed, v.accepting))

end_shutdown-IsClosed : (start m : Manager) → IsClosed start m → IsClosed start (end_shutdown m).1
unfolding end_shutdown
end_shutdown-IsClosed start m c = elim (Option-cases m.registry) [
  | inl e ↦ rw (e, end_shutdown) c
  | inr (g, e) ↦ rw (e, end_shutdown) (record { refuses = c.refuses; winding = c.winding })
]

perform-IsClosed :
    (start : Manager) (op : Op) (m : Manager)
    → IsSound m
    → IsClosed start m
    → IsClosed start (perform op m)
perform-IsClosed start (starts q) m s c =
    rw (refused_start q m (start_many q m) c.refuses (start_many-Started q m)) c
perform-IsClosed start (stops refused selector) m s c = stop-IsClosed start refused selector m s c
perform-IsClosed start (finishes refused outcome now id) m s c =
    finish-IsClosed start refused outcome now id m c
perform-IsClosed start begins_shutdown m s c =
    begin_shutdown-winding start m (λ k r at. (c.winding k r at).1)
perform-IsClosed start ends_shutdown m s c = end_shutdown-IsClosed start m c
perform-IsClosed start parent_ends m s c = record { refuses = c.refuses; winding = c.winding }

run-IsClosed :
    (start : Manager) (ops : List Op) (m : Manager)
    → IsSound m
    → IsClosed start m
    → IsClosed start (run ops m)
unfolding run
run-IsClosed start [] m s c = c
run-IsClosed start (op ∷ ops) m s c =
    run-IsClosed start ops (perform op m) (perform-IsSound op m s) (perform-IsClosed start op m s c)

-- From the beginning of a shutdown on, whatever is done to the supervisor: it goes on refusing
-- starts, no instance is in the running state, and every instance that is there was there before.
pub shutdown_is_final :
    (m : Manager) (ops : List Op)
    → IsSound m
    → let m' = run ops (begin_shutdown m) in
      (m'.shutting_down ≡ true)
      × ((k : Text) (r : RuntimeInstance)
          → get k m'.instances ≡ some r
          → (is_running r.view.state ≡ false) × (get k m.instances ≢ none))
shutdown_is_final m ops s =
    let c =
      run-IsClosed m ops (begin_shutdown m) (begin_shutdown-IsSound m s)
        (begin_shutdown-winding m m (λ k r at gone. cc)) in
    (c.refuses, c.winding)
