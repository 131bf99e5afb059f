-- ===== src/Control/Manager/Invariant/Stops.antt =====
-- `Stop` and `Shutdown` of internal/control/manager.go keep the maps of the supervisor in agreement.
use slipway.Common.{
  Text, ◌≡◌, refl, sym, ap, ◌∙◌, Option, some, [], ◌∷◌, Dict, get, get-put_self, Result,
  Result-cases, ok, err, arith, inl, inr, if_both, Option-cases, map_values, map_values-IsMap,
  get-map_values, get-map_values-eq-some, get-map_values-none,
}
use slipway.Control.Manager.Types.{RuntimeInstance, Registry, Manager, Error, is_live, is_closing}
use slipway.Control.Manager.Names.{resolve}
use slipway.Control.Manager.Lifecycle.{saved}
use slipway.Control.Manager.Stopping.{
  Stopped, told, tell, with_runtime, stop_runtime, unwanted, stop_saved, stop_registered, stop,
  begin_shutdown, end_shutdown,
}
use slipway.Control.Manager.Selection.{resolve-Selects}
use slipway.Control.Manager.Invariant.Defs.{AreSound, IsSound, IsSameInstance}
use slipway.Control.Manager.Invariant.Changes.{change-AreSound}

told-IsSame : (r : RuntimeInstance) → IsSameInstance r (told r) × (is_live (told r) ≡ is_live r)
told-IsSame r = ground arith

abbrev LeavesSound : Result Error Stopped × Manager → Type 0
LeavesSound x = IsSound x.1

stop_runtime-IsSound :
    (r : RuntimeInstance) (m : Manager)
    → get r.view.id m.instances ≡ some r
    → IsSound m
    → IsSound (stop_runtime r m).1
stop_runtime-IsSound r m at s =
    if_both LeavesSound (is_live r) _ _
      (change-AreSound s r.view.id r (told r) at (told-IsSame r).0 (told-IsSame r).1) s

stop_saved-IsSound :
    (r : RuntimeInstance) (m : Manager) (saving : Result Text Registry)
    → get r.view.id m.instances ≡ some r
    → IsSound m
    → IsSound (stop_saved r m saving).1
stop_saved-IsSound r m (err e) at s = s
stop_saved-IsSound r m (ok h) at s =
    let m' = with_runtime (unwanted r) (record m { registry = some h }) in
    let s' : IsSound m' =
      change-AreSound s r.view.id r (unwanted r) at
        (record { same_id = refl; same_name = refl; same_identity = refl; same_database = refl })
        refl in
    if_both LeavesSound (is_live r) _ _
      (stop_runtime-IsSound (unwanted r) m' (get-put_self r.view.id (unwanted r) m.instances) s') s'

stop_registered-IsSound :
    (refused : Option Text) (r : RuntimeInstance) (g : Registry) (m : Manager)
    → get r.view.id m.instances ≡ some r
    → IsSound m
    → IsSound (stop_registered refused r g m).1
stop_registered-IsSound refused r g m at s =
    if_both LeavesSound (is_closing m) _ _ s
      (stop_saved-IsSound r m (saved refused ((unwanted r).view ∷ []) g) at s)

pub stop-IsSound :
    (refused : Option Text) (selector : Text) (m : Manager)
    → IsSound m
    → IsSound (stop refused selector m).1
unfolding stop
stop-IsSound refused selector m s = elim (Result-cases (resolve m selector)) [
  | inr (e, h) ↦ rw (h, stop) s
  | inl (r, h) ↦
      let (ne, at, how) = (resolve-Selects m selector r s).0 h in
      elim (Option-cases m.registry) [
        | inl e ↦ rw (h, e, stop) (stop_runtime-IsSound r m at s)
        | inr (g, e) ↦ rw (h, e, stop) (stop_registered-IsSound refused r g m at s)
      ]
]

-- A change of every instance that the other maps do not see.
map-AreSound :
    {instances : Dict RuntimeInstance} {names configs databases : Dict Text}
    (f : RuntimeInstance → RuntimeInstance)
    → ((r : RuntimeInstance) → IsSameInstance r (f r) × (is_live (f r) ≡ is_live r))
    → AreSound instances names configs databases
    → AreSound (map_values f instances) names configs databases
map-AreSound {instances} {names} {configs} {databases} f same s = record {
  unique = map_values-IsMap f instances s.unique;
  keyed = λ k q h.
      let (r, at, e) = get-map_values-eq-some f k instances h in
      rw e ((same r).0.same_id ∙ s.keyed k r at);
  named = λ k q h.
      let (r, at, e) = get-map_values-eq-some f k instances h in
      rw e (ap (λ n. get n names) (same r).0.same_name ∙ s.named k r at);
  owned = λ n k h.
      let (r, at, e) = s.owned n k h in
      (f r, get-map_values f k instances at, (same r).0.same_name ∙ e);
  apart = λ n k h. get-map_values-none f n instances (s.apart n k h);
  holds_config = λ k q h active.
      let (r, at, e) = get-map_values-eq-some f k instances h in
      rw e (
        ap (λ p. get p configs) (same r).0.same_identity
        ∙ s.holds_config k r at (sym (same r).1 ∙ (rw e at active)));
  holds_database = λ k q h active.
      let (r, at, e) = get-map_values-eq-some f k instances h in
      rw e (
        ap (λ p. get p databases) (same r).0.same_database
        ∙ s.holds_database k r at (sym (same r).1 ∙ (rw e at active)));
  config_held = λ p k h.
      let (r, at, held) = s.config_held p k h in
      (
        f r,
        get-map_values f k instances at,
        ((same r).1 ∙ held.0, (same r).0.same_identity ∙ held.1),
      );
  database_held = λ p k h.
      let (r, at, held) = s.database_held p k h in
      (
        f r,
        get-map_values f k instances at,
        ((same r).1 ∙ held.0, (same r).0.same_database ∙ held.1),
      );
}

tell-IsSame : (r : RuntimeInstance) → IsSameInstance r (tell r) × (is_live (tell r) ≡ is_live r)
unfolding tell
tell-IsSame r = ground arith

pub begin_shutdown-IsSound : (m : Manager) → IsSound m → IsSound (begin_shutdown m)
unfolding begin_shutdown
begin_shutdown-IsSound m s = map-AreSound tell tell-IsSame s

pub end_shutdown-IsSound : (m : Manager) → IsSound m → IsSound (end_shutdown m).1
unfolding end_shutdown
end_shutdown-IsSound m s = elim (Option-cases m.registry) [
  | inl e ↦ rw (e, end_shutdown) s
  | inr (g, e) ↦ rw (e, end_shutdown) s
]
