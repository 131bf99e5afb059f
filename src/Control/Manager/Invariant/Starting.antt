-- ===== src/Control/Manager/Invariant/Starting.antt =====
-- `startManyContext` of internal/control/manager.go: a start that fails changes nothing; one that
-- succeeds has made sure of all that its instances need.
use slipway.Common.{
  Text, text_eq, ◌≡◌, refl, Bool, true, false, List, [], ◌∷◌, All, All_both, All_mono, Pairwise,
  Result, ok, err, bind_ok, arith, has, if◌then◌else◌, map,
}
use slipway.Control.Manager.Types.{Instance, Manager, Error, is_closing, shutting_down}
use slipway.Control.Manager.Names.{contains, is_taken}
use slipway.Control.Manager.Preflight.{Candidate, check, refuse, entered, loops, locked, launches}
use slipway.Control.Manager.Databases.{validate_active}
use slipway.Control.Manager.Start.{
  Request, Prepared, prepare, check_name, check_arguments, preflight, known_queues, launch_all,
  attempt, conclude, reserve, start_many, views_of,
}
use slipway.Control.Manager.Invariant.Defs.{IsSound}
use slipway.Control.Manager.Invariant.Candidates.{
  IsUnheld, AreApart, validate_active-IsUnheld, preflight-AreApart,
}
use slipway.Control.Manager.Invariant.Accepting.{
  AreCandidatesOf, IsUnaliased, validate_active-AreUnaliased, preflight-AreCandidatesOf,
}
use slipway.Control.Manager.Invariant.Reserving.{
  IsAllowed, IsHandedOut, prepare-AreHandedOut, IsReady, CanFollow, IsHandedOut-IsReady,
  Pairwise-candidates, All-candidates, launch_all-IsSound, no_reserved,
}

check_name-free :
    (m : Manager) (n : Text) → check_name m n ≡ ok tt → is_taken m no_reserved n ≡ false
unfolding check_name is_taken has contains
check_name-free m n h = ground arith

check_name-IsAllowed :
    (m : Manager) (name : Text)
    → (if text_eq name [] then ok tt else check_name m name) ≡ ok tt
    → IsAllowed m no_reserved name
unfolding text_eq
check_name-IsAllowed m [] h = tt
check_name-IsAllowed m (b ∷ name) h = check_name-free m (b ∷ name) h

reserve-ok :
    (q : Request) (m : Manager) (cs : List Candidate) (ps : List Prepared)
    → reserve q m cs ≡ ok ps
    → (validate_active q.files_at_gate q.context cs m.active_configs m.active_databases ≡ ok tt)
      × ((if text_eq q.name [] then ok tt else check_name m q.name) ≡ ok tt)
      × (prepare q.runes q.generate m no_reserved 0 q.name cs ≡ ok ps)
      × (is_closing m ≡ false)
unfolding reserve
reserve-ok q m cs ps h =
    let (u, looped, h0) = bind_ok (check q.context loops) _ h in
    let (v, open_for, h1) = bind_ok (refuse (is_closing m) shutting_down) _ h0 in
    let (w, unheld, h2) =
      bind_ok (validate_active q.files_at_gate q.context cs m.active_configs m.active_databases) _
        h1 in
    let (x, still, h3) = bind_ok (check q.context locked) _ h2 in
    let (y, named, h4) = bind_ok (if text_eq q.name [] then ok tt else check_name m q.name) _ h3 in
    let (made, prepared, h5) =
      bind_ok (prepare q.runes q.generate m no_reserved 0 q.name cs) _ h4 in
    let (z, launched, h6) = bind_ok (check q.context launches) _ h5 in
    let e : made ≡ ps = cc in
    (unheld, named, rw (← e) prepared, not_refused (is_closing m) open_for)
  where
    not_refused : (b : Bool) → refuse b shutting_down ≡ ok tt → b ≡ false
    not_refused true h = cc
    not_refused false h = refl

-- What a start that succeeds has found: a candidate for each path, and an instance ready for each.
pub record IsPrepared (q : Request) (m : Manager) (cs : List Candidate) (ps : List Prepared)
    : Type 0 where
  pub of_paths : AreCandidatesOf q.files q.paths cs
  pub apart : Pairwise AreApart cs
  pub unaliased : All (IsUnaliased q.files_at_gate q.context m.active_configs m.active_databases) cs
  pub in_order : map (λ (p : Prepared). p.candidate) ps ≡ cs
  pub ready : All (IsReady m) ps
  pub follow : Pairwise CanFollow ps
  pub accepting : is_closing m ≡ false

reserve-IsPrepared :
    (q : Request) (m : Manager) (cs : List Candidate) (ps : List Prepared)
    → preflight q (known_queues m) ≡ ok cs
    → reserve q m cs ≡ ok ps
    → IsPrepared q m cs ps
reserve-IsPrepared q m cs ps found h =
    let (unheld, named, prepared, accepting) = reserve-ok q m cs ps h in
    let v =
      prepare-AreHandedOut q.runes q.generate m no_reserved 0 q.name cs ps
        (check_name-IsAllowed m q.name named) prepared in
    let free = All-candidates (IsUnheld m.active_configs m.active_databases) ps (
      rw v.in_order (
        validate_active-IsUnheld q.files_at_gate q.context cs m.active_configs m.active_databases
          unheld)) in
    record {
      of_paths = preflight-AreCandidatesOf q (known_queues m) cs found;
      apart = preflight-AreApart q (known_queues m) cs found;
      unaliased =
          validate_active-AreUnaliased q.files_at_gate q.context cs m.active_configs
            m.active_databases unheld;
      in_order = v.in_order;
      ready = All_mono _ (IsReady m) (IsHandedOut-IsReady m no_reserved) ps (
          All_both (IsHandedOut m no_reserved)
            (λ p. IsUnheld m.active_configs m.active_databases p.candidate) ps v.handed_out free);
      follow =
          Pairwise-candidates ps v.different
            (rw v.in_order (preflight-AreApart q (known_queues m) cs found));
      accepting = accepting;
    }

-- The two ways in which a start ends.
abbrev pub Started : Request → Manager → Result Error (List Instance) × Manager → Type 0
Started q m (err e, m') = m' ≡ m
Started q m (ok views, m') =
    (cs : List Candidate) × (ps : List Prepared) × IsPrepared q m cs ps
    × (views ≡ views_of q 0 ps)
    × (m' ≡ launch_all q 0 ps m)

attempt-IsPrepared :
    (q : Request) (m : Manager) (ps : List Prepared)
    → attempt q m ≡ ok ps
    → (cs : List Candidate) × IsPrepared q m cs ps
unfolding attempt
attempt-IsPrepared q m ps h =
    let (u, started, h0) = bind_ok (check q.context entered) _ h in
    let (v, open_for, h1) = bind_ok (refuse (is_closing m) shutting_down) _ h0 in
    let (w, arguments, h2) = bind_ok (check_arguments q) _ h1 in
    let (cs, found, h3) = bind_ok (preflight q (known_queues m)) _ h2 in
    (cs, reserve-IsPrepared q m cs ps found h3)

conclude-Started :
    (q : Request) (m : Manager) (r : Result Error (List Prepared))
    → attempt q m ≡ r
    → Started q m (conclude q m r)
conclude-Started q m (err e) h = refl
conclude-Started q m (ok ps) h =
    let (cs, prepared) = attempt-IsPrepared q m ps h in (cs, ps, prepared, refl, refl)

pub start_many-Started : (q : Request) (m : Manager) → Started q m (start_many q m)
unfolding start_many
start_many-Started q m = conclude-Started q m (attempt q m) refl

conclude-IsSound :
    (q : Request) (m : Manager) (r : Result Error (List Prepared))
    → attempt q m ≡ r
    → IsSound m
    → IsSound (conclude q m r).1
conclude-IsSound q m (err e) h s = s
conclude-IsSound q m (ok ps) h s =
    let (cs, v) = attempt-IsPrepared q m ps h in launch_all-IsSound q 0 ps m v.ready v.follow s

pub start_many-IsSound : (q : Request) (m : Manager) → IsSound m → IsSound (start_many q m).1
unfolding start_many
start_many-IsSound q m s = conclude-IsSound q m (attempt q m) refl s
