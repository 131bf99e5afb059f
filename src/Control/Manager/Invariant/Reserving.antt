-- ===== src/Control/Manager/Invariant/Reserving.antt =====
-- What a start of internal/control/manager.go hands out is fresh, so that launching it keeps the maps
-- in agreement.
use slipway.Common.{
  ℕ, zero, suc, ◌+◌, Text, text_eq_iff, ◌≡◌, ◌≢◌, refl, ap, ◌∙◌, Bool, true, false, none, some,
  List, [], ◌∷◌, map, All, All_mono, All_both, Pairwise, ok, ◌>>=◌, bind_ok, arith, get, has-get,
  get-put_ne,
}
use slipway.Control.Manager.Types.{RuntimeInstance, Manager}
use slipway.Control.Manager.Names.{
  Runes, Generator, Reserved, contains, is_taken, max_id_generation_attempts, available_id,
  valid_id, automatic_name,
}
use slipway.Control.Manager.Fresh.{available_name_total}
use slipway.Control.Manager.Preflight.{Candidate}
use slipway.Control.Manager.Start.{
  Request, Prepared, display_name, prepare, launch, launch_all, new_runtime,
}
use slipway.Control.Manager.Invariant.Defs.{IsSound}
use slipway.Control.Manager.Invariant.Candidates.{AreApart, IsUnheld}
use slipway.Control.Manager.Invariant.Launching.{launch-AreSound}

pub available_id-ok :
    (generate : Generator) (m : Manager) (r : Reserved) (left call : ℕ) (id : Text)
    → (available_id generate m r left call).0 ≡ ok id
    → (is_taken m r id ≡ false) × (valid_id id ≡ true)
unfolding available_id
available_id-ok generate m r zero call id h = cc
available_id-ok generate m r (suc left) call id h =
    ground (arith, available_id-ok generate m r left (call + 1) id)

-- A name and an id that are nobody's yet, and differ.
abbrev pub no_reserved : Reserved
no_reserved = record { names = []; ids = [] }

abbrev pub IsHandedOut : Manager → Reserved → Prepared → Type 0
IsHandedOut m r p =
    (is_taken m r p.name ≡ false)
    × (is_taken m r p.id ≡ false)
    × (p.name ≢ p.id)
    × (valid_id p.id ≡ true)

abbrev pub with_name : Text → Reserved → Reserved
with_name n r = record r { names = n ∷ r.names }

abbrev pub with_id : Text → Reserved → Reserved
with_id i r = record r { ids = i ∷ r.ids }

pub not_taken-with_name :
    (m : Manager) (r : Reserved) (n k : Text)
    → is_taken m (with_name n r) k ≡ false
    → (is_taken m r k ≡ false) × (n ≢ k)
unfolding is_taken contains
not_taken-with_name m r n k h = ground (arith, text_eq_iff n k)

pub not_taken-with_id :
    (m : Manager) (r : Reserved) (i k : Text)
    → is_taken m (with_id i r) k ≡ false
    → (is_taken m r k ≡ false) × (i ≢ k)
unfolding is_taken contains
not_taken-with_id m r i k h = ground (arith, text_eq_iff i k)

-- Names and ids of two instances have nothing in common.
abbrev pub OtherNames : Prepared → Prepared → Type 0
OtherNames p q = (p.name ≢ q.name) × (p.name ≢ q.id) × (p.id ≢ q.name) × (p.id ≢ q.id)

-- A name that was asked for is free; none was asked for behind the first instance.
abbrev pub IsAllowed : Manager → Reserved → Text → Type 0
IsAllowed m r [] = Unit {0}
IsAllowed m r (b ∷ name) = is_taken m r (b ∷ name) ≡ false

display_name-ok :
    (runes : Runes) (m : Manager) (r : Reserved) (explicit : Text) (c : Candidate)
    → IsAllowed m r explicit
    → (name : Text) × (display_name runes m r explicit c ≡ some name) × (is_taken m r name ≡ false)
display_name-ok runes m r [] c a = available_name_total m r (automatic_name runes c.config_path)
display_name-ok runes m r (b ∷ explicit) c a = (b ∷ explicit, refl, a)

prepare-head :
    (runes : Runes) (generate : Generator) (m : Manager) (r : Reserved) (call : ℕ) (explicit : Text)
    (c : Candidate) (cs : List Candidate) (ps : List Prepared) (name : Text)
    → display_name runes m r explicit c ≡ some name
    → prepare runes generate m r call explicit (c ∷ cs) ≡ ok ps
    → (id : Text) × (call' : ℕ) × (rest : List Prepared) × ((available_id generate m
          (with_name name r)
          max_id_generation_attempts
          call).0
        ≡ ok id)
      × (prepare runes generate m (with_id id (with_name name r)) call' [] cs ≡ ok rest)
      × (record { candidate = c; id = id; name = name } ∷ rest ≡ ps)
unfolding prepare
prepare-head runes generate m r call explicit c cs ps name e h =
    let made = available_id generate m (with_name name r) max_id_generation_attempts call in
    let h' : (made.0 >>= λ id.
    prepare runes generate m (with_id id (with_name name r)) made.1 [] cs >>= λ rest.
    ok (record { candidate = c; id = id; name = name } ∷ rest))
        ≡ ok ps =
      rw (e, prepare) at h in
    let (id, e0, h0) = bind_ok made.0 _ h' in
    let (rest, e1, h1) =
      bind_ok (prepare runes generate m (with_id id (with_name name r)) made.1 [] cs) _ h0 in
    (id, made.1, rest, e0, e1, cc)

-- All that `prepare` hands out.
pub record AreHandedOut (m : Manager) (r : Reserved) (cs : List Candidate) (ps : List Prepared)
    : Type 0 where
  pub handed_out : All (IsHandedOut m r) ps
  pub different : Pairwise OtherNames ps
  pub in_order : map (λ (p : Prepared). p.candidate) ps ≡ cs

IsHandedOut-earlier :
    (m : Manager) (r : Reserved) (p q : Prepared)
    → IsHandedOut m (with_id p.id (with_name p.name r)) q
    → IsHandedOut m r q × OtherNames p q
IsHandedOut-earlier m r p q (name_free, id_free, differ, valid) =
    let (name_free', id_ne_name) = not_taken-with_id m (with_name p.name r) p.id q.name name_free in
    let (name_free'', name_ne_name) = not_taken-with_name m r p.name q.name name_free' in
    let (id_free', id_ne_id) = not_taken-with_id m (with_name p.name r) p.id q.id id_free in
    let (id_free'', name_ne_id) = not_taken-with_name m r p.name q.id id_free' in
    ((name_free'', id_free'', differ, valid), (name_ne_name, name_ne_id, id_ne_name, id_ne_id))

pub prepare-AreHandedOut :
    (runes : Runes) (generate : Generator) (m : Manager) (r : Reserved) (call : ℕ) (explicit : Text)
    (cs : List Candidate) (ps : List Prepared)
    → IsAllowed m r explicit
    → prepare runes generate m r call explicit cs ≡ ok ps
    → AreHandedOut m r cs ps
unfolding prepare
prepare-AreHandedOut runes generate m r call explicit [] ps a h =
    let e : [] ≡ ps = cc in rw (← e) (record { handed_out = tt; different = tt; in_order = refl })
prepare-AreHandedOut runes generate m r call explicit (c ∷ cs) ps a h =
    let (name, named, free) = display_name-ok runes m r explicit c a in
    let (id, call', rest, made, later, e) =
      prepare-head runes generate m r call explicit c cs ps name named h in
    let p : Prepared = record { candidate = c; id = id; name = name } in
    let v =
      prepare-AreHandedOut runes generate m (with_id id (with_name name r)) call' [] cs rest tt
        later in
    let (id_free, valid) =
      available_id-ok generate m (with_name name r) max_id_generation_attempts call id made in
    let (id_free', differ) = not_taken-with_name m r name id id_free in
    let both =
      All_mono (IsHandedOut m (with_id id (with_name name r)))
        (λ q. IsHandedOut m r q × OtherNames p q) (IsHandedOut-earlier m r p) rest v.handed_out in
    rw (← e) (record {
      handed_out =
          ((free, id_free', differ, valid), All_mono _ (IsHandedOut m r) (λ q b. b.0) rest both);
      different = (All_mono _ (OtherNames p) (λ q b. b.1) rest both, v.different);
      in_order = ap (λ (ds : List Candidate). c ∷ ds) v.in_order;
    })

-- Nothing stands in the way of a prepared instance.
pub record IsReady (m : Manager) (p : Prepared) : Type 0 where
  pub new_id : get p.id m.instances ≡ none
  pub id_no_name : get p.id m.names ≡ none
  pub new_name : get p.name m.names ≡ none
  pub name_no_id : get p.name m.instances ≡ none
  pub name_ne_id : p.name ≢ p.id
  pub free_config : get p.candidate.config_identity m.active_configs ≡ none
  pub free_database : get p.candidate.database_path m.active_databases ≡ none

-- Two prepared instances do not get into each other's way.
abbrev pub CanFollow : Prepared → Prepared → Type 0
CanFollow p q = OtherNames p q × AreApart p.candidate q.candidate

launch-IsReady :
    (m : Manager) (p q : Prepared) (r : RuntimeInstance)
    → CanFollow p q
    → IsReady m q
    → IsReady (launch m p r) q
unfolding launch
launch-IsReady m p q r ((name_name, name_id, id_name, id_id), (config, database)) v = record {
  new_id = get-put_ne p.id q.id r m.instances id_id ∙ v.new_id;
  id_no_name = get-put_ne p.name q.id p.id m.names name_id ∙ v.id_no_name;
  new_name = get-put_ne p.name q.name p.id m.names name_name ∙ v.new_name;
  name_no_id = get-put_ne p.id q.name r m.instances id_name ∙ v.name_no_id;
  name_ne_id = v.name_ne_id;
  free_config =
      get-put_ne p.candidate.config_identity q.candidate.config_identity p.id m.active_configs
        config
      ∙ v.free_config;
  free_database =
      get-put_ne p.candidate.database_path q.candidate.database_path p.id m.active_databases
        database
      ∙ v.free_database;
}

launch-IsSound :
    (m : Manager) (p : Prepared) (now : ℕ) (attach remove : Bool)
    → IsReady m p
    → IsSound m
    → IsSound (launch m p (new_runtime m p now attach remove))
unfolding launch
launch-IsSound m p now attach remove v s =
    launch-AreSound p.id (new_runtime m p now attach remove)
      (record {
        new_id = v.new_id;
        id_no_name = v.id_no_name;
        new_name = v.new_name;
        name_no_id = v.name_no_id;
        name_ne_id = v.name_ne_id;
        has_id = refl;
        live = refl;
        free_config = v.free_config;
        free_database = v.free_database;
      })
      s

pub launch_all-IsSound :
    (q : Request) (i : ℕ) (ps : List Prepared) (m : Manager)
    → All (IsReady m) ps
    → Pairwise CanFollow ps
    → IsSound m
    → IsSound (launch_all q i ps m)
unfolding launch_all
launch_all-IsSound q i [] m ready follow s = s
launch_all-IsSound q i (p ∷ ps) m ready follow s =
    let r = new_runtime m p (q.clock i) q.attach q.remove_on_exit in
    launch_all-IsSound q (i + 1) ps (launch m p r)
      (All_mono (λ x. CanFollow p x × IsReady m x) (IsReady (launch m p r))
        (λ x b. launch-IsReady m p x r b.0 b.1) ps
        (All_both (CanFollow p) (IsReady m) ps follow.0 ready.1))
      follow.1 (launch-IsSound m p (q.clock i) q.attach q.remove_on_exit ready.0 s)

pub not_taken-get :
    (m : Manager) (r : Reserved) (k : Text)
    → is_taken m r k ≡ false
    → (get k m.names ≡ none) × (get k m.instances ≡ none)
unfolding is_taken
not_taken-get m r k h = ground (arith, has-get k m.names, has-get k m.instances)

pub All-candidates :
    (P : Candidate → Type 0) (ps : List Prepared)
    → All P (map (λ (p : Prepared). p.candidate) ps)
    → All (λ p. P p.candidate) ps
All-candidates P [] h = tt
All-candidates P (p ∷ ps) h = (h.0, All-candidates P ps h.1)

pub Pairwise-candidates :
    (ps : List Prepared)
    → Pairwise OtherNames ps
    → Pairwise AreApart (map (λ (p : Prepared). p.candidate) ps)
    → Pairwise CanFollow ps
Pairwise-candidates [] h k = tt
Pairwise-candidates (p ∷ ps) h k = (
  All_both (OtherNames p) (λ q. AreApart p.candidate q.candidate) ps h.0
      (All-candidates (AreApart p.candidate) ps k.0),
  Pairwise-candidates ps h.1 k.1,
)

pub IsHandedOut-IsReady :
    (m : Manager) (r : Reserved) (p : Prepared)
    → IsHandedOut m r p × IsUnheld m.active_configs m.active_databases p.candidate
    → IsReady m p
IsHandedOut-IsReady m r p ((name_free, id_free, differ, valid), (config, database)) =
    let (no_name, no_instance) = not_taken-get m r p.name name_free in
    let (no_name', no_instance') = not_taken-get m r p.id id_free in
    record {
      new_id = no_instance';
      id_no_name = no_name';
      new_name = no_name;
      name_no_id = no_instance;
      name_ne_id = differ;
      free_config = config;
      free_database = database;
    }
