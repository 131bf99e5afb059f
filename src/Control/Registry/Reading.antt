-- ===== src/Control/Registry/Reading.antt =====
-- What the first section of `startRegistered` of internal/control/registered.go finds out: no two
-- configurations of a start are one, and each is that of the instance that has it.
use mathlib.Core.Path.{subst}
use slipway.Common.{
  ◌+◌, Text, text_eq, ◌≡◌, ◌≢◌, refl, sym, ap, ◌∙◌, Bool, true, false, Option, Option-cases, none,
  some, List, [], ◌∷◌, ◌++◌, length, length-append, Dict, get, put, get-put, get-put_self,
  get-put-eq-some, put-IsMap, inl, inr, HasEntry, IsMap, All, All_mono, All-append, All-get,
  entries_found, Pairwise, ok, bind_ok, ok_injective, map_err, map_err-eq-ok, arith, Bool-cases,
}
use slipway.Control.Manager.Types.{Config, RuntimeInstance, Error, duplicate_config, failed_at}
use slipway.Control.Manager.Preflight.{
  Files, reads, check, refuse, absolute_path, canonical_path, loaded_config,
}
use slipway.Control.Registry.Saving.{
  RegisteredStart, Item, identities_of, not_twice, existing, item_of, load_item, load_items,
}

-- No path is found to differ from itself.
abbrev pub IsReflexive : Files → Type 0
IsReflexive files = (p : Text) → files.equivalent p p ≢ ok false

-- The ids stand by the configurations of their instances.
module _ (instances : Dict RuntimeInstance) where
  pub identities_of-IsMap :
      (es : Dict RuntimeInstance) (known : Dict Text) → IsMap known → IsMap (identities_of es known)
  unfolding identities_of
  identities_of-IsMap [] known h = h
  identities_of-IsMap ((id, r) ∷ es) known h =
      identities_of-IsMap es (put r.config_identity id known)
        (put-IsMap r.config_identity id known h)

  abbrev pub Identified : Text → Text → Type 0
  Identified i id = HasEntry (λ r. r.config_identity ≡ i) id instances

  pub identities_of_sound :
      (es : Dict RuntimeInstance) (known : Dict Text)
      → All (λ e. get e.0 instances ≡ some e.1) es
      → ((i id : Text) → get i known ≡ some id → Identified i id)
      → (i id : Text) → get i (identities_of es known) ≡ some id
      → Identified i id
  unfolding identities_of
  identities_of_sound [] known at h = h
  identities_of_sound ((k, r) ∷ es) known at h =
      identities_of_sound es (put r.config_identity k known) at.1 λ i id found.
        elim (get-put-eq-some r.config_identity i k known found) [
          | inl (same, own) ↦ (r, ap (λ j. get j instances) (sym own) ∙ at.0, same)
          | inr (ne, found') ↦ h i id found'
        ]

  abbrev pub IsKnown : Dict Text → Text → Type 0
  IsKnown known i = (id : Text) × (get i known ≡ some id)

  put-IsKnown : (i k v : Text) (known : Dict Text) → IsKnown known i → IsKnown (put k v known) i
  put-IsKnown i k v known (id, h) = elim (Bool-cases (text_eq k i)) [
    | inl e ↦ (v, rw (get-put k i v known, e) refl)
    | inr e ↦ (id, rw (get-put k i v known, e) h)
  ]

  identities_of_keeps :
      (es : Dict RuntimeInstance) (known : Dict Text) (i : Text)
      → IsKnown known i
      → IsKnown (identities_of es known) i
  unfolding identities_of
  identities_of_keeps [] known i h = h
  identities_of_keeps ((k, r) ∷ es) known i h =
      identities_of_keeps es (put r.config_identity k known) i
        (put-IsKnown i r.config_identity k known h)

  pub identities_of_complete :
      (es : Dict RuntimeInstance) (known : Dict Text)
      → All (λ e. IsKnown (identities_of es known) e.1.config_identity) es
  unfolding identities_of
  identities_of_complete [] known = tt
  identities_of_complete ((k, r) ∷ es) known = (
    identities_of_keeps es (put r.config_identity k known) r.config_identity
        (k, get-put_self r.config_identity k known),
    identities_of_complete es (put r.config_identity k known),
  )

module _ (files : Files) (p : Text) where
  existing-none :
      (known : Dict Text)
      → existing files p known ≡ ok none
      → All (λ e. files.equivalent p e.0 ≡ ok false) known
  unfolding existing
  existing-none [] h = tt
  existing-none ((other, id) ∷ known) h =
      let (equal, at, h') = bind_ok (map_err (failed_at []) (files.equivalent p other)) _ h in
      elim (Bool-cases equal) [
        | inl e ↦ absurd (cc (rw e at h'))
        | inr e ↦ (map_err-eq-ok _ _ at ∙ ap ok e, existing-none known (rw e at h'))
      ]

  existing-some :
      (known es : Dict Text) (x : Text × Text)
      → existing files p es ≡ ok (some x)
      → All (λ e. get e.0 known ≡ some e.1) es
      → (get x.0 known ≡ some x.1) × (files.equivalent p x.0 ≡ ok true)
  unfolding existing
  existing-some known [] x h at = absurd (cc)
  existing-some known ((other, id) ∷ es) x h at =
      let (equal, asked, h') = bind_ok (map_err (failed_at []) (files.equivalent p other)) _ h in
      elim (Bool-cases equal) [
        | inr e ↦ existing-some known es x (rw e at h') at.1
        | inl e ↦
            let found : ok (some (other, id)) ≡ ok (some x) = rw e at h' in
            let one : (other, id) ≡ x = cc in
            subst (λ y. (get y.0 known ≡ some y.1) × (files.equivalent p y.0 ≡ ok true)) one
              (at.0, map_err-eq-ok _ _ asked ∙ ap ok e)
      ]

  not_twice_lem :
      (path : Text) (items : List Item)
      → not_twice files path p items ≡ ok tt
      → All (λ item. files.equivalent p item.identity ≡ ok false) items
  unfolding not_twice
  not_twice_lem path [] h = tt
  not_twice_lem path (item ∷ items) h =
      let (equal, at, h') =
        bind_ok (map_err (failed_at []) (files.equivalent p item.identity)) _ h in
      let (u, passed, h'') = bind_ok (refuse equal (duplicate_config item.path path p)) _ h' in
      (map_err-eq-ok _ _ at ∙ ap ok (refused equal _ passed), not_twice_lem path items h'')
    where
      refused : (b : Bool) (e : Error) → refuse b e ≡ ok tt → b ≡ false
      refused true e h = cc
      refused false e h = refl

-- What was read of an item: the id that has its configuration, if any has.
abbrev pub IsRead : Dict Text → Item → Type 0
IsRead known item = get item.identity known ≡ item.existing_id

abbrev pub OtherConfig : Item → Item → Type 0
OtherConfig a b = a.identity ≢ b.identity

module _ (q : RegisteredStart) (known : Dict Text) (unique : IsMap known)
    (reflexive : IsReflexive q.files) where
  item_of-IsRead :
      (path p : Text) (cfg : Config) (items : List Item) (o : Option (Text × Text))
      → existing q.files p known ≡ ok o
      → All (λ item. q.files.equivalent p item.identity ≡ ok false) items
      → IsRead known (item_of path p cfg o)
        × All (λ item. OtherConfig item (item_of path p cfg o)) items
  item_of-IsRead path p cfg items none h apart =
      let differ = existing-none q.files p known h in
      (
        (elim (Option-cases (get p known)) [
          | inl e ↦ e
          | inr (id, found) ↦
              let no : q.files.equivalent p p ≡ ok false =
                All-get (λ e. q.files.equivalent p e.0 ≡ ok false) p known differ found in
              absurd (reflexive p no)
        ]),
        All_mono _ (λ item. OtherConfig item (item_of path p cfg none))
            (λ item no same. reflexive p (sym (ap (q.files.equivalent p) same) ∙ no)) items apart,
      )
  item_of-IsRead path p cfg items (some (other, id)) h apart =
      let (found, equal) =
        existing-some q.files p known known (other, id) h (entries_found known unique) in
      (
        found,
        All_mono _ (λ item. OtherConfig item (item_of path p cfg (some (other, id))))
            (λ item no same. cc (ap (q.files.equivalent p) same, no, equal)) items apart,
      )

  load_item-IsRead :
      (items : List Item) (path : Text) (item : Item)
      → load_item q known items path ≡ ok item
      → IsRead known item × All (λ x. OtherConfig x item) items
  unfolding load_item
  load_item-IsRead items path item h =
      let (u, checked, h0) = bind_ok (check q.context (reads path)) _ h in
      let (absolute, a, h1) = bind_ok (map_err (failed_at []) (absolute_path q.files path)) _ h0 in
      let (p, c, h2) = bind_ok (map_err (failed_at []) (canonical_path q.files absolute)) _ h1 in
      let (v, once, h3) = bind_ok (not_twice q.files path p items) _ h2 in
      let (o, found, h4) = bind_ok (existing q.files p known) _ h3 in
      let (r, read, h5) = bind_ok (map_err _ (q.files.load absolute)) _ h4 in
      let (cfg, loaded, h6) = bind_ok (loaded_config absolute r) _ h5 in
      let (cwd, at, h7) = bind_ok (map_err _ q.working_directory) _ h6 in
      let one : item_of absolute p cfg o ≡ item = ok_injective h7 in
      subst (λ x. IsRead known x × All (λ y. OtherConfig y x) items) one
        (item_of-IsRead absolute p cfg items o found (not_twice_lem q.files p path items once))

  Pairwise-append_one :
      (items : List Item) (item : Item)
      → Pairwise OtherConfig items
      → All (λ x. OtherConfig x item) items
      → Pairwise OtherConfig (items ++ item ∷ [])
  Pairwise-append_one [] item h a = (tt, tt)
  Pairwise-append_one (x ∷ xs) item h a =
      (All-append (OtherConfig x) xs (item ∷ []) h.0 (a.0, tt), Pairwise-append_one xs item h.1 a.1)

  -- Every item was read, and no two have one configuration.
  pub load_items-AreRead :
      (items result : List Item) (paths : List Text)
      → load_items q known items paths ≡ ok result
      → All (IsRead known) items
      → Pairwise OtherConfig items
      → All (IsRead known) result
        × Pairwise OtherConfig result
        × (length result ≡ length items + length paths)
  unfolding load_items
  load_items-AreRead items result [] h read others =
      let one : items ≡ result = cc in
      subst (λ x. All (IsRead known) x × Pairwise OtherConfig x × (length x ≡ length items + 0)) one
        (read, others, omega arith)
  load_items-AreRead items result (p ∷ ps) h read others =
      let (item, at, h') = bind_ok (load_item q known items p) _ h in
      let (this, apart) = load_item-IsRead items p item at in
      let (all, different, count) =
        load_items-AreRead (items ++ item ∷ []) result ps h'
          (All-append (IsRead known) items (item ∷ []) read (this, tt))
          (Pairwise-append_one items item others apart) in
      (all, different, omega (arith, count, length-append items (item ∷ [])))
