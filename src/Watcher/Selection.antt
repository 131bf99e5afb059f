-- ===== src/Watcher/Selection.antt =====
-- Which files a watch selects, by internal/watcher/match.go.
use slipway.Common.{
  and_true, Text, codes, text_eq, dir, Bool, true, false, not, ◌&&◌, ◌||◌, List, [], ◌∷◌, All, ◌≡◌,
  ◌↔◌, ◌⊎◌, inl, inr, refl, sym, ◌∙◌, ap, arith, Bool-cases, if◌then◌else◌,
}
use mathlib.Core.List.{Memᴰ}
use slipway.Watcher.Match.{
  WatchConfig, Paths, no_segments, is_inside, glob_match, any_glob, match_relative,
}

module _ (paths : Paths) where
  any_glob-none :
      (ps : List Text) (r : Text)
      → any_glob paths ps r ≡ false
      → All (λ p. glob_match paths p r ≡ false) ps
  unfolding any_glob
  any_glob-none [] r h = tt
  any_glob-none (p ∷ ps) r h = (ground (arith, h), any_glob-none ps r (ground (arith, h)))

  any_glob_unmet :
      (ps : List Text) (r : Text)
      → All (λ p. glob_match paths p r ≡ false) ps
      → any_glob paths ps r ≡ false
  unfolding any_glob
  any_glob_unmet [] r h = refl
  any_glob_unmet (p ∷ ps) r h = ground (arith, h.0, any_glob_unmet ps r h.1)

  any_glob-some :
      (ps : List Text) (r : Text)
      → any_glob paths ps r ≡ true
      → (p : Text) × Memᴰ p ps × (glob_match paths p r ≡ true)
  unfolding any_glob
  any_glob-some [] r h = cc
  any_glob-some (p ∷ ps) r h = elim (Bool-cases (glob_match paths p r)) [
    | inl e ↦ (p, Memᴰ.head refl, e)
    | inr e ↦ let (q, m, e') = any_glob-some ps r (ground (arith, e, h)) in (q, Memᴰ.tail m, e')
  ]

  any_glob-mem :
      (ps : List Text) (r : Text) {p : Text}
      → Memᴰ p ps
      → glob_match paths p r ≡ true
      → any_glob paths ps r ≡ true
  unfolding any_glob
  any_glob-mem [] r m h = elim m [ ]
  any_glob-mem (q ∷ ps) r (Memᴰ.head e) h = ground (arith, ap (λ x. glob_match paths x r) e, h)
  any_glob-mem (q ∷ ps) r (Memᴰ.tail m) h = ground (arith, any_glob-mem ps r m h)

  -- In the root, deep enough for the watch, matched by no exclude, and by an include if there is one.
  pub record IsSelected (watch : WatchConfig) (r : Text) : Type 0 where
    pub inside : is_inside r ≡ true
    pub depth : (watch.recursive || text_eq (dir r) (codes ".")) ≡ true
    pub excluded : All (λ p. glob_match paths p r ≡ false) watch.excludes
    pub included :
        (watch.includes ≡ []) ⊎ ((p : Text) × Memᴰ p watch.includes × (glob_match paths p r ≡ true))

  -- The tests of a path, in the order of the code.
  tests :
      (watch : WatchConfig) (r : Text)
      → match_relative paths watch r ≡ (
          is_inside r
          && ((watch.recursive || text_eq (dir r) (codes "."))
              && (not (any_glob paths watch.excludes r)
                  && (no_segments watch.includes || any_glob paths watch.includes r))))
  unfolding match_relative
  tests watch r =
      cases (is_inside r) watch.recursive (text_eq (dir r) (codes "."))
        (any_glob paths watch.excludes r) (no_segments watch.includes)
        (any_glob paths watch.includes r)
    where
      cases :
          (i c d x n y : Bool)
          → (if not i
              then false
              else if not c && not d
              then false
              else if x
              then false
              else if n
              then true
              else y)
            ≡ (i && ((c || d) && (not x && (n || y))))
      cases i c d x n y = ground arith

  includes-cases :
      (ps : List Text) (r : Text)
      → (no_segments ps || any_glob paths ps r) ≡ true
      → (ps ≡ []) ⊎ ((p : Text) × Memᴰ p ps × (glob_match paths p r ≡ true))
  includes-cases [] r h = inl refl
  includes-cases (p ∷ ps) r h = inr (any_glob-some (p ∷ ps) r h)

  includes_met :
      (ps : List Text) (r : Text)
      → (ps ≡ []) ⊎ ((p : Text) × Memᴰ p ps × (glob_match paths p r ≡ true))
      → (no_segments ps || any_glob paths ps r) ≡ true
  includes_met ps r (inl e) = rw e refl
  includes_met ps r (inr (p, m, h)) = ground (arith, any_glob-mem ps r m h)

  -- A path relative to the root is selected exactly if it is in the root and not the root itself,
  -- it is in the root's own directory unless the watch is recursive, no exclude matches it, and,
  -- where there are includes, one of them matches it.
  pub match_relative-IsSelected :
      (watch : WatchConfig) (r : Text) → (match_relative paths watch r ≡ true) ↔ IsSelected watch r
  match_relative-IsSelected watch r = (
    λ h.
        let (inside, h1) = and_true {a = is_inside r} (sym (tests watch r) ∙ h) in
        let (depth, h2) = and_true {a = watch.recursive || text_eq (dir r) (codes ".")} h1 in
        let (free, included) = and_true {a = not (any_glob paths watch.excludes r)} h2 in
        record {
          inside = inside;
          depth = depth;
          excluded = any_glob-none watch.excludes r (ground (arith, free));
          included = includes-cases watch.includes r included;
        },
    λ s.
        tests watch r
        ∙ rw (
          s.inside,
          s.depth,
          any_glob_unmet watch.excludes r s.excluded,
          includes_met watch.includes r s.included,
        ),
  )
