-- ===== src/Watcher/Match.antt =====
-- internal/watcher/match.go: which files a watch selects. `path.Match`, and the paths that depend on
-- the process's directory, are parameters: nothing is assumed of them.
use slipway.Common.{
  Text, codes, text_eq, has_prefix, trim_prefix, split_at, base, dir, slash, Bool, true, false, not,
  ◌&&◌, ◌||◌, Option, none, some, List, [], ◌∷◌, if◌then◌else◌, ◌==◌,
}

-- The fields of `config.WatchConfig` that select files.
pub record WatchConfig : Type 0 where
  pub path : Text
  pub recursive : Bool
  pub includes : List Text
  pub excludes : List Text

-- `path.Match`, `none` for a bad pattern; `filepath.Abs`; and `filepath.Rel`.
pub record Paths : Type 0 where
  pub match_one : Text → Text → Option Bool
  pub abs : Text → Option Text
  pub rel : Text → Text → Option Text

abbrev pub is_doublestar : Text → Bool
is_doublestar p = text_eq p (codes "**")

abbrev has_slash : Text → Bool
has_slash [] = false
has_slash (c ∷ s) = c == slash || has_slash s

abbrev pub no_segments : List Text → Bool
no_segments [] = true
no_segments (s ∷ ss) = false

abbrev pub is_match : Option Bool → Bool
is_match none = false
is_match (some b) = b

-- Whether a test holds of the segments, or of them without the first ones.
unfoldable pub any_suffix : (List Text → Bool) → List Text → Bool
any_suffix f [] = f []
any_suffix f (s ∷ ss) = f (s ∷ ss) || any_suffix f ss

-- The path is in the root, and not the root itself.
abbrev pub is_inside : Text → Bool
is_inside relative = not (
    text_eq relative (codes ".")
    || text_eq relative (codes "..")
    || has_prefix (codes "../") relative)

module _ (paths : Paths) where
  -- The loop over a repeated `**` is the recursion on the pattern without the first one.
  unfoldable pub match_segments : List Text → List Text → Bool
  match_segments [] name = no_segments name
  match_segments (p ∷ []) name = elim (is_doublestar p) [
    | true ↦ true
    | false ↦ elim name [
      | [] ↦ false
      | s ∷ ss ↦ is_match (paths.match_one p s) && match_segments [] ss
    ]
  ]
  match_segments (p ∷ q ∷ ps) name = elim (is_doublestar p) [
    | true ↦ elim (is_doublestar q) [
      | true ↦ match_segments (q ∷ ps) name
      | false ↦ any_suffix (match_segments (q ∷ ps)) name
    ]
    | false ↦ elim name [
      | [] ↦ false
      | s ∷ ss ↦ is_match (paths.match_one p s) && match_segments (q ∷ ps) ss
    ]
  ]

  pub glob_match : Text → Text → Bool
  glob_match pattern relative =
      let p = trim_prefix (codes "./") pattern in
      if not (has_slash p)
      then is_match (paths.match_one p (base relative))
      else match_segments (split_at slash p) (split_at slash relative)

  unfoldable pub any_glob : List Text → Text → Bool
  any_glob [] relative = false
  any_glob (p ∷ ps) relative = glob_match p relative || any_glob ps relative

  unfoldable pub match_relative : WatchConfig → Text → Bool
  match_relative watch relative =
      if not (is_inside relative)
      then false
      else if not watch.recursive && not (text_eq (dir relative) (codes "."))
      then false
      else if any_glob watch.excludes relative
      then false
      else if no_segments watch.includes
      then true
      else any_glob watch.includes relative

  pub match : WatchConfig → Text → Bool
  match watch filename = elim (paths.abs watch.path) [
    | none ↦ false
    | some root ↦ elim (paths.abs filename) [
      | none ↦ false
      | some name ↦ elim (paths.rel root name) [
        | none ↦ false
        | some relative ↦ match_relative watch relative
      ]
    ]
  ]
