-- ===== src/Watcher/Examples.antt =====
-- A watch of tables in nested directories (internal/watcher): the theorems at inputs.
use slipway.Common.{Text, codes, text_eq, true, some, List, [], ◌∷◌, ◌≡◌, ◌↔◌}
use slipway.Watcher.Match.{WatchConfig, Paths, match_segments, match_relative}
use slipway.Watcher.Globs.{Matches, match_segments-Matches}
use slipway.Watcher.Selection.{IsSelected, match_relative-IsSelected}

-- Patterns without wildcards.
abbrev literal : Paths
literal = record {
  match_one = λ pattern name. some (text_eq pattern name);
  abs = λ path. some path;
  rel = λ root name. some name;
}

abbrev pattern : List Text
pattern = codes "in" ∷ codes "**" ∷ codes "a.csv" ∷ []

abbrev segments : List Text
segments = codes "in" ∷ codes "x" ∷ codes "y" ∷ codes "a.csv" ∷ []

match_segments-Matches_example :
    (match_segments literal pattern segments ≡ true) ↔ Matches literal pattern segments
match_segments-Matches_example = match_segments-Matches literal pattern segments

abbrev tables : WatchConfig
tables = record {
  path = codes "/srv";
  recursive = true;
  includes = codes "in/**/a.csv" ∷ [];
  excludes = codes "b.csv" ∷ [];
}

match_relative-IsSelected_example :
    (match_relative literal tables (codes "in/x/a.csv") ≡ true)
    ↔ IsSelected literal tables (codes "in/x/a.csv")
match_relative-IsSelected_example = match_relative-IsSelected literal tables (codes "in/x/a.csv")
