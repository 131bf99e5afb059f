-- ===== src/Watcher/StableExamples.antt =====
-- A file that grows once before it comes to rest (internal/watcher/stable.go).
use slipway.Common.{
  ℕ, pos, suc, ◌+◌, ◌-◌, ◌*◌, ◌++◌, ◌==◌, ◌≤◌, Text, codes, text_eq, clean, ◌≡◌, refl, true, false,
  none, some, ok, if◌then◌else◌, arith,
}
use slipway.Watcher.Stable.{
  FileInfo, File, World, signature_of, snapshot, regular_file_info, settle, wait_stable, wait_for,
  poll_interval,
}
use slipway.Watcher.Settling.{
  HasSignature, IsSettled, IsCalm, wait_stable-IsSettled, wait_stable_total,
}

abbrev looked : ℕ → FileInfo
looked i = record {
  size = if i == 0 then 1 else 2;
  mod_time = 7;
  is_symlink = false;
  is_regular = true;
}

abbrev growing : World
growing = record {
  abs = λ name. ok (codes "/in/" ++ name);
  digest = λ t. t;
  start = some none;
  lstat = λ i. ok (looked i);
  ends = λ i. none;
  compared = λ i. 3 * i;
  stamped = λ i. 3 * i;
}

abbrev name : Text
name = codes "a.csv"

abbrev path : Text
path = codes "/in/a.csv"

abbrev grown : FileInfo
grown = looked 5

grown_file : wait_stable 3 growing name (pos 3) ≡ some (ok (snapshot growing path grown))
unfolding wait_stable settle regular_file_info text_eq
grown_file = refl

wait_stable-IsSettled_example :
    (p : Text) × (info : FileInfo) × (growing.abs name ≡ ok p)
    × (snapshot growing path grown ≡ snapshot growing (clean p) info)
    × IsSettled growing (clean p) 3 info
wait_stable-IsSettled_example =
    wait_stable-IsSettled 3 3 growing name (snapshot growing path grown) grown_file

short_wait : (d r : ℕ) → wait_for d r ≤ r
unfolding wait_for poll_interval
short_wait d r = ground arith

growing-IsCalm : IsCalm growing path 3 1 (signature_of grown)
unfolding HasSignature regular_file_info
growing-IsCalm = record {
  no_end = λ i. refl;
  stays_regular = λ i. (looked i, refl);
  rests = λ i h. (looked i, refl, ground arith);
  ordered = λ i. omega arith;
  ticks = λ i since h. let short = short_wait 3 (3 - (3 * i - since)) in omega arith;
}

wait_stable_total_example :
    (file : File) × (wait_stable (suc (1 + 3)) growing name (pos 3) ≡ some (ok file))
unfolding text_eq
wait_stable_total_example =
    wait_stable_total 3 1 growing name path (signature_of grown) refl refl growing-IsCalm
