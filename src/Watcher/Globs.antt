-- ===== src/Watcher/Globs.antt =====
-- The matching of path segments in internal/watcher/match.go, against what a pattern means.
use slipway.Common.{
  and_true, Text, Bool, true, false, ◌&&◌, List, [], ◌∷◌, ◌≡◌, ◌↔◌, inl, inr, refl, sym, ◌∙◌, ◌≢◌,
  arith, Bool-cases,
}
use slipway.Watcher.Match.{Paths, is_doublestar, is_match, any_suffix, match_segments}

true≢false : true ≢ false
true≢false h = cc

module _ (paths : Paths) where
  -- A `**` stands for any number of segments, every other part of a pattern for one.
  pub data Matches : List Text → List Text → Type 0 where
    done : Matches [] []
    one :
        {p s : Text} {ps ss : List Text}
        → is_doublestar p ≡ false
        → is_match (paths.match_one p s) ≡ true
        → Matches ps ss
        → Matches (p ∷ ps) (s ∷ ss)
    none_more :
        {p : Text} {ps ss : List Text}
        → is_doublestar p ≡ true
        → Matches ps ss
        → Matches (p ∷ ps) ss
    more :
        {p s : Text} {ps ss : List Text}
        → is_doublestar p ≡ true
        → Matches (p ∷ ps) ss
        → Matches (p ∷ ps) (s ∷ ss)

  all_match : (p : Text) (ss : List Text) → is_doublestar p ≡ true → Matches (p ∷ []) ss
  all_match p [] h = Matches.none_more h Matches.done
  all_match p (s ∷ ss) h = Matches.more h (all_match p ss h)

  -- A suffix that matches the rest of the pattern.
  suffix_match :
      (p : Text) (ps : List Text)
      → is_doublestar p ≡ true
      → ((ss : List Text) → match_segments paths ps ss ≡ true → Matches ps ss)
      → (ss : List Text) → any_suffix (match_segments paths ps) ss ≡ true
      → Matches (p ∷ ps) ss
  unfolding any_suffix
  suffix_match p ps h rest [] e = Matches.none_more h (rest [] e)
  suffix_match p ps h rest (s ∷ ss) e = elim (Bool-cases (match_segments paths ps (s ∷ ss))) [
    | inl m ↦ Matches.none_more h (rest (s ∷ ss) m)
    | inr m ↦ Matches.more h (suffix_match p ps h rest ss (rw m at e))
  ]

  module _ (p : Text) (h : is_doublestar p ≡ false) where
    segment_end : (ps : List Text) → match_segments paths (p ∷ ps) [] ≡ false
    unfolding match_segments
    segment_end [] = rw (h, match_segments)
    segment_end (q ∷ ps) = rw (h, match_segments)

    segment_step :
        (ps : List Text) (s : Text) (ss : List Text)
        → match_segments paths (p ∷ ps) (s ∷ ss)
          ≡ (is_match (paths.match_one p s) && match_segments paths ps ss)
    unfolding match_segments
    segment_step [] s ss = rw (h, match_segments)
    segment_step (q ∷ ps) s ss = rw (h, match_segments)

    segment-sound :
        (ps : List Text)
        → ((ss : List Text) → match_segments paths ps ss ≡ true → Matches ps ss)
        → (ss : List Text) → match_segments paths (p ∷ ps) ss ≡ true
        → Matches (p ∷ ps) ss
    segment-sound ps rest [] e = absurd (true≢false (sym e ∙ segment_end ps))
    segment-sound ps rest (s ∷ ss) e =
        let both = and_true (sym (segment_step ps s ss) ∙ e) in
        Matches.one h both.0 (rest ss both.1)

  module _ (p : Text) (h : is_doublestar p ≡ true) where
    doublestar_last : (ss : List Text) → match_segments paths (p ∷ []) ss ≡ true
    unfolding match_segments
    doublestar_last ss = rw (h, match_segments)

    doublestar_again :
        (q : Text) (ps ss : List Text)
        → is_doublestar q ≡ true
        → match_segments paths (p ∷ q ∷ ps) ss ≡ match_segments paths (q ∷ ps) ss
    unfolding match_segments
    doublestar_again q ps ss k = rw (h, k, match_segments)

    doublestar_step :
        (q : Text) (ps ss : List Text)
        → is_doublestar q ≡ false
        → match_segments paths (p ∷ q ∷ ps) ss ≡ any_suffix (match_segments paths (q ∷ ps)) ss
    unfolding match_segments
    doublestar_step q ps ss k = rw (h, k, match_segments)

  sound : (ps ss : List Text) → match_segments paths ps ss ≡ true → Matches ps ss
  unfolding match_segments
  sound [] [] e = Matches.done
  sound [] (s ∷ ss) e = cc
  sound (p ∷ []) ss e = elim (Bool-cases (is_doublestar p)) [
    | inl h ↦ all_match p ss h
    | inr h ↦ segment-sound p h [] (sound []) ss e
  ]
  sound (p ∷ q ∷ ps) ss e = elim (Bool-cases (is_doublestar p)) [
    | inr h ↦ segment-sound p h (q ∷ ps) (sound (q ∷ ps)) ss e
    | inl h ↦ elim (Bool-cases (is_doublestar q)) [
      | inl k ↦ Matches.none_more h (sound (q ∷ ps) ss (sym (doublestar_again p h q ps ss k) ∙ e))
      | inr k ↦
          suffix_match p (q ∷ ps) h (sound (q ∷ ps)) ss (sym (doublestar_step p h q ps ss k) ∙ e)
    ]
  ]

  any_suffix_here : (f : List Text → Bool) (ss : List Text) → f ss ≡ true → any_suffix f ss ≡ true
  unfolding any_suffix
  any_suffix_here f [] e = e
  any_suffix_here f (s ∷ ss) e = rw e

  any_suffix_later :
      (f : List Text → Bool) (s : Text) (ss : List Text)
      → any_suffix f ss ≡ true
      → any_suffix f (s ∷ ss) ≡ true
  unfolding any_suffix
  any_suffix_later f s ss e = ground (arith, e)

  -- A first `**` can be left out, and can take one segment more.
  skip_doublestar :
      (p : Text) (ps ss : List Text)
      → is_doublestar p ≡ true
      → match_segments paths ps ss ≡ true
      → match_segments paths (p ∷ ps) ss ≡ true
  skip_doublestar p [] ss h e = doublestar_last p h ss
  skip_doublestar p (q ∷ ps) ss h e = elim (Bool-cases (is_doublestar q)) [
    | inl k ↦ doublestar_again p h q ps ss k ∙ e
    | inr k ↦ doublestar_step p h q ps ss k ∙ any_suffix_here (match_segments paths (q ∷ ps)) ss e
  ]

  extend_doublestar :
      (p : Text) (ps : List Text) (s : Text) (ss : List Text)
      → is_doublestar p ≡ true
      → match_segments paths (p ∷ ps) ss ≡ true
      → match_segments paths (p ∷ ps) (s ∷ ss) ≡ true
  extend_doublestar p [] s ss h e = doublestar_last p h (s ∷ ss)
  extend_doublestar p (q ∷ ps) s ss h e = elim (Bool-cases (is_doublestar q)) [
    | inl k ↦
        doublestar_again p h q ps (s ∷ ss) k
        ∙ extend_doublestar q ps s ss k (sym (doublestar_again p h q ps ss k) ∙ e)
    | inr k ↦
        doublestar_step p h q ps (s ∷ ss) k
        ∙ any_suffix_later (match_segments paths (q ∷ ps)) s ss
            (sym (doublestar_step p h q ps ss k) ∙ e)
  ]

  complete : {ps ss : List Text} → Matches ps ss → match_segments paths ps ss ≡ true
  unfolding match_segments
  complete Matches.done = refl
  complete (Matches.one {p} {s} {ps} {ss} h e m) = segment_step p h ps s ss ∙ rw (e, complete m)
  complete (Matches.none_more {p} {ps} {ss} h m) = skip_doublestar p ps ss h (complete m)
  complete (Matches.more {p} {s} {ps} {ss} h m) = extend_doublestar p ps s ss h (complete m)

  -- The segments of a path match those of a pattern exactly if each `**` of the pattern can stand for
  -- some number of segments, none included, so that every other part matches one segment.
  pub match_segments-Matches :
      (ps ss : List Text) → (match_segments paths ps ss ≡ true) ↔ Matches ps ss
  match_segments-Matches ps ss = (sound ps ss, complete)
