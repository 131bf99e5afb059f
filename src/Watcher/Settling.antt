-- ===== src/Watcher/Settling.antt =====
-- What `WaitStable` of internal/watcher/stable.go returns, and that it returns.
use mathlib.Core.Path.{subst}
use slipway.Common.{
  ℕ, pos, zero, suc, ◌+◌, ◌-◌, ◌==◌, ◌≤◌, ◌<◌, Text, ◌≡◌, refl, sym, ap, ◌∙◌, true, false,
  Bool-cases, inl, inr, ◌⊎◌, Option, Option-cases, none, some, leb, Result, Result-cases, ok, err,
  arith, clean,
}
use slipway.Watcher.Stable.{
  FileInfo, FileSignature, signature_of, same_signature, File, WaitError, World, snapshot,
  context_required, context_done, regular_file_info, poll_interval, wait_for, settle, settle_first,
  settle_at, wait_stable,
}

same_signature_eq : (s t : FileSignature) → same_signature s t ≡ true → s ≡ t
same_signature_eq s t h = ground arith

same_signature_refl : (s : FileSignature) → same_signature s s ≡ true
same_signature_refl s = ground arith

module _ (w : World) (path : Text) where
  -- What a call of `os.Lstat` found: a regular file of a signature.
  unfoldable pub HasSignature : FileSignature → ℕ → Type 0
  HasSignature s i =
      (info : FileInfo) × (regular_file_info w path i ≡ ok info) × (signature_of info ≡ s)

  -- From one call to another the signature was the same, and the clock went on for the time to settle
  -- from behind the first to the pass behind the last.
  pub record IsSettled (settle_for : ℕ) (info : FileInfo) : Type 0 where
    pub first : ℕ
    pub final : ℕ
    pub last : regular_file_info w path final ≡ ok info
    pub unchanged : (k : ℕ) → first ≤ k → k ≤ final → HasSignature (signature_of info) k
    pub long_enough : settle_for ≤ w.compared final - w.stamped first

  -- What the loop knows in its pass `i`.
  record IsWatched (i since : ℕ) (last : FileSignature) (info : FileInfo) : Type 0 where
    begun : ℕ
    begun_at : since ≡ w.stamped begun
    current : regular_file_info w path i ≡ ok info
    current_signature : signature_of info ≡ last
    same : (k : ℕ) → begun ≤ k → k ≤ i → HasSignature last k

  up_to_next : (k i : ℕ) → k ≤ suc i → (k ≤ i) ⊎ (k ≡ suc i)
  up_to_next k i h = omega arith

  keep_watching :
      (i since : ℕ) (last : FileSignature) (info next : FileInfo)
      → IsWatched i since last info
      → regular_file_info w path (suc i) ≡ ok next
      → signature_of next ≡ last
      → IsWatched (suc i) since last next
  unfolding HasSignature
  keep_watching i since last info next s found e = record {
    begun = s.begun;
    begun_at = s.begun_at;
    current = found;
    current_signature = e;
    same = λ k a b. elim (up_to_next k i b) [
      | inl before ↦ s.same k a before
      | inr at ↦ (next, ap (regular_file_info w path) at ∙ found, e)
    ];
  }

  watch_again :
      (i : ℕ) (next : FileInfo)
      → regular_file_info w path i ≡ ok next
      → IsWatched i (w.stamped i) (signature_of next) next
  unfolding HasSignature
  watch_again i next found = record {
    begun = i;
    begun_at = refl;
    current = found;
    current_signature = refl;
    same = λ k a b.
        let at : k ≡ i = omega arith in (next, ap (regular_file_info w path) at ∙ found, refl);
  }

  watched-IsSettled :
      (settle_for i since : ℕ) (last : FileSignature) (info : FileInfo)
      → IsWatched i since last info
      → leb settle_for (w.compared i - since) ≡ true
      → IsSettled settle_for info
  watched-IsSettled settle_for i since last info s h = record {
    first = s.begun;
    final = i;
    last = s.current;
    unchanged = λ k a b. subst (λ t. HasSignature t k) (sym s.current_signature) (s.same k a b);
    long_enough = subst (λ t. settle_for ≤ w.compared i - t) s.begun_at (ground arith);
  }

  settle-IsSettled :
      (fuel settle_for i since : ℕ) (last : FileSignature) (info : FileInfo) (file : File)
      → IsWatched i since last info
      → settle fuel w path settle_for i since last info ≡ some (ok file)
      → (info' : FileInfo) × (file ≡ snapshot w path info') × IsSettled settle_for info'
  unfolding settle
  settle-IsSettled zero settle_for i since last info file s h = absurd (cc)
  settle-IsSettled (suc fuel) settle_for i since last info file s h =
      elim (Bool-cases (leb settle_for (w.compared i - since))) [
        | inl e ↦
            let same : some (ok (snapshot w path info)) ≡ some (ok file) = rw (e, settle) at h in
            (info, cc, watched-IsSettled settle_for i since last info s e)
        | inr e ↦ elim (Option-cases (w.ends i)) [
          | inr (cause, c) ↦ absurd (cc (rw (e, c, settle) at h))
          | inl c ↦ elim (Result-cases (regular_file_info w path (suc i))) [
            | inr (x, r) ↦ absurd (cc (rw (e, c, r, settle) at h))
            | inl (next, r) ↦ elim (Bool-cases (same_signature (signature_of next) last)) [
              | inl k ↦
                  settle-IsSettled fuel settle_for (suc i) since last next file
                    (keep_watching i since last info next s r (same_signature_eq _ _ k))
                    (rw (e, c, r, k, settle) at h)
              | inr k ↦
                  settle-IsSettled fuel settle_for (suc i) (w.stamped (suc i)) (signature_of next)
                    next file (watch_again (suc i) next r) (rw (e, c, r, k, settle) at h)
            ]
          ]
        ]
      ]

-- A wait that returns a file names the cleaned absolute path, and reports what it saw last: a regular
-- file whose size and time of modification were the same in every look from a first one on, between
-- which and the last the clock went on for the whole time to settle.
pub wait_stable-IsSettled :
    (fuel settle_for : ℕ) (w : World) (filename : Text) (file : File)
    → wait_stable fuel w filename (pos settle_for) ≡ some (ok file)
    → (path : Text) × (info : FileInfo) × (w.abs filename ≡ ok path)
      × (file ≡ snapshot w (clean path) info)
      × IsSettled w (clean path) settle_for info
unfolding wait_stable
wait_stable-IsSettled fuel d w filename file h = elim (Option-cases w.start) [
  | inl e ↦ absurd (cc (rw (e, wait_stable) at h))
  | inr (none, e) ↦ elim (Result-cases (w.abs filename)) [
    | inr (x, a) ↦ absurd (cc (rw (e, a, wait_stable) at h))
    | inl (path, a) ↦
        let (info, same, settled) =
          first_lem path (regular_file_info w (clean path) 0) refl (rw (e, a, wait_stable) at h) in
        (path, info, a, same, settled)
  ]
  | inr (some cause, e) ↦ absurd (cc (rw (e, wait_stable) at h))
]
  where
    first_lem :
        (path : Text) (r : Result WaitError FileInfo)
        → regular_file_info w (clean path) 0 ≡ r
        → settle_first fuel w (clean path) d r ≡ some (ok file)
        → (info : FileInfo) × (file ≡ snapshot w (clean path) info)
          × IsSettled w (clean path) d info
    first_lem path (err x) r h = absurd (cc)
    first_lem path (ok info) r h = elim (Bool-cases (d == 0)) [
      | inl z ↦
          let same : some (ok (snapshot w (clean path) info)) ≡ some (ok file) = rw z at h in
          (
            info,
            cc,
            watched-IsSettled w (clean path) d 0 (w.stamped 0) (signature_of info) info
                (watch_again w (clean path) 0 info r) (ground arith),
          )
      | inr z ↦
          settle-IsSettled w (clean path) fuel d 0 (w.stamped 0) (signature_of info) info file
            (watch_again w (clean path) 0 info r) (rw z at h)
    ]

wait_for_positive : (d remaining : ℕ) → 0 < remaining → 0 < wait_for d remaining
unfolding wait_for poll_interval
wait_for_positive d remaining h = ground arith

-- A file that comes to rest by the look `n`, under a context that does not end, with a clock that goes
-- on by what each timer was set to.
pub record IsCalm (w : World) (path : Text) (settle_for n : ℕ) (s : FileSignature) : Type 0 where
  pub no_end : (i : ℕ) → w.ends i ≡ none
  pub stays_regular : (i : ℕ) → (info : FileInfo) × (regular_file_info w path i ≡ ok info)
  pub rests : (i : ℕ) → n ≤ i → HasSignature w path s i
  pub ordered : (i : ℕ) → w.stamped i ≤ w.compared i
  pub ticks :
      (i since : ℕ)
      → w.compared i - since < settle_for
      → w.compared i + wait_for settle_for (settle_for - (w.compared i - since))
        ≤ w.compared (suc i)

module _ (w : World) (path : Text) (d n : ℕ) (s : FileSignature) (calm : IsCalm w path d n s) where
  goes_on : (i since : ℕ) → leb d (w.compared i - since) ≡ false → w.compared i < w.compared (suc i)
  goes_on i since h =
      let short : w.compared i - since < d = ground arith in
      let longer = wait_for_positive d (d - (w.compared i - since)) (omega arith) in
      let next = calm.ticks i since short in omega arith

  Returns : Option (Result WaitError File) → Type 0
  Returns o = (file : File) × (o ≡ some (ok file))

  -- A pass that is not the last, and finds the same signature or another.
  same_pass :
      (f i since : ℕ) (last : FileSignature) (info next : FileInfo)
      → leb d (w.compared i - since) ≡ false
      → regular_file_info w path (suc i) ≡ ok next
      → same_signature (signature_of next) last ≡ true
      → settle (suc f) w path d i since last info ≡ settle f w path d (suc i) since last next
  unfolding settle
  same_pass f i since last info next e r k = rw (e, calm.no_end i, r, k, settle) refl

  other_pass :
      (f i since : ℕ) (last : FileSignature) (info next : FileInfo)
      → leb d (w.compared i - since) ≡ false
      → regular_file_info w path (suc i) ≡ ok next
      → same_signature (signature_of next) last ≡ false
      → settle (suc f) w path d i since last info
        ≡ settle f w path d (suc i) (w.stamped (suc i)) (signature_of next) next
  unfolding settle
  other_pass f i since last info next e r k = rw (e, calm.no_end i, r, k, settle) refl

  last_pass :
      (f i since : ℕ) (last : FileSignature) (info : FileInfo)
      → leb d (w.compared i - since) ≡ true
      → Returns (settle (suc f) w path d i since last info)
  unfolding settle Returns
  last_pass f i since last info e = (snapshot w path info, rw (e, settle) refl)

  -- At rest, every pass brings the end nearer.
  rest_ends :
      (f i since : ℕ) (info : FileInfo)
      → n ≤ i
      → since ≤ w.compared i
      → d ≤ f + (w.compared i - since)
      → Returns (settle (suc f) w path d i since s info)
  unfolding HasSignature
  rest_ends zero i since info at before enough = last_pass zero i since s info (ground arith)
  rest_ends (suc f) i since info at before enough =
      elim (Bool-cases (leb d (w.compared i - since))) [
        | inl e ↦ last_pass (suc f) i since s info e
        | inr e ↦
            let (next, r, same) = calm.rests (suc i) (omega arith) in
            let on = goes_on i since e in
            let known : same_signature (signature_of next) s ≡ true =
              ap (λ t. same_signature t s) same ∙ same_signature_refl s in
            subst Returns (sym (same_pass (suc f) i since s info next e r known))
              (rest_ends f (suc i) since next (omega arith) (omega arith) (omega arith))
      ]

  -- Until then, every pass brings the rest nearer.
  settle_ends :
      (k f i since : ℕ) (last : FileSignature) (info : FileInfo)
      → i + k ≡ n
      → since ≤ w.compared i
      → k + d ≤ f
      → regular_file_info w path i ≡ ok info
      → signature_of info ≡ last
      → Returns (settle (suc f) w path d i since last info)
  unfolding HasSignature
  settle_ends zero f i since last info at before enough found same =
      let (info', r, rests) = calm.rests i (omega arith) in
      let one : info' ≡ info = cc in
      let resting : s ≡ last = sym rests ∙ ap signature_of one ∙ same in
      subst (λ t. Returns (settle (suc f) w path d i since t info)) resting
        (rest_ends f i since info (omega arith) before (omega arith))
  settle_ends (suc k) zero i since last info at before enough found same = absurd (omega arith)
  settle_ends (suc k) (suc f) i since last info at before enough found same =
      elim (Bool-cases (leb d (w.compared i - since))) [
        | inl e ↦ last_pass (suc f) i since last info e
        | inr e ↦
            let (next, r) = calm.stays_regular (suc i) in
            let on = goes_on i since e in
            elim (Bool-cases (same_signature (signature_of next) last)) [
              | inl k' ↦ subst Returns (sym (same_pass (suc f) i since last info next e r k')) (
                  settle_ends k f (suc i) since last next (omega arith) (omega arith) (omega arith)
                    r (same_signature_eq (signature_of next) last k'))
              | inr k' ↦ subst Returns (sym (other_pass (suc f) i since last info next e r k')) (
                  settle_ends k f (suc i) (w.stamped (suc i)) (signature_of next) next (omega arith)
                    (calm.ordered (suc i)) (omega arith) r refl)
            ]
      ]

opened :
    (fuel d : ℕ) (w : World) (filename : Text)
    → w.start ≡ some none
    → wait_stable fuel w filename (pos d) ≡ settle_at fuel w d (w.abs filename)
unfolding wait_stable
opened fuel d w filename h =
    ap
      (λ o. elim o [
        | none ↦ some (err context_required)
        | some (some cause) ↦ some (err (context_done cause))
        | some none ↦ settle_at fuel w d (w.abs filename)
      ])
      h

-- Where a file comes to rest by the look `n`, the context does not end, and the clock goes on by what
-- each timer was set to, a wait returns a file: `n` passes and one for each nanosecond to settle, and
-- one more, are enough.
pub wait_stable_total :
    (settle_for n : ℕ) (w : World) (filename path : Text) (s : FileSignature)
    → w.start ≡ some none
    → w.abs filename ≡ ok path
    → IsCalm w (clean path) settle_for n s
    → (file : File) × (wait_stable (suc (n + settle_for)) w filename (pos settle_for)
        ≡ some (ok file))
unfolding wait_stable Returns
wait_stable_total d n w filename path s start found calm =
    let (info, r) = calm.stays_regular 0 in
    elim (Bool-cases (d == 0)) [
      | inl z ↦ (
        snapshot w (clean path) info,
        opened (suc (n + d)) d w filename start ∙ rw (found, r, z) refl,
      )
      | inr z ↦
          let (file, e) : Returns w (clean path) d n s calm _ =
            settle_ends w (clean path) d n s calm n (n + d) 0 (w.stamped 0) (signature_of info) info
              (omega arith) (calm.ordered 0) (omega arith) r refl in
          (file, opened (suc (n + d)) d w filename start ∙ rw (found, r, z) e)
    ]
