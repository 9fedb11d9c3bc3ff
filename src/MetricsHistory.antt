-- ===== src/MetricsHistory.antt =====
-- The `MetricsHistory` of src/server/monitoring/metrics.rs, a rolling window of snapshots, over a
-- type for the figures of a snapshot.
mod Tests
use mathlib.Core.List.{append-nil, append_assoc}
use zhtp.Base.{
  ℕ, zero, suc, ◌+◌, ◌-◌, ◌≤◌, ◌%◌, ◌^◌, ◌≡◌, refl, sym, ◌∙◌, ap, Bool, true, false, List, [], ◌∷◌,
  ◌++◌, ltb, leb, if◌then◌else◌, arith, Bool-cases, inl, inr,
}
use zhtp.Base.Lists.{length, length-append, drop}

pub record MetricsSnapshot (Figures : Type 0) : Type 0 where
  pub timestamp : ℕ
  pub figures : Figures

pub record MetricsHistory (Figures : Type 0) : Type 0 where
  pub snapshots : List (MetricsSnapshot Figures)
  pub max_snapshots : ℕ
  pub interval_secs : ℕ
  pub last_snapshot : ℕ

cut_more :
    (max old new total : ℕ)
    → new ≡ old + 1 - (old - max)
    → total ≡ old + 1
    → ltb max new ≡ true
    → suc (old - max) ≡ total - max
cut_more max old new total e t l = ground (arith, e, t, l)

cut_same :
    (max old new total : ℕ)
    → new ≡ old + 1 - (old - max)
    → total ≡ old + 1
    → ltb max new ≡ false
    → old - max ≡ total - max
cut_same max old new total e t l = ground (arith, e, t, l)

module _ {Figures : Type 0} where
  pub new_history : ℕ → ℕ → MetricsHistory Figures
  new_history max interval = record {
    snapshots = [];
    max_snapshots = max;
    interval_secs = interval;
    last_snapshot = 0;
  }

  pub add_snapshot : MetricsSnapshot Figures → MetricsHistory Figures → MetricsHistory Figures
  add_snapshot snapshot h =
      let pushed = h.snapshots ++ snapshot ∷ [] in
      record h {
        last_snapshot = snapshot.timestamp;
        snapshots = if ltb h.max_snapshots (length pushed) then drop 1 pushed else pushed;
      }

  -- The subtraction of `u64` wraps around when the clock was set back.
  pub should_take_snapshot : ℕ → MetricsHistory Figures → Bool
  should_take_snapshot now h = leb h.interval_secs ((now + 2 ^ 64 - h.last_snapshot) % 2 ^ 64)

  pub add_snapshots :
      List (MetricsSnapshot Figures) → MetricsHistory Figures → MetricsHistory Figures
  add_snapshots [] h = h
  add_snapshots (s ∷ ss) h = add_snapshots ss (add_snapshot s h)

  drop-append :
      (n : ℕ) (xs ys : List (MetricsSnapshot Figures))
      → n ≤ length xs
      → drop n (xs ++ ys) ≡ drop n xs ++ ys
  unfolding drop
  drop-append zero xs ys l = refl
  drop-append (suc n) [] ys l = absurd (omega (arith, l))
  drop-append (suc n) (x ∷ xs) ys l = drop-append n xs ys (omega (arith, l))

  length-drop : (n : ℕ) (xs : List (MetricsSnapshot Figures)) → length (drop n xs) ≡ length xs - n
  unfolding drop
  length-drop zero xs = omega arith
  length-drop (suc n) [] = omega arith
  length-drop (suc n) (x ∷ xs) = length-drop n xs ∙ omega arith

  drop-nil : (n : ℕ) → ◌≡◌ {A = List (MetricsSnapshot Figures)} (drop n []) []
  unfolding drop
  drop-nil zero = refl
  drop-nil (suc n) = refl

  drop-drop : (n : ℕ) (xs : List (MetricsSnapshot Figures)) → drop 1 (drop n xs) ≡ drop (suc n) xs
  unfolding drop
  drop-drop zero xs = refl
  drop-drop (suc n) [] = refl
  drop-drop (suc n) (x ∷ xs) = drop-drop n xs

  -- One more snapshot, when the window holds the last of those before it.
  add_snapshot-window :
      (before : List (MetricsSnapshot Figures)) (s : MetricsSnapshot Figures)
      (h : MetricsHistory Figures)
      → h.snapshots ≡ drop (length before - h.max_snapshots) before
      → (add_snapshot s h).snapshots
        ≡ drop (length (before ++ s ∷ []) - h.max_snapshots) (before ++ s ∷ [])
  unfolding add_snapshot
  add_snapshot-window before s h e =
      let max = h.max_snapshots in
      let n = length before - max in
      let pushed : h.snapshots ++ s ∷ [] ≡ drop n (before ++ s ∷ []) =
        ap (λ xs. xs ++ s ∷ []) e ∙ sym (drop-append n before (s ∷ []) (omega arith)) in
      let size : length (h.snapshots ++ s ∷ []) ≡ length before + 1 - n =
        ap length pushed
        ∙ length-drop n (before ++ s ∷ [])
        ∙ ap (λ m. m - n) (length-append before (s ∷ [])) in
      let total = length-append before (s ∷ []) in
      elim (Bool-cases (ltb max (length (h.snapshots ++ s ∷ [])))) [
        | inl l ↦ rw l (
            ap (drop 1) pushed
            ∙ drop-drop n (before ++ s ∷ [])
            ∙ ap (λ m. drop m (before ++ s ∷ []))
                (cut_more max (length before) (length (h.snapshots ++ s ∷ []))
                  (length (before ++ s ∷ [])) size total l))
        | inr l ↦ rw l (
            pushed
            ∙ ap (λ m. drop m (before ++ s ∷ []))
                (cut_same max (length before) (length (h.snapshots ++ s ∷ []))
                  (length (before ++ s ∷ [])) size total l))
      ]

  add_snapshots-from :
      (before ss : List (MetricsSnapshot Figures)) (h : MetricsHistory Figures)
      → h.snapshots ≡ drop (length before - h.max_snapshots) before
      → (add_snapshots ss h).snapshots
        ≡ drop (length (before ++ ss) - h.max_snapshots) (before ++ ss)
  unfolding add_snapshots add_snapshot
  add_snapshots-from before [] h e =
      e ∙ ap (λ xs. drop (length xs - h.max_snapshots) xs) (sym (append-nil before))
  add_snapshots-from before (s ∷ ss) h e =
      add_snapshots-from (before ++ s ∷ []) ss (add_snapshot s h) (add_snapshot-window before s h e)
      ∙ ap (λ xs. drop (length xs - h.max_snapshots) xs) (append_assoc before (s ∷ []) ss)

  -- After any snapshots from a new history on, it holds the last of them in order, as many as
  -- its maximum allows, and never more.
  pub add_snapshots-window :
      (max interval : ℕ) (ss : List (MetricsSnapshot Figures))
      → let h = add_snapshots ss (new_history max interval) in
        (h.snapshots ≡ drop (length ss - max) ss) × (length h.snapshots ≤ max)
  unfolding new_history
  add_snapshots-window max interval ss =
      let window = add_snapshots-from [] ss (new_history max interval) (sym (drop-nil (0 - max))) in
      let size = ap length window ∙ length-drop (length ss - max) ss in
      (window, fits (length ss) max size)
    where
      fits : (n m : ℕ) {k : ℕ} → k ≡ n - (n - m) → k ≤ m
      fits n m e = omega (arith, e)
