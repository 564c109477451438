-- ===== src/Tips/History.antt =====
-- What the tip tracker keeps of the snapshots that it is given.
use solana_smart_tx.Base.{
  ℕ, ◌-◌, ◌^◌, ◌<◌, ◌≤◌, ◌≡◌, ◌≢◌, refl, sym, ap, ◌∙◌, ◌⊎◌, inl, inr, ◌↔◌, true, Option, none, some,
  List, [], ◌∷◌, ◌++◌, arith,
}
use solana_smart_tx.Base.Tests.{nat_eq, ◌==◌, ltb, Bool-cases, Option-cases}
use solana_smart_tx.Base.Int.{to_i64, ◌-ℤ◌}
use solana_smart_tx.Base.Lists.{length, length-append, All}
use solana_smart_tx.Tips.Types.{TipSnapshot, TipTrend}
use solana_smart_tx.Tips.Tracker.{
  TipSource, TipState, trim_history, store, back, is_stale, in_window, find_in_window,
  compute_trend,
}

back-append : (l : List TipSnapshot) (s : TipSnapshot) → back (l ++ s ∷ []) ≡ some s
unfolding back
back-append [] s = refl
back-append (a ∷ []) s = refl
back-append (a ∷ b ∷ l) s = back-append (b ∷ l) s

-- A suffix that is as long as the capacity allows.
abbrev pub Trimmed : ℕ → List TipSnapshot → List TipSnapshot → Type 0
Trimmed capacity l kept =
    (dropped : List TipSnapshot) × (l ≡ dropped ++ kept)
    × (length kept ≤ capacity)
    × ((dropped ≡ []) ⊎ (length kept ≡ capacity))

pub trim_history-Trimmed :
    (capacity : ℕ) (l : List TipSnapshot) → Trimmed capacity l (trim_history capacity l)
unfolding trim_history
trim_history-Trimmed capacity [] = ([], refl, omega arith, inl refl)
trim_history-Trimmed capacity (s ∷ l) = elim (Bool-cases (ltb capacity (length (s ∷ l)))) [
  | inr fits ↦ rw fits ([], refl, ground arith, inl refl)
  | inl over ↦
      let (dropped, e, short, full) = trim_history-Trimmed capacity l in
      rw over (
        s ∷ dropped,
        ap (λ k. s ∷ k) e,
        short,
        inr (elim full [
          | inr f ↦ f
          | inl kept_all ↦
              let same : l ≡ trim_history capacity l =
                e ∙ ap (λ d. d ++ trim_history capacity l) kept_all in
              ground (arith, ap length same)
        ]),
      )
]

back-suffix : (dropped kept : List TipSnapshot) → kept ≢ [] → back (dropped ++ kept) ≡ back kept
unfolding back
back-suffix [] kept ne = refl
back-suffix (a ∷ []) [] ne = absurd (ne refl)
back-suffix (a ∷ []) (k ∷ kept) ne = refl
back-suffix (a ∷ b ∷ dropped) kept ne = back-suffix (b ∷ dropped) kept ne

kept_some :
    (capacity : ℕ) (l : List TipSnapshot) (s : TipSnapshot) (kept : List TipSnapshot)
    → 1 ≤ capacity
    → Trimmed capacity (l ++ s ∷ []) kept
    → kept ≢ []
kept_some capacity l s kept large (dropped, e, short, inr full) h = ground (arith, ap length h)
kept_some capacity l s kept large (dropped, e, short, inl kept_all) h =
    absurd
      (ground (arith, length-append l (s ∷ []), ap length (e ∙ ap (λ d. d ++ kept) kept_all ∙ h)))

-- With a capacity of at least 1, a stored snapshot is the latest one, and the feed is stale from then
-- on exactly when that snapshot's age is over the threshold. The history is the newest part of what
-- was stored: it is within the capacity, and snapshots are dropped, the oldest first, only to make
-- room.
pub store-Trimmed :
    (capacity : ℕ) (state : TipState) (snapshot : TipSnapshot) (source : TipSource)
    (threshold now : ℕ)
    → 1 ≤ capacity
    → let state' = store capacity state snapshot source in
      Trimmed capacity (state.history ++ snapshot ∷ []) state'.history
      × (back state'.history ≡ some snapshot)
      × (is_stale threshold state' now ≡ ltb threshold (now - snapshot.taken_at))
unfolding store is_stale
store-Trimmed capacity state snapshot source threshold now large =
    let l = state.history ++ snapshot ∷ [] in
    let kept = trim_history capacity l in
    let trimmed : Trimmed capacity l kept = trim_history-Trimmed capacity l in
    let latest : back kept ≡ some snapshot =
      sym
        (back-suffix trimmed.0 kept (kept_some capacity state.history snapshot kept large trimmed))
      ∙ ap back (sym trimmed.1)
      ∙ back-append state.history snapshot in
    (trimmed, latest, rw (latest, is_stale) refl)

-- The first snapshot of the history that is within the window.
find_in_window_lem :
    (now window : ℕ) (l : List TipSnapshot) (oldest : TipSnapshot)
    → find_in_window now window l ≡ some oldest
    → (before : List TipSnapshot) × (after : List TipSnapshot) × (l ≡ before ++ oldest ∷ after)
      × All (λ s. window < now - s.taken_at) before
      × (now - oldest.taken_at ≤ window)
unfolding find_in_window
find_in_window_lem now window [] oldest e = cc
find_in_window_lem now window (s ∷ l) oldest e = elim (Bool-cases (in_window now window s)) [
  | inl within ↦
      let same : s ≡ oldest = let found : some s ≡ some oldest = rw within at e in cc in
      ([], l, ap (λ o. o ∷ l) same, tt, rw (sym same) (ground arith))
  | inr outside ↦
      let later : find_in_window now window l ≡ some oldest = rw outside at e in
      let (before, after, split, all, within) = find_in_window_lem now window l oldest later in
      (s ∷ before, after, ap (λ k. s ∷ k) split, (ground arith, all), within)
]

-- What a trend says of a history.
abbrev pub Trends : List TipSnapshot → ℕ → ℕ → Option TipTrend → Type 0
Trends history now window none =
    (back history ≡ none)
    ⊎ (All (λ s. window < now - s.taken_at) history)
    ⊎ ((latest : TipSnapshot) × (oldest : TipSnapshot) × (back history ≡ some latest)
        × (find_in_window now window history ≡ some oldest)
        × (oldest.taken_at ≡ latest.taken_at))
Trends history now window (some trend) =
    (latest : TipSnapshot) × (oldest : TipSnapshot) × (back history ≡ some latest)
    × ((before : List TipSnapshot) × (after : List TipSnapshot) × (history
          ≡ before ++ oldest ∷ after)
        × All (λ s. window < now - s.taken_at) before
        × (now - oldest.taken_at ≤ window))
    × (oldest.taken_at ≢ latest.taken_at)
    × (latest.p50_lamports < 2 ^ 63
        → oldest.p50_lamports < 2 ^ 63
        → (trend.rising ≡ true) ↔ (oldest.p50_lamports < latest.p50_lamports))

none_in_window :
    (now window : ℕ) (l : List TipSnapshot)
    → find_in_window now window l ≡ none
    → All (λ s. window < now - s.taken_at) l
unfolding find_in_window
none_in_window now window [] e = tt
none_in_window now window (s ∷ l) e = elim (Bool-cases (in_window now window s)) [
  | inl within ↦ let taken : some s ≡ none = rw within at e in absurd (cc)
  | inr outside ↦ (ground arith, none_in_window now window l (rw outside at e))
]

-- A reported trend compares the latest snapshot with another one, the first of the history that lies
-- within the window. It is rising exactly when the median has grown between them, as long as the two
-- medians are below 2^63. No trend is reported only if there is no snapshot, none lies within the
-- window, or the first that does was taken at the time of the latest.
pub compute_trend-Trends :
    (history : List TipSnapshot) (now window : ℕ)
    → Trends history now window (compute_trend history now window)
unfolding compute_trend to_i64 ◌-ℤ◌
compute_trend-Trends history now window = elim (Option-cases (back history)) [
  | inl e ↦ rw (e, compute_trend) (inl e)
  | inr (latest, e) ↦ elim (Option-cases (find_in_window now window history)) [
    | inl e' ↦ rw (e, compute_trend, e') (inr (inl (none_in_window now window history e')))
    | inr (oldest, e') ↦ elim (Bool-cases (oldest.taken_at == latest.taken_at)) [
      | inl alone ↦
          rw (e, compute_trend, e', alone) (inr (inr (latest, oldest, e, e', ground arith)))
      | inr apart ↦
          rw (e, compute_trend, e', apart)
            (
              latest,
              oldest,
              e,
              find_in_window_lem now window history oldest e',
              (λ h. ground arith),
              λ b1 b2. ground arith,
            )
    ]
  ]
]
