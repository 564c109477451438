-- ===== src/Tips/Fed.antt =====
-- What the feed keeps of all that was delivered.
use Prim.Native.Nat.{min}
use mathlib.Core.List.{append-nil, append_assoc}
use solana_smart_tx.Base.{
  ℕ, ◌+◌, ◌-◌, ◌≤◌, ◌≡◌, refl, sym, ap, ◌∙◌, Bool, true, false, Option, none, some, List, [], ◌∷◌,
  ◌++◌, inl, inr, arith,
}
use solana_smart_tx.Base.Tests.{leb, ltb, if◌then◌else◌, Bool-cases}
use solana_smart_tx.Base.Lists.{length, length-append}
use solana_smart_tx.Base.Result.{Result, err, ok}
use solana_smart_tx.Stream.Backoff.{Backoff, next_delay}
use solana_smart_tx.Tips.Types.{TipSnapshot}
use solana_smart_tx.Tips.Tracker.{
  TipState, TipSource, web_socket, rest, trim_history, store, ingest,
}
use solana_smart_tx.Tips.History.{Trimmed, trim_history-Trimmed}
use solana_smart_tx.Tips.Feed.{
  FeedConfig, RestPoll, Round, ingest_frames, ingest_reply, nap_before, rest_poll_during,
  backoff_after, run,
}

abbrev pub parsed : Option TipSnapshot → List TipSnapshot
parsed none = []
parsed (some s) = s ∷ []

abbrev pub parsed_frames : List (Option TipSnapshot) → List TipSnapshot
parsed_frames [] = []
parsed_frames (f ∷ l) = parsed f ++ parsed_frames l

abbrev pub parsed_reply : Result (Option TipSnapshot) → List TipSnapshot
parsed_reply (err e) = []
parsed_reply (ok f) = parsed f

-- The polls up to the first that answers when the deadline has passed.
abbrev pub parsed_polls : (deadline : ℕ) → List RestPoll → List TipSnapshot
parsed_polls deadline [] = []
parsed_polls deadline (p ∷ l) =
    let later = parsed_polls deadline l in
    parsed_reply p.reply ++ (if leb deadline p.now then [] else later)

trim-trim :
    (c : ℕ) (x l : List TipSnapshot)
    → trim_history c (trim_history c x ++ l) ≡ trim_history c (x ++ l)
unfolding trim_history
trim-trim c [] l = refl
trim-trim c (s ∷ x) l = elim (Bool-cases (ltb c (length (s ∷ x)))) [
  | inl e ↦ rw e (trim-trim c x l ∙ longer e)
  | inr e ↦ rw e refl
]
  where
    longer :
        ltb c (length (s ∷ x)) ≡ true
        → trim_history c (x ++ l)
          ≡ (if ltb c (length (s ∷ x ++ l)) then trim_history c (x ++ l) else s ∷ x ++ l)
    longer e =
        let still : ltb c (length (s ∷ x ++ l)) ≡ true = ground (arith, length-append x l) in
        rw still refl

trim_again : (c : ℕ) (x : List TipSnapshot) → trim_history c (trim_history c x) ≡ trim_history c x
trim_again c x =
    ap (trim_history c) (sym (append-nil (trim_history c x)))
    ∙ trim-trim c x []
    ∙ ap (trim_history c) (append-nil x)

-- The history is within the capacity: trimming leaves it as it is.
abbrev Kept : ℕ → List TipSnapshot → Type 0
Kept c h = trim_history c h ≡ h

within-Kept : (c : ℕ) (h : List TipSnapshot) → length h ≤ c → Kept c h
unfolding trim_history
within-Kept c [] le = refl
within-Kept c (s ∷ h) le = elim (Bool-cases (ltb c (length (s ∷ h)))) [
  | inl over ↦ absurd (ground arith)
  | inr fits ↦ rw fits refl
]

-- From one history to the next by the snapshots of `l`: the last ones, as many as the capacity.
abbrev Feeds : ℕ → List TipSnapshot → List TipSnapshot → List TipSnapshot → Type 0
Feeds c h l h' = Kept c h → Kept c h' × (h' ≡ trim_history c (h ++ l))

Feeds-refl : (c : ℕ) (h : List TipSnapshot) → Feeds c h [] h
Feeds-refl c h k = (k, sym k ∙ ap (trim_history c) (sym (append-nil h)))

Feeds-trans :
    (c : ℕ) (h l h' r h'' : List TipSnapshot)
    → Feeds c h l h'
    → Feeds c h' r h''
    → Feeds c h (l ++ r) h''
Feeds-trans c h l h' r h'' f g k =
    let (k', e) = f k in
    let (k'', e') = g k' in
    (
      k'',
      e'
          ∙ ap (λ t. trim_history c (t ++ r)) e
          ∙ trim-trim c (h ++ l) r
          ∙ ap (trim_history c) (append_assoc h l r),
    )

module _ (cfg : FeedConfig) where
  abbrev FeedsState : TipState → List TipSnapshot → TipState → Type 0
  FeedsState st l st' = Feeds cfg.history_capacity st.history l st'.history

  ingest-Feeds :
      (st : TipState) (f : Option TipSnapshot) (source : TipSource)
      → FeedsState st (parsed f) (ingest cfg.history_capacity st f source)
  unfolding ingest store
  ingest-Feeds st none source = Feeds-refl cfg.history_capacity st.history
  ingest-Feeds st (some s) source =
      λ k. (trim_again cfg.history_capacity (st.history ++ s ∷ []), refl)

  frames-Feeds :
      (l : List (Option TipSnapshot)) (st : TipState)
      → FeedsState st (parsed_frames l) (ingest_frames cfg l st)
  unfolding ingest_frames
  frames-Feeds [] st = Feeds-refl cfg.history_capacity st.history
  frames-Feeds (f ∷ l) st =
      let st' = ingest cfg.history_capacity st f web_socket in
      Feeds-trans cfg.history_capacity st.history (parsed f) st'.history (parsed_frames l) _
        (ingest-Feeds st f web_socket) (frames-Feeds l st')

  reply-Feeds :
      (r : Result (Option TipSnapshot)) (st : TipState)
      → FeedsState st (parsed_reply r) (ingest_reply cfg r st)
  reply-Feeds (err e) st = Feeds-refl cfg.history_capacity st.history
  reply-Feeds (ok f) st = ingest-Feeds st f rest

  polls-Feeds :
      (deadline : ℕ) (l : List RestPoll) (st : TipState)
      → FeedsState st (parsed_polls deadline l) (rest_poll_during cfg deadline l st).state
  unfolding rest_poll_during
  polls-Feeds deadline [] st = Feeds-refl cfg.history_capacity st.history
  polls-Feeds deadline (p ∷ l) st =
      let st' = ingest_reply cfg p.reply st in
      go (leb deadline p.now) st' (reply-Feeds p.reply st) (polls-Feeds deadline l st')
    where
      go :
          (b : Bool) (st' : TipState)
          → FeedsState st (parsed_reply p.reply) st'
          → FeedsState st' (parsed_polls deadline l) (rest_poll_during cfg deadline l st').state
          → FeedsState st
              (parsed_reply p.reply ++ (if b then [] else parsed_polls deadline l))
              (if b
                then record { state = st'; naps = []; done = true }
                else nap_before cfg
                    (min (deadline - p.now) cfg.rest_poll_interval)
                    (rest_poll_during cfg deadline l st')).state
      go true st' h later =
          Feeds-trans cfg.history_capacity st.history (parsed_reply p.reply) st'.history []
            st'.history h (Feeds-refl cfg.history_capacity st'.history)
      go false st' h later =
          Feeds-trans cfg.history_capacity st.history (parsed_reply p.reply) st'.history
            (parsed_polls deadline l) _ h later

  -- The snapshots of the rounds, in the order of their arrival: those of each connection's frames, then
  -- those of the polls until its delay is over.
  abbrev pub delivered : List Round → Backoff → List TipSnapshot
  delivered [] b = []
  delivered (r ∷ l) b =
      let (delay, b') = next_delay r.jitter (backoff_after cfg r b) in
      parsed_frames r.frames ++ (parsed_polls (r.down_at + delay) r.polls ++ delivered l b')

  run_lem :
      (l : List Round) (st : TipState) (b : Backoff)
      → FeedsState st (delivered l b) (run cfg l st b).state
  unfolding run
  run_lem [] st b = Feeds-refl cfg.history_capacity st.history
  run_lem (r ∷ l) st b =
      let (delay, b') = next_delay r.jitter (backoff_after cfg r b) in
      let st1 = ingest_frames cfg r.frames st in
      let st2 = (rest_poll_during cfg (r.down_at + delay) r.polls st1).state in
      let polls = parsed_polls (r.down_at + delay) r.polls in
      Feeds-trans cfg.history_capacity st.history (parsed_frames r.frames) st1.history
        (polls ++ delivered l b') _ (frames-Feeds r.frames st)
        (Feeds-trans cfg.history_capacity st1.history polls st2.history (delivered l b') _
          (polls-Feeds (r.down_at + delay) r.polls st1) (run_lem l st2 b'))

  -- After any rounds of the two feeds, the history is a last part of all the snapshots: of the ones it
  -- had at the start, then of the ones that were parsed, of both feeds in the order of their arrival,
  -- where a text that does not parse and a poll that fails leave no gap. It is within the capacity, and
  -- is all of them or fills the capacity, if it was within the capacity at the start.
  pub run-Feeds :
      (l : List Round) (st : TipState) (b : Backoff)
      → length st.history ≤ cfg.history_capacity
      → Trimmed cfg.history_capacity (st.history ++ delivered l b) (run cfg l st b).state.history
  run-Feeds l st b le =
      let (_, e) = run_lem l st b (within-Kept cfg.history_capacity st.history le) in
      rw e (trim_history-Trimmed cfg.history_capacity (st.history ++ delivered l b))
