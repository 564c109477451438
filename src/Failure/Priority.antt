-- ===== src/Failure/Priority.antt =====
-- How the patterns of a `sendBundle` rejection take precedence over one another.
use mathlib.Core.List.{append_assoc}
use solana_smart_tx.Base.{
  ◌≡◌, refl, sym, ◌↔◌, inl, inr, Bool, true, false, ◌||◌, List, [], ◌∷◌, ◌++◌, arith,
}
use solana_smart_tx.Base.Tests.{nat_eq, Bool-cases}
use solana_smart_tx.Base.Lists.{any}
use solana_smart_tx.Base.Text.{Text, codes, starts_with, has, lower_char, to_lowercase}
use solana_smart_tx.Failure.Types.{fee_too_low, bundle_failure, transport_error, certain, likely}
use solana_smart_tx.Failure.Rejection.{
  transport_patterns, mentions, looks_like_transport, low_tip, simulation_failed, malformed,
  classify_submit_rejection,
}
use solana_smart_tx.Submitter.Types.{transport, display}
use solana_smart_tx.Failure.Causes.{verdict}

starts_with-append : (p s t : Text) → starts_with p s ≡ true → starts_with p (s ++ t) ≡ true
unfolding starts_with
starts_with-append [] s t h = refl
starts_with-append (c ∷ p) [] t h = cc
starts_with-append (c ∷ p) (d ∷ s) t h = ground (arith, starts_with-append p s t)

has-append_right : (p s t : Text) → has p s ≡ true → has p (s ++ t) ≡ true
unfolding has
has-append_right p [] [] h = h
has-append_right p [] (c ∷ t) h = ground (arith, starts_with-append p [] (c ∷ t))
has-append_right p (c ∷ s) t h =
    ground (arith, starts_with-append p (c ∷ s) t, has-append_right p s t)

has-append_left : (p s t : Text) → has p t ≡ true → has p (s ++ t) ≡ true
unfolding has
has-append_left p [] t h = h
has-append_left p (c ∷ s) t h = ground (arith, has-append_left p s t h)

to_lowercase-append : (s t : Text) → to_lowercase (s ++ t) ≡ to_lowercase s ++ to_lowercase t
unfolding to_lowercase
to_lowercase-append [] t = refl
to_lowercase-append (c ∷ s) t =
    rw (to_lowercase-append s t)
      (sym (append_assoc (lower_char c) (to_lowercase s) (to_lowercase t)))

any_mono {ℓ} :
    {A : Type ℓ} (p q : A → Bool) (xs : List A)
    → ((x : A) → p x ≡ true → q x ≡ true)
    → any p xs ≡ true
    → any q xs ≡ true
any_mono p q [] h e = e
any_mono p q (x ∷ xs) h e = ground (arith, h x, any_mono p q xs h)

-- A transport pattern is found in whatever surrounds it.
looks_like_transport-append :
    (s t u : Text) → looks_like_transport t ≡ true → looks_like_transport (s ++ (t ++ u)) ≡ true
unfolding looks_like_transport mentions
looks_like_transport-append s t u h =
    any_mono (λ p. has (codes p) t) (λ p. has (codes p) (s ++ (t ++ u))) transport_patterns
      (λ p e. has-append_left (codes p) s (t ++ u) (has-append_right (codes p) t u e)) h

transport_verdict :
    (raw : Text)
    → looks_like_transport (to_lowercase raw) ≡ true
    → verdict (classify_submit_rejection raw) ≡ (transport_error, certain)
unfolding classify_submit_rejection
transport_verdict raw h = rw h refl

transport_inversion :
    (raw : Text)
    → (classify_submit_rejection raw).kind ≡ transport_error
    → looks_like_transport (to_lowercase raw) ≡ true
unfolding classify_submit_rejection
transport_inversion raw e = elim (Bool-cases (looks_like_transport (to_lowercase raw))) [
  | inl b ↦ b
  | inr b ↦ ground arith
]

-- A raw error that is classed as a transport error stays one inside any longer message, whatever
-- else that message mentions: no surrounding text can turn it into a tip or a bundle problem.
pub transport_in_context :
    (before raw after : Text)
    → (classify_submit_rejection raw).kind ≡ transport_error
    → verdict (classify_submit_rejection (before ++ (raw ++ after))) ≡ (transport_error, certain)
transport_in_context before raw after e = transport_verdict (before ++ (raw ++ after)) (
    rw (to_lowercase-append before (raw ++ after), to_lowercase-append raw after)
      (looks_like_transport-append (to_lowercase before) (to_lowercase raw) (to_lowercase after)
        (transport_inversion raw e)))

prefix_is_transport : (classify_submit_rejection (codes "transport error: ")).kind ≡ transport_error
unfolding classify_submit_rejection looks_like_transport mentions has starts_with to_lowercase
    lower_char
prefix_is_transport = refl

-- Every submission error of the transport variant is classed as a transport error, for certain,
-- whatever text it carries.
pub transport_display :
    (e : Text)
    → verdict (classify_submit_rejection (display (transport e))) ≡ (transport_error, certain)
unfolding display
transport_display e = transport_in_context [] (codes "transport error: ") e prefix_is_transport

-- Without a transport pattern the class is a low tip exactly when the text says so, and else a bundle
-- failure, which is only likely exactly when no known pattern is there; the class is then never
-- another one.
pub auction_rejection :
    (raw : Text)
    → looks_like_transport (to_lowercase raw) ≡ false
    → let lower = to_lowercase raw in
      let c = classify_submit_rejection raw in
      ((c.kind ≡ fee_too_low) ↔ (low_tip lower ≡ true))
      × ((c.kind ≡ bundle_failure) ↔ (low_tip lower ≡ false))
      × ((c.confidence ≡ likely)
          ↔ ((low_tip lower || simulation_failed lower || malformed lower) ≡ false))
unfolding classify_submit_rejection
auction_rejection raw h = ground arith
