-- ===== src/Tournament/Trim.antt =====
-- Trimming a text twice is trimming it once.
use brackets.Base.{
  List-cases, Option, Text, [], ap, inl, inr, none, refl, some, sym, ℕ, ◌∙◌, ◌∷◌, ◌≡◌, ◌≢◌, ◌⊎◌,
}
use mathlib.Core.List.{cons-ne-nil}
use brackets.Tournament.{trim, trim_start, trim_end, keep_unless_last, normalize_dashboard_endpoint}
use brackets.Tournament.Laws.{StartsClean, EndsClean, trim-StartsClean, trim-EndsClean}

trim_start-same : (s : Text) → StartsClean s → trim_start s ≡ s
unfolding trim_start
trim_start-same [] h = refl
trim_start-same (c ∷ s) h = rw h refl

trim_end-same : (s : Text) → EndsClean s → trim_end s ≡ s
unfolding trim_end keep_unless_last
trim_end-same [] h = refl
trim_end-same (c ∷ []) h = rw h refl
trim_end-same (c ∷ d ∷ s) h = rw (trim_end-same (d ∷ s) h, keep_unless_last) refl

pub trim_idempotent : (s : Text) → trim (trim s) ≡ trim s
unfolding trim
trim_idempotent s = elim (List-cases (trim s)) [
  | inl e ↦ rw e refl
  | inr (c, t, e) ↦
      let kept : trim s ≢ [] = (λ n. cons-ne-nil c t (sym e ∙ n)) in
      ap trim_end (trim_start-same (trim s) (trim-StartsClean s kept))
      ∙ trim_end-same (trim s) (trim-EndsClean s kept)
]

shown :
    (s : Text)
    → (trim s ≡ []) ⊎ ((c : ℕ) × (t : Text) × (trim s ≡ c ∷ t))
    → normalize_dashboard_endpoint
        (some (elim (normalize_dashboard_endpoint (some s)) [ none ↦ [] | some u ↦ u ]))
      ≡ normalize_dashboard_endpoint (some s)
unfolding normalize_dashboard_endpoint trim
shown s (inl e) = rw (e, trim) refl
shown s (inr (c, t, e)) =
    let again : trim (c ∷ t) ≡ c ∷ t = rw e at (trim_idempotent s) in rw (e, again) refl

-- A link that has been normalised is kept, and so is its absence, which is shown as an empty text.
pub normalize_dashboard_endpoint-shown :
    (link : Option Text)
    → normalize_dashboard_endpoint
        (some (elim (normalize_dashboard_endpoint link) [ none ↦ [] | some s ↦ s ]))
      ≡ normalize_dashboard_endpoint link
unfolding normalize_dashboard_endpoint trim
normalize_dashboard_endpoint-shown none = refl
normalize_dashboard_endpoint-shown (some s) = shown s (List-cases (trim s))
