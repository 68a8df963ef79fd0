-- ===== src/Forms/Submits.antt =====
-- What a form, and a button that asks first, send: nothing while their own request is under way.
use brackets.Base.{
  Bool, Bool-cases, Option, false, if◌then◌else◌, inl, inr, none, not, some, true, ◌||◌, ◌≡◌,
}

-- `form.handleSubmit(send)` of a form whose button is disabled while its mutation is pending.
unfoldable pub submits {ℓ} : {Body : Type ℓ} → (is_pending is_valid : Bool) → Body → Option Body
submits is_pending is_valid body = if is_pending || not is_valid then none else some body

-- A button that is disabled while its mutation is pending and asks for confirmation.
unfoldable pub confirms {ℓ} :
    {Request : Type ℓ} → (is_pending confirmed : Bool) → Request → Option Request
confirms is_pending confirmed request = if is_pending || not confirmed then none else some request

-- What holds of a request, if one is sent.
abbrev pub IfSent {ℓ} : {Request : Type ℓ} → (Request → Type 0) → Option Request → Type 0
IfSent P none = Unit
IfSent P (some r) = P r

module _ {ℓ} {Request : Type ℓ} (P : Request → Type 0) (is_pending : Bool) (r : Request) where
  pub submits-IfSent :
      (is_valid : Bool)
      → (is_pending ≡ false → is_valid ≡ true → P r)
      → IfSent P (submits is_pending is_valid r)
  unfolding submits
  submits-IfSent is_valid h = elim (Bool-cases is_pending) [
    | inl busy ↦ rw (busy, IfSent) tt
    | inr idle ↦ elim (Bool-cases is_valid) [
      | inl valid ↦ rw (idle, valid, IfSent) (h idle valid)
      | inr invalid ↦ rw (idle, invalid, IfSent) tt
    ]
  ]

  pub confirms-IfSent :
      (confirmed : Bool)
      → (is_pending ≡ false → confirmed ≡ true → P r)
      → IfSent P (confirms is_pending confirmed r)
  unfolding confirms submits
  confirms-IfSent confirmed h = submits-IfSent confirmed h
