-- ===== src/Streams/Splits.antt =====
-- How line endings and empty lines are found in a text that arrives in pieces.
use brackets.Base.{
  Bool, Bool-cases, Lacks, List, Text, [], ap, append-nil, ap₂, arith, false, inl, inr, length,
  length-append, refl, true, ℕ, ◌&&◌, ◌++◌, ◌==◌, ◌∙◌, ◌∷◌, ◌≡◌,
}
use brackets.Streams.{Split, normalize_from, normalize, put_char, add_chunk, split_blank}

-- Whether the last character is a carriage return; `last` is that of an empty text.
abbrev pub ends_with_return : (last : Bool) → Text → Bool
ends_with_return last [] = last
ends_with_return last (c ∷ s) = ends_with_return (c == 13) s

-- No piece but the last ends between a carriage return and what follows it.
abbrev pub Unbroken : List Text → Type 0
Unbroken [] = Unit
Unbroken (p ∷ []) = Unit
Unbroken (p ∷ q ∷ ps) = (ends_with_return false p ≡ false) × Unbroken (q ∷ ps)

abbrev pub whole : List Text → Text
whole [] = []
whole (p ∷ ps) = p ++ whole ps

normalize_from-append :
    (last : Bool) (s t : Text)
    → normalize_from last (s ++ t)
      ≡ normalize_from last s ++ normalize_from (ends_with_return last s) t
unfolding normalize_from
normalize_from-append last [] t = refl
normalize_from-append last (c ∷ s) t = ground (arith, normalize_from-append (c == 13) s t)

pub normalize-Lacks : (last : Bool) (s : Text) → Lacks 13 (normalize_from last s)
unfolding normalize_from
normalize-Lacks last [] = tt
normalize-Lacks last (c ∷ s) = elim (Bool-cases (c == 13)) [
  | inl return ↦ rw return (refl, normalize-Lacks true s)
  | inr other ↦ elim (Bool-cases (last && c == 10)) [
    | inl dropped ↦ rw (other, dropped) (normalize-Lacks false s)
    | inr kept ↦ rw (other, kept) (other, normalize-Lacks false s)
  ]
]

pub normalize_of_Lacks : (s : Text) → Lacks 13 s → normalize_from false s ≡ s
unfolding normalize_from
normalize_of_Lacks [] h = refl
normalize_of_Lacks (c ∷ s) (other, h) = rw (other, normalize_of_Lacks s h) refl

ends_with_return-Lacks : (s : Text) → Lacks 13 s → ends_with_return false s ≡ false
ends_with_return-Lacks [] h = refl
ends_with_return-Lacks (c ∷ s) (other, h) = rw other (ends_with_return-Lacks s h)

pub normalize-buffer :
    (buffer piece : Text)
    → Lacks 13 buffer
    → normalize (buffer ++ piece) ≡ buffer ++ normalize piece
unfolding normalize
normalize-buffer buffer piece h =
    normalize_from-append false buffer piece
    ∙ ap₂ ◌++◌ (normalize_of_Lacks buffer h)
        (ap (λ last. normalize_from last piece) (ends_with_return-Lacks buffer h))

pub normalize-whole :
    (p : Text) (ps : List Text)
    → Unbroken (p ∷ ps)
    → normalize (p ++ whole ps) ≡ normalize p ++ normalize (whole ps)
unfolding normalize
normalize-whole p [] h = normalize_from-append false p []
normalize-whole p (q ∷ ps) (closed, h) =
    normalize_from-append false p (whole (q ∷ ps))
    ∙ ap (λ last. normalize_from false p ++ normalize_from last (whole (q ∷ ps))) closed

put_char-none :
    (c : ℕ) (x : Split) → (put_char c x).0 ≡ [] → (x.0 ≡ []) × ((put_char c x).1 ≡ c ∷ x.1)
put_char-none c ([], rest) h = (refl, refl)
put_char-none c (x ∷ xs, rest) h = cc

-- Without a chunk, the rest is the whole text.
split_blank-none : (s : Text) → (split_blank s).0 ≡ [] → (split_blank s).1 ≡ s
unfolding split_blank
split_blank-none [] h = refl
split_blank-none (c ∷ []) h = refl
split_blank-none (c ∷ d ∷ s) h = elim (Bool-cases (c == 10 && d == 10)) [
  | inl blank ↦ let some_chunk : (add_chunk (split_blank s)).0 ≡ [] = rw blank at h in cc
  | inr other ↦
      let shown : (put_char c (split_blank (d ∷ s))).0 ≡ [] = rw other at h in
      let parts = put_char-none c (split_blank (d ∷ s)) shown in
      rw other (parts.1 ∙ ap (◌∷◌ c) (split_blank-none (d ∷ s) parts.0))
]

-- The split of a text that goes on behind another's rest.
abbrev pub resumed : Split → Text → Split
resumed x t = (x.0 ++ (split_blank (x.1 ++ t)).0, (split_blank (x.1 ++ t)).1)

put_char-resumed :
    (c d : ℕ) (s t : Text) (x : Split)
    → (c == 10 && d == 10) ≡ false
    → split_blank (d ∷ (s ++ t)) ≡ resumed x t
    → (x.0 ≡ [] → x.1 ≡ d ∷ s)
    → put_char c (split_blank (d ∷ (s ++ t))) ≡ resumed (put_char c x) t
unfolding split_blank
put_char-resumed c d s t ([], rest) other ih same = rw (same refl, other) refl
put_char-resumed c d s t (x ∷ xs, rest) other ih same = ap (put_char c) ih

pub split_blank-append : (s t : Text) → split_blank (s ++ t) ≡ resumed (split_blank s) t
unfolding split_blank
split_blank-append [] t = refl
split_blank-append (c ∷ []) t = refl
split_blank-append (c ∷ d ∷ s) t = elim (Bool-cases (c == 10 && d == 10)) [
  | inl blank ↦ rw blank (ap add_chunk (split_blank-append s t))
  | inr other ↦ rw other (
      put_char-resumed c d s t (split_blank (d ∷ s)) other (split_blank-append (d ∷ s) t)
        (split_blank-none (d ∷ s)))
]

append_self : (xs ys : List Text) → xs ≡ xs ++ ys → ys ≡ []
append_self xs [] h = refl
append_self xs (y ∷ ys) h = absurd (omega (arith, ap length h, length-append xs (y ∷ ys)))

-- The rest has no chunk.
pub split_blank-rest : (s : Text) → (split_blank (split_blank s).1).0 ≡ []
split_blank-rest s = append_self (split_blank s).0 (split_blank (split_blank s).1).0 (
    rw (append-nil s, append-nil (split_blank s).1) at
      (ap (λ (x : Split). x.0) (split_blank-append s [])))

-- Neither a part of a text nor its rest has a character that the text lacks.
put_char-Lacks :
    (sep c : ℕ) (x : Split) → (c == sep) ≡ false → Lacks sep x.1 → Lacks sep (put_char c x).1
put_char-Lacks sep c ([], rest) h k = (h, k)
put_char-Lacks sep c (x ∷ xs, rest) h k = k

pub split_blank-Lacks : (sep : ℕ) (s : Text) → Lacks sep s → Lacks sep (split_blank s).1
unfolding split_blank
split_blank-Lacks sep [] h = tt
split_blank-Lacks sep (c ∷ []) h = h
split_blank-Lacks sep (c ∷ d ∷ s) (h, (k, rest)) = elim (Bool-cases (c == 10 && d == 10)) [
  | inl blank ↦ rw blank (split_blank-Lacks sep s rest)
  | inr other ↦
      rw other
        (put_char-Lacks sep c (split_blank (d ∷ s)) h (split_blank-Lacks sep (d ∷ s) (k, rest)))
]
