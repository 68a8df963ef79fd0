-- ===== src/Streams/Client/Retries.antt =====
-- How often the client of event streams asks, what it reports, and how long it waits.
use brackets.Base.{
  Bool, Bool-cases, List, Option, Text, [], arith, false, inl, inr, leb, length, map, not, refl,
  some, suc, sym, true, ℕ, ℤ, ◌&&◌, ◌++◌, ◌-◌, ◌<◌, ◌∙◌, ◌∷◌, ◌≡◌, ◌≤ℤ◌, ◌≤◌,
}
use brackets.Streams.{StreamState, Delivery, read_pieces}
use brackets.Streams.Client.{
  math_min, doubled, Settings, Turn, aborted, refused, answered, Action, requested, delivered,
  reported, slept, Run, before, longest_wait, backoff, gives_up, catch_error, attempts,
  create_stream,
}

math_min_le : (a b : ℤ) → math_min a b ≤ℤ b
math_min_le a b = ground arith

backoff_bound :
    (settings : Settings) (delay : ℤ) (earlier : ℕ)
    → backoff settings delay earlier ≤ℤ longest_wait settings
unfolding backoff
backoff_bound settings delay earlier = math_min_le (doubled delay earlier) (longest_wait settings)

gives_up-some :
    (settings : Settings) (m n : ℕ)
    → settings.max_retry_attempts ≡ some m
    → gives_up settings n ≡ leb m n
unfolding gives_up
gives_up-some settings m n e = rw e refl

module _ {Value : Type 0} where
  abbrev pub requests : List (Action Value) → ℕ
  requests [] = 0
  requests (requested id ∷ rest) = suc (requests rest)
  requests (delivered d ∷ rest) = requests rest
  requests (reported ∷ rest) = requests rest
  requests (slept n ∷ rest) = requests rest

  abbrev pub reports : List (Action Value) → ℕ
  reports [] = 0
  reports (requested id ∷ rest) = reports rest
  reports (delivered d ∷ rest) = reports rest
  reports (reported ∷ rest) = suc (reports rest)
  reports (slept n ∷ rest) = reports rest

  -- No wait is longer than the settings allow.
  abbrev pub WaitsWithin : ℤ → List (Action Value) → Type 0
  WaitsWithin most [] = Unit
  WaitsWithin most (requested id ∷ rest) = WaitsWithin most rest
  WaitsWithin most (delivered d ∷ rest) = WaitsWithin most rest
  WaitsWithin most (reported ∷ rest) = WaitsWithin most rest
  WaitsWithin most (slept n ∷ rest) = (n ≤ℤ most) × WaitsWithin most rest

  requests-deliveries :
      (ds : List (Delivery Value)) (rest : List (Action Value))
      → requests (map delivered ds ++ rest) ≡ requests rest
  requests-deliveries [] rest = refl
  requests-deliveries (d ∷ ds) rest = requests-deliveries ds rest

  reports-deliveries :
      (ds : List (Delivery Value)) (rest : List (Action Value))
      → reports (map delivered ds ++ rest) ≡ reports rest
  reports-deliveries [] rest = refl
  reports-deliveries (d ∷ ds) rest = reports-deliveries ds rest

  WaitsWithin-deliveries :
      (most : ℤ) (ds : List (Delivery Value)) (rest : List (Action Value))
      → WaitsWithin most rest
      → WaitsWithin most (map delivered ds ++ rest)
  WaitsWithin-deliveries most [] rest h = h
  WaitsWithin-deliveries most (d ∷ ds) rest h = WaitsWithin-deliveries most ds rest h

  -- What is promised of the attempts that follow `earlier` ones, when `turns` answers are at hand.
  pub record IsBounded (settings : Settings) (earlier turns : ℕ) (r : Run Value) : Type 0 where
    pub waits : WaitsWithin (longest_wait settings) r.actions
    -- Each request but the last one of a stream that ends is reported rest failed.
    pub reported_once : reports r.actions ≤ requests r.actions
    pub unreported : requests r.actions ≤ suc (reports r.actions)
    pub none_open : r.has_ended ≡ false → requests r.actions ≡ reports r.actions
    -- There are no more attempts than are allowed, at least one, and the stream ends with them.
    pub limited :
        (m : ℕ)
        → settings.max_retry_attempts ≡ some m
        → (requests r.actions ≤ suc (m - suc earlier))
          × (suc (m - suc earlier) ≤ turns → r.has_ended ≡ true)

  module _ (settings : Settings) (id : Option Text) (ds : List (Delivery Value)) where
    abbrev attempt : Run Value → Run Value
    attempt = before (requested id ∷ map delivered ds)

    ended-IsBounded :
        (earlier turns : ℕ)
        → IsBounded settings earlier
            (suc turns)
            (attempt (record { actions = []; has_ended = true }))
    ended-IsBounded earlier turns = record {
      waits = WaitsWithin-deliveries (longest_wait settings) ds [] tt;
      reported_once = omega (arith, reports-deliveries ds [], requests-deliveries ds []);
      unreported = omega (arith, reports-deliveries ds [], requests-deliveries ds []);
      none_open = λ h. cc;
      limited = λ m e. (omega (arith, requests-deliveries ds []), λ h. refl);
    }

    gave_up-IsBounded :
        (earlier turns : ℕ)
        → IsBounded settings earlier
            (suc turns)
            (attempt (record { actions = reported ∷ []; has_ended = true }))
    gave_up-IsBounded earlier turns =
        let last = reported ∷ [] in
        record {
          waits = WaitsWithin-deliveries (longest_wait settings) ds last tt;
          reported_once = omega (arith, reports-deliveries ds last, requests-deliveries ds last);
          unreported = omega (arith, reports-deliveries ds last, requests-deliveries ds last);
          none_open = λ open_still. cc;
          limited = λ m e. (omega (arith, requests-deliveries ds last), λ enough. refl);
        }

    -- A wait after a failed attempt, before attempts that are bounded.
    waited-IsBounded :
        (delay : ℤ) (earlier turns : ℕ) (again : Run Value)
        → delay ≤ℤ longest_wait settings
        → gives_up settings (suc earlier) ≡ false
        → IsBounded settings (suc earlier) turns again
        → IsBounded settings earlier
            (suc turns)
            (attempt (before (reported ∷ slept delay ∷ []) again))
    waited-IsBounded delay earlier turns again short goes_on h =
        let rest = reported ∷ slept delay ∷ again.actions in
        let reported_here = reports-deliveries ds rest in
        let requested_here = requests-deliveries ds rest in
        record {
          waits = WaitsWithin-deliveries (longest_wait settings) ds rest (short, h.waits);
          reported_once = omega (arith, h.reported_once, reported_here, requested_here);
          unreported = omega (arith, h.unreported, reported_here, requested_here);
          none_open =
              λ open_still. omega (arith, h.none_open open_still, reported_here, requested_here);
          limited = λ m e.
              let more : leb m (suc earlier) ≡ false =
                sym (gives_up-some settings m (suc earlier) e) ∙ goes_on in
              let limits = h.limited m e in
              let left : suc earlier < m = ground arith in
              (
                omega (arith, limits.0, left, requested_here),
                λ enough. limits.1 (omega (arith, left)),
              );
        }

    catch_error-IsBounded :
        (state : StreamState) (earlier turns : ℕ) (again : Run Value)
        → IsBounded settings (suc earlier) turns again
        → IsBounded settings earlier
            (suc turns)
            (attempt (catch_error settings state earlier again))
    unfolding catch_error
    catch_error-IsBounded state earlier turns again h =
        elim (Bool-cases (gives_up settings (suc earlier))) [
          | inl stops ↦ rw stops (gave_up-IsBounded earlier turns)
          | inr goes_on ↦ rw goes_on (
              waited-IsBounded (backoff settings state.retry_delay earlier) earlier turns again
                (backoff_bound settings state.retry_delay earlier) goes_on h)
        ]

  module _ (settings : Settings) (parse_json : Text → Option Value) (validate : Value → Bool)
      (transform : Value → Option Value) (parse_int : Text → Option ℤ) where
    attempts-IsBounded :
        (earlier : ℕ) (state : StreamState) (turns : List Turn)
        → IsBounded settings earlier
            (length turns)
            (attempts settings parse_json validate transform parse_int earlier state turns)
    unfolding attempts
    attempts-IsBounded earlier state [] = record {
      waits = tt;
      reported_once = omega arith;
      unreported = omega arith;
      none_open = λ h. refl;
      limited = λ m e. (omega arith, λ h. absurd (omega arith));
    }
    attempts-IsBounded earlier state (aborted ∷ turns) = record {
      waits = tt;
      reported_once = omega arith;
      unreported = omega arith;
      none_open = λ h. refl;
      limited = λ m e. (omega arith, λ h. refl);
    }
    attempts-IsBounded earlier state (refused ∷ turns) =
        catch_error-IsBounded settings state.last_event_id [] state earlier (length turns) _
          (attempts-IsBounded (suc earlier) state turns)
    attempts-IsBounded earlier state (answered pieces breaks_off ∷ turns) =
        let p = read_pieces parse_json validate transform parse_int state [] pieces in
        elim (Bool-cases (p.is_sound && not breaks_off)) [
          | inl completed ↦
              rw completed
                (ended-IsBounded settings state.last_event_id p.deliveries earlier (length turns))
          | inr failed ↦ rw failed (
              catch_error-IsBounded settings state.last_event_id p.deliveries p.state earlier
                (length turns) _ (attempts-IsBounded (suc earlier) p.state turns))
        ]

    -- However the network answers, a stream has reported as many errors as it has sent requests, or
    -- one fewer if it has ended, and no wait is longer than the longest one allowed. With a limit on
    -- the attempts, there are no more requests than that, or a single one, and the stream has ended
    -- once so many turns have been taken.
    pub create_stream-IsBounded :
        (turns : List Turn)
        → IsBounded settings 0
            (length turns)
            (create_stream settings parse_json validate transform parse_int turns)
    unfolding create_stream
    create_stream-IsBounded turns = attempts-IsBounded 0 _ turns
