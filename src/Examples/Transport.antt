-- ===== src/Examples/Transport.antt =====
-- What a request carries, and a stream of events that arrives in pieces.
use brackets.Base.{
  Any, Bool, List, Option, Text, [], all_digits, codes, decimal, digits_value, false, if◌then◌else◌,
  inl, inr, join, length, none, not, pos, record_get, record_spread, refl, some, starts_with,
  text_eq, true, truthy, ℕ, ℤ, ◌&&◌, ◌-ℤ◌, ◌==◌, ◌∷◌, ◌≡◌,
}
use brackets.Openapi.Urls.{PathValue, primitive}
use brackets.Openapi.Endpoints.Stages.{update_match_by_id}
use brackets.HttpClient.{Headers, text_value, merge_headers}
use brackets.HttpClient.Query.{a_text, items}
use brackets.HttpClient.Requests.{CallOptions, Config, before_request, configured, option_headers}
use brackets.Queries.{Options, no_options}
use brackets.Queries.Cached.{PageParam, at_offset, query_key, run_query, run_page}
use brackets.Queries.Table.{get_stages_query, get_teams_infinite_query}
use brackets.Queries.Same.{all_queries, same_request}
use brackets.HttpClient.Kept.{requested_with, before_request-configured}
use brackets.Streams.{StreamState, on_event, yielded, json, raw, read_pieces}
use brackets.Streams.Splits.{Unbroken, whole}
use brackets.Streams.Pieces.{read_whole, read_pieces-read_whole}
use brackets.Streams.Client.{
  Settings, Turn, refused, answered, requested, delivered, reported, slept, create_stream,
}
use brackets.Streams.Client.Retries.{IsBounded, create_stream-IsBounded}
use brackets.Examples.Addresses.{escaped}

-- Only decimal numbers are read.
abbrev read_number : Text → Option ℕ
read_number s = if truthy s && all_digits s then some (digits_value s) else none

abbrev read_delay : Text → Option ℤ
read_delay s = elim (read_number s) [ none ↦ none | some n ↦ some (pos n) ]

abbrev no_zero : ℕ → Bool
no_zero n = not (n == 0)

abbrev at_start : StreamState
at_start = record { last_event_id = none; retry_delay = pos 3000 }

-- Two events, cut inside the name of a field and between two line ends.
abbrev pieces : List Text
pieces =
    codes "id: 7\nda"
    ∷ codes "ta: 12\n"
    ∷ codes "\nevent: score\ndata: two\ndata: lines\nretry: 50\n\ndata: lost"
    ∷ []

pieces-Unbroken : Unbroken pieces
pieces-Unbroken = (refl, (refl, tt))

read_pieces-read_whole_example :
    read_pieces read_number no_zero some read_delay at_start [] pieces
    ≡ read_whole read_number no_zero some read_delay at_start (whole pieces)
read_pieces-read_whole_example =
    read_pieces-read_whole read_number no_zero some read_delay at_start pieces pieces-Unbroken

read_pieces_run :
    (read_pieces read_number no_zero some read_delay at_start [] pieces).deliveries
    ≡ on_event
        (record { payload = some (json 12); event = none; id = some (codes "7"); retry = pos 3000 })
      ∷ yielded (json 12)
      ∷ on_event (record {
        payload = some (raw (codes "two\nlines"));
        event = some (codes "score");
        id = some (codes "7");
        retry = pos 50;
      })
      ∷ yielded (raw (codes "two\nlines"))
      ∷ []
unfolding read_pieces brackets.Tournament.is_space all_digits digits_value
read_pieces_run = refl

abbrev three_attempts : Settings
three_attempts = record {
  default_retry_delay = some (pos 400);
  max_retry_attempts = some 3;
  max_retry_delay = some (pos 1000);
}

-- The server refuses once, breaks off behind an event, sends one that the validator rejects, and is
-- asked no more.
abbrev turns : List Turn
turns =
    refused
    ∷ answered (codes "data: 3\nid: 9\n\n" ∷ []) true
    ∷ answered (codes "data: 0\n\n" ∷ []) false
    ∷ refused
    ∷ []

create_stream-IsBounded_example :
    IsBounded three_attempts 0
      (length turns)
      (create_stream three_attempts read_number no_zero some read_delay turns)
create_stream-IsBounded_example =
    create_stream-IsBounded three_attempts read_number no_zero some read_delay turns

create_stream_run :
    create_stream three_attempts read_number no_zero some read_delay turns ≡ record {
      actions =
          requested none
          ∷ reported
          ∷ slept (pos 400)
          ∷ requested none
          ∷ delivered (
              on_event (record {
                payload = some (json 3);
                event = none;
                id = some (codes "9");
                retry = pos 400;
              }))
          ∷ delivered (yielded (json 3))
          ∷ reported
          ∷ slept (pos 800)
          ∷ requested (some (codes "9"))
          ∷ reported
          ∷ [];
      has_ended = true;
    }
unfolding create_stream brackets.Base.◌-ℤ◌ brackets.Tournament.is_space all_digits digits_value
create_stream_run = refl

-- No header of the pages is an object, so that none is printed.
abbrev print_nothing : List (Text × Text) → Text
print_nothing es = []

abbrev match_call : CallOptions
match_call = record {
  path = some (
      (codes "tournament_id", primitive (codes "1"))
      ∷ (codes "match_id", primitive (codes "31"))
      ∷ []);
  query =
      some ((codes "q", a_text (codes "a")) ∷ (codes "r", items (codes "b" ∷ codes "c" ∷ [])) ∷ []);
  headers = (codes "Accept", text_value (codes "application/json")) ∷ [];
}

before_request-configured_example :
    let config = configured print_nothing (codes "http://api") in
    let sent = before_request print_nothing escaped escaped config update_match_by_id match_call in
    (sent.with_credentials ≡ true)
    × (record_get requested_with sent.headers ≡ some (text_value (codes "XMLHttpRequest")))
    × (sent.headers
        ≡ merge_headers print_nothing config.headers
            (some (option_headers update_match_by_id match_call.headers)))
unfolding record_get brackets.Base.text_eq
before_request-configured_example =
    before_request-configured print_nothing escaped escaped (codes "http://api") update_match_by_id
      match_call refl

before_request_run :
    (before_request print_nothing escaped escaped
      (configured print_nothing (codes "http://api"))
      update_match_by_id
      match_call).url
    ≡ codes "http://api/api/tournaments/1/matches/31?q=a&r=b&r=c"
unfolding before_request record_get brackets.HttpClient.get_auth_token configured
    brackets.Base.record_spread brackets.Base.text_eq brackets.HttpClient.is_axios_keyword
    brackets.Base.join brackets.Openapi.serialize_primitive_param
    brackets.Openapi.serialize_array_param brackets.Base.starts_with
    brackets.Openapi.Urls.replace_first
before_request_run = refl

abbrev api : Config
api = configured print_nothing (codes "http://api")

abbrev stages_options : Options
stages_options = record no_options {
  path = some ((codes "tournament_id", primitive (codes "1")) ∷ []);
}

-- An empty base address is as good as none.
abbrev based_options : Options
based_options = record stages_options { base_url = some [] }

same_key :
    query_key api get_stages_query stages_options ≡ query_key api get_stages_query based_options
unfolding query_key configured
same_key = refl

listed : Any (λ q. q ≡ get_stages_query) all_queries
listed =
    inr
      (inr (inr (inr (inr (inr (inr (inr (inr (inr (inr (inr (inr (inr (inr (inl refl)))))))))))))))

same_request_example :
    (run_query api print_nothing escaped escaped get_stages_query stages_options
      ≡ run_query api print_nothing escaped escaped get_stages_query based_options)
    × ((param : PageParam)
        → run_page api print_nothing escaped escaped get_stages_query stages_options param
          ≡ run_page api print_nothing escaped escaped get_stages_query based_options param)
same_request_example =
    same_request api print_nothing escaped escaped get_stages_query get_stages_query stages_options
      based_options listed listed same_key

-- The second page of a roster.
run_page_run :
    (run_page api print_nothing escaped escaped get_teams_infinite_query stages_options
      (at_offset 25)).0.url
    ≡ codes "http://api/api/tournaments/1/teams?offset=25"
unfolding run_page configured record_get brackets.HttpClient.get_auth_token record_spread
    brackets.HttpClient.is_axios_keyword text_eq join brackets.Openapi.serialize_primitive_param
    starts_with brackets.Openapi.Urls.replace_first brackets.Base.decimal
run_page_run = refl
