-- ===== src/Tls/Server.antt =====
-- tls/tls_server.c: a connection of the endpoint, and its main loop.
pub mod Query
pub mod Probed
pub mod Reports
use hybrid_tls_lab.Prelude.{
  ℕ, Bool, not, ◌||◌, Option, none, some, List, [], ◌∷◌, ◌++◌, ltb, leb, ◌==◌, if◌then◌else◌,
  length, take,
}
use hybrid_tls_lab.Prelude.Text.{Text, codes, is_empty, starts_with, contains}
use hybrid_tls_lab.Prelude.Text.Decimal.{str_of}
use hybrid_tls_lab.Prelude.Json.{drop_codes}
use hybrid_tls_lab.Prelude.Json.RoundTrip.{Field, quoted, object_text}
use hybrid_tls_lab.Tls.Common.{snprintf, sub64, valid_identifier}
use hybrid_tls_lab.Tls.Options.{ℤ, ServerOptions, parse_server}

-- What follows the first occurrence of a pattern, `strstr(s, pattern) + strlen(pattern)`
unfoldable pub after_first : (pattern s : Text) → Option Text
after_first pattern [] = if is_empty pattern then some [] else none
after_first pattern (c ∷ s) =
    if starts_with (c ∷ s) pattern
    then some (drop_codes (length pattern) (c ∷ s))
    else after_first pattern s

abbrev pub ends_value : ℕ → Bool
ends_value c = c == b'&' || c == b' ' || c == 13 || c == 10

-- The characters up to one that ends a value.
unfoldable pub value_of : Text → Text
value_of [] = []
value_of (c ∷ s) = if ends_value c then [] else c ∷ value_of s

-- none for -1
unfoldable pub extract_query_value : (request name : Text) → (output_size : ℕ) → Option Text
extract_query_value request name output_size =
    elim (after_first (snprintf 64 (name ++ codes "=")) request) [
      | none ↦ none
      | some s ↦
          let value = value_of s in
          if length value == 0 || leb output_size (length value)
          then none
          else if valid_identifier value
          then some value
          else none
    ]

-- What the calls of one connection return.
pub record Accepted : Type 0 where
  -- `SSL_new` and `SSL_accept`
  pub has_ssl : Bool
  pub accepted : Bool
  -- the clock before and after the handshake
  pub started : ℕ
  pub completed : ℕ
  -- the one `SSL_read`, none if it is not positive
  pub received : Option Text
  -- `SSL_group_to_name`, `SSL_get_version` and `SSL_get_cipher_name`
  pub group_name : Option Text
  pub version : Text
  pub cipher_name : Text

abbrev pub group_text : Option Text → Text
group_text none = codes "unknown"
group_text (some s) = s

-- The members that both the response and the report have at the end.
unfoldable pub measured_fields : ServerOptions → Accepted → List Field
measured_fields options c =
    (codes "mode", quoted options.mode)
    ∷ (codes "expected_group", quoted options.group)
    ∷ (codes "negotiated_group", quoted (snprintf 100 (group_text c.group_name)))
    ∷ (codes "tls_version", quoted (snprintf 50 c.version))
    ∷ (codes "cipher", quoted (snprintf 120 c.cipher_name))
    ∷ (codes "server_handshake_us", str_of (sub64 c.completed c.started))
    ∷ []

-- A request of the program to the dashboard: the path and the body.
abbrev pub Report : Type 0
Report = Text × Text

-- What a connection has sent: a response to the client, and a report to the dashboard.
pub record Handled : Type 0 where
  pub response : Option Text
  pub report : Option Report

abbrev pub closed : Handled
closed = record { response = none; report = none }

-- The identifiers that are reported under, if the request asks for a record of valid ones.
unfoldable pub record_ids : (request : Text) → Option (Text × Text)
record_ids request =
    if contains (codes "record=1") request
    then elim (extract_query_value request (codes "sample_id") 180) [
      | none ↦ none
      | some sample_id ↦ elim (extract_query_value request (codes "run_id") 140) [
        | none ↦ none
        | some run_id ↦ some (sample_id, run_id)
      ]
    ]
    else none

-- The sample id that the response shows: it is extracted where a record is asked for, also if the
-- run id then is not valid. An id that fails its test has been copied if it fits.
unfoldable pub shown_id : (request : Text) → Text
shown_id request =
    if contains (codes "record=1") request
    then elim (after_first (codes "sample_id=") request) [
      | none ↦ []
      | some s ↦ let value = value_of s in if leb 180 (length value) then [] else value
    ]
    else []

unfoldable pub response_text : (body : Text) → Text
response_text body =
    codes "HTTP/1.1 200 OK\r\nContent-Type: application/json\r\nContent-Length: "
    ++ (str_of (length body)
        ++ (codes "\r\nConnection: close\r\nCache-Control: no-store\r\n\r\n" ++ body))

unfoldable pub response_of : ServerOptions → Accepted → (request : Text) → Option Text
response_of options c request =
    let body =
      snprintf 768 (
        object_text ((codes "sample_id", quoted (shown_id request)) ∷ measured_fields options c)) in
    let response = response_text body in if ltb (length response) 1400 then some response else none

unfoldable pub report_of : ServerOptions → Accepted → (sample_id run_id : Text) → Report
report_of options c sample_id run_id = (
  codes "/api/measurements/server",
  snprintf 1200 (
      object_text (
        (codes "sample_id", quoted sample_id)
        ∷ (codes "run_id", quoted run_id)
        ∷ measured_fields options c)),
)

unfoldable pub handle_connection : ServerOptions → Accepted → Handled
handle_connection options c = if not c.has_ssl || not c.accepted then closed else elim c.received [
  | none ↦ closed
  | some s ↦
      let request = take 2047 s in
      record {
        response = response_of options c request;
        report = elim (record_ids request) [
          | none ↦ none
          | some (sample_id, run_id) ↦ some (report_of options c sample_id run_id)
        ];
      }
]

-- What the loop sees of `accept`: a connection, an EINTR with no signal to stop, a signal to stop, or
-- another error.
pub data Event : Type 0 where
  connection : Accepted → Event
  interrupted : Event
  stopped : Event
  broken : Event

unfoldable pub serve_loop : ServerOptions → List Event → List Handled
serve_loop options [] = []
serve_loop options (connection c ∷ events) = handle_connection options c ∷ serve_loop options events
serve_loop options (interrupted ∷ events) = serve_loop options events
serve_loop options (stopped ∷ events) = []
serve_loop options (broken ∷ events) = []

-- The exit status, and what the connections have sent. Of a context and a listener it is given
-- whether they could be made.
unfoldable pub server_main :
    (atoi : Text → ℤ) (create_context create_listener : ServerOptions → Bool)
    → List Text
    → List Event
    → ℕ × List Handled
server_main atoi create_context create_listener argv events = elim (parse_server atoi argv) [
  | none ↦ (2, [])
  | some options ↦
      if not (create_context options)
      then (1, [])
      else if not (create_listener options)
      then (1, [])
      else (0, serve_loop options events)
]
