-- ===== src/Tls/Server/Probed.antt =====
-- The request of a probe, and the identifiers that the endpoint takes from it.
use hybrid_tls_lab.Prelude.{
  ◌≤◌, ◌≡◌, refl, ap, ◌∙◌, arith, Bool, true, false, none, some, ◌++◌, if◌then◌else◌, length, take,
  take_of_le, length-append,
}
use hybrid_tls_lab.Prelude.Text.{Text, codes, all_codes, contains}
use hybrid_tls_lab.Schemas.{is_id}
use hybrid_tls_lab.Tls.Server.{after_first, extract_query_value, record_ids}
use hybrid_tls_lab.Tls.Server.Query.{
  is_not, after_first-past, contains-past, id_has_no_equals, id_codes-of-is_id, length-of-is_id,
  extract-found,
}
use hybrid_tls_lab.Tls.Benchmark.{request_text}

module _ (sample_id run_id host : Text) (sample : is_id 160 sample_id ≡ true)
    (run : is_id 139 run_id ≡ true) (name : all_codes (is_not b'=') host ≡ true)
    (short : length host ≤ 253) where
  -- What follows the run id.
  abbrev tail_text : Bool → Text
  tail_text record_sample =
      codes "&record="
      ++ ((if record_sample then codes "1" else codes "0")
          ++ (codes " HTTP/1.1\r\nHost: " ++ (host ++ codes "\r\nConnection: close\r\n\r\n")))

  abbrev whole_text : Bool → Text
  whole_text record_sample =
      codes "GET /probe?sample_id="
      ++ (sample_id ++ (codes "&run_id=" ++ (run_id ++ tail_text record_sample)))

  whole_text-fits : (b : Bool) → length (whole_text b) ≤ 639
  whole_text-fits true = omega (
    arith,
    length-of-is_id 160 sample_id sample,
    length-of-is_id 139 run_id run,
    length-append sample_id (codes "&run_id=" ++ (run_id ++ tail_text true)),
    length-append run_id (tail_text true),
    length-append host (codes "\r\nConnection: close\r\n\r\n"),
  )
  whole_text-fits false = omega (
    arith,
    length-of-is_id 160 sample_id sample,
    length-of-is_id 139 run_id run,
    length-append sample_id (codes "&run_id=" ++ (run_id ++ tail_text false)),
    length-append run_id (tail_text false),
    length-append host (codes "\r\nConnection: close\r\n\r\n"),
  )

  received : (b : Bool) → take 2047 (request_text sample_id run_id b host) ≡ whole_text b
  unfolding request_text
  received b =
      let fits = whole_text-fits b in
      ap (take 2047) (take_of_le 639 (whole_text b) fits)
      ∙ take_of_le 2047 (whole_text b) (omega arith)

  abbrev sample_no_equals : all_codes (is_not b'=') sample_id ≡ true
  sample_no_equals = id_has_no_equals sample_id (id_codes-of-is_id 160 sample_id sample)

  abbrev run_no_equals : all_codes (is_not b'=') run_id ≡ true
  run_no_equals = id_has_no_equals run_id (id_codes-of-is_id 139 run_id run)

  run_fits : is_id 160 run_id ≡ true
  unfolding is_id
  run_fits = ground arith

  sample_id_found :
      (b : Bool) → extract_query_value (whole_text b) (codes "sample_id") 180 ≡ some sample_id
  unfolding after_first
  sample_id_found b =
      extract-found (whole_text b) (codes "sample_id") sample_id b'&' _ 180 refl sample
        (omega (arith, length-of-is_id 160 sample_id sample)) refl

  run_id_found : (b : Bool) → extract_query_value (whole_text b) (codes "run_id") 140 ≡ some run_id
  unfolding after_first
  run_id_found b =
      extract-found (whole_text b) (codes "run_id") run_id b'&' _ 140
        (after_first-past b'&' (codes "run_id=") _ refl refl sample_id sample_no_equals) run_fits
        (omega (arith, length-of-is_id 139 run_id run)) refl

  -- The request after the run id, as it is searched.
  asks_for_record : (b : Bool) → contains (codes "record=1") (whole_text b) ≡ b
  asks_for_record true =
      contains-past b'&' (codes "record=1") _ refl refl sample_id sample_no_equals
      ∙ contains-past b'&' (codes "record=1") _ refl refl run_id run_no_equals
  asks_for_record false =
      contains-past b'&' (codes "record=1") _ refl refl sample_id sample_no_equals
      ∙ contains-past b'&' (codes "record=1") _ refl refl run_id run_no_equals
      ∙ contains-past 13 (codes "record=1") _ refl refl host name

record_ids-found :
    (request sample_id run_id : Text)
    → contains (codes "record=1") request ≡ true
    → extract_query_value request (codes "sample_id") 180 ≡ some sample_id
    → extract_query_value request (codes "run_id") 140 ≡ some run_id
    → record_ids request ≡ some (sample_id, run_id)
unfolding record_ids
record_ids-found request sample_id run_id asks sample run =
    rw asks (rw (sample, record_ids) (rw (run, record_ids)))

record_ids-unasked :
    (request : Text) → contains (codes "record=1") request ≡ false → record_ids request ≡ none
unfolding record_ids
record_ids-unasked request asks = rw asks

-- An endpoint that reads the request of a probe takes from it just the sample id and the run id that
-- the client put in, if the probe is recorded, and none if it is not: for identifiers of at most 160
-- and 139 characters, and a host of at most 253 with no equals sign.
pub record_ids-request_text :
    (sample_id run_id host : Text) (record_sample : Bool)
    → is_id 160 sample_id ≡ true
    → is_id 139 run_id ≡ true
    → all_codes (is_not b'=') host ≡ true
    → length host ≤ 253
    → record_ids (take 2047 (request_text sample_id run_id record_sample host))
      ≡ (if record_sample then some (sample_id, run_id) else none)
record_ids-request_text sample_id run_id host true sample run name short =
    ap record_ids (received sample_id run_id host sample run name short true)
    ∙ record_ids-found _ sample_id run_id
        (asks_for_record sample_id run_id host sample run name short true)
        (sample_id_found sample_id run_id host sample run name short true)
        (run_id_found sample_id run_id host sample run name short true)
record_ids-request_text sample_id run_id host false sample run name short =
    ap record_ids (received sample_id run_id host sample run name short false)
    ∙ record_ids-unasked _ (asks_for_record sample_id run_id host sample run name short false)
