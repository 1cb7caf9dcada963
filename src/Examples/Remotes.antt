-- ===== src/Examples/Remotes.antt =====
-- The theorems on the KV Connect protocol, with a server that fails the first attempt to read its
-- metadata.
use denokv.Prelude.{
  ℕ, zero, suc, ◌+◌, ◌*◌, ◌<◌, ◌≡◌, refl, true, false, none, some, List, [], ◌∷◌, ◌==◌,
  if◌then◌else◌, Result, ok, err, data_clone, inl, arith,
}
use denokv.Prelude.Int.{pos}
use denokv.Bytes.{equal_bytes}
use denokv.Bytes.Reader.{ByteReader, IsValid}
use denokv.KvUtil.Value.{Value}
use denokv.Sleep.{retry_loop}
use denokv.ProtoBased.{aw_success}
use denokv.KvConnect.Parsed.{
  Json, json_object, json_nat, json_string, json_array, no_items, item, no_fields, field,
  version_name, database_id_name, endpoints_name, token_name, expires_at_name, url_name,
  consistency_name,
}
use denokv.KvConnect.Patterns.{https_text, is_uuid, is_date_time}
use denokv.KvConnect.Metadata.{
  strong_text, eventual_text, strong, eventual, DatabaseMetadata, is_endpoint,
  is_valid_endpoint_url, is_endpoint_info, are_endpoints, is_database_metadata,
}
use denokv.KvConnect
use denokv.KvConnect.{
  HttpRequest, HttpResponse, supported_versions_json, message_bytes, application_json, x_protobuf,
  SnapshotReadOutput, sr_success, WatchOutput, Platform, metadata_request, fetch_database_metadata,
}
use denokv.KvConnect.Exchange.{IsServerError, IsMetadata, fetch_database_metadata-retried}
use denokv.Remote
use denokv.Remote.Choice.{choose_endpoint, response_check}
use denokv.Remote.{
  RemoteServiceOptions, Config, RemoteKv, config_of, open_remote, snapshot_read, atomic_write,
  locate_endpoint_url,
}
use denokv.Remote.Checked.{IsAcceptable, snapshot_read-IsAcceptable}
use denokv.Remote.Requests.{Sends, requests_of_first_metadata}
use denokv.Remote.Metadata.{IsUsable, call_read, call_watch, run_calls, run_calls-IsUsable}
use denokv.Remote.Endpoint.{Chosen, IsCurrent, locate_endpoint_url-Chosen}
use denokv.Remote.Watching.Loop.{read_loop}
use denokv.Remote.Watching.{WatchState, new_watch, cancelled, watch_loop}
use denokv.Remote.Watching.Disabled.{NeverBacksOff, watch_loop-NeverBacksOff}
use denokv.Remote.Watching.Frames.{run_messages, read_loop-run_messages}
use denokv.NapiBased.Watching.{new_napi_watch, cancel}
use denokv.NapiBased.Steps.{WatchStep, started, dequeued, run_steps}
use denokv.NapiBased.Steps
use denokv.NapiBased.Once.{EndsOnce, run_steps-EndsOnce, cancel-never_ended}
use denokv.Examples.Platform.{codec}

abbrev repeated : ℕ → ℕ → List ℕ → List ℕ
repeated zero c cs = cs
repeated (suc n) c cs = c ∷ repeated n c cs

abbrev uuid : List ℕ
uuid = repeated 8 b'a' (
    b'-'
    ∷ repeated 4 b'1'
        (b'-' ∷ repeated 4 b'2' (b'-' ∷ repeated 4 b'3' (b'-' ∷ repeated 12 b'f' []))))

-- 2000-01-01T11:11:11Z
abbrev date : List ℕ
date =
    b'2' ∷ b'0' ∷ b'0' ∷ b'0' ∷ b'-' ∷ b'0' ∷ b'1' ∷ b'-' ∷ b'0' ∷ b'1' ∷ b'T' ∷ b'1' ∷ b'1' ∷ b':'
    ∷ b'1' ∷ b'1' ∷ b':' ∷ b'1' ∷ b'1' ∷ b'Z' ∷ []

abbrev endpoint_json : List ℕ → List ℕ → Json
endpoint_json url consistency =
    json_object (
      field url_name (json_string url) (field consistency_name (json_string consistency) no_fields))

abbrev server_json : Json
server_json = json_object (
    field version_name (json_nat 3) (
      field database_id_name (json_string uuid) (
        field token_name (json_string (b't' ∷ [])) (
          field expires_at_name (json_string date) (
            field endpoints_name
              (json_array (
                item (endpoint_json (b's' ∷ []) strong_text)
                  (item (endpoint_json (b'e' ∷ []) eventual_text) no_items)))
              no_fields)))))

abbrev server_metadata : DatabaseMetadata
server_metadata = record {
  version = 3;
  database_id = uuid;
  endpoints =
      record { url = b's' ∷ []; consistency = strong }
      ∷ record { url = b'e' ∷ []; consistency = eventual }
      ∷ [];
  token = b't' ∷ [];
  expires_at = date;
}

abbrev response : ℕ → List ℕ → List ℕ → HttpResponse
response status content_type body = record {
  status = status;
  content_type = some content_type;
  url = b'r' ∷ [];
  body = some (body ∷ []);
  broken = none;
}

abbrev answer : ℕ → HttpRequest → Result HttpResponse
answer i q = elim q.body [
  | supported_versions_json vs ↦ ok (response (if i == 0 then 503 else 200) application_json [])
  | message_bytes bs ↦ ok (response 200 x_protobuf bs)
]

abbrev platform : Platform
platform = record {
  fetch = λ k i q. answer i q;
  now = λ k. k;
  opened = λ k. k;
  ended = λ k. k + 10;
  backoff = λ k attempt. attempt * 1000;
  date_millis = λ s. some (pos 946725071000);
  parse_json = λ bs. ok server_json;
  parse_url = λ url base. some (record {
    href = url;
    protocol = https_text;
    pathname = b'/' ∷ b'v' ∷ [];
    search = [];
    hash = [];
  });
  encode_snapshot_read = λ rs. [];
  decode_snapshot_read_output = λ bs. ok (record {
    ranges = [];
    read_disabled = false;
    read_is_strongly_consistent = true;
    status = sr_success;
  });
  encode_atomic_write = λ w. [];
  decode_atomic_write_output = λ bs. ok (aw_success, []);
  encode_watch = λ ks. [];
  decode_watch_output = λ bs. ok (record { status = sr_success; keys = [] });
}

abbrev options : RemoteServiceOptions
options = record { access_token = b'p' ∷ []; max_retries = none; supported_versions = none }

abbrev config : Config
config = config_of (b'u' ∷ []) options

abbrev first_request : HttpRequest
first_request = Remote.config_request config

abbrev opened_kv : RemoteKv
opened_kv = record { metadata = server_metadata; sent = first_request ∷ [] }

fails_first : (i : ℕ) → i < 1 → IsServerError (platform.fetch 0 i first_request)
fails_first zero h = (response 503 application_json [], refl, refl, refl)
fails_first (suc n) h = absurd (omega arith)

second_answer-IsMetadata :
    IsMetadata platform (platform.fetch 0 1 first_request) server_metadata (b'r' ∷ [])
unfolding is_uuid is_date_time is_endpoint is_valid_endpoint_url is_endpoint_info are_endpoints
    is_database_metadata equal_bytes
second_answer-IsMetadata = (response 200 application_json [], refl, refl, refl, refl, refl)

fetch_database_metadata-retried_example :
    fetch_database_metadata platform 0 10 first_request ≡ ok (server_metadata, b'r' ∷ [])
fetch_database_metadata-retried_example =
    fetch_database_metadata-retried platform 0 10 1 first_request server_metadata (b'r' ∷ [])
      (omega arith) fails_first second_answer-IsMetadata

abbrev good_output : SnapshotReadOutput
good_output = record {
  ranges = [];
  read_disabled = false;
  read_is_strongly_consistent = true;
  status = sr_success;
}

reads : (t : RemoteKv) × (snapshot_read platform config [] strong opened_kv ≡ (ok good_output, t))
unfolding snapshot_read Remote.read_once locate_endpoint_url choose_endpoint response_check
    KvConnect.fetch_snapshot_read KvConnect.fetch_protobuf KvConnect.protobuf_attempt retry_loop
    equal_bytes
reads = (_, refl)

snapshot_read-IsAcceptable_example : IsAcceptable strong reads.0.metadata.version good_output
snapshot_read-IsAcceptable_example =
    snapshot_read-IsAcceptable platform config [] strong opened_kv reads.0 good_output reads.1

requests_of_first_metadata_example :
    Sends platform config opened_kv.metadata 5 opened_kv
      (snapshot_read platform config [] strong opened_kv).1
    × Sends platform config opened_kv.metadata 2 opened_kv
        (atomic_write platform config
          (record { checks = []; mutations = []; enqueues = [] })
          opened_kv).1
requests_of_first_metadata_example =
    requests_of_first_metadata platform config []
      (record { checks = []; mutations = []; enqueues = [] }) strong opened_kv

opens : open_remote platform (some (b'u' ∷ [])) options ≡ ok (config, opened_kv)
unfolding open_remote Remote.fetch_new_database_metadata Remote.accept_metadata
    Remote.response_endpoints KvConnect.fetch_database_metadata KvConnect.metadata_attempt
    retry_loop is_uuid is_date_time is_endpoint is_valid_endpoint_url is_endpoint_info are_endpoints
    is_database_metadata equal_bytes
opens = refl

run_calls-IsUsable_example :
    IsUsable config
      (run_calls platform codec config
        (call_read [] strong ∷ call_watch [] true ∷ [])
        opened_kv).metadata
run_calls-IsUsable_example =
    run_calls-IsUsable platform codec (some (b'u' ∷ [])) options config opened_kv
      (call_read [] strong ∷ call_watch [] true ∷ []) opens

locates : locate_endpoint_url platform config eventual false opened_kv ≡ (ok (b'e' ∷ []), opened_kv)
unfolding locate_endpoint_url choose_endpoint
locates = refl

locate_endpoint_url-Chosen_example :
    Chosen eventual opened_kv.metadata.endpoints (b'e' ∷ [])
    × IsCurrent platform config false opened_kv opened_kv
locate_endpoint_url-Chosen_example =
    locate_endpoint_url-Chosen platform config eventual false opened_kv opened_kv (b'e' ∷ [])
      locates

abbrev no_values : List ℕ → Result (Value ℕ)
no_values bs = err data_clone

abbrev refused_watch : WatchState
refused_watch = record new_watch { read_disabled = true }

watch_loop-NeverBacksOff_example : NeverBacksOff (
    watch_loop platform codec no_values
      (λ bs. bs)
      data_clone
      5
      100
      (λ k. cancelled)
      config
      []
      refused_watch
      opened_kv)
watch_loop-NeverBacksOff_example =
    watch_loop-NeverBacksOff platform codec no_values (λ bs. bs) data_clone 5 100 (λ k. cancelled)
      config [] refused_watch opened_kv refl

-- A ping, a message of two bytes, and the start of the next one, in three chunks.
abbrev cut_reader : ByteReader
cut_reader = record {
  chunks = (0 ∷ 0 ∷ 7 ∷ []) ∷ (8 ∷ 9 ∷ []) ∷ [];
  remaining = 0 ∷ 0 ∷ 0 ∷ 0 ∷ 2 ∷ 0 ∷ [];
  done = false;
}

cut_reader-IsValid : IsValid cut_reader
cut_reader-IsValid = record { ended = λ e. absurd (ground (arith, e)) }

read_loop-run_messages_example :
    read_loop platform no_values (λ bs. bs) data_clone 3 [] false [] cut_reader
    ≡ run_messages platform no_values (λ bs. bs) data_clone [] false ([] ∷ (7 ∷ 8 ∷ []) ∷ []) []
read_loop-run_messages_example =
    read_loop-run_messages platform no_values (λ bs. bs) data_clone 3 [] false
      ([] ∷ (7 ∷ 8 ∷ []) ∷ []) (9 ∷ []) [] cut_reader (omega arith) (omega arith)
      (inl (omega arith)) cut_reader-IsValid refl

-- A watch that is started, read to its end, and then cancelled.
abbrev watch_history : List WatchStep
watch_history = started (ok 7) ∷ dequeued (ok (some [])) ∷ dequeued (ok none) ∷ Steps.cancelled ∷ []

run_steps-EndsOnce_example :
    EndsOnce (run_steps platform no_values (λ bs. bs) data_clone [] watch_history new_napi_watch)
run_steps-EndsOnce_example =
    run_steps-EndsOnce platform no_values (λ bs. bs) data_clone [] watch_history

cancel-never_ended_example :
    (run_steps platform no_values
      (λ bs. bs)
      data_clone
      []
      watch_history
      (cancel new_napi_watch)).end_calls
    ≡ []
cancel-never_ended_example =
    cancel-never_ended platform no_values (λ bs. bs) data_clone [] watch_history
