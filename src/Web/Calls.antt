-- ===== src/Web/Calls.antt =====
-- What the handlers of internal/api/handlers.go run on: the Handlers record, the services that only
-- they call, and the replies. `http.Error` and the return behind it leave the program with the text
-- and the status; a reply that ends a handler is its value.
use contest_sync.Common.{ℕ, Bool, true, false, Option, none, some, List, Bytes, codes}
use contest_sync.World.Models.{Err, Result, Contest}
use contest_sync.World.Calls.{Services, Codec, Trace, Pool, UserRow, WebCall, web}
use contest_sync.World.Prog.{Prog, leave, call}
use contest_sync.Auth.{Cipher}
use contest_sync.Sync.Syncer.{Syncer}

-- The int of Go, where it may be negative.
pub data ℤ : Type 0 where
  pos : ℕ → ℤ
  -- -(n + 1)
  negsuc : ℕ → ℤ

-- A row, none (pgx.ErrNoRows), or another error.
pub data Found (A : Type 0) : Type 0 where
  row : A → Found A
  no_rows : Found A
  failed : Err → Found A

-- An HTTP request: it cannot be built, gets no response, or gets a status and a body, which decodes
-- or does not.
pub data Http (A : Type 0) : Type 0 where
  unbuilt no_response : Http A
  responded : ℕ → Option A → Http A

-- What ValidateCalendarAccess says: valid, or not, with the fields code and error_type.
pub data Validity : Type 0 where
  valid : Validity
  invalid : Bytes → Bytes → Validity

-- oauth2.Token, with its field scope
pub record Token : Type 0 where
  pub access_token : Bytes
  pub refresh_token : Bytes
  pub scope : Bytes

-- The services. Times are in nanoseconds.
pub record WebServices : Type 0 where
  pub now : Trace → ℕ
  pub on_query_last_sync : Trace → Pool → ℕ → Result (Option ℕ)
  pub on_query_token : Trace → Pool → ℕ → Result Bytes
  pub on_query_platforms : Trace → Pool → ℕ → Found (List Bytes)
  pub on_query_profile : Trace → Pool → ℕ → Result (UserRow × Bool)
  pub on_query_account : Trace → ℕ → Found (Bytes × Bytes)
  pub on_query_event_ids : Trace → ℕ → Result (List (Option Bytes))
  pub on_query_all_platforms : Trace → Pool → Result (List (Option (ℕ × List Bytes)))
  -- the rows, and whether rows.Err is nil behind them
  pub on_query_feed : Trace → Pool → List Bytes → Result (List (Option Contest) × Bool)
  pub on_save_platforms : Trace → List Bytes → Bool → ℕ → Option Err
  pub on_insert_state : Trace → Bytes → Option Err
  pub on_take_state : Trace → Bytes → Option Err
  pub on_upsert_user : Trace → Bytes → Bytes → Bytes → Bool → Result (ℕ × List Bytes)
  pub on_refresh : Trace → Bytes → Result Bytes
  pub on_exchange : Trace → Bytes → Result Token
  -- the scope
  pub on_tokeninfo : Trace → Bytes → Http Bytes
  -- the id and the address
  pub on_userinfo : Trace → Bytes → Result (Option (Bytes × Bytes))
  -- the status of the response
  pub on_revoke : Trace → Bytes → Result ℕ
  pub on_delete_calendar : Trace → Bytes → Option Err
  -- the field success
  pub on_verify_captcha : Trace → Bytes → Http Bool
  pub on_publish_sync : Trace → ℕ → Option Err
  pub on_valkey_dels : Trace → List Bytes → Option Err
  -- 32 bytes of crypto/rand in hexadecimal
  pub on_random : Trace → Option Bytes
  -- the value csrf_token as a string, or the error of the store
  pub on_get_session : Trace → Result (Option Bytes)
  pub on_save_session : Trace → ℕ → Bytes → Option Err
  -- the number that the row holds
  pub on_probe_read : Trace → Pool → Result ℕ
  pub on_probe_begin : Trace → Option Err
  pub on_probe_write : Trace → Option Err
  pub on_queue_health : Trace → Option Err
  -- time.Now().UnixNano() in decimal digits
  pub unix_nano : Trace → Bytes
  -- json.Marshal of the platforms
  pub marshal_platforms : List Bytes → Bytes
  -- Config.AuthCodeURL with the options of GoogleLogin
  pub auth_code_url : Bytes → Bytes
  -- time.Parse(time.RFC3339, …)
  pub parse_time : Bytes → Option ℕ
  pub marshal_validity : Validity → Bytes
  -- the value {"valid": …} of a cached validation
  pub unmarshal_valid : Bytes → Option Bool
  -- the hexadecimal SHA-256 of a text
  pub sha256_hex : Bytes → Bytes
  -- fmt.Sscanf with "%d"
  pub scan_int : Bytes → Option ℤ
  -- the format "20060102T150405Z" of a time in UTC, in seconds
  pub ical_stamp : ℕ → Bytes
  -- strings.ToUpper
  pub to_upper : Bytes → Bytes

-- The Handlers record. The database DB is always set.
pub record Site : Type 0 where
  pub services : Services
  pub web : WebServices
  pub codec : Codec
  pub cipher : Cipher
  pub has_read_db : Bool
  pub has_valkey : Bool
  pub encryption_key : Bytes
  -- the field Env, and os.Getenv of ENV and HCAPTCHA_SECRET
  pub env : Bytes
  pub env_variable : Bytes
  pub hcaptcha_secret : Bytes

-- the fields that the Syncer has too
abbrev pub syncer_of : Site → Syncer
syncer_of h = record {
  has_db = true;
  has_read_db = h.has_read_db;
  has_valkey = h.has_valkey;
  has_telegram = false;
  encryption_key = h.encryption_key;
}

pub record Reply : Type 0 where
  pub status : ℕ
  pub text : Bytes

abbrev pub ok_reply : Bytes → Reply
ok_reply text = record { status = 200; text = text }

-- the value of http.Error, without the JSON around the text
abbrev pub problem : ℕ → Bytes → Err
problem status text = record { text = text; code = some status }

-- `http.Error(w, …); return`
abbrev pub refuse {ℓ} : {A : Type ℓ} → ℕ → Bytes → Prog A
refuse status text = leave (some (problem status text))

abbrev pub ask {ℓ} : {A : Type ℓ} → WebCall → (Trace → A) → Prog A
ask c answer = call (web c) answer

-- The user in the request's context, where RequireAuth has put one.
unfoldable pub signed_in {ℓ} : {A : Type ℓ} → Option ℕ → (ℕ → Prog A) → Prog A
signed_in none handler = refuse 401 (codes "unauthorized")
signed_in (some user_id) handler = handler user_id

abbrev pub calendar_scope : Bytes
calendar_scope = codes "https://www.googleapis.com/auth/calendar"
