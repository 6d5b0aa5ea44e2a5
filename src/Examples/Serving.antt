-- ===== src/Examples/Serving.antt =====
-- The handlers of internal/api/handlers.go at a site whose services answer in a fixed way.
use contest_sync.Common.{
  ◌≡◌, refl, ◌↔◌, ◌*◌, ◌^◌, Bool, true, false, none, some, [], ◌∷◌, ◌++◌, codes, is_empty, contains,
  has_prefix, index, bytes_eq, replace_all, All,
}
use mathlib.Core.List.{Perm}
use contest_sync.World.Models.{ok}
use contest_sync.World.Calls.{Services, Codec, exec, mark_syncing}
use contest_sync.World.Calls
use contest_sync.World.Prog.{World, ◌>>=◌}
use contest_sync.World.Inversion.{Ends}
use contest_sync.Sync.Load.{user_of_row, cached}
use contest_sync.Web.Calls.{pos, WebServices, Site, row, responded}
use contest_sync.Web.Preferences.{Request, changed, save_preferences}
use contest_sync.Web.Preferences.Changed.{changed-Perm}
use contest_sync.Web.Preferences.Effects.{Saved, save_preferences-Saved}
use contest_sync.Web.ManualSync.{manual_sync, check_info, check_cached}
use contest_sync.Web.ManualSync.Gate.{publishes, Gated, manual_sync-Gated}
use contest_sync.Web.Feed.Escape.{
  escape_ical_text, read_text, line_feed, carriage_return, NoBreak, escape_ical_text-read,
}
use contest_sync.Web.Me.{me}
use contest_sync.Web.Me.Access.{Shows, me-user_of_row}
use contest_sync.Web.Login
use contest_sync.Web.ManualSync
use contest_sync.Auth.{decrypt_token, authenticated, is_aes_key, open_token}
use contest_sync.Web.Login.{Redirect, google_callback}
use contest_sync.Web.Login.Gate
use contest_sync.Web.Login.Gate.{sessions, google_callback-Gated}
use contest_sync.Web.Account.{delete_account}
use contest_sync.World.Emits.{Emits}
use contest_sync.Web.Account.Background.{IsCleanup, google_cleanup, google_cleanup-IsCleanup}
use contest_sync.Web.Account.Deleted.{Deleted, delete_account-Deleted}
use contest_sync.Web.Admin.{AdminHandlers, health_request}
use contest_sync.Web.Admin.Report.{Answers, health_request-Reports}
use contest_sync.Web.Sessions.{ValkeyStore, Session, int, json_number}
use contest_sync.Web.Validation.Judged.{Judged}
use contest_sync.Examples.Fixtures
use contest_sync.Examples.Fixtures.{round_262, nonce, key, healthy, codec, plain, start}

abbrev answers : WebServices
answers = record {
  now = λ t. 1700000000 * 10 ^ 9;
  on_query_last_sync = λ t p u. ok none;
  on_query_token = λ t p u. ok (nonce ++ codes "secret");
  on_query_platforms = λ t p u. row (codes "leetcode" ∷ []);
  on_query_profile = λ t p u. ok (Fixtures.row, true);
  on_query_account = λ t u. row (codes "cal", nonce ++ codes "secret");
  on_query_event_ids = λ t u. ok [];
  on_query_all_platforms = λ t p. ok (some (7, codes "leetcode" ∷ []) ∷ []);
  on_query_feed = λ t p ps. ok (some round_262 ∷ [], true);
  on_save_platforms = λ t ps b u. none;
  on_insert_state = λ t s. none;
  on_take_state = λ t s. none;
  on_upsert_user = λ t g e r b. ok (7, codes "leetcode" ∷ []);
  on_refresh = λ t s. ok (codes "access");
  on_exchange = λ t c. ok (record {
    access_token = codes "access";
    refresh_token = codes "secret";
    scope = codes "https://www.googleapis.com/auth/calendar";
  });
  on_tokeninfo = λ t s. responded 200 (some (codes "https://www.googleapis.com/auth/calendar"));
  on_userinfo = λ t s. ok (some (codes "g7", codes "u@example.org"));
  on_revoke = λ t s. ok 200;
  on_delete_calendar = λ t c. none;
  on_verify_captcha = λ t s. responded 200 (some true);
  on_publish_sync = λ t u. none;
  on_valkey_dels = λ t ks. none;
  on_random = λ t. some (codes "00ff");
  on_get_session = λ t. ok (some (codes "csrf"));
  on_save_session = λ t u s. none;
  on_probe_read = λ t p. ok 2;
  on_probe_begin = λ t. none;
  on_probe_write = λ t. none;
  on_queue_health = λ t. none;
  unix_nano = λ t. codes "1700000000000000000";
  marshal_platforms = λ ps. codes "[]";
  auth_code_url = λ s. codes "https://accounts.google.com/?state=" ++ s;
  parse_time = λ s. none;
  marshal_validity = λ v. codes "no";
  unmarshal_valid = λ s. some false;
  sha256_hex = λ s. s;
  scan_int = λ s. none;
  ical_stamp = λ t. codes "20260101T000000Z";
  to_upper = λ s. s;
}

abbrev serving : Services → Codec → Bool → Site
serving services codec valkey = record {
  services = services;
  web = answers;
  codec = codec;
  cipher = plain;
  has_read_db = false;
  has_valkey = valkey;
  encryption_key = key;
  env = codes "production";
  env_variable = codes "production";
  hcaptcha_secret = codes "s";
}

abbrev site : Site
site = serving healthy codec true

abbrev request : Request
request = record {
  platforms = codes "codeforces" ∷ [];
  use_dedicated = true;
  captcha_response = codes "x";
}

abbrev redirect : Redirect
redirect = record { state = codes "00ff"; code = codes "c"; cookie = some (codes "00ff") }

-- the cache holds the user before the first call, as SyncUser has filled it in
abbrev filled : Services
filled = record healthy { on_get = λ t k. elim t [ [] ↦ some (codes "g7") | e ∷ r ↦ none ] }

abbrev reading : Codec
reading = record codec { unmarshal_user = λ s. some (user_of_row Fixtures.row) }

abbrev later : World
later = record start { trace = exec (mark_syncing 7) ∷ [] }

changed-Perm_example :
    (changed (codes "a" ∷ codes "b" ∷ []) true (codes "b" ∷ codes "a" ∷ []) true ≡ false)
    ↔ ((true ≡ true) × Perm (codes "a" ∷ codes "b" ∷ []) (codes "b" ∷ codes "a" ∷ []))
changed-Perm_example =
    changed-Perm (codes "a" ∷ codes "b" ∷ []) true (codes "b" ∷ codes "a" ∷ []) true

save_preferences-Saved_example :
    Ends (Saved site 7 request start.trace) (save_preferences site 7 (some request)) start
save_preferences-Saved_example = save_preferences-Saved site 7 request start

manual_sync-Gated_example : Ends (Gated site 7 start.trace) (manual_sync site 7) start
manual_sync-Gated_example = manual_sync-Gated site 7 start

manual_sync_runs : publishes (manual_sync site 7 start).1.trace ≡ 7 ∷ []
unfolding manual_sync ◌>>=◌ ManualSync.last_sync cached ManualSync.last_sync_of
    ManualSync.last_sync_row ManualSync.store_last_sync ManualSync.sync_unless ManualSync.is_recent
    ManualSync.check_access ManualSync.stored_token is_empty ManualSync.opened_token decrypt_token
    check_cached ManualSync.verify ManualSync.access_token check_info authenticated is_aes_key
    open_token contains has_prefix index ManualSync.check_scope ManualSync.publish
    ManualSync.published
manual_sync_runs = refl

google_callback_runs : sessions (google_callback site (some nonce) redirect start).1.trace ≡ 7 ∷ []
unfolding google_callback ◌>>=◌ Login.check_cookie bytes_eq Login.check_taken Login.exchanged
    Login.identified Login.upsert Login.upserted Login.log_in Login.invalidate_caches
    Login.renew_session Login.check_saved Login.initial_sync
google_callback_runs = refl

escape_ical_text-read_example :
    (read_text false (escape_ical_text (b'a' ∷ line_feed ∷ codes ";b"))
      ≡ replace_all (b'a' ∷ line_feed ∷ codes ";b") carriage_return [])
    × All NoBreak (escape_ical_text (b'a' ∷ line_feed ∷ codes ";b"))
escape_ical_text-read_example = escape_ical_text-read (b'a' ∷ line_feed ∷ codes ";b")

me-user_of_row_example :
    Shows false true (me (serving filled reading true) 7 start).0
    × Shows true false (me (serving filled reading true) 7 later).0
unfolding user_of_row is_empty
me-user_of_row_example =
    me-user_of_row (serving filled reading true) 7 Fixtures.row start later refl refl refl refl refl
      refl

google_callback-Gated_example :
    Ends
      (Gate.Gated site (some nonce) redirect start.trace)
      (google_callback site (some nonce) redirect)
      start
google_callback-Gated_example = google_callback-Gated site (some nonce) redirect start

-- Google answers with 503 when it is asked about the access.
abbrev failing : Site
failing = record site { web = record answers { on_tokeninfo = λ t access. responded 503 none } }

delete_account-Deleted_example :
    Ends (Deleted site 7 start.trace) (delete_account site 7 true) start
delete_account-Deleted_example = delete_account-Deleted site 7 true start

abbrev admins : AdminHandlers
admins = record {
  admin_password = codes "pw";
  has_read_db = false;
  has_valkey = true;
  has_queue = true;
  services = healthy;
  web = answers;
}

health_request-Reports_example :
    Ends
      (Answers admins (codes "POST") (codes "pw") start)
      (health_request admins (codes "POST") (codes "pw"))
      start
health_request-Reports_example = health_request-Reports admins (codes "POST") (codes "pw") start

abbrev store : ValkeyStore
store = record {
  services = record healthy { on_get = λ t k. some (codes "7") };
  env = codes "production";
  encode_id = λ n id. some id;
  decode_id = λ n cookie. some cookie;
  marshal_values = λ vs. some (codes "7");
  decode_values = λ val. some ((codes "user_id", json_number val) ∷ []);
  int64 = λ digits. some (pos 7);
  random_id = λ t. codes "0a1b";
}

abbrev session : Session
session = record {
  id = [];
  values = (codes "user_id", int (pos 7)) ∷ [];
  is_new = true;
  max_age = pos 0;
}

google_cleanup-IsCleanup_example :
    Emits
      (IsCleanup (codes "t") (codes "cal") (codes "e1" ∷ []))
      (google_cleanup site (codes "t") (codes "cal") (codes "e1" ∷ []) true)
google_cleanup-IsCleanup_example =
    google_cleanup-IsCleanup site (codes "t") (codes "cal") (codes "e1" ∷ []) true
