-- ===== src/Examples/Fixtures.antt =====
-- Services that answer in a fixed way, and a user with one contest, for the examples.
use contest_sync.Common.{Bool, true, false, none, some, [], ◌∷◌, ◌++◌, Bytes, codes, itoa}
use contest_sync.World.Models.{Err, ok, err, Contest}
use contest_sync.World.Calls.{Services, Codec, UserRow}
use contest_sync.World.Prog.{World}
use contest_sync.Auth.{Cipher}
use contest_sync.Sync.Syncer.{Syncer}
use contest_sync.Sync.User.{Env}

abbrev pub round_262 : Contest
round_262 = record {
  id = codes "leetcode_1700000000";
  name = codes "Weekly Contest";
  url = codes "https://leetcode.com/contest";
  start_time = 1700000000;
  end_time = 1700005400;
  platform = codes "leetcode";
}

abbrev pub nonce : Bytes
nonce = codes "nonce1234567"

abbrev pub key : Bytes
key = codes "0123456789abcdef"

abbrev pub row : UserRow
row = record {
  id = 7;
  google_id = codes "g7";
  email = codes "u@example.org";
  calendar_id = none;
  use_dedicated = false;
  platforms = codes "leetcode" ∷ [];
  refresh_token = nonce ++ codes "secret";
}

-- every call succeeds and the cache is empty
abbrev pub healthy : Services
healthy = record {
  on_setnx = λ t k. ok true;
  on_get = λ t k. none;
  on_set = λ t k v. none;
  on_del = λ t k. none;
  on_exec = λ t q. none;
  on_query_user = λ t p id. ok row;
  on_query_synced_platforms = λ t p id. ok [];
  on_query_synced = λ t p id. ok [];
  on_query_contests = λ t p ps. ok (some round_262 ∷ []);
  on_new_service = λ t token. none;
  on_get_primary = λ t. ok (codes "Asia/Kolkata");
  on_insert_calendar = λ t s z. ok (codes "cal");
  on_insert_event = λ t cal e. ok e.id;
  on_update_event = λ t cal id e. none;
  on_delete_event = λ t cal id. none;
  on_send_batch = λ t cs. none;
  on_query_counts = λ t. ok (some (codes "leetcode", 1) ∷ []);
  now_rfc3339 = λ t. codes "2026-01-01T00:00:00Z";
}

abbrev pub revoked_error : Err
revoked_error = record { text = codes "oauth2: invalid_grant"; code = none }

-- the same, but Google refuses the grant
abbrev pub refusing : Services
refusing = record healthy { on_get_primary = λ t. err revoked_error }

abbrev pub codec : Codec
codec = record {
  marshal_user = λ u. u.google_id;
  unmarshal_user = λ s. none;
  marshal_ids = λ ids. codes "[]";
  unmarshal_ids = λ s. none;
  marshal_contests = λ cs. codes "[]";
  unmarshal_contests = λ s. none;
  rfc3339 = λ t. itoa t;
}

-- the cipher and the text format that change nothing
abbrev pub plain : Cipher
plain = record {
  sealed = λ k n p. p;
  opened = λ k n p. some p;
  to_base64 = λ s. s;
  of_base64 = λ s. some s;
}

abbrev pub zero_sum : Bytes → Bytes
zero_sum s =
    0 ∷ 17 ∷ 34 ∷ 51 ∷ 68 ∷ 85 ∷ 102 ∷ 119 ∷ 136 ∷ 153 ∷ 170 ∷ 187 ∷ 204 ∷ 221 ∷ 238 ∷ 255 ∷ []

abbrev pub syncer : Bool → Syncer
syncer valkey = record {
  has_db = true;
  has_read_db = false;
  has_valkey = valkey;
  has_telegram = true;
  encryption_key = key;
}

abbrev pub env : Services → Bool → Env
env s valkey = record {
  services = s;
  codec = codec;
  md5 = zero_sum;
  cipher = plain;
  syncer = syncer valkey;
}

abbrev pub start : World
start = record { trace = []; syncing = 3 ∷ []; calendar_id = [] }
