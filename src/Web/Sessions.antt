-- ===== src/Web/Sessions.antt =====
-- ValkeyStore of internal/api/middleware.go: sessions in Valkey, under an id that a signed cookie
-- carries. The keys of a session's values are strings.
pub mod RoundTrip
use contest_sync.Common.{
  ℕ, zero, suc, ◌*◌, Bool, true, false, not, ◌&&◌, Option, none, some, List, [], ◌∷◌, ◌++◌, Bytes,
  codes, is_empty, if◌then◌else◌, map,
}
use contest_sync.World.Models.{Err}
use contest_sync.World.Calls.{Trace, Services}
use contest_sync.World.Prog.{Prog, World, pure, leave, ◌>>=◌, ◌>>◌}
use contest_sync.World.Api.{get, set, del}
use contest_sync.Auth.{plain_error}
use contest_sync.Web.Calls.{ℤ, pos, negsuc}

-- A value of a session, and of its JSON, where a number is kept as its text (UseNumber).
pub data Value : Type 0 where
  int : ℤ → Value
  string : Bytes → Value
  number : Bytes → Value

pub data Json : Type 0 where
  json_number : Bytes → Json
  json_string : Bytes → Json

-- The store, with securecookie, encoding/json and the generator of ids
pub record ValkeyStore : Type 0 where
  pub services : Services
  pub env : Bytes
  -- EncodeMulti and DecodeMulti: the name, and the id or the text of the cookie
  pub encode_id : Bytes → Bytes → Option Bytes
  pub decode_id : Bytes → Bytes → Option Bytes
  pub marshal_values : List (Bytes × Value) → Option Bytes
  pub decode_values : Bytes → Option (List (Bytes × Json))
  -- json.Number.Int64
  pub int64 : Bytes → Option ℤ
  -- hex.EncodeToString(securecookie.GenerateRandomKey(32))
  pub random_id : Trace → Bytes

pub record Session : Type 0 where
  pub id : Bytes
  pub values : List (Bytes × Value)
  pub is_new : Bool
  -- Options.MaxAge
  pub max_age : ℤ

-- the cookie: its text and its age
pub record Cookie : Type 0 where
  pub text : Bytes
  pub max_age : ℤ

-- `MaxAge: 86400 * 7` of NewValkeyStore
abbrev pub default_age : ℕ
default_age = 86400 * 7

abbrev pub session_key : Bytes → Bytes
session_key id = codes "session:" ++ id

-- sessions.NewSession with the store's options
abbrev pub new_session : Session
new_session = record { id = []; values = []; is_new = true; max_age = pos default_age }

module _ (st : ValkeyStore) (name : Bytes) where
  open st use {services}

  abbrev pub int_or_number : Bytes → Option ℤ → Value
  int_or_number digits (some i) = int i
  int_or_number digits none = number digits

  -- the loop over the decoded values
  abbrev pub value_of : Json → Value
  value_of (json_number digits) = int_or_number digits (st.int64 digits)
  value_of (json_string t) = string t

  abbrev pub values_of : List (Bytes × Json) → List (Bytes × Value)
  values_of [] = []
  values_of ((k, v) ∷ vs) = (k, value_of v) ∷ values_of vs

  unfoldable pub with_values : Bytes → Option (List (Bytes × Json)) → Session
  with_values id none = record new_session { id = id }
  with_values id (some vs) = record new_session { id = id; values = values_of vs; is_new = false }

  unfoldable pub with_stored : Bytes → Option Bytes → Session
  with_stored id none = record new_session { id = id }
  with_stored id (some val) = with_values id (st.decode_values val)

  unfoldable pub with_id : Option Bytes → Prog Session
  with_id none = pure new_session
  with_id (some id) = do val ← get services (session_key id); pure (with_stored id val)

  -- New; the text is the request's cookie, where it has one
  unfoldable pub open_session : Option Bytes → Prog Session
  open_session none = pure new_session
  open_session (some cookie) = with_id (st.decode_id name cookie)

  -- the branch of Save for a negative age
  unfoldable pub clear : Session → Prog (Session × Cookie)
  clear s = do
    if is_empty s.id then pure tt else (do del services (session_key s.id); pure tt)
    pure (record s { id = [] }, record { text = []; max_age = s.max_age })

  -- `age`
  unfoldable pub age_of : ℕ → ℕ
  age_of zero = default_age
  age_of (suc n) = suc n

  unfoldable pub encoded : Session → Option Bytes → Prog (Session × Cookie)
  encoded s none = leave (some (plain_error (codes "securecookie: the value is too long")))
  encoded s (some text) = pure (s, record { text = text; max_age = s.max_age })

  unfoldable pub stored : Session → Option Err → Prog (Session × Cookie)
  stored s (some e) = leave (some e)
  stored s none = encoded s (st.encode_id name s.id)

  unfoldable pub store_values : Session → ℕ → Option Bytes → Prog (Session × Cookie)
  store_values s age none = leave (some (plain_error (codes "json: unsupported type")))
  store_values s age (some val) = do
    answer ← set services (session_key s.id) val (age_of age)
    stored s answer

  -- `if session.ID == "" { … }`
  unfoldable pub identify : Session → World → Session
  identify s w = if is_empty s.id then record s { id = st.random_id w.trace } else s

  -- Save: the session and the cookie behind it
  unfoldable pub save_by_age : Session → ℤ → Prog (Session × Cookie)
  save_by_age s (negsuc n) w = clear s w
  save_by_age s (pos age) w =
      store_values (identify s w) age (st.marshal_values (identify s w).values) w

  unfoldable pub save_session : Session → Prog (Session × Cookie)
  save_session s = save_by_age s s.max_age
