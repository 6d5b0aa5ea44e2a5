-- ===== src/World/Api.antt =====
-- The calls to the services as programs, one for each method of a client that the code calls.
use contest_sync.Common.{ℕ, Bool, Option, List, Bytes}
use contest_sync.World.Models.{Err, Result, Contest}
use contest_sync.World.Calls.{
  Services, Sql, Pool, Event, Notice, UserRow, SyncedRow, valkey_setnx, valkey_get, valkey_set,
  valkey_del, exec, query_user, query_synced_platforms, query_synced, query_contests, new_service,
  get_primary, insert_calendar, insert_event, update_event, delete_event, send_batch, query_counts,
  notify, sleep,
}
use contest_sync.World.Prog.{Prog, call}

module _ (S : Services) where
  abbrev pub setnx : Bytes → Prog (Result Bool)
  setnx key = call (valkey_setnx key) (λ t. S.on_setnx t key)

  abbrev pub get : Bytes → Prog (Option Bytes)
  get key = call (valkey_get key) (λ t. S.on_get t key)

  abbrev pub set : Bytes → Bytes → ℕ → Prog (Option Err)
  set key val ttl = call (valkey_set key val ttl) (λ t. S.on_set t key val)

  abbrev pub del : Bytes → Prog (Option Err)
  del key = call (valkey_del key) (λ t. S.on_del t key)

  abbrev pub execute : Sql → Prog (Option Err)
  execute q = call (exec q) (λ t. S.on_exec t q)

  abbrev pub select_user : Pool → ℕ → Prog (Result UserRow)
  select_user p id = call (query_user p id) (λ t. S.on_query_user t p id)

  abbrev pub select_synced_platforms : Pool → ℕ → Prog (Result (List (Option SyncedRow)))
  select_synced_platforms p id =
      call (query_synced_platforms p id) (λ t. S.on_query_synced_platforms t p id)

  abbrev pub select_synced : Pool → ℕ → Prog (Result (List (Option Bytes)))
  select_synced p id = call (query_synced p id) (λ t. S.on_query_synced t p id)

  abbrev pub select_contests : Pool → List Bytes → Prog (Result (List (Option Contest)))
  select_contests p ps = call (query_contests p ps) (λ t. S.on_query_contests t p ps)

  abbrev pub new_calendar_service : Bytes → Prog (Option Err)
  new_calendar_service token = call (new_service token) (λ t. S.on_new_service t token)

  abbrev pub primary_calendar : Prog (Result Bytes)
  primary_calendar = call get_primary (λ t. S.on_get_primary t)

  abbrev pub calendars_insert : Bytes → Bytes → Prog (Result Bytes)
  calendars_insert summary zone =
      call (insert_calendar summary zone) (λ t. S.on_insert_calendar t summary zone)

  abbrev pub events_insert : Bytes → Event → Prog (Result Bytes)
  events_insert cal e = call (insert_event cal e) (λ t. S.on_insert_event t cal e)

  abbrev pub events_update : Bytes → Bytes → Event → Prog (Option Err)
  events_update cal id e = call (update_event cal id e) (λ t. S.on_update_event t cal id e)

  abbrev pub events_delete : Bytes → Bytes → Prog (Option Err)
  events_delete cal id = call (delete_event cal id) (λ t. S.on_delete_event t cal id)

  abbrev pub upsert_contests : List (Contest × ℕ) → Prog (Option Err)
  upsert_contests cs = call (send_batch cs) (λ t. S.on_send_batch t cs)

  abbrev pub count_contests : Prog (Result (List (Option (Bytes × ℕ))))
  count_contests = call query_counts (λ t. S.on_query_counts t)

abbrev pub pause : ℕ → Prog (Unit {0})
pause ms = call (sleep ms) (λ t. tt)

abbrev pub telegram : Notice → Prog (Unit {0})
telegram n = call (notify n) (λ t. tt)
