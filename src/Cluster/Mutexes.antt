-- ===== src/Cluster/Mutexes.antt =====
-- The mutexes of server/server.go under the handlers of server/rpc.go, AsyncCallHandler, the rounds of
-- startHeartbeats and the loop of main that joins the cluster, at all servers at once: who holds
-- which, and who waits. A handler that waits for the reply of a call (Stabilize, CreateConnection,
-- main) does not go on before the other server's handler has ended, so the locking of that one
-- stands in its place. KillServer
-- sends on the channel doneHeartbeat with its mutex held: the heartbeat thread may take that at any
-- time, or never; Server.Shutdown says when it does.
pub mod Order
pub mod Progress
pub mod Runs
pub mod Exclusion
pub mod Races
use psk_db.Prelude.{
  ℕ, String, Bool, true, false, ◌≡◌, Option, none, some, List, [], ◌∷◌, ◌++◌, All, In,
}

pub data Kind : Type 0 where
  blacklist_map : Kind
  server_map : Kind
  key_value_map : Kind
  curr_server_info : Kind
  write_log : Kind

-- mutex_blacklist_map and so on, of a server.
abbrev pub Mutex : Type 0
Mutex = String × Kind

-- Lock, Unlock, a read or write of the variable that the mutex is for, and `doneHeartbeat <- true` at a
-- server. The fields of currServerInfo
-- that never change, as Id, do not count. A read or write that a branch leaves out is taken as made.
pub data Op : Type 0 where
  lock : Mutex → Op
  unlock : Mutex → Op
  access : Mutex → Op
  send_done : String → Op

-- Lock, what is done meanwhile, Unlock.
abbrev pub locked : Mutex → List Op → List Op → List Op
locked m inside later = lock m ∷ inside ++ unlock m ∷ later

-- A handler at a server. Of PutKVServer and ProcessRemoteWrite, whether the key is old, and whether
-- the write is stored; of Stabilize, the members that are called in each round; of CreateConnection,
-- the server that is called, if it is reached; of main at a server that starts, the server that it joins.
pub data Handler : Type 0 where
  join_cluster_as_server heartbeat_notification print_membership_list : String → Handler
  new_server_notification kill_server_notification kill_server async_call_handler : String → Handler
  get_server_info get_kv_server send_kv_data break_connection print_store heartbeat_round :
      String → Handler
  put_kv_server process_remote_write : String → Bool → Handler
  join_other : String → String → Handler
  create_connection : String → Option String → Handler
  stabilize : String → List (List String) → Handler

-- A whole handler that locks one mutex and uses its variable.
abbrev pub guarded : Mutex → List Op
guarded m = locked m (access m ∷ []) []

-- GetAndIncrementLamportTimestamp and the like
abbrev pub clock_ops : String → List Op
clock_ops s = guarded (s, curr_server_info)

-- AddToWriteLog
abbrev pub log_ops : String → List Op
log_ops s = guarded (s, write_log)

-- A loop over serverMap that dials the members without a handle: getRPCConnection reads blacklistMap.
abbrev pub range_ops : String → List Op
range_ops s = access (s, server_map) ∷ access (s, blacklist_map) ∷ []

-- JoinClusterAsServer
abbrev pub join_ops : String → List Op
join_ops s =
    locked (s, server_map)
      (locked (s, curr_server_info)
        (access (s, server_map) ∷ access (s, curr_server_info) ∷ range_ops s) [])
      []

-- PutKVServer, up to the loop that sends the write, with the mutex of the store
abbrev pub write_ops : String → Bool → List Op
write_ops s true =
    access (s, key_value_map) ∷ clock_ops s ++ clock_ops s ++ access (s, key_value_map) ∷ log_ops s
write_ops s false = access (s, key_value_map) ∷ clock_ops s ++ access (s, key_value_map) ∷ log_ops s

-- PutKVServer
abbrev pub put_ops : String → Bool → List Op
put_ops s old =
    locked (s, server_map) []
      (locked (s, key_value_map) (write_ops s old ++ range_ops s ++ access (s, key_value_map) ∷ [])
        [])

-- ProcessRemoteWrite
abbrev pub remote_write_ops : String → Bool → List Op
remote_write_ops s true = locked (s, key_value_map) (access (s, key_value_map) ∷ log_ops s) []
remote_write_ops s false = guarded (s, key_value_map)

-- The call of NewServerNotification by CreateConnection, if there is a connection.
abbrev pub notification_ops : Option String → List Op
notification_ops none = []
notification_ops (some other) = guarded (other, server_map)

-- The loop of Stabilize over the members that it calls: the copy of the store, and SendKVData there.
abbrev pub send_ops : String → List String → List Op → List Op
send_ops s [] later = later
send_ops s (other ∷ members) later =
    range_ops s
    ++ locked (s, key_value_map) (access (s, key_value_map) ∷ [])
        (locked (other, key_value_map) (access (other, key_value_map) ∷ [])
          (access (s, server_map) ∷ send_ops s members later))

-- The rounds of Stabilize.
abbrev pub stabilize_ops : String → List (List String) → List Op
stabilize_ops s [] = []
stabilize_ops s (members ∷ rounds) =
    lock (s, server_map)
    ∷ access (s, server_map)
    ∷ send_ops s members (unlock (s, server_map) ∷ stabilize_ops s rounds)

abbrev pub program : Handler → List Op
program (join_cluster_as_server s) = join_ops s
program (heartbeat_notification s) =
    locked (s, server_map)
      (locked (s, curr_server_info) (access (s, server_map) ∷ access (s, curr_server_info) ∷ []) [])
      []
program (print_membership_list s) =
    locked (s, server_map)
      (locked (s, curr_server_info) (access (s, curr_server_info) ∷ access (s, server_map) ∷ []) [])
      []
program (new_server_notification s) = guarded (s, server_map)
program (kill_server_notification s) = guarded (s, server_map)
program (kill_server s) = locked (s, server_map) (range_ops s ++ send_done s ∷ []) []
program (async_call_handler s) = guarded (s, server_map)
program (get_server_info s) = clock_ops s
program (get_kv_server s) = locked (s, key_value_map) (access (s, key_value_map) ∷ clock_ops s) []
program (send_kv_data s) = guarded (s, key_value_map)
program (break_connection s) =
    locked (s, server_map) []
      (locked (s, blacklist_map) (access (s, blacklist_map) ∷ access (s, server_map) ∷ []) [])
program (print_store s) = clock_ops s ++ guarded (s, key_value_map)
program (heartbeat_round s) =
    clock_ops s ++ locked (s, server_map) (access (s, server_map) ∷ clock_ops s ++ range_ops s) []
program (put_kv_server s old) = put_ops s old
program (process_remote_write s stored) = remote_write_ops s stored
program (join_other s other) = access (s, blacklist_map) ∷ join_ops other ++ guarded (s, server_map)
program (create_connection s other) =
    clock_ops s ++ locked (s, blacklist_map) (access (s, blacklist_map) ∷ notification_ops other) []
program (stabilize s rounds) = stabilize_ops s rounds

-- What a handler holds, the last lock first, and what it has still to do.
pub record Thread : Type 0 where
  pub held : List Mutex
  pub rest : List Op

abbrev pub thread : List Mutex → List Op → Thread
thread held rest = record { held = held; rest = rest }

abbrev pub Without : Mutex → Thread → Type 0
Without m t = In m t.held → ⊥

-- One handler locks a mutex that no one holds, or frees one, or uses a variable.
pub data Step (threads later : List Thread) : Type 0 where
  take :
      (before after : List Thread) (held : List Mutex) (m : Mutex) (ops : List Op)
      → threads ≡ before ++ thread held (lock m ∷ ops) ∷ after
      → All (Without m) threads
      → later ≡ before ++ thread (m ∷ held) ops ∷ after
      → Step threads later
  release :
      (before after : List Thread) (held : List Mutex) (m : Mutex) (ops : List Op)
      → threads ≡ before ++ thread (m ∷ held) (unlock m ∷ ops) ∷ after
      → later ≡ before ++ thread held ops ∷ after
      → Step threads later
  touch :
      (before after : List Thread) (held : List Mutex) (m : Mutex) (ops : List Op)
      → threads ≡ before ++ thread held (access m ∷ ops) ∷ after
      → later ≡ before ++ thread held ops ∷ after
      → Step threads later

-- The heartbeat thread of the server takes what KillServer sends, which then goes on.
pub data Receive (threads later : List Thread) : Type 0 where
  receive :
      (before after : List Thread) (held : List Mutex) (s : String) (ops : List Op)
      → threads ≡ before ++ thread held (send_done s ∷ ops) ∷ after
      → later ≡ before ++ thread held ops ∷ after
      → Receive threads later

-- The states of the handlers at all servers, each of which may start at any time.
pub data Reach : List Thread → Type 0 where
  idle : Reach []
  step : {threads later : List Thread} → Reach threads → Step threads later → Reach later
  taken : {threads later : List Thread} → Reach threads → Receive threads later → Reach later
  start :
      {threads : List Thread} (h : Handler)
      → Reach threads
      → Reach (thread [] (program h) ∷ threads)
