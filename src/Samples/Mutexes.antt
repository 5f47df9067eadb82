-- ===== src/Samples/Mutexes.antt =====
-- Sample handlers that wait for one another's mutexes (server/rpc.go).
use psk_db.Prelude.{ℕ, ◌≡◌, ◌⊎◌, some, true, List, [], ◌∷◌, All}
use psk_db.Cluster.Mutexes.{
  server_map, blacklist_map, put_kv_server, join_cluster_as_server, create_connection, stabilize,
  program, Thread, thread, Step, Reach, idle, start,
}
use psk_db.Cluster.Mutexes.Progress.{Ended, AtChannel, no_deadlock}
use psk_db.Cluster.Mutexes.Runs.{Steps, Steps-Reach}
use psk_db.Cluster.Mutexes.Exclusion.{Contended, race_variables}
use psk_db.Cluster.Mutexes.Races.{put_race}

-- CreateConnection at server 1 and Stabilize at server 2 each call the other.
abbrev both : List Thread
both =
    thread [] (program (create_connection "1" (some "2")))
    ∷ thread [] (program (stabilize "2" (("1" ∷ []) ∷ [])))
    ∷ []

both-Reach : Reach both
both-Reach = start (create_connection "1" (some "2")) (start (stabilize "2" (("1" ∷ []) ∷ [])) idle)

no_deadlock_example : All Ended both ⊎ ((later : List Thread) × Step both later) ⊎ AtChannel both
no_deadlock_example = no_deadlock both-Reach

-- A put and a join that start at server 1.
abbrev put_and_join : List Thread
put_and_join =
    thread [] (program (put_kv_server "1" true))
    ∷ thread [] (program (join_cluster_as_server "1"))
    ∷ []

put_race_example :
    (n : ℕ) × (later : List Thread) × Steps n put_and_join later × Contended ("1", server_map) later
put_race_example = put_race "1" true idle tt

put_and_join-Reach : Reach put_and_join
put_and_join-Reach = start (put_kv_server "1" true) (start (join_cluster_as_server "1") idle)

race_variables_example : (server_map ≡ server_map) ⊎ (server_map ≡ blacklist_map)
race_variables_example =
    race_variables ("1", server_map) (Steps-Reach put_and_join-Reach (put_race "1" true idle tt).2)
      (put_race "1" true idle tt).3
