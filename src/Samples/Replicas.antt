-- ===== src/Samples/Replicas.antt =====
-- Sample runs of the key-value store of server/rpc.go.
use psk_db.Prelude.{pos, negsuc, String, none, some, [], ◌∷◌, refl, arith, ◌≡◌, ◌+ℤ◌, ◌-ℤ◌}
use psk_db.Dict.{Dict, lookup, insert, Distinct}
use psk_db.Timestamp.{ceil}
use psk_db.Common.{PutKvServerRequest, GetKvServerRequest}
use psk_db.Server.State.{KeyValueInfo, Server}
use psk_db.Server.Clock.{conditional_increment}
use psk_db.Server.Store.{put_entry, put_kv_server, get_kv_server, process_remote_write, merge}
use psk_db.Server.Store.Exchange.{merge_exchange, merge_tie}
use psk_db.Server.Store.Replies.{IsAnswer, get_kv_server-IsAnswer}
use psk_db.Server.Store.Repeats.{sent_write, put_kv_server_repeats}
use psk_db.Server.Store.Writes.{put_kv_server_lost}
use psk_db.Samples.{entry, server_one, server_one-IsValid, dials}

abbrev ask : GetKvServerRequest
ask = record { key = "x"; version = pos 3_900_000 }

get_kv_server-IsAnswer_example :
    ((get_kv_server ask server_one).1.key ≡ "x")
    × IsAnswer ask server_one (get_kv_server ask server_one).1
    × ((get_kv_server ask server_one).0.key_value_map ≡ server_one.key_value_map)
get_kv_server-IsAnswer_example = get_kv_server-IsAnswer ask server_one server_one-IsValid

-- A client that has seen a newer version than the server holds is told so.
get_kv_server_test : (get_kv_server ask server_one).1.value ≡ "ERR_DEP"
unfolding get_kv_server lookup
get_kv_server_test = refl

abbrev left : Dict KeyValueInfo
left = ("x", entry "x" "old" (pos 3_200_000)) ∷ ("y", entry "y" "left" (pos 9_100_000)) ∷ []

abbrev right : Dict KeyValueInfo
right = ("y", entry "y" "right" (pos 2_200_000)) ∷ ("x", entry "x" "new" (pos 4_200_000)) ∷ []

left-Distinct : Distinct left
unfolding lookup
left-Distinct = (refl, (refl, tt))

right-Distinct : Distinct right
unfolding lookup
right-Distinct = (refl, (refl, tt))

merge_exchange_example : lookup "x" (merge right left) ≡ lookup "x" (merge left right)
unfolding lookup
merge_exchange_example =
    merge_exchange left right "x" left-Distinct right-Distinct
      (refl, λ h. absurd (ground (arith, h)))

merge_test : lookup "x" (merge right left) ≡ some (entry "x" "new" (pos 4_200_000))
unfolding lookup merge insert
merge_test = refl

-- The ids 1 and 10 both stamp with the fraction 0.1: the two values stay apart.
abbrev tied : Dict KeyValueInfo
tied = ("x", entry "x" "other" (pos 3_200_000)) ∷ []

tied-Distinct : Distinct tied
unfolding lookup
tied-Distinct = (refl, tt)

merge_tie_example :
    (lookup "x" (merge tied left) ≡ some (entry "x" "old" (pos 3_200_000)))
    × (lookup "x" (merge left tied) ≡ some (entry "x" "other" (pos 3_200_000)))
unfolding lookup
merge_tie_example =
    merge_tie left tied "x" (entry "x" "old" (pos 3_200_000)) (entry "x" "other" (pos 3_200_000))
      left-Distinct tied-Distinct refl refl refl

abbrev write : PutKvServerRequest
write = record { key = "x"; value = "mine"; version = negsuc 999_999 }

put_kv_server_test : (put_kv_server dials write server_one).1.version ≡ pos 6_100_000
unfolding put_kv_server lookup conditional_increment ◌+ℤ◌ put_entry ◌-ℤ◌
put_kv_server_test = refl

-- Server 1 has not heard of the clock of server 2, from which it holds an entry.
abbrev late : Dict KeyValueInfo
late = ("x", entry "x" "theirs" (pos 7_200_000)) ∷ []

late-Distinct : Distinct late
unfolding lookup
late-Distinct = (refl, tt)

put_kv_server_lost_example :
    lookup "x" (
      merge
        (put_kv_server dials write (record server_one { key_value_map = late })).0.key_value_map
        late)
    ≡ some (entry "x" "theirs" (pos 7_200_000))
unfolding lookup ◌+ℤ◌
put_kv_server_lost_example =
    put_kv_server_lost dials write (record server_one { key_value_map = late })
      (entry "x" "theirs" (pos 7_200_000)) late late-Distinct refl refl refl (omega arith)

conditional_increment_test : conditional_increment (pos 9_200_000) (pos 5_100_000) ≡ pos 3_100_000
unfolding conditional_increment ◌+ℤ◌ ◌-ℤ◌ ceil
conditional_increment_test = refl

-- Two clients that have seen 7.2 write at server 1, whose clock reads 5.1.
abbrev seen : String → PutKvServerRequest
seen value = record { key = "x"; value = value; version = pos 7_200_000 }

abbrev empty : Server
empty = record server_one { key_value_map = [] }

no_x : lookup "x" empty.key_value_map ≡ none
unfolding lookup
no_x = refl

put_kv_server_repeats_example :
    let a = put_kv_server dials (seen "a") server_one in
    let b = put_kv_server dials (seen "b") a.0 in
    (b.1.version ≡ a.1.version)
    × (b.1.value ≡ "b")
    × (lookup "x"
          (process_remote_write
            (sent_write b.1)
            (process_remote_write (sent_write a.1) empty)).key_value_map
        ≡ some (record { key = "x"; value = "a"; version = a.1.version }))
unfolding ◌+ℤ◌
put_kv_server_repeats_example =
    put_kv_server_repeats dials dials (seen "a") (seen "b") server_one empty server_one-IsValid
      (omega arith) (omega arith, omega arith) (omega arith, omega arith) refl no_x
