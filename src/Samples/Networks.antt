-- ===== src/Samples/Networks.antt =====
-- A put at one of two servers, and its remote write at the other (server/rpc.go).
use psk_db.Prelude.{
  pos, String, false, ◌++◌, ◌≡◌, refl, sym, ap, ◌∙◌, subst, some, List, [], ◌∷◌, All, In, ◌⊎◌, inl,
  inr, ◌==◌, if◌then◌else◌, if_rule, ◌+ℤ◌, ◌-ℤ◌,
}
use psk_db.Dict.{lookup, insert}
use psk_db.Common.{Conn, PutKvServerRequest, GetKvServerRequest}
use psk_db.Server.State.{
  Time, KeyValueInfo, Call, sent, Server, process_remote_write as process_remote_write_call,
}
use psk_db.Server.Connect.{connect, broadcast}
use psk_db.Server.Clock.{conditional_increment_lamport_timestamp, conditional_increment}
use psk_db.Server.Store.{put_entry, put_kv_server, get_kv_server, process_remote_write}
use psk_db.Server.Printing.{print_entries}
use psk_db.Server.Invariant.Defs.{IsValid}
use psk_db.Server.Invariant.Calls.{with_store-IsValid}
use psk_db.Server.Invariant.Events.{IsValidEvent}
use psk_db.Server.Step.{Event, put, step}
use psk_db.Cluster.{Cluster}
use psk_db.Cluster.Convergence.{Closed}
use psk_db.Cluster.Walks.{Walk}
use psk_db.Cluster.Schedule.{run_rounds, messages_of, reach}
use psk_db.Cluster.Network.{
  Network, AreNew, receipt, is_receipt, actions_of, Puts, wrote, after, Reached, at_start, starts,
  arrives,
}
use psk_db.Cluster.Network.Written.{Written}
use psk_db.Cluster.Network.Origin.{
  Reached-IsValid, get_kv_server-Written, OneValueEach, print_entries-Reached,
}
use psk_db.Samples.{server_one, server_one-IsValid, server_two, server_two-IsValid, dials}
use psk_db.Samples.Partition.{
  Both, messages, messages-Walk, names, named, pairs, pairs-Covers, round, arrived-round, two_dials,
}

abbrev one : Server
one = record server_one { key_value_map = [] }

abbrev fresh : Cluster
fresh id = if id == "1" then one else record server_two { key_value_map = [] }

fresh-AreNew : AreNew fresh
fresh-AreNew id =
    if_rule (λ (s : Server). IsValid s × (s.key_value_map ≡ [])) (id == "1") _ _
      (λ _. (with_store-IsValid [] server_one tt server_one-IsValid, refl))
      (λ _. (with_store-IsValid [] server_two tt server_two-IsValid, refl))

abbrev write : PutKvServerRequest
write = record { key = "x"; value = "newest"; version = pos 4_200_000 }

abbrev made : KeyValueInfo
made = record { key = "x"; value = "newest"; version = pos 6_100_000 }

made-put_entry : (put_entry write one).0 ≡ made
unfolding put_entry conditional_increment_lamport_timestamp conditional_increment lookup ◌+ℤ◌ ◌-ℤ◌
made-put_entry = refl

abbrev call : Call
call = process_remote_write_call (record { key = "x"; value = "newest"; version = pos 6_100_000 })

abbrev written : Network
written =
    after "1" (put dials write) (put_kv_server dials write one).0
      (record { servers = fresh; actions = [] })

sent-written : In (sent "2" 7 call) written.actions
unfolding actions_of put_kv_server broadcast connect put_entry
    conditional_increment_lamport_timestamp conditional_increment lookup ◌+ℤ◌ ◌-ℤ◌
sent-written = inl refl

abbrev both : Network
both =
    after "2" (receipt 9 call)
      (process_remote_write (record { key = "x"; value = "newest"; version = pos 6_100_000 })
        (fresh "2"))
      written

abbrev puts : Puts
puts = wrote (put dials write) one ++ []

both-Reached : Reached fresh puts both
unfolding step
both-Reached =
    arrives "2" 7 9 call _ (starts "1" (put dials write) _ at_start refl tt refl) sent-written refl

Reached-IsValid_example :
    ((id : String) → IsValid (both.servers id))
    × ((id : String) (event : Event)
        → is_receipt event ≡ false
        → IsValidEvent event
        → (s' : Server) × (step event (both.servers id) ≡ some s'))
    × ((id : String) (c : Conn) (now : Time) (call : Call)
        → In (sent id c call) both.actions
        → (s' : Server) × (step (receipt now call) (both.servers id) ≡ some s'))
Reached-IsValid_example = Reached-IsValid fresh puts both fresh-AreNew both-Reached

abbrev read : GetKvServerRequest
read = record { key = "x"; version = pos 4_200_000 }

get_kv_server-Written_example :
    ((get_kv_server read (both.servers "2")).1.value ≡ "ERR_KEY")
    ⊎ ((get_kv_server read (both.servers "2")).1.value ≡ "ERR_DEP")
    ⊎ Written puts "x" (
      (get_kv_server read (both.servers "2")).1.version,
      (get_kv_server read (both.servers "2")).1.value,
    )
get_kv_server-Written_example =
    get_kv_server-Written fresh puts both "2" read fresh-AreNew both-Reached

puts-OneValueEach : OneValueEach puts
puts-OneValueEach u v x y (inl e) (inl f) s k t = ap (λ made. made.1.value) (sym e ∙ f)
puts-OneValueEach u v x y (inr m) n s k t = absurd (m tt)
puts-OneValueEach u v x y (inl e) (inr n) s k t = absurd (n tt)

messages_of-both : messages_of two_dials both.servers pairs ≡ messages
unfolding messages_of reach connect lookup insert put_kv_server process_remote_write broadcast
    put_entry
messages_of-both = refl

print_entries-Reached_example :
    print_entries (run_rounds two_dials (round ∷ []) both.servers "1").key_value_map
    ≡ print_entries (run_rounds two_dials (round ∷ []) both.servers "2").key_value_map
print_entries-Reached_example =
    print_entries-Reached fresh puts both two_dials Both names pairs (round ∷ []) fresh-AreNew
      both-Reached puts-OneValueEach refl named
      (subst (λ (m : List (String × String)). (i j : String) → Both i → Both j → Walk m names j i)
        (sym messages_of-both) messages-Walk)
      (pairs-Covers, tt)
      (λ key.
        subst
          (λ (p : List (String × String)).
            All (Closed Both key) (messages_of two_dials both.servers p ∷ []))
          (sym arrived-round)
          (subst (λ (m : List (String × String)). All (Closed Both key) (m ∷ []))
            (sym messages_of-both) (((λ _. inl refl), ((λ _. inr refl), tt)), tt)))
      "1" "2" (inl refl) (inr refl)
