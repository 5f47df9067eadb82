-- ===== src/Samples/Interleaving.antt =====
-- A put and a heartbeat round with other handlers in them (server/).
use psk_db.Prelude.{ℤ, ℕ, pos, ◌≡◌, refl, some, List, [], ◌∷◌, All, length, zero, suc}
use psk_db.Common.{PutKvServerRequest}
use psk_db.Server.State.{Server, Action}
use psk_db.Server.Store.{put_entry, put_kv_server}
use psk_db.Server.Step.{Event, new_server, killed, get}
use psk_db.Server.Invariant.Defs.{IsValid}
use psk_db.Server.Interleaved.{interleaved_put}
use psk_db.Server.Interleaved.Writing.{Writes, interleaved_put-Writes}
use psk_db.Server.Interleaved.Round.{interleaved_round}
use psk_db.Server.Interleaved.Round.Own.{own}
use psk_db.Server.Interleaved.Round.Beats.{Beats, IsNext, interleaved_round-Beats}
use psk_db.Samples.{member_of, server_one, server_one-IsValid, dials}

abbrev write : PutKvServerRequest
write = record { key = "x"; value = "newest"; version = pos 4_200_000 }

-- Server 3 becomes a member and server 2 is killed before each iteration.
abbrev news : List Event
news =
    new_server 9 (record { id = "2"; new_server_info = member_of "3" "9002" })
    ∷ killed (record { id = "2" })
    ∷ []

interleaved_put-Writes_example :
    (t : Server) × (actions : List Action) × (interleaved_put dials
        (λ id. news)
        ("2" ∷ "3" ∷ [])
        write
        server_one
      ≡ some (t, (put_kv_server dials write server_one).1, actions))
    × IsValid t
    × (t.key_value_map ≡ (put_kv_server dials write server_one).0.key_value_map)
    × All (Writes (put_entry write server_one).0) actions
interleaved_put-Writes_example =
    interleaved_put-Writes dials (λ id. news) ("2" ∷ "3" ∷ []) write server_one server_one-IsValid
      (λ id. (tt, (tt, tt))) (λ id. (tt, (tt, tt)))

-- 0, 1, …, as many as are asked for.
abbrev numbers : ℕ → List ℕ
numbers zero = []
numbers (suc n) = n ∷ numbers n

length-numbers : (n : ℕ) → length (numbers n) ≡ n
length-numbers zero = refl
length-numbers (suc n) = λ i. suc (length-numbers n i)

abbrev read : List Event
read = get (record { key = "x"; version = pos 0 }) ∷ []

interleaved_round-Beats_example :
    (seqnum : ℤ) × IsNext (pos 4) seqnum
    × (t : Server) × (actions : List Action) × (interleaved_round dials 9 numbers news read
          server_one
        ≡ some (t, actions))
    × IsValid t
    × (own t ≡ ("1", seqnum))
    × All (Beats ("1", seqnum)) actions
interleaved_round-Beats_example =
    interleaved_round-Beats dials 9 numbers news read server_one server_one-IsValid length-numbers
      (tt, (tt, tt)) (tt, tt) (tt, (tt, tt)) (tt, tt)
