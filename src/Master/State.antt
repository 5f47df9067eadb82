-- ===== src/Master/State.antt =====
-- The variables of main in master.go, and the texts that it takes apart and puts together.
use Prim.Native.Char.{code}
use Prim.Native.String.{◌++◌}
use psk_db.Prelude.{ℕ, zero, suc, ◌/◌, ◌%◌, String, List, [], ◌∷◌, eqb, ltb, if◌then◌else◌}
use psk_db.Dict.{Dict}
use psk_db.Common.{ConnectionRequest, PutKvClientRequest, GetKvClientRequest, StabilizeRequest}

pub record Master : Type 0 where
  pub server_node_map : Dict ℕ
  pub server_next_port : ℕ
  pub client_node_map : Dict ℕ
  pub client_next_port : ℕ

abbrev pub init : Master
init = record {
  server_node_map = [];
  server_next_port = 9000;
  client_node_map = [];
  client_next_port = 10000;
}

abbrev add_char : String → List String → List String
add_char c [] = c ∷ []
add_char c (word ∷ words) = (c ++ word) ∷ words

-- strings.Split(command, " ")
unfoldable pub split : String → List String
split String.[] = "" ∷ []
split (String.◌∷◌ c s) =
    let rest = split s in
    if eqb (code c) b' ' then "" ∷ rest else add_char (String.◌∷◌ c String.[]) rest

abbrev pub digit : ℕ → String
digit n =
    if eqb n 0
    then "0"
    else if eqb n 1
    then "1"
    else if eqb n 2
    then "2"
    else if eqb n 3
    then "3"
    else if eqb n 4
    then "4"
    else if eqb n 5
    then "5"
    else if eqb n 6
    then "6"
    else if eqb n 7
    then "7"
    else if eqb n 8
    then "8"
    else "9"

unfoldable pub itoa_loop : ℕ → ℕ → String → String
itoa_loop zero n text = text
itoa_loop (suc fuel) n text =
    let longer = itoa_loop fuel (n / 10) (digit (n % 10) ++ text) in
    if ltb n 10 then digit n ++ text else longer

-- strconv.Itoa of a number that is not negative; it has at most as many digits as its value plus one.
unfoldable pub itoa : ℕ → String
unfolding itoa_loop
itoa n = itoa_loop (suc n) n ""

-- "localhost:" + strconv.Itoa(port)
unfoldable pub local_address : ℕ → String
local_address port = "localhost:" ++ itoa port

-- The calls that the master makes.
pub data Call : Type 0 where
  kill_server print_store print_membership_list : Call
  break_server create_server break_client create_client : ConnectionRequest → Call
  put_kv_client : PutKvClientRequest → Call
  get_kv_client : GetKvClientRequest → Call
  stabilize : StabilizeRequest → Call

-- What a command does outside the master: a process that it starts with its arguments, a call to an
-- address, a warning; `killed` is the `kill` of the process that was started last.
pub data Action : Type 0 where
  spawned_server : List String → Action
  spawned_client : List String → Action
  killed : Action
  called : String → Call → Action
  warned : Action

-- How a command ends, with what it has done. `panicked` is a slice read out of range, a call through a
-- nil client, or a process that does not start; `waiting` is a wait that does not end.
pub data Outcome : Type 0 where
  next : Master → List Action → Outcome
  finished : List Action → Outcome
  panicked : List Action → Outcome
  waiting : List Action → Outcome
