-- ===== src/Master/Commands.antt =====
-- The commands of master.go: the switch in the loop of main.
use psk_db.Prelude.{String, List, [], ◌∷◌, ◌==◌, if◌then◌else◌}
use psk_db.Master.State.{
  Master, print_store, print_membership_list, warned, Outcome, next, finished,
}
pub use psk_db.Master.Nodes.{World, with_arg, port_of, after_start}
unfoldable pub use psk_db.Master.Nodes.{join_server, kill_server_command, join_client}
pub use psk_db.Master.Links.{Link, break_link, create_link}
unfoldable pub use psk_db.Master.Links.{link_servers, link_client, connection}
pub use psk_db.Master.Requests.{put_words, get_words}
unfoldable pub use psk_db.Master.Requests.{
  ask_server, ask_client, stabilize_calls, stabilize_command,
}

-- Of breakConnection, createConnection, printStore, put, get and printMemberList, what follows the
-- reading of the ids.
abbrev pub break_connection_command : World → String → String → Master → Outcome
break_connection_command w a b m = connection break_link w.reachable a b m

abbrev pub create_connection_command : World → String → String → Master → Outcome
create_connection_command w a b m = connection create_link w.reachable a b m

abbrev pub print_store_command : World → String → Master → Outcome
print_store_command w id m = ask_server print_store w.reachable id m

abbrev pub put_command : World → List String → String → Master → Outcome
put_command w words id m = ask_client (put_words words) w.reachable id m

abbrev pub get_command : World → List String → String → Master → Outcome
get_command w words id m = ask_client (get_words words) w.reachable id m

abbrev pub print_member_list_command : World → String → Master → Outcome
print_member_list_command w id m = ask_server print_membership_list w.reachable id m

-- The cases of the switch after joinServer.
abbrev pub later_commands : World → List String → Master → String → Outcome
later_commands w words m command =
    if command == "killServer"
    then with_arg words 1 (λ id. kill_server_command w.reachable id m)
    else if command == "joinClient"
    then with_arg words 1 (λ client. with_arg words 2 (λ server. join_client w client server m))
    else if command == "breakConnection"
    then with_arg words 1 (λ a. with_arg words 2 (λ b. break_connection_command w a b m))
    else if command == "createConnection"
    then with_arg words 1 (λ a. with_arg words 2 (λ b. create_connection_command w a b m))
    else if command == "stabilize"
    then stabilize_command w m
    else if command == "printStore"
    then with_arg words 1 (λ id. print_store_command w id m)
    else if command == "put"
    then with_arg words 1 (λ id. put_command w words id m)
    else if command == "get"
    then with_arg words 1 (λ id. get_command w words id m)
    else if command == "printMemberList"
    then with_arg words 1 (λ id. print_member_list_command w id m)
    else next m (warned ∷ [])

-- One round of the loop over the lines, with the line's words.
unfoldable pub execute : World → List String → Master → Outcome
execute w words m = with_arg words 0 (λ command.
    if command == "done"
    then finished []
    else if command == "joinServer"
    then with_arg words 1 (λ id. join_server w id m)
    else later_commands w words m command)
