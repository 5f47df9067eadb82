-- ===== src/Server/Printing.antt =====
-- PrintStore and PrintMembershipList of server/rpc.go, as the texts that they write.
pub mod Agreement
use Prim.Native.String.{◌++◌}
use psk_db.Prelude.{String, List, [], ◌∷◌, sort_strings}
use psk_db.Dict.{Dict}
use psk_db.Server.State.{ServerInfo, KeyValueInfo, Server}

-- fmt.Sprintf("%s\t:\t%s", key, value.Value)
abbrev pub store_line : String → String → String
store_line key value = key ++ "\t:\t" ++ value

-- The loop that fills `store`.
unfoldable pub store_lines : Dict KeyValueInfo → List String
store_lines [] = []
store_lines ((key, info) ∷ rest) = store_line key info.value ∷ store_lines rest

-- Each text with a line break.
unfoldable pub print_lines : List String → String
print_lines [] = ""
print_lines (line ∷ lines) = line ++ "\n" ++ print_lines lines

-- What PrintStore writes of the store.
unfoldable pub print_entries : Dict KeyValueInfo → String
unfolding store_lines print_lines
print_entries store = print_lines (sort_strings (store_lines store))

-- PrintStore
unfoldable pub print_store : Server → String
unfolding print_entries
print_store s =
    "\nServer " ++ s.curr_server_info.id ++ " KV Store\n" ++ print_entries s.key_value_map ++ "\n"

-- The loop of PrintMembershipList.
unfoldable pub print_members : Dict ServerInfo → String → String
print_members [] member_list = member_list
print_members ((id, serv_info) ∷ rest) member_list =
    print_members rest (member_list ++ "( ID: " ++ id ++ ", Port: " ++ serv_info.port_num ++ " ) ")

-- PrintMembershipList: the message, without the prefix of the logger.
unfoldable pub print_membership_list : Server → String
unfolding print_members
print_membership_list s =
    "Member list: [ "
    ++ print_members s.server_map
        ("( *ID: " ++ s.curr_server_info.id ++ ", Port: " ++ s.curr_server_info.port_num ++ " ) ")
    ++ " ].\n"
