-- ===== src/Master/Script.antt =====
-- The loop of main in master.go over the lines of its input.
pub mod Addresses
use psk_db.Prelude.{
  ℕ, ◌+◌, String, Bool, true, false, Option, none, some, List, [], ◌∷◌, ◌++◌, ◌==◌, if◌then◌else◌,
  get_elem?,
}
use psk_db.Master.State.{Master, split, Action, Outcome, next, finished, panicked, waiting}
use psk_db.Master.Commands.{World, execute}

-- An outcome with what was done before.
abbrev pub after_actions : List Action → Outcome → Outcome
after_actions actions (next m later) = next m (actions ++ later)
after_actions actions (finished later) = finished (actions ++ later)
after_actions actions (panicked later) = panicked (actions ++ later)
after_actions actions (waiting later) = waiting (actions ++ later)

-- The loop goes on only with the command's end.
abbrev pub go_on : Outcome → (Master → Outcome) → Outcome
go_on (next m actions) f = after_actions actions (f m)
go_on (finished actions) f = finished actions
go_on (panicked actions) f = panicked actions
go_on (waiting actions) f = waiting actions

-- `for scanner.Scan()`, with what each command meets.
unfoldable pub run_lines : List (World × String) → Master → Outcome
unfolding execute split
run_lines [] m = next m []
run_lines ((w, line) ∷ lines) m = go_on (execute w (split line) m) (λ m'. run_lines lines m')

-- After the loop: whether reading failed.
abbrev pub end_of_input : Bool → Outcome → Outcome
end_of_input true (next m actions) = panicked actions
end_of_input false (next m actions) = finished actions
end_of_input failed outcome = outcome

-- How many lines start a server.
abbrev pub is_join : Option String → ℕ
is_join none = 0
is_join (some word) = if word == "joinServer" then 1 else 0

abbrev pub count_joins : List (World × String) → ℕ
count_joins [] = 0
count_joins ((w, line) ∷ lines) = is_join (get_elem? (split line) 0) + count_joins lines
