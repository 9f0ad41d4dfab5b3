-- ===== src/Examples/CodexRuns.antt =====
-- The theorems on runs of Codex, for a host with a PATH and an output of three lines.
use peercontext.Common.{
  ◌≡◌, refl, none, some, List, [], ◌∷◌, String, map, ◌==◌, nat_eq, string_eq, if◌then◌else◌, arith,
}
use peercontext.Common.Text.{codes}
use peercontext.Errors.{ok}
use peercontext.Codex.{Event, parse_final_agent_message}
use peercontext.Codex.Final.{answer_or_none, last_message, parse_final_agent_message-last_message}
use peercontext.Codex.Environment.{isolated_environment, fixed_values}
use peercontext.Codex.Environment.Allowed.{IsIsolated, isolated_environment-IsIsolated}

host_variable : String → String
host_variable key =
    if key == "PATH" then "/usr/bin" else if key == "AWS_SECRET_ACCESS_KEY" then "secret" else ""

isolated_environment-IsIsolated_example :
    IsIsolated host_variable
      (fixed_values "/h" "/c" "/t")
      (isolated_environment host_variable "/h" "/c" "/t")
isolated_environment-IsIsolated_example =
    isolated_environment-IsIsolated host_variable "/h" "/c" "/t"

abbrev message : String → Event
message text = record { type = "item.completed"; item_type = "agent_message"; text = codes text }

abbrev thinking : Event
thinking = record { type = "item.started"; item_type = "reasoning"; text = [] }

abbrev lines : List Event
lines = message "draft" ∷ (thinking ∷ (message "done" ∷ []))

parse_final_agent_message-last_message_example :
    parse_final_agent_message 5 "5" (map ok lines) none ≡ answer_or_none (last_message lines none)
unfolding codes
parse_final_agent_message-last_message_example =
    parse_final_agent_message-last_message 5 "5" lines none
      (λ _. omega arith, (λ _. omega arith, (λ _. omega arith, tt)))

last_line : last_message lines none ≡ some (codes "done")
unfolding last_message
last_line = refl
