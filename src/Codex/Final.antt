-- ===== src/Codex/Final.antt =====
-- Which answer a run of internal/codex/isolated.go takes from the output of Codex.
use peercontext.Common.{
  ℕ, ◌≡◌, ◌≤◌, refl, true, false, Option, none, some, inl, inr, List, [], ◌∷◌, map, String, length,
  All, arith, ltb, Bool-cases, if◌then◌else◌,
}
use peercontext.Common.Text.{Bytes}
use peercontext.Errors.{ok}
use peercontext.Codex.{Event, Ran, answered, is_final, parse_final_agent_message, runtime_failure}

-- The text of the last event that is a final message of the Agent, else the one before.
unfoldable pub last_message : List Event → Option Bytes → Option Bytes
last_message [] before = before
last_message (e ∷ es) before =
    let kept = last_message es before in
    let taken = last_message es (some e.text) in if is_final e then taken else kept

-- what no answer comes to
abbrev pub answer_or_none : Option Bytes → Ran
answer_or_none (some answer) = answered answer
answer_or_none none =
    runtime_failure "codex_protocol_error" "Codex JSONL did not contain a final Agent message" none

-- On an output that decodes and whose final messages are within the limit, the parser returns the last
-- final message of the Agent, or the error for an output without one.
pub parse_final_agent_message-last_message :
    (limit : ℕ) (limit_text : String) (events : List Event) (before : Option Bytes)
    → All (λ e. is_final e ≡ true → length e.text ≤ limit) events
    → parse_final_agent_message limit limit_text (map ok events) before
      ≡ answer_or_none (last_message events before)
unfolding parse_final_agent_message last_message
parse_final_agent_message-last_message limit limit_text [] none small = refl
parse_final_agent_message-last_message limit limit_text [] (some answer) small = refl
parse_final_agent_message-last_message limit limit_text (e ∷ es) before small =
    elim (Bool-cases (is_final e)) [
      | inl f ↦
          let within : ltb limit (length e.text) ≡ false = ground (arith, small.0 f) in
          rw (f, within)
            (parse_final_agent_message-last_message limit limit_text es (some e.text) small.1)
      | inr f ↦ rw f (parse_final_agent_message-last_message limit limit_text es before small.1)
    ]
