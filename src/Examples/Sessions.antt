-- ===== src/Examples/Sessions.antt =====
-- A second turn that is chained to the session of the first, and a store of one entry.
use realy_code.Common.{
  ◌≡◌, refl, String, pos, false, none, some, List, [], ◌∷◌, concat, str_eq, if◌then◌else◌, arith,
}
use realy_code.Transcript.Message.{Message, text_block, of_blocks}
use realy_code.Session.Entry.{Entry, Lookup, Scope, in_scope, chainable_tail, appended_user_tail}
use realy_code.Session.Store.{Store, Response, entry_of, prune, find_entry, commit, invalidate}
use realy_code.Session.Prepare.{Request, Hashing, Outcome, ok, last_of, prepare}
use realy_code.Session.Prepare.Chains.{IsScope, Reuses, prepare-Reuses}
use realy_code.Session.Commit.{IsBounded, commit-IsBounded, commit-invalidate}

-- a hash that keeps what it is given
abbrev plain : Hashing
plain = record {
  digest = concat;
  normalize = λ m. some m.role;
  system_text = λ raw. some raw;
  same_block = λ a b. str_eq a.text b.text;
  separator = "|";
  message_mark = "#";
}

abbrev says : String → String → Message
says role text = record { role = role; content = of_blocks (some (text_block text ∷ [])) }

abbrev turns : List Message → Request
turns ms = record {
  system = "be brief";
  has_tools = false;
  tools_json = none;
  messages = ms;
  session_id = "s1";
}

abbrev empty_store : Store
empty_store = record { entries = []; ttl = 60; max = 1 }

abbrev lookup_of : Outcome (Lookup × Store) → Lookup × Store
lookup_of (ok r) = r
lookup_of _ = (
  record {
    chain = none;
    tail = [];
    full_replay_reason = "";
    new_key = "";
    new_parent_key = "";
    new_last_message = says "" "";
    session_id = "";
    tools_hash = "";
    instructions_hash = "";
  },
  empty_store,
)

abbrev response : Response
response = record {
  provider = "p";
  upstream_model = "m";
  message_count = 1;
  response_id = "resp_1";
  input_tokens = pos 4;
  output_tokens = pos 2;
  call_kinds = [];
}

abbrev pub first_turn : Lookup × Store
first_turn = lookup_of (prepare plain "p" "m" (turns (says "user" "hi" ∷ [])) empty_store 5 5)

abbrev pub committed : Store
committed = commit 6 first_turn.0 response first_turn.1

abbrev second_request : Request
second_request = turns (says "user" "hi" ∷ says "assistant" "hello" ∷ says "user" "more" ∷ [])

abbrev second_turn : Lookup × Store
second_turn = lookup_of (prepare plain "p" "m" second_request committed 7 8)

abbrev chained_to : Entry
chained_to = record (entry_of 6 first_turn.0 response) { last_used = 8 }

prepare-Reuses_example :
    (scope : Scope) × IsScope plain "p" "m" second_request scope
    × Reuses plain scope (prune 7 committed).entries 8 second_turn.0 first_turn.0.new_key chained_to
unfolding prepare prune commit in_scope chainable_tail appended_user_tail last_of find_entry
prepare-Reuses_example =
    prepare-Reuses plain "p" "m" second_request committed second_turn.1 7 8 second_turn.0
      first_turn.0.new_key chained_to refl refl

commit-IsBounded_example : IsBounded (commit 7 second_turn.0 response second_turn.1)
unfolding prepare prune commit in_scope chainable_tail appended_user_tail last_of find_entry
commit-IsBounded_example =
    commit-IsBounded 7 second_turn.0 response second_turn.1
      (record { some_room = omega arith; bounded = omega arith; named = refl }) refl

commit-invalidate_example :
    (find_entry first_turn.0.new_key committed.entries ≡ some (entry_of 6 first_turn.0 response))
    × (find_entry "other" (invalidate first_turn.0.new_key committed).entries ≡ (
        if str_eq first_turn.0.new_key "other" then none else find_entry "other" committed.entries))
unfolding prepare prune last_of
commit-invalidate_example = commit-invalidate 6 first_turn.0 response first_turn.1 "other" refl refl
