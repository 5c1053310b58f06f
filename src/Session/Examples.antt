-- ===== src/Session/Examples.antt =====
-- A short session: a question, its answer, a checkpoint, a label and a branch. The theorems of the
-- package at it, and runs of the definitions.
use piglet.Prelude.{
  ℕ, zero, suc, String, ◌≡◌, refl, sym, ap, ◌∙◌, ◌≢◌, true, false, none, some, List, [], ◌∷◌, arith,
  str_eq, str_eq_of_ne, take, lookup, erase, insert,
}
use Prim.Native.String.{count, ◌++◌ as concat}
use text.Mathlib.TextLemmas.{length-append as string_length-append}
use piglet.Core.Json.{null}
use piglet.Core.Types.{Message, user, assistant, AssistantContent, zero_usage}
use piglet.Core.RoundTrip.{canon}
use piglet.Session.Types.{
  Entry, Line, entry, corrupt, Session, Env, written, write_failed, part_left, write_err,
  plain_node,
}
use piglet.Session.Payload.{message_entry_type}
use piglet.Session.Tree.{messages, branch_loop}
use piglet.Session.Store.{commit_node, add_line, leave}
use piglet.Session.Append.{append_op, compact_op, label_op, branch_op, run_op}
use piglet.Session.Replay.{blank, open_session, new_session, legacy_id}
use piglet.Session.Branch.{transcript, messages-transcript}
use piglet.Session.Effects.{after, messages-run_op}
use piglet.Session.Failure.{IsKept, run_op_fails}
use piglet.Session.Invariant.{IsValid, IsFresh, run_op-IsValid}
use piglet.Session.History.{Runs, done, call, fresh_session, fresh-IsValid, open_after_run}
use piglet.Session.Fork.{fork, fork_limit}
use piglet.Session.Forked.{IsGood, fork_total}
use piglet.Session.Hazards.{commit_collision}

abbrev at : String → ℕ → Env
at id now = record { fresh_id = id; now = now; io = written }

abbrev question : Message
question = user (record { content = "hi"; blocks = []; timestamp = 1 })

abbrev answer : Message
answer = assistant (record {
  content = AssistantContent.text "hello" ∷ [];
  model = "m";
  provider = "p";
  usage = zero_usage;
  stop_reason = "stop";
  error = "";
  timestamp = 2;
})

abbrev s0 : Session
s0 = fresh_session (at "uuid" 0) "dir" "dir/uuid.jsonl" "cwd"

abbrev s1 : Session
s1 = (run_op (at "a1" 1) (append_op question) s0).0

abbrev s2 : Session
s2 = (run_op (at "a2" 2) (append_op answer) s1).0

two_messages : messages s2 ≡ some (question ∷ answer ∷ [])
unfolding run_op commit_node messages message_entry_type blank lookup insert erase
two_messages = refl

branched : messages (run_op (at "a3" 3) (branch_op "a1") s2).0 ≡ some (question ∷ [])
unfolding run_op commit_node messages message_entry_type blank lookup insert erase
branched = refl

legacy : legacy_id 120 ≡ "L120"
unfolding legacy_id
legacy = refl

s0-IsValid : IsValid s0
s0-IsValid = fresh-IsValid (at "uuid" 0) "dir" "dir/uuid.jsonl" "cwd"

a1-IsFresh : IsFresh (at "a1" 1) s0
unfolding blank lookup
a1-IsFresh = record { named = refl; unused = refl }

s1-IsValid : IsValid s1
s1-IsValid = run_op-IsValid (at "a1" 1) (append_op question) s0 a1-IsFresh s0-IsValid

a2-IsFresh : IsFresh (at "a2" 2) s1
unfolding run_op commit_node blank lookup insert erase
a2-IsFresh = record { named = refl; unused = refl }

s2-IsValid : IsValid s2
s2-IsValid = run_op-IsValid (at "a2" 2) (append_op answer) s1 a2-IsFresh s1-IsValid

a3-IsFresh : IsFresh (at "a3" 3) s2
unfolding run_op commit_node blank lookup insert erase
a3-IsFresh = record { named = refl; unused = refl }

run_op-IsValid_example : IsValid (run_op (at "a3" 3) (branch_op "a1") s2).0
run_op-IsValid_example = run_op-IsValid (at "a3" 3) (branch_op "a1") s2 a3-IsFresh s2-IsValid

messages-transcript_example : messages s2 ≡ some (transcript s2.nodes s2.leaf_id)
messages-transcript_example = messages-transcript s2 s2-IsValid

messages-run_op_example :
    messages (run_op (at "a3" 3) (compact_op (question ∷ []) 7) s2).0
    ≡ some (after (at "a3" 3) (compact_op (question ∷ []) 7) s2)
messages-run_op_example =
    messages-run_op (at "a3" 3) (compact_op (question ∷ []) 7) s2 a3-IsFresh s2-IsValid

abbrev torn_write : Env
torn_write = record { fresh_id = "a3"; now = 3; io = write_failed part_left }

abbrev entry_for : String → Entry
entry_for id = record {
  typ = "ext:x";
  id = id;
  parent_id = "";
  ts = 1;
  payload = null;
  tokens_before = 0;
}

run_op_fails_example : IsKept (run_op torn_write (label_op "a1" "start") s2).0 s2
unfolding run_op commit_node blank lookup insert erase
run_op_fails_example = run_op_fails torn_write (label_op "a1" "start") s2 write_err refl

-- A write that fails in the middle of its line takes the next entry with it: its line does not parse.
after_torn : add_line (leave part_left (entry_for "a1") []) (entry (entry_for "a2")) ≡ corrupt ∷ []
unfolding add_line leave
after_torn = refl

two_calls : Runs s0 s2
unfolding run_op commit_node canon blank lookup insert erase
two_calls =
    call (at "a1" 1) (append_op question) a1-IsFresh refl refl
      (call (at "a2" 2) (append_op answer) a2-IsFresh refl refl done)

s2_lines : (lines : List Line) × (s2.file ≡ some lines)
unfolding run_op commit_node add_line blank message_entry_type
s2_lines = (_, refl)

open_after_run_example :
    (open_session (λ l. 100) s2.dir s2.path s2_lines.0 ≡ some s2)
    × (messages s2 ≡ some (transcript s2.nodes s2.leaf_id))
unfolding new_session s2_lines add_line
open_after_run_example =
    open_after_run (λ l. 100) (at "uuid" 0) "dir" "dir/uuid.jsonl" "cwd" s0 s2 s2_lines.0 refl refl
      two_calls s2_lines.1 refl

commit_collision_example :
    let t = (commit_node (at "a2" 3) "ext:x" null (plain_node "ext:x") s2).0 in
    branch_loop 100 t.nodes t.leaf_id [] ≡ none
unfolding run_op commit_node blank lookup insert erase
commit_collision_example =
    commit_collision (at "a2" 3) "ext:x" null (plain_node "ext:x") s2 100 refl refl refl

-- Names of different lengths, for the entries of a fork.
tally : ℕ → String
tally zero = "x"
tally (suc n) = concat "x" (tally n)

count-tally : (n : ℕ) → count (tally n) ≡ suc n
unfolding tally
count-tally zero = refl
count-tally (suc n) = omega (arith, string_length-append "x" (tally n), count-tally n)

tally_ne : (i : ℕ) (t : String) → count t ≢ suc i → str_eq (tally i) t ≡ false
tally_ne i t h = str_eq_of_ne (tally i) t (λ e. h (ap count (sym e) ∙ count-tally i))

abbrev fork_env : ℕ → Env
fork_env i = at (tally i) i

fork_env-IsGood : IsGood fork_env
fork_env-IsGood = record {
  writes = λ i. refl;
  named = λ i. tally_ne i "" (λ (e : count "" ≡ suc i). absurd (omega (arith, e)));
  distinct = λ i j lt.
      tally_ne i (tally j) (λ (e : count (tally j) ≡ suc i). absurd (omega (arith, count-tally j)));
}

fork_total_example :
    (t : Session) × (fork (at "u2" 5) (at "" 5) fork_env true "dir/u2.jsonl" 1 s2 ≡ some t)
    × (messages t
        ≡ some
            (take (fork_limit 1 (transcript s2.nodes s2.leaf_id)) (transcript s2.nodes s2.leaf_id)))
    × (t.meta.parent_id ≡ s2.meta.id)
    × (t.meta.model ≡ s2.meta.model)
    × (t.meta.fork_point ≡ fork_limit 1 (transcript s2.nodes s2.leaf_id))
fork_total_example =
    fork_total (at "u2" 5) (at "" 5) fork_env "dir/u2.jsonl" 1 s2 s2-IsValid fork_env-IsGood refl
      refl
