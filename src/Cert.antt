-- ===== src/Cert.antt =====
-- LogCert of zpbft/cert.go: what a server knows of one request. `LogCert.mu` makes each method one
-- step, so a method is a function on the record.
pub mod Votes
use praft.Prelude.{
  ℕ, Bool, false, true, List, [], ◌∷◌, ◌++◌, Option, none, some, is_some, length, Map, lookup,
  insert, Result, ok, ◌>>=◌, or_panic, nil_dereference,
}
use praft.Util.Slices.{Slice}
use praft.Messages.{
  RequestArgs, PrepareArgs, PrepareConfirmArgs, DuplicateConfirmArgs, CommitArgs, CommitConfirmArgs,
}

pub data Stage : Type 0 where
  initial_stage duplicated_stage prepare_stage commit_stage reply_stage : Stage

pub record LogCert : Type 0 where
  pub seq : ℕ
  pub duplicator : ℕ
  pub req : Option RequestArgs
  pub digest : Slice
  pub prepare_confirmed : Bool
  pub committed : Bool
  pub prepares : Map PrepareArgs
  pub prepare_confirms : Map PrepareConfirmArgs
  pub duplicate_confirms : Map DuplicateConfirmArgs
  pub prepare_q : List PrepareArgs
  pub prepare_confirm_q : List PrepareConfirmArgs
  pub duplicate_confirm_q : List DuplicateConfirmArgs
  pub commit_q : List CommitArgs
  pub commit_confirm_q : List CommitConfirmArgs
  pub stage : Stage
  pub log_index : ℕ
  pub produce_time : ℕ
  pub complete_time : ℕ

-- The literal in `getCertOrNew` of server.go; a nil queue is an empty one.
abbrev pub new_cert : ℕ → LogCert
new_cert seq = record {
  seq = seq;
  duplicator = 0;
  req = none;
  digest = none;
  prepare_confirmed = false;
  committed = false;
  prepares = [];
  prepare_confirms = [];
  duplicate_confirms = [];
  prepare_q = [];
  prepare_confirm_q = [];
  duplicate_confirm_q = [];
  commit_q = [];
  commit_confirm_q = [];
  stage = initial_stage;
  log_index = 0;
  produce_time = 0;
  complete_time = 0;
}

unfoldable pub set : LogCert → Option RequestArgs → Slice → ℕ → ℕ → LogCert
set lc req digest log_index duplicator = record lc {
  req = req;
  digest = digest;
  log_index = log_index;
  duplicator = duplicator;
}

unfoldable pub log_committed : LogCert → LogCert
log_committed lc = elim lc.req [
  | none ↦ lc
  | some req ↦ record lc { digest = none; committed = true }
]

pub record Contents : Type 0 where
  pub req : Option RequestArgs
  pub digest : Slice
  pub duplicator : ℕ
  pub log_index : ℕ

unfoldable pub get : LogCert → Contents
get lc = record {
  req = lc.req;
  digest = lc.digest;
  duplicator = lc.duplicator;
  log_index = lc.log_index;
}

unfoldable pub push_prepare : LogCert → PrepareArgs → LogCert
push_prepare lc args = record lc { prepare_q = lc.prepare_q ++ args ∷ [] }

unfoldable pub push_prepare_confirm : LogCert → PrepareConfirmArgs → LogCert
push_prepare_confirm lc args = record lc { prepare_confirm_q = lc.prepare_confirm_q ++ args ∷ [] }

unfoldable pub push_duplicate_confirm : LogCert → DuplicateConfirmArgs → LogCert
push_duplicate_confirm lc args = record lc {
  duplicate_confirm_q = lc.duplicate_confirm_q ++ args ∷ [];
}

unfoldable pub push_commit : LogCert → CommitArgs → LogCert
push_commit lc args = record lc { commit_q = lc.commit_q ++ args ∷ [] }

unfoldable pub push_commit_confirm : LogCert → CommitConfirmArgs → LogCert
push_commit_confirm lc args = record lc { commit_confirm_q = lc.commit_confirm_q ++ args ∷ [] }

unfoldable pub pop_all_prepares : LogCert → LogCert × List PrepareArgs
pop_all_prepares lc = (record lc { prepare_q = [] }, lc.prepare_q)

unfoldable pub pop_all_prepare_confirms : LogCert → LogCert × List PrepareConfirmArgs
pop_all_prepare_confirms lc = (record lc { prepare_confirm_q = [] }, lc.prepare_confirm_q)

unfoldable pub pop_all_duplicate_confirms : LogCert → LogCert × List DuplicateConfirmArgs
pop_all_duplicate_confirms lc = (record lc { duplicate_confirm_q = [] }, lc.duplicate_confirm_q)

unfoldable pub set_stage : LogCert → Stage → LogCert
set_stage lc stage = record lc { stage = stage }

unfoldable pub prepare_confirm_voted : LogCert → ℕ → Bool
prepare_confirm_voted lc node_id = is_some (lookup node_id lc.prepare_confirms)

unfoldable pub duplicate_confirm_voted : LogCert → ℕ → Bool
duplicate_confirm_voted lc node_id = is_some (lookup node_id lc.duplicate_confirms)

unfoldable pub prepare_voted : LogCert → ℕ → Bool
prepare_voted lc node_id = is_some (lookup node_id lc.prepares)

-- A vote reads `args.Msg.NodeId`, so it panics where the message is nil.
unfoldable pub prepare_confirm_vote : LogCert → PrepareConfirmArgs → Result LogCert
prepare_confirm_vote lc args = do
  msg ← or_panic args.msg nil_dereference
  ok (record lc { prepare_confirms = insert msg.node_id args lc.prepare_confirms })

unfoldable pub duplicate_confirm_vote : LogCert → DuplicateConfirmArgs → Result LogCert
duplicate_confirm_vote lc args = do
  msg ← or_panic args.msg nil_dereference
  ok (record lc { duplicate_confirms = insert msg.node_id args lc.duplicate_confirms })

unfoldable pub prepare_vote : LogCert → PrepareArgs → LogCert
prepare_vote lc args = record lc { prepares = insert args.msg.node_id args lc.prepares }

unfoldable pub prepare_confirm_ballot : LogCert → ℕ
prepare_confirm_ballot lc = length lc.prepare_confirms

unfoldable pub duplicate_confirm_ballot : LogCert → ℕ
duplicate_confirm_ballot lc = length lc.duplicate_confirms

unfoldable pub prepare_ballot : LogCert → ℕ
prepare_ballot lc = length lc.prepares
