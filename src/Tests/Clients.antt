-- ===== src/Tests/Clients.antt =====
-- Tests of the client, and the theorem about it at a concrete run.
use praft.Prelude.{ℕ, refl, true, false, none, [], ◌∷◌, lookup, insert}
use praft.Messages.{ReplyArgs}
use praft.Client.{Client, new_client, send_token, note_sent, reply_rpc}
use praft.Client.Counting.{
  Runs, IsCounted, launched, sent_token, got_number, got_reply, Runs-IsCounted,
}
use praft.Tests.Fixtures.{four_nodes, node_at}

abbrev reply_of : ℕ → ReplyArgs
reply_of node_id = record {
  msg = record { seq = 7; timestamp = 0; client_id = 1; node_id = node_id; result = none };
  sign = none;
}

abbrev waiting : Client
waiting = record (new_client (node_at 1) 2) { coch = 1 }

abbrev asked : Client
unfolding note_sent insert lookup
asked = note_sent 5 3 7 waiting

abbrev first_reply : Client
first_reply = record asked {
  seq2cert = (7, record { seq = 7; digest = none; start = 3; replys = (11, none) ∷ [] }) ∷ [];
}

abbrev second_reply : Client
second_reply = record asked {
  seq2cert =
      (7, record { seq = 7; digest = none; start = 3; replys = (11, none) ∷ (12, none) ∷ [] }) ∷ [];
  apply_count = 1;
  sum_latency = 6;
  coch = 0;
}

abbrev whole_run : Runs four_nodes 1 second_reply
unfolding send_token reply_rpc note_sent lookup insert
whole_run =
    got_reply 9 (reply_of 12) true
      (got_reply 8 (reply_of 11) false
        (got_reply 8 (reply_of 11) false
          (got_number 5 3 7 (sent_token (launched (node_at 1) 2) refl)) refl)
        refl)
      refl

Runs-IsCounted_example : IsCounted 1 1 second_reply
Runs-IsCounted_example = Runs-IsCounted four_nodes whole_run
