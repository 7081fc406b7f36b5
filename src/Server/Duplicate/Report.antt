-- ===== src/Server/Duplicate/Report.antt =====
-- Reporting a duplicated request (`verifyBallot`, lines 944 to 1002).
use praft.Prelude.{
  ℕ, ◌-◌, ◌≡◌, refl, ap, ◌∙◌, true, false, ◌||◌, [], ◌∷◌, ◌++◌, some, is_some, ok, Map, lookup,
  insert, length, leb, Bool-cases, inl, inr, if◌then◌else◌,
}
use praft.Util.Slices.{Slice}
use praft.Messages.{RequestArgs, DuplicateConfirmArgs}
use praft.Crypto.{Primitives, rsa_sign_with_sha256}
use praft.Config.{Config}
use praft.Cert.{
  LogCert, duplicated_stage, get, pop_all_duplicate_confirms, set_stage, duplicate_confirm_ballot,
}
use praft.Server.{Server}
use praft.Server.Duplicate.{collect_ballot, collect_req, report_duplicated, unit_of_request}
use praft.Server.Duplicate.Ballot.{AreReadable, AreVotes, any_vote, count_confirms_lem}

-- The certificate with its queue emptied into these votes.
abbrev pub counted : Map DuplicateConfirmArgs → LogCert → LogCert
counted m cert = record cert { duplicate_confirm_q = []; duplicate_confirms = m }

-- The request is reported: the stage is left, and the unit for the block appended.
abbrev pub reported :
    ℕ → ℕ → RequestArgs → Slice → Map DuplicateConfirmArgs → LogCert → Server → Server
reported now seq req sign m cert s = record s {
  seq2cert =
      insert seq (record (counted m cert) { stage = duplicated_stage; complete_time = now })
        s.seq2cert;
  local_duplicated_reqs = s.local_duplicated_reqs ++ unit_of_request cert req sign s ∷ [];
  dup_time = s.dup_time ++ (now - cert.produce_time) ∷ [];
}

-- What a ballot does on a certificate with this request.
abbrev pub HasCounted :
    Primitives → Config → ℕ → ℕ → RequestArgs → Slice → LogCert → Server → Type 0
HasCounted p k now seq req sign cert s =
    (m : Map DuplicateConfirmArgs) × AreVotes p k cert.digest m
    × ((n : ℕ)
        → is_some (lookup n m) ≡ (
            is_some (lookup n cert.duplicate_confirms)
            || any_vote p k cert.digest n cert.duplicate_confirm_q))
    × (collect_ballot p k now seq cert s
        ≡ ok (
            if leb k.fault_num (length m)
            then (reported now seq req sign m cert s, true)
            else (record s { seq2cert = insert seq (counted m cert) s.seq2cert }, false)))

-- Where a request is there, every confirmation that waits has a message of a known node, and the
-- server can sign, the ballot does not panic. The votes afterwards are of distinct nodes and for the
-- request's digest, of exactly the nodes that had voted and those whose waiting confirmation is
-- good. The request is reported, once, and a new one asked for, exactly if the votes are at
-- least `FaultNum`; if they are fewer nothing but the certificate's votes and queue changes.
pub collect_ballot_lem :
    (p : Primitives) (k : Config) (now seq : ℕ) (req : RequestArgs) (sign : Slice) (cert : LogCert)
    (s : Server)
    → cert.req ≡ some req
    → AreReadable k cert.duplicate_confirm_q
    → AreVotes p k cert.digest cert.duplicate_confirms
    → rsa_sign_with_sha256 p cert.digest s.node.pri_key ≡ ok sign
    → HasCounted p k now seq req sign cert s
unfolding collect_ballot collect_req report_duplicated get pop_all_duplicate_confirms set_stage
    duplicate_confirm_ballot
collect_ballot_lem p k now seq req sign cert s e readables v signed =
    let (m, run, all, voters) =
      count_confirms_lem p k cert.duplicate_confirm_q (record cert { duplicate_confirm_q = [] })
        readables v in
    (
      m,
      all,
      voters,
      elim (Bool-cases (leb k.fault_num (length m))) [
        | inl enough ↦ ap (λ o. collect_req p k o now seq cert s) e ∙ rw (run, enough, signed) refl
        | inr few ↦ ap (λ o. collect_req p k o now seq cert s) e ∙ rw (run, few) refl
      ],
    )
