-- ===== src/Server/Start/Fresh.antt =====
-- What holds of a server that has just been started.
use praft.Prelude.{
  ℕ, zero, suc, ◌+◌, ◌*◌, ◌%◌, ◌≤◌, ◌≡◌, refl, some-inj, Option-cases, sym, ap, ◌∙◌, subst, true,
  false, Bool-cases, inl, inr, List, [], ◌∷◌, Option, none, some, Result, ok, or_panic,
  logged_error, pos, lookup, insert, elem, length, map, arith, ◌==◌, if◌then◌else◌,
}
use praft.Util.Slices.{Slice}
use praft.Util.{Text, get_id}
use praft.BlockLog.{BlockLog, zero_block_log}
use praft.Config.{Node, Config, get_node}
use praft.Config.Setup.{first_of}
use praft.Config.Peers.{HasPrefix, Site, AreSites, IsSetUp, ids_of, init_config_lem}
use praft.Server.{Server}
use praft.Server.Blocks.Signals.{was_executed}
use praft.Server.Blocks.Primary.{IsPrimary}
use praft.Server.Duplicate.Tally.{IsTallied}
use praft.Server.Start.{delay_reset, new_server, run_server, start_process}

-- The state of a server of this identity before its first step.
pub record IsFresh (k : Config) (id : ℕ) (s : Server) : Type 0 where
  pub self : s.node.id ≡ id
  pub known : lookup id k.id2node ≡ some s.node
  pub numbered : s.seq_inc ≡ id
  pub proposers : s.proposers ≡ k.proposer_ids
  pub primary : IsPrimary k.fault_num s
  pub tallied : IsTallied s.seq2cert s.local_duplicated_reqs
  pub idle : s.exec_ch ≡ []
  pub no_certs : s.seq2cert ≡ []
  pub none_reported : s.local_duplicated_reqs ≡ []
  pub none_timed : s.dup_time ≡ []
  pub none_made : s.seq_ch ≡ []
  pub no_batches : s.tx_pool_batches ≡ []
  pub unconnected : s.peers ≡ []
  pub at_height : s.current_block_index ≡ 0
  pub logs : (h : ℕ) → lookup h s.height2block_log ≡ (if h == 0 then some zero_block_log else none)

none-not-some {ℓ} : {A : Type ℓ} {x : A} → none ≡ some x → ⊥
none-not-some e = cc

first_of_again {ℓ} :
    {A : Type ℓ} (n : ℕ) (xs front : List A)
    → first_of n xs ≡ some front
    → first_of n front ≡ some front
first_of_again zero xs front e = subst (λ ys. first_of zero ys ≡ some ys) (some-inj e) refl
first_of_again (suc n) [] front e = cc
first_of_again (suc n) (x ∷ xs) front e = elim (Option-cases (first_of n xs)) [
  | inl short ↦ absurd (none-not-some (sym (rw short refl) ∙ e))
  | inr (rest, long) ↦
      (let whole : some (x ∷ rest) ≡ some front = sym (rw long refl) ∙ e in
        subst (λ ys. first_of (suc n) ys ≡ some ys) (some-inj whole)
          (rw (first_of_again n xs rest long) refl))
]

delay_reset_lem :
    (rand_int : ℕ → Result ℕ) (drawn : ℕ) (k : Config) (s : Server)
    → rand_int k.delay ≡ ok drawn
    → (delay : ℕ) × (delay_reset rand_int k s ≡ ok (record s { random_delay = delay }))
unfolding delay_reset
delay_reset_lem rand_int drawn k s rand = elim (Bool-cases s.random_delay_or_not) [
  | inl random ↦ (drawn, rw (random, rand) refl)
  | inr fixed ↦ (k.delay, rw fixed refl)
]

-- The server that `RunServer` makes.
abbrev started : Config → Node → ℕ → Server
started k node delay = record (new_server k node) {
  random_delay = delay;
  proposers = k.proposer_ids;
  seq_inc = node.id;
  height2block_log = (0, zero_block_log) ∷ [];
}

at_zero :
    (h : ℕ) (b : BlockLog)
    → lookup h ((0, zero_block_log) ∷ []) ≡ some b
    → (h ≡ 0) × (b ≡ zero_block_log)
unfolding lookup
at_zero zero b e = (refl, sym (some-inj e))
at_zero (suc h) b e = (let impossible : ⊥ = ground (arith, e) in absurd impossible)

not_executed : (h : ℕ) → false ≡ was_executed (lookup h ((0, zero_block_log) ∷ []))
unfolding lookup
not_executed zero = refl
not_executed (suc h) = ground arith

logs_at :
    (h : ℕ) → lookup h ((0, zero_block_log) ∷ []) ≡ (if h == 0 then some zero_block_log else none)
unfolding lookup
logs_at zero = refl
logs_at (suc h) = ground arith

started-IsFresh :
    (k : Config) (node : Node) (delay id : ℕ)
    → node.id ≡ id
    → lookup id k.id2node ≡ some node
    → IsFresh k id (started k node delay)
started-IsFresh k node delay id same found = record {
  self = same;
  known = found;
  numbered = same;
  proposers = refl;
  primary = record {
    signalled = record {
      sound = λ h b e.
          (let (zeroth, blank) = at_zero h b e in
            rw (zeroth, blank)
              (record { keyed = refl; agreed_prepared = λ e. cc; agreed_committed = λ e. cc }));
      sent = not_executed;
      once = tt;
    };
    quorate = λ h b e.
        (let (zeroth, blank) = at_zero h b e in
          rw blank (record { prepare_quorum = λ e. cc; commit_quorum = λ e. cc }));
    above = λ h lt. unfold lookup in ground arith;
  };
  tallied = record {
    named = λ j cert e. unfold lookup in cc;
    tallied = λ j. unfold lookup in refl;
  };
  idle = refl;
  no_certs = refl;
  none_reported = refl;
  none_timed = refl;
  none_made = refl;
  no_batches = refl;
  unconnected = refl;
  at_height = refl;
  logs = logs_at;
}

run_server_lem :
    (rand_int : ℕ → Result ℕ) (drawn id : ℕ) (k : Config) (node : Node)
    → rand_int k.delay ≡ ok drawn
    → lookup id k.id2node ≡ some node
    → node.id ≡ id
    → first_of k.proposer_num k.proposer_ids ≡ some k.proposer_ids
    → (s : Server) × (run_server rand_int id k ≡ ok s) × IsFresh k id s
unfolding run_server insert
run_server_lem rand_int drawn id k node rand found same enough =
    let (delay, e) = delay_reset_lem rand_int drawn k (new_server k node) rand in
    (started k node delay, rw (found, e, enough) refl, started-IsFresh k node delay id same found)

or_panic-some {ℓ} :
    {A : Type ℓ} {value : A} (found : Option A)
    → or_panic found logged_error ≡ ok value
    → found ≡ some value
or_panic-some none e = cc
or_panic-some (some other) e = cc

-- Under the conditions on the settings under which `InitConfig` does not panic, if this process is one
-- of the peers and the random delay can be drawn, `main` does not panic before its goroutines start.
-- The server then is the node of this process in the settings and numbers its requests from it, has the
-- proposers of the settings, is at height 0, and has no certificates, requests, batches, connections,
-- or heights for its executor. Its one log is Go's empty log, at height 0. And the invariants of the
-- theorems on the primary and on the reported requests hold of it.
pub start_process-IsFresh :
    (text : Text) (rand_int : ℕ → Result ℕ) (pri_key pub_key : Slice) (myip : List ℕ)
    (prefix process_id drawn : ℕ) (k : Config) (sites : List Site)
    → k.peer_ids ≡ []
    → first_of k.ip_num k.peer_ips ≡ some (map (λ site. site.ip) sites)
    → AreSites text k.process_num_array 0 sites
    → k.proposer_num ≤ length (ids_of k.port_base sites)
    → (myip ≡ [] → ⊥)
    → HasPrefix text myip prefix
    → elem (prefix * 100 + (k.port_base + process_id) % 100) (ids_of k.port_base sites) ≡ true
    → rand_int k.delay ≡ ok drawn
    → (k' : Config) × (s : Server) × (start_process text rand_int pri_key pub_key myip process_id k
        ≡ ok (k', s))
      × IsSetUp myip k k'
          (ids_of k.port_base sites)
          (prefix * 100 + (k.port_base + process_id) % 100)
      × IsFresh k' (prefix * 100 + (k.port_base + process_id) % 100) s
unfolding start_process get_node
start_process-IsFresh text rand_int pri_key pub_key myip prefix process_id drawn k sites none_yet
      taken at enough here local known rand =
    let (k', e, set_up) =
      init_config_lem text pri_key pub_key myip prefix process_id k sites none_yet taken at enough
        here local in
    let id : ℕ = prefix * 100 + (k.port_base + process_id) % 100 in
    let (node, found, same) = set_up.nodes id known in
    let there = or_panic-some (lookup id k'.id2node) found in
    let drawn_there : rand_int k'.delay ≡ ok drawn =
      ap (λ c. rand_int c.delay) set_up.kept ∙ rand in
    let first : first_of k'.proposer_num k'.proposer_ids ≡ some k'.proposer_ids =
      ap (λ c. first_of c.proposer_num k'.proposer_ids) set_up.kept
      ∙ first_of_again k.proposer_num (ids_of k.port_base sites) k'.proposer_ids set_up.proposers in
    let numbered : get_id text k'.local_ip (pos (k'.port_base + process_id)) ≡ ok id =
      ap (λ c. get_id text k'.local_ip (pos (c.port_base + process_id))) set_up.kept
      ∙ ap (λ ip. get_id text ip (pos (k.port_base + process_id))) set_up.here
      ∙ local (k.port_base + process_id) in
    let (s, ran, fresh) = run_server_lem rand_int drawn id k' node drawn_there there same first in
    (k', s, rw (e, numbered, ran) refl, set_up, fresh)
