-- ===== src/Server/Execute/Known.antt =====
-- Which requests a server has, and what the executor's two passes over a block's requests give.
use praft.Prelude.{
  ℕ, ◌≡◌, refl, ◌∙◌, ap, inl, inr, Bool, true, ◌&&◌, List, [], ◌∷◌, Option, none, some, is_some, ok,
  Map, lookup, arith, lookup-insert, Option-cases,
}
use praft.Messages.{DuplicatedReqUnit, RequestArgs}
use praft.Cert.{LogCert, new_cert}
use praft.Server.Execute.{Exec, req_of, scan_reqs, exec_reqs}

abbrev pub req_at : Option LogCert → Option RequestArgs
req_at none = none
req_at (some c) = c.req

-- The request of this sequence number is here.
abbrev pub is_known : ℕ → Map LogCert → Bool
is_known seq certs = is_some (req_at (lookup seq certs))

abbrev pub all_known : List DuplicatedReqUnit → Map LogCert → Bool
all_known [] certs = true
all_known (u ∷ us) certs = is_known u.seq certs && all_known us certs

abbrev pub tx_set_of : Option RequestArgs → List ℕ
tx_set_of none = []
tx_set_of (some req) = req.req.tx_set

-- The transactions of the requests that are here, run in order.
abbrev pub run_block : {Db : Type 0} → Exec Db → List DuplicatedReqUnit → Map LogCert → Db → Db
run_block exec_tx_set [] certs db = db
run_block exec_tx_set (u ∷ us) certs db =
    run_block exec_tx_set us certs (exec_tx_set (tx_set_of (req_at (lookup u.seq certs))) db).0

-- Looking up a request finds what is here, and makes no other request known.
req_of-req_at : (seq : ℕ) (certs : Map LogCert) → (req_of seq certs).1 ≡ req_at (lookup seq certs)
unfolding req_of
req_of-req_at seq certs = ground arith

is_known-req_of :
    (seq j : ℕ) (certs : Map LogCert) → is_known j (req_of seq certs).0 ≡ is_known j certs
unfolding req_of
is_known-req_of seq j certs = elim (Option-cases (lookup seq certs)) [
  | inl absent ↦ rw absent (ground (arith, lookup-insert seq j (new_cert seq) certs))
  | inr (c, there) ↦ rw there refl
]

all_known-req_of :
    (seq : ℕ) (us : List DuplicatedReqUnit) (certs : Map LogCert)
    → all_known us (req_of seq certs).0 ≡ all_known us certs
all_known-req_of seq [] certs = refl
all_known-req_of seq (u ∷ us) certs =
    rw (is_known-req_of seq u.seq certs, all_known-req_of seq us certs) refl

-- The first pass tells whether all requests are here.
pub scan_reqs-all_known :
    (us : List DuplicatedReqUnit) (certs : Map LogCert) (b : Bool)
    → (scan_reqs us certs b).1 ≡ (all_known us certs && b)
unfolding scan_reqs
scan_reqs-all_known [] certs b = refl
scan_reqs-all_known (u ∷ us) certs b =
    scan_reqs-all_known us (req_of u.seq certs).0 (is_some (req_of u.seq certs).1 && b)
    ∙ rw (all_known-req_of u.seq us certs, req_of-req_at u.seq certs) (ground arith)

req_of-known :
    (seq : ℕ) (certs : Map LogCert) → is_known seq certs ≡ true → (req_of seq certs).0 ≡ certs
unfolding req_of
req_of-known seq certs h = ground arith

scan_reqs-known_from :
    (us : List DuplicatedReqUnit) (certs certs' : Map LogCert) (b : Bool)
    → certs' ≡ certs
    → b ≡ true
    → all_known us certs ≡ true
    → (scan_reqs us certs' b).0 ≡ certs
unfolding scan_reqs
scan_reqs-known_from [] certs certs' b e eb h = e
scan_reqs-known_from (u ∷ us) certs certs' b e eb h =
    scan_reqs-known_from us certs (req_of u.seq certs').0 (is_some (req_of u.seq certs').1 && b)
      (ap (λ (c : Map LogCert). (req_of u.seq c).0) e ∙ req_of-known u.seq certs (ground arith))
      (ap (λ (c : Map LogCert). is_some (req_of u.seq c).1 && b) e
        ∙ rw (req_of-req_at u.seq certs, eb) (ground arith))
      (ground arith)

-- Where all are here, the first pass makes no certificate.
pub scan_reqs-known :
    (us : List DuplicatedReqUnit) (certs : Map LogCert)
    → all_known us certs ≡ true
    → (scan_reqs us certs true).0 ≡ certs
scan_reqs-known us certs h = scan_reqs-known_from us certs certs true refl refl h

-- The second pass then runs them in order.
pub exec_reqs-run_block :
    {Db : Type 0} (exec_tx_set : Exec Db) (us : List DuplicatedReqUnit) (certs : Map LogCert)
    (db : Db)
    → all_known us certs ≡ true
    → exec_reqs exec_tx_set us certs db ≡ ok (certs, run_block exec_tx_set us certs db)
unfolding exec_reqs
exec_reqs-run_block exec_tx_set [] certs db h = refl
exec_reqs-run_block exec_tx_set (u ∷ us) certs db h =
    rw (req_of-known u.seq certs (ground arith), req_of-req_at u.seq certs)
      (elim (Option-cases (req_at (lookup u.seq certs))) [
        | inl absent ↦ absurd (ground arith)
        | inr (req, there) ↦ rw there (exec_reqs-run_block exec_tx_set us certs _ (ground arith))
      ])
