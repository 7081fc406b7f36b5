-- ===== src/Server/Certificates.antt =====
-- What `getCertOrNew` does to the table of certificates, pointwise.
use praft.Prelude.{
  ℕ, ◌≡◌, refl, ◌∙◌, Option, none, some, Map, lookup, lookup-insert, ◌==◌, if◌then◌else◌, arith,
}
use praft.Cert.{LogCert, new_cert}
use praft.Server.{get_cert_or_new, cert_at, update_cert}

-- The certificate that the server has for a sequence number, or the new one.
abbrev pub cert_or_new : Option LogCert → ℕ → LogCert
cert_or_new none seq = new_cert seq
cert_or_new (some cert) seq = cert

-- The certificates `certs'` are `certs` but for `cert` under its number.
abbrev pub IsUpdated : ℕ → LogCert → Map LogCert → Map LogCert → Type 0
IsUpdated seq cert certs certs' =
    (j : ℕ) → lookup j certs' ≡ (if seq == j then some cert else lookup j certs)

cert_at-IsUpdated :
    (old : Option LogCert) (seq : ℕ) (certs : Map LogCert)
    → lookup seq certs ≡ old
    → IsUpdated seq (cert_or_new old seq) certs (cert_at old seq certs).0
unfolding cert_at
cert_at-IsUpdated none seq certs e j = lookup-insert seq j (new_cert seq) certs
cert_at-IsUpdated (some cert) seq certs e j = ground (arith, e)

cert_at_lem :
    (old : Option LogCert) (seq : ℕ) (certs : Map LogCert)
    → (cert_at old seq certs).1 ≡ cert_or_new old seq
unfolding cert_at
cert_at_lem none seq certs = refl
cert_at_lem (some cert) seq certs = refl

-- `getCertOrNew` gives the certificate that is there or a new one, and adds nothing else.
pub get_cert_or_new_lem :
    (seq : ℕ) (certs : Map LogCert)
    → ((get_cert_or_new seq certs).1 ≡ cert_or_new (lookup seq certs) seq)
      × IsUpdated seq (cert_or_new (lookup seq certs) seq) certs (get_cert_or_new seq certs).0
unfolding get_cert_or_new
get_cert_or_new_lem seq certs =
    (cert_at_lem (lookup seq certs) seq certs, cert_at-IsUpdated (lookup seq certs) seq certs refl)

-- A change through the pointer that `getCertOrNew` returns.
pub update_cert_lem :
    (seq : ℕ) (change : LogCert → LogCert) (certs : Map LogCert)
    → IsUpdated seq
        (change (cert_or_new (lookup seq certs) seq))
        certs
        (update_cert seq change certs)
unfolding update_cert
update_cert_lem seq change certs j =
    let (found, at) = get_cert_or_new_lem seq certs in
    lookup-insert seq j (change (get_cert_or_new seq certs).1) (get_cert_or_new seq certs).0
    ∙ rw found (ground (arith, at j))
