-- ===== src/Disclosure/Checks.antt =====
-- The theorems on the verification of disclosures at a disclosure of one credential.
use irmago.Prelude.{◌≤◌, ◌≡◌, refl, true, false, none, some, List, [], ◌∷◌, All, nat_eq}
use irmago.Prelude.Int.{pos}
use irmago.Prelude.Map.{lookup}
use irmago.Prelude.Outcome.{ok}
use irmago.Identifier.{Identifier, dot}
use irmago.Request.{attribute_satisfy}
use irmago.Bytes.{to_bytes, pad_left}
use irmago.Metadata.{version, bytes, signing_date}
use irmago.Session.Types.{valid}
use irmago.Disclosure.{
  CredentialType, Proof, proof_d, Disclosure, DisclosedAttribute, present, RevocationTimes,
  con_dis_con_satisfy, con_dis_con_satisfy_loop, dis_con_satisfy, con_satisfy, con_satisfy_loop,
  extract_attribute,
}
use irmago.Disclosure.Satisfied.{AllMet}
use irmago.Disclosure.Verify.{Verifier, PublicKey, Required, verify_proofs}
use irmago.Disclosure.Against.{verify_against_request}
use irmago.Disclosure.Valid.{FreshProof, verify_against_request-valid}
use irmago.Disclosure.Singletons.{singletons, verify_proofs-singletons}

-- The credential type a.b.c with one attribute a.b.c.d.
abbrev credential : Identifier
credential = b'a' ∷ dot ∷ b'b' ∷ dot ∷ b'c' ∷ []

abbrev attribute : Identifier
attribute = b'a' ∷ dot ∷ b'b' ∷ dot ∷ b'c' ∷ dot ∷ b'd' ∷ []

abbrev typ : CredentialType
typ = record {
  identifier = credential;
  attribute_types = record { identifier = attribute; random_blind = false } ∷ [];
  is_singleton = true;
}

abbrev key : PublicKey
key = record { issuer = b'a' ∷ dot ∷ b'b' ∷ []; expiry_date = 2000000000 }

abbrev verifier : Verifier
verifier = record {
  scheme = record { credential_type = λ hash. some typ; encode_base62 = λ bytes. bytes };
  public_key = λ issuer counter. ok (some key);
  distributed = λ scheme. some false;
  verify_proofs = λ proofs keys servers. true;
  accumulator = λ id proof. none;
  settings = λ id. record { updated = 0; tolerance = 0 };
  elapsed = λ a b. 0;
}

-- A proof of metadata and the attribute, whose expiry is skipped.
abbrev proofs : List Proof
proofs = proof_d ((1, 3) ∷ (2, 15) ∷ []) none ∷ []

abbrev required : Required
required = record {
  disclose = ((record { attr_type = attribute; value = none; not_null = true } ∷ []) ∷ []) ∷ [];
  skip_expiry_check = credential ∷ [];
  revocation = [];
}

abbrev disclosure : Disclosure
disclosure = record {
  proofs = proofs;
  indices = (record { credential_index = pos 0; attribute_index = pos 2 } ∷ []) ∷ [];
}

proofs_accepted : verify_proofs verifier 1 [] proofs none ≡ ok (some [])
unfolding verify_proofs lookup
proofs_accepted = refl

verify_proofs-singletons_example :
    ((used : List PublicKey) × ((servers : List Identifier) × (verifier.verify_proofs proofs used
            servers
          ≡ true)))
    × ((id : Identifier) → singletons verifier id proofs ≤ 1)
verify_proofs-singletons_example =
    verify_proofs-singletons verifier 1 [] (proof_d ((1, 3) ∷ (2, 15) ∷ []) none) [] none []
      proofs_accepted

abbrev shown : List (List DisclosedAttribute)
shown =
    (record {
      raw_value = some (15 ∷ []);
      identifier = attribute;
      status = present;
      issuance_time = 0;
      not_revoked = false;
      not_revoked_before = none;
    }
      ∷ [])
    ∷ []

found_valid : verify_against_request verifier 1 required disclosure none ≡ ok (shown, valid)
unfolding verify_against_request lookup con_dis_con_satisfy con_dis_con_satisfy_loop dis_con_satisfy
    con_satisfy con_satisfy_loop extract_attribute attribute_satisfy version bytes pad_left to_bytes
    signing_date
found_valid = refl

verify_against_request-valid_example :
    (times : RevocationTimes) × (verify_proofs verifier 1 [] proofs none ≡ ok (some times))
    × ((found : List (List DisclosedAttribute)) × AllMet verifier.scheme proofs times
          required.disclose disclosure.indices found)
    × All (FreshProof verifier 1 (credential ∷ [])) proofs
verify_against_request-valid_example =
    verify_against_request-valid verifier 1 required disclosure none shown found_valid
