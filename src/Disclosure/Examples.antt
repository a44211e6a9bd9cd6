-- ===== src/Disclosure/Examples.antt =====
-- The theorems on disclosures at a concrete disclosure.
use irmago.Prelude.{◌≡◌, refl, ◌↔◌, suc, true, none, some, List, [], ◌∷◌, length}
use irmago.Prelude.Int.{pos}
use irmago.Prelude.Outcome.{ok, err, panic}
use irmago.Identifier.{dot}
use irmago.Request.{AttributeRequest}
use irmago.Disclosure.{
  Scheme, Proof, proof_d, DisclosedAttributeIndex, Disclosure, credential_index_out_of_range,
  extract_attribute, con_satisfy, con_dis_con_satisfy,
}
use irmago.Disclosure.Satisfied.{AllMet, ConMet, con_satisfy_iff}
use irmago.Disclosure.Matching.{con_dis_con_satisfy_iff, extract_attribute-past_end}

abbrev request : AttributeRequest
request = record {
  attr_type = b'a' ∷ dot ∷ b'b' ∷ dot ∷ b'c' ∷ [];
  value = some (7 ∷ []);
  not_null = true;
}

-- A scheme that knows no credential type, and a proof that discloses a metadata attribute of version 3.
abbrev scheme : Scheme
scheme = record { credential_type = λ _. none; encode_base62 = λ v. v }

abbrev proofs : List Proof
proofs = proof_d ((1, 3) ∷ []) none ∷ []

abbrev place : DisclosedAttributeIndex
place = record { credential_index = pos 1; attribute_index = pos 2 }

abbrev disclosure : Disclosure
disclosure = record { proofs = proofs; indices = (place ∷ []) ∷ [] }

con_satisfy_iff_example :
    (con_satisfy scheme (request ∷ []) proofs (place ∷ []) [] ≡ ok (some []))
    ↔ ConMet scheme proofs [] (request ∷ []) (place ∷ []) []
con_satisfy_iff_example = con_satisfy_iff scheme proofs [] (request ∷ []) (place ∷ []) []

con_dis_con_satisfy_iff_example :
    (con_dis_con_satisfy scheme (((request ∷ []) ∷ []) ∷ []) disclosure [] ≡ ok (true, [] ∷ []))
    ↔ AllMet scheme proofs [] (((request ∷ []) ∷ []) ∷ []) ((place ∷ []) ∷ []) ([] ∷ [])
con_dis_con_satisfy_iff_example =
    con_dis_con_satisfy_iff scheme (((request ∷ []) ∷ []) ∷ []) disclosure [] ([] ∷ [])

extract_attribute-past_end_example :
    (extract_attribute scheme proofs place none ≡ panic)
    × (extract_attribute scheme proofs
          (record place { credential_index = pos (suc (length proofs)) })
          none
        ≡ err credential_index_out_of_range)
extract_attribute-past_end_example = extract_attribute-past_end scheme proofs place none refl
