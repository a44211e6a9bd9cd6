-- ===== src/Disclosure/Matching.antt =====
-- A disclosure against a whole request, and the bounds of the indices that the client sends.
use irmago.Prelude.{
  ℕ, suc, ◌≤◌, ◌≡◌, refl, ◌↔◌, true, inl, inr, Option, none, List, [], ◌∷◌, ltb, length, get_elem?,
  arith, Bool-cases,
}
use irmago.Prelude.Int.{pos}
use irmago.Prelude.Outcome.{ok, err, panic, >>=-eq-ok}
use irmago.Request.{AttributeConDisCon}
use irmago.Disclosure.{
  Scheme, Proof, DisclosedAttribute, DisclosedAttributeIndex, Disclosure,
  credential_index_out_of_range, RevocationTimes, extract_attribute, dis_con_satisfy,
  con_dis_con_satisfy_loop, con_dis_con_satisfy,
}
use irmago.Disclosure.Satisfied.{AllMet, dis_con_satisfy_iff, complete_inv}

module _ (conf : Scheme) (pl : List Proof) (revocation : RevocationTimes) where
  loop_sound :
      (cdc : AttributeConDisCon) (indices : List (List DisclosedAttributeIndex))
      (list : List (List DisclosedAttribute))
      → con_dis_con_satisfy_loop conf cdc pl indices revocation ≡ ok (true, list)
      → AllMet conf pl revocation cdc indices list
  unfolding con_dis_con_satisfy_loop
  loop_sound [] indices [] h = tt
  loop_sound [] indices (ds ∷ list) h = cc
  loop_sound (discon ∷ cdc) [] list h = cc
  loop_sound (discon ∷ cdc) (set ∷ indices) r h =
      let (satisfied, e, f) = >>=-eq-ok (dis_con_satisfy conf discon pl set revocation) _ h in
      let ((complete, list), rest, g) =
        >>=-eq-ok (con_dis_con_satisfy_loop conf cdc pl indices revocation) _ f in
      let (ds, s, c, eq) = complete_inv satisfied complete list r g in
      rw eq (
        (dis_con_satisfy_iff conf pl revocation discon set ds).0 (cc (e, s)),
        loop_sound cdc indices list (cc (rest, c)),
      )

  loop_complete :
      (cdc : AttributeConDisCon) (indices : List (List DisclosedAttributeIndex))
      (list : List (List DisclosedAttribute))
      → AllMet conf pl revocation cdc indices list
      → con_dis_con_satisfy_loop conf cdc pl indices revocation ≡ ok (true, list)
  unfolding con_dis_con_satisfy_loop
  loop_complete [] indices [] m = refl
  loop_complete [] indices (ds ∷ list) m = absurd m
  loop_complete (discon ∷ cdc) [] list m = absurd m
  loop_complete (discon ∷ cdc) (set ∷ indices) [] m = absurd m
  loop_complete (discon ∷ cdc) (set ∷ indices) (ds ∷ list) m =
      rw ((dis_con_satisfy_iff conf pl revocation discon set ds).1 m.0)
        (rw (loop_complete cdc indices list m.1) refl)

  AllMet-length :
      (cdc : AttributeConDisCon) (indices : List (List DisclosedAttributeIndex))
      (list : List (List DisclosedAttribute))
      → AllMet conf pl revocation cdc indices list
      → length cdc ≤ length indices
  AllMet-length [] indices list m = omega arith
  AllMet-length (discon ∷ cdc) [] list m = absurd m
  AllMet-length (discon ∷ cdc) (set ∷ indices) [] m = absurd m
  AllMet-length (discon ∷ cdc) (set ∷ indices) (ds ∷ list) m =
      omega (arith, AllMet-length cdc indices list m.1)

-- The attributes of a disclosure completely satisfy a request, as Satisfy returns them, exactly when
-- every disjunction has a first conjunction whose requests are met, one by one, by the attributes that the
-- client's indices for that disjunction point to.
pub con_dis_con_satisfy_iff :
    (conf : Scheme) (cdc : AttributeConDisCon) (disclosure : Disclosure)
    (revocation : RevocationTimes) (list : List (List DisclosedAttribute))
    → (con_dis_con_satisfy conf cdc disclosure revocation ≡ ok (true, list))
      ↔ AllMet conf disclosure.proofs revocation cdc disclosure.indices list
unfolding con_dis_con_satisfy
con_dis_con_satisfy_iff conf cdc disclosure revocation list =
    elim (Bool-cases (ltb (length disclosure.indices) (length cdc))) [
      | inl short ↦ (
        λ h. cc (rw (short, con_dis_con_satisfy) at h),
        λ m. absurd (
            ground (
              arith,
              AllMet-length conf disclosure.proofs revocation cdc disclosure.indices list m,
            )),
      )
      | inr long ↦
          rw (long, con_dis_con_satisfy)
            (
              loop_sound conf disclosure.proofs revocation cdc disclosure.indices list,
              loop_complete conf disclosure.proofs revocation cdc disclosure.indices list,
            )
    ]

get_elem?-length : (pl : List Proof) → get_elem? pl (length pl) ≡ none
get_elem?-length [] = refl
get_elem?-length (p ∷ pl) = get_elem?-length pl

-- A credential index equal to the number of proofs passes the test of its range and panics; only the next
-- index is refused with the error for it.
pub extract_attribute-past_end :
    (conf : Scheme) (pl : List Proof) (i : DisclosedAttributeIndex) (revoked : Option ℕ)
    → i.credential_index ≡ pos (length pl)
    → (extract_attribute conf pl i revoked ≡ panic)
      × (extract_attribute conf pl (record i { credential_index = pos (suc (length pl)) }) revoked
          ≡ err credential_index_out_of_range)
unfolding extract_attribute
extract_attribute-past_end conf pl i revoked e =
    (rw e (ground (arith, get_elem?-length pl)), ground arith)
