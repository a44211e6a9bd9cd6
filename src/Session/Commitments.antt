-- ===== src/Session/Commitments.antt =====
-- The loops of handlePostCommitments keep what the invariant of a session reads, and the whole handler
-- advances the session.
use irmago.Prelude.{
  ◌≡◌, refl, sym, ap, ◌∙◌, inl, inr, ℕ, false, Option, some, List, [], ◌∷◌, ◌++◌, String, arith,
  Bool-cases, subst, ltb, length, ◌-◌, take, drop, map,
}
use irmago.Prelude.Outcome.{ok, err, panic, >>=-eq-ok, >>=-eq-err}
use irmago.Identifier.{identifier_eq}
use irmago.Session.Types.{
  connected, finished, ServerError, malformed_input, CredentialRequest, SessionData, Config,
}
use irmago.Session.Steps.{mark_alive}
use irmago.Session.Messages.{Backend, Verified, panic_reply}
use irmago.Session.Respond.{add_implicit, finish}
use irmago.Session.Issuance.{
  CommitmentProof, proof_u, proof_d, PublicKey, IssueCommitments, Issuer, Failing, answer,
  enough_commitments, get_proof_p, merge_one, merge_loop, sign_one, sign_loop, check_verified,
  extract, issued_keys, commitments_signed, handle_post_commitments,
}
use irmago.Session.Status.{Kept, Advanced, Kept-advances, core}
use irmago.Session.Completion.{Ready, ready, ended, failed, finish-Ready, connected_runs}

merge_one-Kept :
    (conf : Config) (iss : Issuer) (m : IssueCommitments) (key : Option PublicKey)
    (p : CommitmentProof) (s t : SessionData) (q : CommitmentProof)
    → merge_one conf iss m key p s ≡ ok (t, q)
    → Kept s t
unfolding merge_one get_proof_p
merge_one-Kept conf iss m key p s t q h = ground arith

merge_one_failed :
    (conf : Config) (iss : Issuer) (m : IssueCommitments) (key : Option PublicKey)
    (p : CommitmentProof) (s t : SessionData) (e : ServerError) (message : String)
    → merge_one conf iss m key p s ≡ err (t, e, message)
    → Kept s t
unfolding merge_one get_proof_p
merge_one_failed conf iss m key p s t e message h = ground arith

merge_loop-Kept :
    (conf : Config) (iss : Issuer) (m : IssueCommitments) (keys : List (Option PublicKey))
    (ps : List CommitmentProof) (s t : SessionData) (qs : List CommitmentProof)
    → merge_loop conf iss m keys ps s ≡ ok (t, qs)
    → Kept s t
unfolding merge_loop
merge_loop-Kept conf iss m keys [] s t qs h = cc
merge_loop-Kept conf iss m [] (p ∷ ps) s t qs h = cc
merge_loop-Kept conf iss m (key ∷ keys) (p ∷ ps) s t qs h =
    let ((u, q), e, h₁) = >>=-eq-ok (merge_one conf iss m key p s) _ h in
    let ((v, r), e₂, h₂) = >>=-eq-ok (merge_loop conf iss m keys ps u) _ h₁ in
    let k = merge_loop-Kept conf iss m keys ps u v r e₂ in
    cc (k, merge_one-Kept conf iss m key p s u q e, h₂)

merge_loop_failed :
    (conf : Config) (iss : Issuer) (m : IssueCommitments) (keys : List (Option PublicKey))
    (ps : List CommitmentProof) (s t : SessionData) (e : ServerError) (message : String)
    → merge_loop conf iss m keys ps s ≡ err (t, e, message)
    → Kept s t
unfolding merge_loop
merge_loop_failed conf iss m keys [] s t e message h = cc
merge_loop_failed conf iss m [] (p ∷ ps) s t e message h = cc
merge_loop_failed conf iss m (key ∷ keys) (p ∷ ps) s t e message h =
    elim (>>=-eq-err (merge_one conf iss m key p s) _ h) [
      | inl e₁ ↦ merge_one_failed conf iss m key p s t e message e₁
      | inr ((u, q), e₁, h₁) ↦ elim (>>=-eq-err (merge_loop conf iss m keys ps u) _ h₁) [
        | inl e₂ ↦
            merge_loop_failed conf iss m keys ps u t e message e₂
            ∙ merge_one-Kept conf iss m key p s u q e₁
        | inr (r, _, h₂) ↦ cc
      ]
    ]

sign_one_failed :
    (conf : Config) (iss : Issuer) (p : CommitmentProof) (c : CredentialRequest) (nonce2 : String)
    (s t : SessionData) (e : ServerError) (message : String)
    → sign_one conf iss p c nonce2 s ≡ err (t, e, message)
    → Kept s t
unfolding sign_one
sign_one_failed conf iss (proof_u u) c nonce2 s t e message h = ground arith
sign_one_failed conf iss (proof_d d) c nonce2 s t e message h = cc

sign_loop_failed :
    (conf : Config) (iss : Issuer) (ps : List CommitmentProof) (creds : List CredentialRequest)
    (nonce2 : String) (s t : SessionData) (e : ServerError) (message : String)
    → sign_loop conf iss ps creds nonce2 s ≡ err (t, e, message)
    → Kept s t
unfolding sign_loop
sign_loop_failed conf iss ps [] nonce2 s t e message h = cc
sign_loop_failed conf iss [] (c ∷ creds) nonce2 s t e message h = cc
sign_loop_failed conf iss (p ∷ ps) (c ∷ creds) nonce2 s t e message h =
    elim (>>=-eq-err (sign_one conf iss p c nonce2 s) _ h) [
      | inl e₁ ↦ sign_one_failed conf iss p c nonce2 s t e message e₁
      | inr (sig, _, h₁) ↦ elim (>>=-eq-err (sign_loop conf iss ps creds nonce2 s) _ h₁) [
        | inl e₂ ↦ sign_loop_failed conf iss ps creds nonce2 s t e message e₂
        | inr (_, _, h₂) ↦ cc
      ]
    ]

check_verified-Kept :
    (conf : Config) (iss : Issuer) (v : Verified) (s t : SessionData)
    → check_verified conf iss v s ≡ ok t
    → Kept s t
unfolding check_verified
check_verified-Kept conf iss v s t h = ground arith

check_verified_failed :
    (conf : Config) (iss : Issuer) (v : Verified) (s t : SessionData) (e : ServerError)
    (message : String)
    → check_verified conf iss v s ≡ err (t, e, message)
    → Kept s t
unfolding check_verified
check_verified_failed conf iss v s t e message h = ground arith

extract_failed :
    (conf : Config) (iss : Issuer) (ps : List CommitmentProof) (s t : SessionData) (e : ServerError)
    (message : String)
    → extract conf iss ps s ≡ err (t, e, message)
    → Kept s t
unfolding extract
extract_failed conf iss ps s t e message h = ground arith

-- How handlePostCommitments ends: it keeps what the invariant reads, or it fails what it has kept.
enough_commitments-Kept :
    (conf : Config) (iss : Issuer) (n : ℕ) (creds : List CredentialRequest) (m : IssueCommitments)
    (s t : SessionData) (sigs : List String)
    → enough_commitments conf iss n creds m s ≡ ok (t, sigs)
    → Kept s t
unfolding enough_commitments add_implicit
enough_commitments-Kept conf iss n creds m s t sigs h =
    let (keys, _, h₁) = >>=-eq-ok (extract conf iss (take n m.proofs) s) _ h in
    let ((u, ps), e₂, h₂) =
      >>=-eq-ok (merge_loop conf iss m (map some keys ++ issued_keys conf iss creds) m.proofs s) _
        h₁ in
    let (v, e₃, h₃) =
      >>=-eq-ok
        (check_verified conf iss
          (iss.verify_against (add_implicit u).rrequest.request ps
            (map some keys ++ issued_keys conf iss creds))
          (add_implicit u))
        _ h₂ in
    let (sigs', _, h₄) = >>=-eq-ok (sign_loop conf iss (drop n ps) creds m.nonce2 v) _ h₃ in
    let k₁ = merge_loop-Kept conf iss m _ m.proofs s u ps e₂ in
    let k₂ : Kept u v =
      check_verified-Kept conf iss
        (iss.verify_against (add_implicit u).rrequest.request ps
          (map some keys ++ issued_keys conf iss creds))
        (add_implicit u) v e₃ in
    let q : v ≡ t = cc in subst (Kept s) q (k₂ ∙ k₁)

enough_commitments_failed :
    (conf : Config) (iss : Issuer) (n : ℕ) (creds : List CredentialRequest) (m : IssueCommitments)
    (s t : SessionData) (e : ServerError) (message : String)
    → enough_commitments conf iss n creds m s ≡ err (t, e, message)
    → Kept s t
unfolding enough_commitments add_implicit
enough_commitments_failed conf iss n creds m s t e message h =
    elim (>>=-eq-err (extract conf iss (take n m.proofs) s) _ h) [
      | inl e₁ ↦ extract_failed conf iss _ s t e message e₁
      | inr (keys, _, h₁) ↦
          elim (>>=-eq-err
            (merge_loop conf iss m (map some keys ++ issued_keys conf iss creds) m.proofs s) _ h₁) [
              | inl e₂ ↦ merge_loop_failed conf iss m _ m.proofs s t e message e₂
              | inr ((u, ps), e₂, h₂) ↦
                  let k₁ = merge_loop-Kept conf iss m _ m.proofs s u ps e₂ in
                  elim (>>=-eq-err
                    (check_verified conf iss
                      (iss.verify_against (add_implicit u).rrequest.request ps
                        (map some keys ++ issued_keys conf iss creds))
                      (add_implicit u))
                    _ h₂) [
                      | inl e₃ ↦
                          check_verified_failed conf iss
                            (iss.verify_against (add_implicit u).rrequest.request ps
                              (map some keys ++ issued_keys conf iss creds))
                            (add_implicit u) t e message e₃
                          ∙ k₁
                      | inr (v, e₃, h₃) ↦
                          let k₂ : Kept u v =
                            check_verified-Kept conf iss
                              (iss.verify_against (add_implicit u).rrequest.request ps
                                (map some keys ++ issued_keys conf iss creds))
                              (add_implicit u) v e₃ in
                          elim (>>=-eq-err (sign_loop conf iss (drop n ps) creds m.nonce2 v) _ h₃) [
                            | inl e₄ ↦
                                sign_loop_failed conf iss _ creds m.nonce2 v t e message e₄
                                ∙ (k₂ ∙ k₁)
                            | inr (_, _, h₄) ↦ cc
                          ]
                    ]
            ]
    ]

answer-Ready :
    (conf : Config) (iss : Issuer) (s : SessionData) (o : Failing (SessionData × List String))
    → finished s.status ≡ false
    → ((t : SessionData) (sigs : List String) → o ≡ ok (t, sigs) → Kept s t)
    → ((t : SessionData) (e : ServerError) (message : String) → o ≡ err (t, e, message) → Kept s t)
    → Ready conf s (answer conf iss s o)
unfolding answer
answer-Ready conf iss s (ok (t, sigs)) r k f = ready t _ (k t sigs refl)
answer-Ready conf iss s (err (t, e, message)) r k f =
    failed conf s t e message (ap (λ x. x.identity) (f t e message refl)) r
answer-Ready conf iss s panic r k f =
    ended s [] panic_reply refl (Kept-advances conf s s panic_reply refl)

err_session :
    {A : Type 0} {s t : SessionData} {d e : ServerError} {k l : String}
    → (◌≡◌ {A = Failing A} (err (s, d, k)) (err (t, e, l)))
    → s ≡ t
err_session h = cc

module _ (conf : Config) (iss : Issuer) (now : ℕ) (m : IssueCommitments) (s : SessionData) where
  commitments_signed-Kept :
      (t : SessionData) (sigs : List String)
      → commitments_signed conf iss now m s ≡ ok (t, sigs)
      → Kept s t
  unfolding commitments_signed mark_alive
  commitments_signed-Kept t sigs h =
      elim (Bool-cases (ltb (length m.proofs) (length s.rrequest.request.credentials))) [
        | inl q ↦ cc
        | inr q ↦
            enough_commitments-Kept conf iss
              (length m.proofs - length s.rrequest.request.credentials)
              s.rrequest.request.credentials m (mark_alive now s) t sigs (sym (rw q refl) ∙ h)
      ]

  commitments_signed_failed :
      (t : SessionData) (e : ServerError) (message : String)
      → commitments_signed conf iss now m s ≡ err (t, e, message)
      → Kept s t
  unfolding commitments_signed mark_alive
  commitments_signed_failed t e message h =
      elim (Bool-cases (ltb (length m.proofs) (length s.rrequest.request.credentials))) [
        | inl q ↦ ap core (
            sym (
              err_session {s = mark_alive now s} {d = malformed_input}
                {k = "Received insufficient proofs"} (sym (rw q refl) ∙ h)))
        | inr q ↦
            enough_commitments_failed conf iss
              (length m.proofs - length s.rrequest.request.credentials)
              s.rrequest.request.credentials m (mark_alive now s) t e message (sym (rw q refl) ∙ h)
      ]

  commitments-Ready : s.status ≡ connected → Ready conf s (handle_post_commitments conf iss now m s)
  unfolding handle_post_commitments
  commitments-Ready c =
      answer-Ready conf iss s (commitments_signed conf iss now m s) (connected_runs s c)
        commitments_signed-Kept commitments_signed_failed

  -- handlePostCommitments and the end of handleSessionCommitments.
  pub commitments_advances :
      (back : Backend)
      → s.status ≡ connected
      → Advanced conf s (finish conf back (handle_post_commitments conf iss now m s))
  commitments_advances back c = finish-Ready conf back s _ c (commitments-Ready c)
