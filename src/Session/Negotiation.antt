-- ===== src/Session/Negotiation.antt =====
-- chooseProtocolVersion of server/irmaserver/helpers.go, and what it chooses.
use irmago.Prelude.{
  ◌≡◌, refl, ◌⊎◌, inl, inr, Bool, true, false, not, ◌||◌, Option, none, some, List, [], ◌∷◌,
  if◌then◌else◌, arith, Bool-cases,
}
use irmago.Version.{ProtocolVersion, new_version, below, below_version, above_version}
use irmago.Version.Order.{
  AtMost, AtMost-refl, AtMost-trans, above_version-true, above_version-false, below_version-false,
}
use irmago.Session.Types.{SessionData, Config}

abbrev pub min_protocol_version : ProtocolVersion
min_protocol_version = new_version 2 4

abbrev pub min_secure_protocol_version : ProtocolVersion
min_secure_protocol_version = new_version 2 8

abbrev pub max_protocol_version : ProtocolVersion
max_protocol_version = new_version 2 8

abbrev is_empty {ℓ} : {A : Type ℓ} → List A → Bool
is_empty [] = true
is_empty (x ∷ xs) = false

-- minSessionProtocolVersion of chooseProtocolVersion: later assignments win.
unfoldable pub min_session_protocol_version : Config → SessionData → ProtocolVersion
min_session_protocol_version conf session =
    if not conf.accept_insecure_protocol_versions
    then min_secure_protocol_version
    else elim session.rrequest.next_session [
      | some url ↦ new_version 2 7
      | none ↦
          if not (is_empty session.rrequest.request.revocation)
          then new_version 2 6
          else if not session.legacy_compatible
          then new_version 2 5
          else min_protocol_version
    ]

-- The tests of chooseProtocolVersion, for the least version that the session takes.
choose_from : ProtocolVersion → ProtocolVersion → ProtocolVersion → Option ProtocolVersion
choose_from min_session min_client max_client =
    if above_version min_client max_protocol_version
      || (below_version max_client min_session || below_version max_client min_client)
    then none
    else if above_version max_client max_protocol_version
    then some max_protocol_version
    else some max_client

-- chooseProtocolVersion
unfoldable pub choose_protocol_version :
    Config → SessionData → ProtocolVersion → ProtocolVersion → Option ProtocolVersion
unfolding choose_from
choose_protocol_version conf session min_client max_client =
    choose_from (min_session_protocol_version conf session) min_client max_client

-- A version that both sides accept.
pub record Common (conf : Config) (session : SessionData)
    (min_client max_client v : ProtocolVersion) : Type 0 where
  pub client_min : AtMost min_client v
  pub client_max : AtMost v max_client
  pub server_min : AtMost (min_session_protocol_version conf session) v
  pub server_max : AtMost v max_protocol_version

min_session-AtMost :
    (conf : Config) (session : SessionData)
    → AtMost (min_session_protocol_version conf session) max_protocol_version
unfolding min_session_protocol_version
min_session-AtMost conf session = ground arith

-- The three tests that fail the negotiation, read as an order, and the choice behind them.
choose_from-cases :
    (lo a b : ProtocolVersion)
    → ((choose_from lo a b ≡ none) × ¬ (AtMost a max_protocol_version × AtMost lo b × AtMost a b))
      ⊎ ((AtMost a max_protocol_version × AtMost lo b × AtMost a b)
          × (((choose_from lo a b ≡ some max_protocol_version) × AtMost max_protocol_version b)
              ⊎ ((choose_from lo a b ≡ some b) × AtMost b max_protocol_version)))
unfolding choose_from
choose_from-cases lo a b =
    let max = max_protocol_version in
    elim (Bool-cases (above_version a max)) [
      | inl x ↦ inl (rw x refl, λ h. cc (x, (above_version-false a max).1 h.0))
      | inr x ↦ elim (Bool-cases (below_version b lo)) [
        | inl y ↦ inl (rw (x, y) refl, λ h. cc (y, (below_version-false b lo).1 h.1))
        | inr y ↦ elim (Bool-cases (below_version b a)) [
          | inl z ↦ inl (rw (x, y, z) refl, λ h. cc (z, (below_version-false b a).1 h.2))
          | inr z ↦ inr (
            ((
              (above_version-false a max).0 x,
              (below_version-false b lo).0 y,
              (below_version-false b a).0 z,
            )),
            elim (Bool-cases (above_version b max)) [
              | inl w ↦ inl (rw (x, y, z, w) refl, above_version-true b max w)
              | inr w ↦ inr (rw (x, y, z, w) refl, (above_version-false b max).0 w)
            ],
          )
        ]
      ]
    ]

-- The version that is chosen is the greatest that the client and the server both accept.
pub choose_protocol_version_greatest :
    (conf : Config) (session : SessionData) (min_client max_client v : ProtocolVersion)
    → choose_protocol_version conf session min_client max_client ≡ some v
    → Common conf session min_client max_client v
      × ((w : ProtocolVersion) → Common conf session min_client max_client w → AtMost w v)
unfolding choose_protocol_version
choose_protocol_version_greatest conf session min_client max_client v h =
    let lo = min_session_protocol_version conf session in
    elim (choose_from-cases lo min_client max_client) [
      | inl (e, _) ↦ cc
      | inr ((a, l, c), inl (e, m)) ↦
          let q : v ≡ max_protocol_version = cc in
          rw q (
            record {
              client_min = a;
              client_max = m;
              server_min = min_session-AtMost conf session;
              server_max = AtMost-refl max_protocol_version;
            },
            λ w k. k.server_max,
          )
      | inr ((a, l, c), inr (e, m)) ↦
          let q : v ≡ max_client = cc in
          rw q (
            record {
              client_min = c;
              client_max = AtMost-refl max_client;
              server_min = l;
              server_max = m;
            },
            λ w k. k.client_max,
          )
    ]

-- The negotiation fails only if there is no version that both sides accept.
pub choose_protocol_version_complete :
    (conf : Config) (session : SessionData) (min_client max_client w : ProtocolVersion)
    → Common conf session min_client max_client w
    → (v : ProtocolVersion) × (choose_protocol_version conf session min_client max_client ≡ some v)
unfolding choose_protocol_version
choose_protocol_version_complete conf session min_client max_client w c =
    let lo = min_session_protocol_version conf session in
    elim (choose_from-cases lo min_client max_client) [
      | inl (e, no_common) ↦ absurd (
          no_common (
            AtMost-trans min_client w max_protocol_version c.client_min c.server_max,
            AtMost-trans lo w max_client c.server_min c.client_max,
            AtMost-trans min_client w max_client c.client_min c.client_max,
          ))
      | inr (_, inl (e, m)) ↦ (max_protocol_version, e)
      | inr (_, inr (e, m)) ↦ (max_client, e)
    ]

fresh_min :
    (conf : Config) (session : SessionData)
    → session.legacy_compatible ≡ false
    → AtMost (new_version 2 5) (min_session_protocol_version conf session)
unfolding min_session_protocol_version
fresh_min conf session fresh = ground arith

above_condiscon : (v : ProtocolVersion) → AtMost (new_version 2 5) v → below v 2 5 ≡ false
unfolding below
above_condiscon v h = ground arith

-- Whatever the configuration, a session that was not yet found convertible to the legacy format is never
-- negotiated below version 2.5.
pub choose_protocol_version_condiscon :
    (conf : Config) (session : SessionData) (min_client max_client v : ProtocolVersion)
    → session.legacy_compatible ≡ false
    → choose_protocol_version conf session min_client max_client ≡ some v
    → below v 2 5 ≡ false
choose_protocol_version_condiscon conf session min_client max_client v fresh h =
    let (c, _) = choose_protocol_version_greatest conf session min_client max_client v h in
    above_condiscon v
      (AtMost-trans (new_version 2 5) _ v (fresh_min conf session fresh) c.server_min)
