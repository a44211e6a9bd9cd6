-- ===== src/Lib.antt =====
-- The servers of irmago and the data that they verify: the session state machine of server/irmaserver with its
-- routes, its negotiation of versions and its memory store; the keyshare server of internal/keysharecore and
-- server/keyshare; the requestor server of server/requestorserver; and of the root package the session requests,
-- disclosed attributes, identifiers and the metadata attribute.
--
-- The parts, and the files that model them:
--
-- - Version: ProtocolVersion of messages.go; Version/Order has it as an order.
-- - Bytes: the big-endian bytes of math/big, with fixed lengths in Bytes/Fixed.
-- - Metadata: MetadataAttribute of attributes.go, a number whose 24 bytes hold five fields. Setters return
--   the new number. Metadata/Slices, Fields and Dates reason about the bytes, the fields and the dates.
-- - Identifier: metaObjectIdentifier of identifiers.go, as bytes.
-- - Request: AttributeRequest, AttributeCon, AttributeDisCon and AttributeConDisCon of requests.go with
--   Validate, and in Request/Legacy the conversion of legacy.go. Request/Validation: Validate of the three requests.
-- - Credential: CredentialRequest of requests.go with Validate and AttributeList, and what they read of
--   descriptions.go; Credential/Issuance has validateIssuanceRequest of server/irmaserver/helpers.go.
--   Credential/Encoding, Issued and Accepted: what is issued and what is accepted for it.
-- - Disclosure: extractAttribute and parseAttribute of verify.go and the Satisfy methods of requests.go. Reads
--   out of range and nil dereferences are the outcome `panic`. Disclosure/Verify and Against have the rest of
--   verify.go, from ExtractPublicKeys to VerifyAgainstRequest, Valid and Singletons what it has checked.
-- - Session/Types: sessionData of server/irmaserver/sessions.go with the types that it holds.
-- - Session/Steps: setStatus, fail, updateFrontendOptions and the other methods of helpers.go. A method that
--   mutates the session returns it, with the result callbacks that it posts.
-- - Session/Negotiation: chooseProtocolVersion. Session/Connect: handleGetClientRequest. Session/Respond:
--   handlePostDisclosure, handlePostSignature and startNext. Session/Issuance: handlePostCommitments.
-- - Session/Routes: HandlerFunc of api.go with the middlewares of helpers.go around the handlers.
-- - Session/Store: memorySessionStore, whose transactions begin with a copy and end with a commit, so that
--   other routines may run in between. Session/Server: newSession and the functions of api.go on the store.
-- - Session/Status, Lifecycle, Completion, Commitments and Serving: each handler advances a session by one
--   step. Session/Callbacks, Reached, Access and Updates: what follows from it. Session/Transactions and Once:
--   the same requests within the transactions of the store.
--
-- - Keyshare/Secrets, Core and Operations: internal/keysharecore, a file each for usersecrets.go, core.go, and
--   operations.go with legacy.go. An operation takes the core and returns it with its result.
-- - Keyshare/Pin, Users and Store: the pin tries of postgresdb.go, the interface DB of db.go with postgresdb.go
--   and memorydb.go as two of it, and session.go, all in server/keyshare/keyshareserver.
-- - Keyshare/Handler, Prove, Verify and Register: the handlers of server.go and legacy.go there, as steps on the
--   core, the sessions and the database, with the errors of server/keyshare/errors.go.
-- - Keyshare/Padding, Commitments, SingleUse, Access and Blocked: what follows for secrets, commitments, access
--   tokens and blocked users.
-- - Requestor/Permissions, Authentication and Create: conf.go, auth.go and server.go of server/requestorserver;
--   Requestor/Grants, Signed and Revoked: what a session or a revocation that is allowed has been checked for.
--
-- The keyshare server keeps a core, the session of each user and a database: /prove/getCommitments has the core
-- store a commitment and the session its identifier, which /prove/getResponse uses. The requestor server
-- authenticates a request, checks the permissions and then starts a session of the IRMA server.
--
-- A session is created by newSession, reached by the client's and the frontend's requests through
-- sessionMiddleware, which runs them in a transaction of the store, and read by the requestor through the
-- functions of api.go. The handlers call Verify for responses and the revocation of the configuration; these
-- and the values of gabi, the JSON and JWT encodings, SHA-256 and the clock are parameters (the records
-- Verifier of Disclosure/Verify, Backend, Issuer and Http of Session/Messages, Issuance and Routes, Cipher and Library of Keyshare/Secrets and
-- Core, Unverified and Environment of Keyshare/Verify and Register, and Wire and IrmaServer of
-- Requestor/Authentication and Create, and IssuanceConfig of Credential/Issuance). Values that are drawn at random are arguments.
--
-- Loops are structural recursion; the conversion to bytes takes as much fuel as the number is large, which is
-- enough since each step divides it. Times are in seconds or nanoseconds since the epoch and are not bounded;
-- a byte and the two-byte counters keep their bounds. The components of a protocol version are numbers, and the
-- public key of a user is its PKIX encoding, empty for none.
--
-- Not modelled: the redis store, server-sent events, status channels, computeAttributes with the witness
-- of nonrevocation, the keys on disk, the cryptography of gabi, the MyIRMA server, the client, revocation, schemes and
-- the command line; of the keyshare server a database that fails and mail; of the requestor server the reading
-- of its configuration and its routes on existing sessions.
pub mod Prelude
pub mod Version
pub mod Bytes
pub mod Metadata
pub mod Identifier
pub mod Request
pub mod Credential
pub mod Disclosure
pub mod Session
pub mod Keyshare
pub mod Requestor
