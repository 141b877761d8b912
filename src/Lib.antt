-- ===== src/Lib.antt =====
-- HODLXXI Social: the boundaries of its server and of its browser client.
--
-- The program.  A server keeps the sessions of its users, lends each of them opaque capabilities for the
-- recipients of direct messages, checks and routes the ciphertext envelopes of messages, and writes the
-- candidate requests and challenges of devices; the browser reads Nostr events from relays that it does not
-- trust, and shows a subject of the social graph to whom the graph allows it.  Every part takes values
-- from outside apart by reflection and answers "unavailable" or throws at anything unexpected.
--
-- The files.
--   Prelude     Boolean tests, options and lists on native numbers that all files share.
--   Js          Values as reflection reports them (Js/Value), `exactRecord` and `denseDataArray`, by
--               which each boundary copies its input (Js/Record), strings (Js/Text), `Map` (Js/Map) and
--               JSON.parse (Js/Parse), whose reading of printed objects is in Js/Parse/Printed.
--   Messages    src/server/message-envelope-v128f1.mjs: the normalizer (Envelope; what a well-formed
--               envelope is stands in Envelope/Shape), its canonical wire and its digest (Wire); and
--               src/server/message-routing-request-v1.mjs (Routing).
--               Admission is src/server/messaging-device-admission-v1.mjs: the audiences and paths
--               (Audience), `createDeviceRequestCandidateV1` and `parseDeviceRequestCandidateV1`
--               (`create_request`, `parse_request`), and the challenges (Challenge), of which
--               `createDeviceChallengeCandidateV1` is `create_challenge`,
--               `inspectDeviceChallengeCandidateV1` `inspect`.
--   Capability  src/server/opaque-recipient-capability.mjs (Syntax, Random,
--               Configuration, Store),
--               src/server/opaque-recipient-capability-issuer.mjs (Admission, Issuer),
--               src/server/opaque-recipient-capability-resolver.mjs (Resolver), and the three together
--               (Service).  `createOpaqueRecipientCapabilityStore` is `create`, its methods `issue` and
--               `resolve` take the records and answer the new ones.  Issuer and resolver are functions
--               of any store (a function with a state of any type), and of what their other
--               dependencies answer (`Environment`).
--   Sessions    src/server/social-oauth-memory.mjs: `createBoundedStore` (Bounded) and
--               `createSessionStore` (Store, Store/Mobile), each method as a function on the entries.
--               `confirm` is the one change that other files make to an entry: `logout` of
--               src/server/social-native-session-v2.mjs and social-mobile-session-v1.mjs set `confirmed` on
--               the state that they hold.
--               Native is `createNativeV2SessionManager` of src/server/social-native-session-v2.mjs over
--               that store: each handler is cut at its awaits into functions on the manager's state
--               (`logout_begins`, `logout_enters`, `logout_ends`, …), Native/Interleaving runs them in any
--               order, and Native/Responses has `validateNativeV2SessionReceipt` and
--               `validateNativeV2SessionResponse` of src/server/ubid-social-session-v2-client.mjs.
--   Nostr       web/nostr-event-verifier.mjs: arithmetic modulo the prime (Field), points (Curve), bytes
--               and hexadecimal text (Bytes), UTF-8 and JSON (Json), the normalizer (Event), the
--               JSON of an event read back (Event/Serialized), BIP340 and the verification of an event
--               (Verify).
--   Visibility  src/visibility.mjs with `normalizePublicKey` and `relationship` of src/domain.mjs.
--   Cookies     src/server/social-oauth-cookie.mjs.
--   Relay       `validatePublicRelayFilter` of src/nostr.mjs.
-- In each component the file of its name holds the definitions, the files below it the theorems, and
-- Tests the runs at concrete inputs; one of these verifies a signed event from end to end.
--
-- How code becomes definitions.  A method of a stateful object takes the state and answers a pair of its
-- result and the new state; in Sessions/Native such functions are chained by do blocks, and an action that
-- fails keeps what it has written.  `undefined`, `null`, "unavailable" and a thrown error are `none`, except in
-- `create` of the session store, which tells a refusal from an error.  Strings are lists of UTF-16 code
-- units, numbers are naturals with the bound 2 ^ 53 - 1 written out where the code tests it, and a BigInt
-- is a natural or, for a difference, an integer.  Calls of asynchronous methods are sequences of steps:
-- nothing of the three stores awaits while it changes its state, and the session manager's handlers
-- interleave only at their awaits.
--
-- What stands outside and is an argument: the random source, the clock (a function from the number of the
-- reading within a call to the time), the session, authority and directory readers, the answers of the
-- identity service, SHA-256, and how JSON.parse rounds a numeral that is no decimal up to
-- 2 ^ 53 - 1, and the hostname that `new URL` gives a literal IPv6 address.  No theorem assumes more of them than its statement says.
--
-- Bounds and fuel.  The store draws at most four times, which is a recursion on four.  `pow_loop` and
-- `multiply_loop` halve a number in each round and run on fuel one above that number; `decimal_from`
-- drops a digit in each round and runs on fuel one above its number.  The scanner and the parser of JSON
-- read each code unit and each token once.  All other loops are structural.
--
-- What is not modelled.  That the additions of points are the group law of the curve, so that an
-- accepted signature satisfies the equation of BIP340, is not shown. Left out are reflection on a
-- proxy that answers differently each time (an exotic object throws at once), negative zero, the
-- identity of objects, and the other parts of the program: the mobile session manager, the checks of
-- the options of the native one, the OAuth and mobile backends and their HTTP handlers, the clients
-- of the identity service, the other device protocols, the encryption of messages, the pages, and the
-- vendored HPKE library.
pub mod Prelude
pub mod Js
pub mod Messages
pub mod Capability
pub mod Sessions
pub mod Nostr
pub mod Visibility
pub mod Relay
pub mod Cookies
