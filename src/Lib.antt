-- ===== src/Lib.antt =====
-- drs: a model of drs-verify, the verifier of delegation receipts, and what is proved of it.
--
-- A bundle holds a chain of delegation receipts (signed JWTs, root first) and an invocation. The
-- middleware of a tool server takes the bundle from the header X-DRS-Bundle, has the chain
-- verified, claims the invocation's JTI in the nonce store, compares the body with the signed
-- args, and then calls the handler; POST /verify makes the same calls for a remote caller and
-- answers with the result. The verifier asks a DID resolver for keys, the status list and the
-- local revocation store for revoked indices, and a store that keeps the receipts.
--
-- Files, and the code that they model (paths from the repository's root):
--   Prelude        the shared names; Prelude/Int has int64 and float64, Prelude/Text byte strings,
--                  Prelude/Lru the interface of the LRU caches, Prelude/Guards the tests that return
--                  an error
--   Types          drs-verify/pkg/types/types.go
--   Policy         drs-verify/pkg/policy/evaluate.go: Uri has normalizeResourceURI and
--                  resourceCovered, Evaluate has Evaluate, Attenuate has CheckAttenuation; Permits,
--                  Narrowing and Segments prove
--   Chain          drs-verify/pkg/verify/chain.go: Jwt takes JWTs apart, Structure has Blocks A and
--                  B, Signature Block C, Semantic Blocks D and E, Verify Block F, the store, the
--                  timestamps and the whole of Chain; the other files there prove
--   Nonce          drs-verify/pkg/nonce/store.go; Redis has redis.go; Claims proves
--   Revocation     drs-verify/pkg/revocation: Status has status.go, Local has local.go and
--                  interface.go, Admin has admin_handler.go, Log and File have file.go, and
--                  Refreshing the steps of concurrent calls of IsRevoked; FailClosed, Bits,
--                  Digits, Reload, Restart, Refined, Interleaved, Listed and Published prove
--   Resolver       drs-verify/pkg/resolver/did.go: Base58 and DidKey have did:key, WebUrl, Document
--                  and DidWeb have did:web, Circuit the circuit breaker, Address and Dial the
--                  blocked addresses, Create the constructors, Resolve has Resolve, and Flight the
--                  steps of concurrent calls of it; Digits, Runes, DocumentKeys, Hosts, Replies,
--                  DidWebKeys, Cached, InFlight, Waiting, Remembered and Concurrent prove
--   Middleware     drs-verify/pkg/middleware: Decode has decode.go and decodeBundle, Binding has
--                  binding.go and drs-verify/pkg/binding/binding.go, Mcp has mcp.go, whose calls
--                  a2a.go makes too, RateLimit has ratelimit.go; Claimed, Guarded and Limited
--                  prove
--   Storage        drs-verify/pkg/store: Key and Filesystem have filesystem.go, Memory memory.go;
--                  Tier3 has drs-verify/pkg/anchor/tier3store.go; RoundTrip proves
--   Timestamp      drs-verify/pkg/anchor/rfc3161.go: Token has the ASN.1 types, Values the loop over
--                  the values of a SET, Signer the certificates, Attributes the signed attributes,
--                  Signature the signature, Verify both verifiers, Client the TSAClient; Named,
--                  Chosen, Binding, Signed, Opened, Trusted and Answered prove, and Receipts puts
--                  the verifier into Chain
--   Settings       Parse and Load have drs-verify/pkg/config/config.go, Operator has
--                  drs-verify/pkg/operator/config.go; Loaded and Validated prove
--   Server         drs-verify/cmd/server/main.go: verifyHandler, and Start has main up to the
--                  listeners; Health has drs-verify/pkg/health/handler.go; Answers, Started and
--                  AnyTtl prove, and Replays and Unlimited put the freshness test and the nonce
--                  store together, as that file configures them
--   Tests          concrete inputs and runs
--
-- State and calls. The state of what a component depends on is a type S, which every call takes
-- and gives back; a check is a Result whose error is the machine-readable code with the receipt's
-- index. An early return is an `err`, and the blocks are chained in the source's order. The loops
-- are recursions over lists; fuel is used where base58Decode writes a carry out, which is fuel
-- enough for itself, where FormatUint writes a number, for which twenty digits are enough, and
-- where the values of a SET are read, for which the number of bytes is enough. Strings are byte
-- lists; int64 is ℤ, with the wrapping written out where the source adds and subtracts; a finite
-- float64 is an integer multiple of 2 ^ -1074.
--
-- Parameters. SHA-256, Ed25519, encoding/json and the wording of library messages are the record
-- Env; jcs.Transform and json.Marshal are Canon; the resolver, the stores, the clock and the
-- timestamp check are Deps; url.Parse, the lookups, the HTTP exchange and net.ParseIP are Network
-- and Dialer; the LRU library is Lru with its laws IsLru; what a write of the file system does is
-- Weather; the disk of the receipt store is a map with its Faults; the token bucket is Bucket; the
-- environment of the process is Environment; the order in which resolver goroutines run and report
-- is a Schedule; encoding/asn1 and crypto/x509 are Library, the request to the authority is Web,
-- the Redis client is Redis with its Laws, and what main calls is Host. Base64, hexadecimal,
-- strings.SplitN, url.PathUnescape and TrimSpace are written out.
--
-- Not modelled: messages and suggestions for people, metrics, logs and response texts; the locks
-- of short sections, as each is one step (initMu and refreshMu, which are held over a fetch, are
-- modelled); the routes, the signals and the shutdown of the server, and the metrics; the Rust and
-- TypeScript implementations.
pub mod Prelude
pub mod Types
pub mod Policy
pub mod Chain
pub mod Nonce
pub mod Revocation
pub mod Resolver
pub mod Storage
pub mod Timestamp
pub mod Settings
pub mod Middleware
pub mod Server
mod Tests
