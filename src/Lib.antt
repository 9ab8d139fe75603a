-- ===== src/Lib.antt =====
-- The TypeScript SDK of Feedo: how it finds nodes, signs and repeats requests, and stores files in
-- chunks; the web site, with the sandbox that shows a stored site; and the indexer's scripts.
--
-- Parts
--
-- * Router models `class NodeRouter` of sdk/typescript/src/router.ts. Router.State has its fields
--   and the constructor. Router.Discover has `getNodesFromRouter`, with a cache of five minutes for
--   each node type. Router.Select has `findFastestNode`, which races pings, and the getters and
--   invalidations of the active nodes. The three getters differ in the node type and in the path
--   that is pinged, so each is `get_node` at a node type.
-- * Wallet models the signed headers that the modules build with ethers, which is a parameter.
-- * Storage models `class StorageModule` of sdk/typescript/src/modules/storage.ts. Storage.Requests
--   has `request`, `uploadSingleChunk` and `downloadSingleChunk`, which ask the router for a node,
--   and invalidate it and ask again when a request fails. Storage.Chunks has the loop that cuts a
--   file. Storage.Files has `uploadFile` and `downloadFile`, which transfer the chunks through the
--   promise pool of Runtime.Pool and tie them together by a manifest.
-- * Search models `class SearchModule` of sdk/typescript/src/modules/search.ts and Consensus
--   `class ConsensusModule` of modules/consensus.ts beside it: requests to a node of their type,
--   sent again when they fail, like those of Storage. A search request is signed for its path
--   without the query.
-- * Crypto models `class FeedoCrypto` of sdk/typescript/src/modules/crypto.ts over the ciphers of
--   node and eciesjs, and Client `class FeedoClient` of sdk/typescript/src/client.ts: private files,
--   which are encrypted in chunks and granted through the consensus module. Client.Upload has what
--   an upload leaves at the nodes, Client.RoundTrip what a download finds there, Client.Grantee.Unread
--   what a grantee finds and Client.Grantee.Owner what the owner finds.
-- * Sandbox models web/public/feedo-sw.js, the service worker that answers the requests of a
--   sandboxed site from the browser's own store.
-- * View models web/src/app/view/page.tsx, which brings the archive of a site into the store that
--   the service worker of Sandbox reads. View.Overlay has what a visit leaves in the store,
--   View.Served what the service worker answers from it, View.Ends what holds of every visit and
--   View.Panels what the page shows then.
-- * Results models web/src/app/search/page.tsx, which asks the search nodes and resolves domains, and
--   Home web/src/app/page.tsx, which leads to it.
-- * Graph models web/src/components/GraphBackground.tsx: the edges (Graph.Edges), the loop over the
--   signals (Graph.Signals), the frames (Graph.Emitters) and what they draw (Graph.Drawing,
--   Graph.Drawn). Loading models LoadingGraph.tsx beside it, with its tree (Loading.Tree) and what
--   is drawn of it (Loading.Drawing, Loading.Drawn). Canvas has the calls of the canvas, and the
--   drawing that both share.
-- * Benchmark models the loop of scripts/benchmark.js and scripts/benchmark.mjs.
-- * Indexer models scripts/indexer/index.js: the set of domains that are taken, the log of
--   deployed sites, the queue of tasks with `processSite` cut at its waits, and `loadCheckpoints`,
--   which reads the log again. Indexer.Log defines the log and Indexer.Entries and Indexer.Resume
--   are about it, Indexer.Inputs, Indexer.Steps, Indexer.Runs, Indexer.Deployed and Indexer.Ends
--   about the queue. Indexer.Folders has the directories of the sites, and Indexer.Holding,
--   Indexer.Cleanup and Indexer.Kept are about them. Backfill models
--   scripts/indexer/backfill.js, which posts the entries of the same log to a node.
-- * Scan has the texts of the indexer as lists of code points, with the pieces of regular
--   expressions that its scripts use, `matchAll`, `split` and decimal numbers.
-- * Runtime models what JavaScript gives: Runtime.Wire has the requests and answers,
--   Runtime.Async an `async` function as a tree of atomic actions over the object that it belongs
--   to, and Runtime.Pool the workers of a promise pool, which share a counter, the array of results
--   and the router, and are run by `Promise.all`.
-- * Text has template literals with numbers and `encodeURIComponent`, Json the values of JSON.
--
-- Choices
--
-- * Interleaving. A schedule is a list of the workers that take turns; a turn is one action. Between
--   two actions of a worker any other may act, which is more than the event loop allows, since
--   there only an `await` lets others run. A theorem for all schedules holds of every run. The
--   other theorems are about rounds in which each worker has a turn.
-- * A pool is run for the length of its schedule. A pool that has not settled at its end is
--   `pending`, and never a result; `n * (cost + 3) + limit` rounds are enough for `n` jobs.
-- * The loop that cuts a file runs on fuel, as many rounds as the file has bytes. Each round but the
--   last passes a byte.
-- * The chunk size is an argument of the model. The program's is `chunk_size`, 5 MiB.
-- * The network is `Env.serve`, a function of the call and of the state of the world, and the clock
--   is `Env.clock`. What proofs rely on of the storage nodes is `Honest` in Storage.Contract:
--   content is stored under an address that depends on it alone. What they rely on of the consensus
--   nodes is in Consensus.Ledger and Consensus.Denied, where the ledger of the grants is a function
--   of the world. `IsLedger`: a key that is in it is told. `IsStrict`: a grant changes nothing of
--   other DIDs, and a DID without a grant is told null. `IsVerifying`: a grant with a public key
--   that is no address changes nothing, since the node checks the signature against an address.
--   The first two say that a request without JSON changes nothing. Which calls a program
--   makes is the matter of Runtime.Calls, Runtime.Pool.Kept, Router.Queries and Storage.Calls. A
--   ping race is answered with the order in which its requests end.
-- * `TextEncoder`, `TextDecoder` and `JSON` are the parameter `Codec`, ethers is `Ethers`, and the
--   ciphers are `Ciphers`. Random bytes are arguments.
-- * The tasks of the indexer go on in any order, which covers `p-limit` and every limit. What the
--   scraper and the command line tool answer is in the event with which a task goes on. The host
--   name of a URL is the parameter `hostname`. The directory of a site is named by its domain, and
--   the domains `.` and `..`, which name other directories, are not told apart. Whether the log can
--   be written when a command has ended is in that event; a write that fails leaves the log as it
--   was.
-- * What the viewer asks of the browser, the nodes and JSZip is the parameter `View.Host`. The store
--   is a function from keys, of which only the page's own writes are modelled. The pathname that
--   `new URL` reads in the address of a request is a parameter of the service worker; it is
--   percent-encoded, and the worker compares it with the names of the archive as it is.
-- * Floating point arithmetic is the parameter `Graph.Ops`, of which no law is assumed, and what
--   `Math.random` gives is an argument. A reference to a node of a graph is its index: nodes are
--   never removed. Times of the loading graph are whole milliseconds. What a frame draws is the
--   list of the calls of the canvas, and what it makes of the nodes and the signals their lists, or
--   `none` where it reads an element that is `undefined`, which throws.
-- * An answer that is no JSON, not ok, late or missing is one case, `none`, where the code treats
--   them alike.
-- * A file is a list of bytes, whether it is a Blob, a Buffer or a Uint8Array. Console output is
--   left out.
--
-- Not modelled
--
-- The markup of the pages under web/src, beyond which panel the viewer shows; the browser plug-in
-- of the indexer; and what is not JavaScript: the nodes under microservices, the browser, the
-- explorer and the contracts.
pub mod Base
pub mod Text
pub mod Runtime
pub mod Router
pub mod Wallet
pub mod Json
pub mod Storage
pub mod Crypto
pub mod Consensus
pub mod Search
pub mod Client
pub mod Sandbox
pub mod Scan
pub mod Indexer
pub mod Backfill
pub mod View
pub mod Results
pub mod Canvas
pub mod Graph
pub mod Loading
pub mod Benchmark
pub mod Home
