-- ===== src/Lib.antt =====
-- RelayCode is a proxy: it takes requests in the shape of Anthropic's Messages API, sends each to one
-- of several kinds of upstream, and gives the answer back as a stream of server-sent events. This
-- library models the parts that carry its own logic and proves what makes them correct.
--
-- The parts and their files (paths from the repository's root):
--   Common      lists, texts, tests and signed integers that the other parts share
--   Sse         internal/sse/sse.go. Event: the events that are sent. Writer: `Writer`, over a
--               connection that says what fails. Builder: `Builder`, one function per method. Protocol:
--               what a client relies on. Agreement, Builder/Tools, Builder/Invariant, Builder/Run,
--               Builder/Calls, Builder/Endings: the builder against the protocol.
--   Transcript  internal/anthropic/types.go. Message: `Message`, `Content`, `Block`. Blocks: the functions
--               on the blocks of one message. Request: `Request` and what the adapters read from it. Compact:
--               `CompactToolResultText`; Compact/Lines, Compact/Windows: the lines that it keeps. Repair:
--               `NormalizeMessagesForUpstream`, `NormalizePreviousResponseTail` and
--               `ensureToolResultPairing`. ServerTools: `Tool` and the filters for tools that the provider
--               runs itself; ServerTools/Upstream: what passes them. Pairing: what a paired transcript is.
--   Session     internal/session/session.go. Entry and Store: the entries, `Commit`, `Invalidate`, pruning
--               and eviction. Prepare: `Prepare`, with its two searches. Commit, Prepare/Tail,
--               Prepare/Sound, Prepare/Chains: their theorems. Prepare works on Transcript's messages.
--               Disk: `LoadFile` and `SaveFile` of internal/session/file_store.go, on a file system whose
--               calls may fail. Disk/Bounds, Disk/Atomic, Disk/Reread, Disk/Reload: their theorems.
--   Config      internal/config/config.go. Types: the configuration. Validate: `validate`.
--   Router      internal/router/router.go. `Resolve`, `Models` and `bind` on a configuration. Routing
--               joins the router to the validation; Listing is about `Models`.
--   Json        Go's `any` and `map[string]any`, which Native and Guard read
--   Guard       internal/provider/toolargs and internal/provider/toolguard. Args: the aliases of toolargs.go.
--               Schema and Validate: the schema checks of toolguard.go. Repair: its repairs. Registry:
--               `Registry` and its `Validate`, which the adapters ask about each tool call.
--   Native      internal/provider/anthropic. Blocks and Policy: `nativePolicy`.
--               Tracker: `streamTracker` of tracker.go and `emitStreamErrorTail` of anthropic.go;
--               Tracker/Balance: the blocks that the client has open, apart from the tracker.
--   Streams     internal/streamparse. Bytes: Go strings as bytes. Think: `ThinkTagParser` of thinking.go.
--               Think/Kept, Think/Held, Think/Feeding: what it keeps, and how much it holds back.
--   Chat        internal/provider/chat/chat.go. Request: `buildRequestWithOptions`. Messages: `convertMessages`,
--               on Transcript's messages. Stream: `Stream`, which drives Sse's builder with the chunks of
--               Streams and the checks of Guard. Request/Known, Messages/Answered, Messages/Called,
--               Messages/Matched, Stream/Sent, Stream/Ended, Stream/Closing, Stream/Indices,
--               Stream/Complete: their theorems.
--   Upstream    internal/provider/http.go. Post: the attempts of `PostStreamWithClient`; Post/Attempts: which of
--               them gives the result. Frames: `IterSSE`; Frames/Reading: what it reads.
--   Updates     internal/updatecheck/updatecheck.go: `isNewer`, `parseVersionTag`, `shouldCheck`.
--               Updates/Order: the order of the tags.
--   Optim       internal/optim/optim.go: `Try`, on Transcript's requests. Optim/Words, Optim/Paths: what its
--               answers about a command hold.
--   Examples    the theorems at concrete inputs
--
-- How the code corresponds: a method that changes its receiver returns the new one; an error, a nil and
-- a missing key are values; a map is a list of keys and values in the order in which Go visits them,
-- which the theorems leave open, or a function where nothing visits it; a raw JSON value is its
-- text. The clock is an argument. Locks are left out: each method of the session store runs under
-- the store's lock as a whole.
--
-- Parameters: `encoding/json`, SHA-256, Unicode, regular expressions, float64 arithmetic, the connection,
-- the file system, the answer of an upstream, the bytes of a text, the trimming of texts and
-- `fmt.Sprintf("%d")` are not code of the repository and are arguments. Only three theorems ask something of
-- them: that a saved time is read back, and a saved snapshot and its messages but for their layout, which
-- `json.MarshalIndent` changes; that different numbers are written
-- differently, and that trimming the lines of an event leaves its name and its data.
--
-- Bounds: Go's `int` is ℤ, or ℕ where it only counts up from 0; token counts and block indices do not
-- wrap around, which would take 2 ^ 63 events. Fuel: `pop_all` of Native/Tracker has the number of open
-- blocks, and the theorem on the tail shows that the loop then pops them all; `feed_loop` of
-- Streams/Think has one more than the buffer has bytes, and Think/Held shows that the loop then ends
-- by itself; `evict_to` of Session/Disk has the number of entries, and Disk/Bounds shows that the limit
-- is then kept; the schema checks of Guard/Validate have the weight of the schema, and
-- Validate/Enough shows that it is never used up; the search for an alias has one more than there are
-- properties, and Args/Fresh shows that it finds one. All other loops are structural.
--
-- Not modelled: the adapter for Responses (internal/provider/responses), the parser of tool calls
-- (internal/streamparse/tool.go), the YAML reader and `fromDoc` of internal/config, and the reading of the
-- text of a frame in internal/provider/anthropic: nothing here depends on them, and what they hand to the
-- parts above is an argument. The making of HTTP requests, web tools, captures and the command (the rest
-- of internal/provider/http.go and internal/updatecheck, internal/webtools, internal/capture,
-- internal/server, cmd) are mostly input and output.
pub mod Common
pub mod Sse
pub mod Transcript
pub mod Session
pub mod Config
pub mod Router
pub mod Json
pub mod Native
pub mod Guard
pub mod Streams
pub mod Chat
pub mod Upstream
pub mod Updates
pub mod Optim
mod Examples
