-- ===== src/Lib.antt =====
-- Verification library of the Squeezebox Radio Spotify Connect engine, the Rust programs of native/.
--
-- A Squeezebox Radio plays Spotify Connect through three processes. The supervisor
-- (native/supervisor/main.rs) runs the engine and writes its status for the applet; the engine
-- (native/librespot) fetches, decrypts and passes on the audio, and runs the event program
-- (native/metadata/main.rs) on each player event; the bridge (native/bridge/bridge.rs) reads the
-- engine's Ogg pages off a pipe and serves them over HTTP to the radio's own player.
--
-- Prelude and its children hold the shared names, tests on numbers and byte strings, and the lemmas
-- on lists.
--
-- Bridge models native/bridge/bridge.rs. Bridge.Result is its io::Result, with a constructor for
-- every error that it raises and one for a panic. Bridge.Page is `page`, the framing of Ogg pages,
-- and the layout of a page; Bridge.Headers is `Headers::observe`, the cache of the stream's three
-- Vorbis headers; Bridge.Http is `accept_http`; Bridge.Marker is `read_marker` and `write_marker`;
-- Bridge.Loop is the loop of `main`. One pass of the loop is the function `step` on a State that
-- holds the loop's variables; what the operating system answers during the pass (the loading marker,
-- the listener, the queue behind the producer's thread, the clock, the write) is a World. The
-- recursions are structural: on the bytes, on the lacing values, and on the room of 4,096 bytes for
-- a request.
--
-- Streaming models native/librespot/audio/src/fetch/streaming.rs, the engine's reader for devices of
-- little memory. Streaming.Reader is `read` and `seek`; Streaming.Task is `open` and the task that it
-- spawns, with the CDN's answers as a parameter. How many chunks are held at once is not modelled. `read` has fuel for the bytes that are asked for and the entries of
-- the channel, the task for one round more than the file has bytes; both are proved to be enough.
--
-- Ranges models native/librespot/audio/src/range_set.rs, the sets of byte ranges by which the engine
-- knows which parts of a file it has. A range's end is assumed to fit a usize.
--
-- Json holds what the next two programs have in common: the JSON objects that they print, and a reader
-- of such texts after RFC 8259, which is a specification and stands for no code.
--
-- Metadata models native/metadata/main.rs: its result is the list of its file operations, and Runs
-- says what they do to the files when the program is cut off or fails anywhere. Supervisor models
-- native/supervisor/main.rs: the text of write_status, what a line of the engine tells, and the status
-- in the end. Both take texts as bytes, and white space as that of ASCII.
--
-- Shuffle models native/librespot/connect/src/shuffle_vec.rs, the list by which the engine shuffles a
-- play queue. The draws of the random number generator are a parameter, in the range that it is
-- asked for.
--
-- Codec models native/librespot/core/src/connection/codec.rs, the frames between the engine and the
-- access point. The Shannon cipher is a parameter, Cipher; Codec.Frames.IsCipher is what the codec
-- relies on.
--
-- Connect models the play queue that the engine shares with other devices, native/librespot/connect/src/
-- state.rs and state/: its ConnectState with the messages that it holds as records (State), the contexts
-- (Context), the previous and next tracks (Tracks), the options and what remote controls ask for
-- (Options). An operation is a function from the state to a result and the state that it leaves, also
-- where it fails. Queue has the theorems: the loop of fill_up_next_tracks has fuel for a round per place
-- and per track of the contexts, which is proved to be enough. Hashes of the queue are the uris that are
-- hashed, the engine's usize has the 32 bits of the device, and time stamps, volumes and the other fields
-- that are only passed on are left out.
--
-- Fetch models native/librespot/audio/src/fetch/receive.rs and the reader of mod.rs, which download a file
-- in ranges into a temporary file. Fetch.Steps is the download as a step relation: each step is a handler
-- of the code, and the reader's commands, the receivers' bodies and the messages come in any order. The
-- CDN's answers are bytes of its file at the offset asked for, and not more of them than asked for; which
-- requests can be made is a parameter. The tests that compare floating-point numbers only decide how much
-- is prefetched, so in streaming mode pre_fetch_more_data may come with any number of bytes behind each
-- turn of the loop. A handler that breaks or fails ends the fetch and drops its channel; the receivers that
-- are left then give back what they have not brought, or return at a send that fails.
--
-- Ids models the base 62 texts of native/librespot/core/src/spotify_id.rs. Bytes are numbers, an
-- arithmetic result out of range is none, as is an index out of the array of digits.
--
-- Cache models SizeLimiter of native/librespot/core/src/cache.rs and the loop prune_internal. The
-- priority queue of the crate is a parameter, and Cache.Limits.IsQueue is what the crate documents of it;
-- which files can be deleted is a parameter too. Files are compared by the bytes of their paths, and
-- the map of their sizes is an association list. Fuel for each file and one more is enough.
--
-- Not modelled: reading the command line of the bridge, its messages, its sleeps and the counter that
-- only times a message; hyper, tokio, protobuf and the other crates; the rest of the engine; the Lua
-- applet, the build scripts, and the C shims for the device's old kernel.
pub mod Prelude
pub mod Bridge
pub mod Streaming
pub mod Ranges
pub mod Json
pub mod Metadata
pub mod Supervisor
pub mod Cache
pub mod Codec
pub mod Connect
pub mod Fetch
pub mod Ids
pub mod Shuffle
pub mod Tests
