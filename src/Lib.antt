-- ===== src/Lib.antt =====
-- A model of the backend of a group chat: Flask handlers that store messages in caches and a write
-- queue, a thread that writes the queue to an SQLite file, a hash chain over the stored rows,
-- signatures and encryption, and the ingestion of batches that other backends post.
--
-- How the parts interact. `post_message` of app.py reads a request, asks db.py whether the id is
-- known, takes a key from its cache, signs (signatures.py), encrypts (crypto_utils.py), links the row
-- to the chain (integrity.py) and gives it to `db.save_message`, which changes the caches and puts
-- the row in the queue. `_background_writer` of db.py takes batches from the queue, inserts them,
-- and posts them to the shared service, which is either another backend (`save_messages_batch` of
-- db.py) or dbservice/main.py. load_balancer/main.go has a feed and a shared database of its own; it
-- answers POST /message itself, and counts the message for the backend that it selects.
--
-- Which file models what (paths from the repository's root):
--   Prelude/  numbers, lists, texts, and Python's `str(n)`, `int(s)`, `s.strip()` and `s.split()`
--   Value     JSON values with `d.get(k)`, `a or b`, `str(v)` and `int(v)`
--   Store     the SQLite file of db.py: schema, INSERT OR IGNORE, executemany, DELETE, upsert;
--             Store/Insert, Batch, Unique, Order prove what the statements store
--   Db        db.py: the module's variables as the record `Db`, and init_db, get_last_hash,
--             save_message, load_history, get_messages_for_feed (get_feed_json), message_exists,
--             get_message_count, upsert_user_pubkey, load_shared_messages, reset_db
--   Db/Writer `_background_writer` of db.py; Db/Ingest `save_messages_batch` of db.py
--   Db/Saving, Pipeline, Steps, Recovery, Loss, Reset, Replay, Replica, Shared, Stored prove the
--             properties of db.py
--   DbService dbservice/main.py; DbService/Arrival, Twice and Requests prove what a posted batch,
--             a repeated one and any sequence of requests do there
--   Cluster   several backends and one service, with posts on their way; Cluster/Delivery, Backends,
--             Sync and Lost prove what the service has of their files
--   Balancer/FeedStore, Balancer/Selection, Balancer/SharedDb   AtomicFeedStore, Backend and
--             ServerPool.SelectBest, and SharedDB of load_balancer/main.go; FeedStore/Contents,
--             Selection/Least and SharedDb/Answers prove their properties, SharedDb/Reference is a
--             description of SharedDB without index and cache
--   Integrity, Integrity/Chain, Integrity/Edits       integrity.py
--   Signatures, CryptoUtils                           signatures.py, crypto_utils.py
--   App       app.py: the module's variables as the record `App`, track_response_time,
--             get_or_create_keypair, get_next_hashes, _broadcast_ws, canonical_message
--   App/Post  post_message; App/Socket ws_handler; App/Routes get_feed, reset_state,
--             post_messages_batch, get_messages and the counts of health
--   App/Threads   post_message on many threads: a constructor of `Pc` for each place between two
--             locks, `advance` for the code from one to the next; its child modules Alone, Ends,
--             Counts, Weights, Balance, Balanced, Ledger, Settled, Flushed, Kept, Sealed, Order,
--             Cleared, Joined, Cases, Acknowledged and Survived prove its properties
--   App/Metrics   _cpu_sampler, _get_mem_percent and health; Numbers is the record of floats, Cpu,
--             Counters, Memory and Score prove its properties
--   Db/Connection   get_conn of db.py on many threads; Owned, Steps and Owner prove its property
--   App/Views     what the page of a browser shows of the events that its socket is sent:
--             handleServerMessage, renderMessage and signatureBadge of static/app.js; Sends,
--             Handlers, Wire and Follow prove its property
--   App/Schema    the shapes of answers and events; Times, Sending, Replies and Events prove its
--             properties
--   App/Start     the settings from the environment, the import of app.py on a file, and the ports;
--             Lifetime proves what holds through requests, writer rounds, resets and restarts
--   App/Kept      an induction over the handlers of app.py that change the sockets
--   App/Answers, Signed, Chained, Feed, Sockets, Runs, Race, Forks, Overtaken, Trusted, Times prove
--             the properties of app.py; the relation `Handled` of App/Runs has a constructor for each
--             handler
--   Tests     toy packages and concrete states, and the examples that apply the theorems
--
-- State. `Db.working` is the file as the process's own connection sees it, an open transaction
-- included; `Db.committed` is what the last commit left, which a restart reads. `Db.in_flight` is the
-- batch in the writer's hands. A call that raises gives `raised` (`Outcome`) with the state it
-- leaves. The set of ids is a list without repetitions, a dict an association list.
--
-- Packages. SQLite's use of AUTOINCREMENT ids and its column affinity (`Engine`, `TextEngine`),
-- `cryptography` with base64 (`Ecdsa`, `Fernet`), SHA-256, and Python's `repr` of lists and dicts
-- are parameters; the records state the round trips that the code relies on. Clock, random
-- numbers, the outcome of socket sends and measured times are fields of `Draw`.
--
-- Texts. A string is a sequence of Unicode scalar values. Python's strings can also have lone
-- surrogates, which `json.loads` makes of escapes such as "\ud800"; requests, socket messages and
-- batches with such strings are outside the model. The code takes them as ids, and signing, hashing
-- and SQLite then raise. Events reach a page through `Wire` of App/Views/Wire: NaN, infinities and
-- integers beyond 2^53 need not arrive as they were.
--
-- Bounds and fuel. The queue holds 200000 rows, a batch 200, the key cache is emptied above 1000
-- entries, 100 response times are kept. `str_nat` runs on fuel, the number itself, which is at least
-- the number of its digits. `writer_rounds` is given its number of rounds; the theorem about it says
-- which number is enough. Python's integers are unbounded; SQLite's are checked against 64 bits.
--
-- Threads. `Db` and `App` take a handler as one step. App/Threads cuts post_message at its locks and
-- lets its threads, arriving requests and the writer's rounds take turns in any order; App/Threads/
-- Alone relates the two. Db/Connection does so for get_conn.
--
-- Floats. The record `Floats` has the operations that `/health` uses, with the laws of IEEE 754
-- between 0 and 2^53: correctly rounded operations are monotone, and exact on whole numbers. The
-- record `Scores` has those that SelectBest uses, with the laws of a strict order.
--
-- Not modelled. Strings with lone surrogates. Interleavings inside the other handlers, but for a
-- reset and a join between the steps of a thread (App/Threads/Cleared and Joined); a lock that a
-- fork leaves held; the text of an exception; the writing of JSON; the pragmas of the connections;
-- digits beyond ASCII in `int(s)`; of the load balancer AdaptThreshold, the loop of the health
-- checks, the copy of the feed in /dev/shm and the HTTP handlers; the load generator (Go), the rest
-- of the browser client, the two static routes and the parser of the arguments.
pub mod Prelude
pub mod Value
pub mod Store
pub mod Db
pub mod Integrity
pub mod Signatures
pub mod CryptoUtils
pub mod App
pub mod Cluster
pub mod Balancer
pub mod DbService
pub mod Tests
