-- ===== src/Lib.antt =====
-- The file exchange: a server that stores files for clients with certificates (src/server/server.c),
-- a watcher that records what happens in a directory (src/main.c), and the client
-- (src/client/client.c). Both programs keep one MongoDB collection, in which a document has a
-- "proc" map of numbered events.
--
-- The parts and their files:
--   Protocol        include/protocol.h: commands, statuses, headers.
--   Path            the base name, its extension and the rest (get_file_extension,
--                   get_filename_without_extension), the test on file names and the storage path of
--                   the upload and download handlers. Path/Split, Path/Safety: what they keep.
--   Number          strtol and the printing of keys. Number/RoundTrip relates them.
--   Proc            get_next_proc_key, create_base_document and append_proc_event, which server.c and
--                   main.c both contain. Proc/Key: the next key; Proc/Based, Proc/Growth: a map
--                   over a call;
--                   Proc/Stale: what `errno` does to it; Proc/Frame: what a call leaves alone;
--                   Proc/Preserve: what every call of it keeps.
--   Transfer        ssl_send_all and ssl_recv_all. Transfer/Sent, Transfer/Received, Transfer/Apart.
--   Hash            compute_buffer_blake3 (server), compute_file_blake3 (client).
--   Cipher          enhanced_aes_gcm_encrypt, enhanced_aes_gcm_decrypt. Cipher/Contexts counts cipher
--                   contexts; Cipher/RoundTrip composes the two; Cipher/Success: when it seals.
--                   Cipher/AesGcm: crypto_encrypt_aes_gcm (src/crypto/aes_gcm.c).
--   Server          Reply, Upload, Download, Listing and Session are the handlers and handle_client;
--                   Lifecycle is the start and the end of the program. Each has child modules with
--                   its theorems. Store is what the handlers promise together: a shelf, which
--                   maps a name to a text and its owner, and which a world holds when the first
--                   document of a name and its file belong to its text (Store/Laws: what this
--                   assumes of files and documents; Store/Quiet: steps that keep the shelf;
--                   Store/Uploads, Store/Downloads: the two handlers).
--   Daemon          the watcher's events, handlers and loop; Daemon/Lifecycle its start and end.
--   Client          download_file_ssl and upload_file_ssl, from the file to the file; Client/Listing
--                   is list_files_ssl, Client/Program is main with its arguments. Client/Header: the
--                   request as the server reads it; Client/Send, Client/Receive, Client/Answer,
--                   Client/Uploaded, Client/Asked, Client/Kept: the transfers.
--   Exchange        both sides of one connection: an upload, a download, a list. Exchange/Replies,
--                   Exchange/Texts, Exchange/Served, Exchange/Answered: what the server's handlers put on
--                   it; Exchange/Private: who gets a text.
--   Plain           the older client (src/client/code.c) over a plain socket, and send_all and recv_all,
--                   which it shares with src/utils/utils.c; Plain/Delivery: what these two carry.
--   Records         the documents of file records and the calls that store them
--                   (src/db/mongo_ops_server.c, src/db/mongo_ops.c).
--   External        what the programs call and do not contain, as records of operations over unknown
--                   states: OpenSSL, files, MongoDB, the C library, BLAKE3. External/Laws and
--                   External/Documents hold the behaviour that theorems assume of them, each as a
--                   record that the theorem takes as an argument.
--   World           the state of a thread, the monad over it, and the external calls as actions.
--   Base, Bson      numbers, bytes, C strings, documents.
--   Tests           a small platform on which the assumed behaviour holds, and runs on it.
--
-- A handler is a function from the world to the world, built from one function for each stretch of
-- the code between two calls; an early return is a branch that sends its reply and stops. `errno` is what
-- strtol and read make of it, and what the driver's calls have left when the keys are read. Strings
-- are lists of bytes without the NUL; an `int`, a `long long` or a `size_t` is an integer with the
-- conversions of C written out (Base/Int). A write
-- behind a block and a use of freed memory (the list, the record of an upload) are taken as without
-- effect. The clean-up of a document, a cursor or a block is not
-- kept, apart from cipher contexts and the resources of the two `main` functions.
--
-- Fuel: send_loop, recv_loop, receive_loop, download_loop and send_pieces take at least one byte by
-- round and have one round more than there are bytes; events_of takes 16 bytes by round and has as
-- many rounds as bytes. The lemmas on fuel stand beside the loops' theorems. serve_loop and main_loop
-- follow a given number of reads, and say whether they have ended. The calls of a plain socket may be
-- interrupted as often as a signal comes: their rounds are an argument, and a result says whether they
-- were enough.
--
-- Not modelled: the log, and the messages and the progress bar of the clients; threads that run at
-- once, since each handler is a sequence of calls on a state of its own; the obfuscator and the
-- obfuscated copy of the server (obfus.c, src/server/server_obf.c); the stand-alone programs of src/db
-- (mongo_client.c, test_mongo.c); src/common, whose functions no program calls; BLAKE3 (deps), OpenSSL,
-- MongoDB's driver and the C library, which are parameters.
pub mod Base
pub mod Bson
pub mod External
pub mod Path
pub mod Protocol
pub mod World
pub mod Transfer
pub mod Cipher
pub mod Hash
pub mod Number
pub mod Proc
pub mod Server
pub mod Client
pub mod Daemon
pub mod Exchange
pub mod Plain
pub mod Records
pub mod Tests
