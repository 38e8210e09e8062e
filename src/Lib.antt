-- ===== src/Lib.antt =====
-- Verification of the Slothy artifact manager (artifact-manager-plugin) and its registry client.
--
-- An artifact is encrypted, its file is cut into Reed-Solomon shards with a header each, and the
-- header of each shard file is masked with a stream of hashes, so that a stored shard looks
-- random. To get an artifact, shards are downloaded, unmasked, validated against the digests that
-- each of them carries, and joined. Files are modelled by their bytes (lists of natural numbers
-- below 256), C's error returns and its undefined behaviour by values. Sizes of 2 ^ 31 and more,
-- which overflow an `int` of the sources, are outside of the models: a theorem says so where it
-- needs it.
--
-- The parts, and the code that each is about:
--   Base64   artifact-manager-plugin/src/util/base64.cpp: base64_encode, base64_decode.
--            Masks has the arithmetic of the bit masks, RoundTrip and Shape the theorems.
--   Header   artifact-manager-plugin/src/util/rs_shard.cpp: randomize_header, unrandomize_header.
--            Mask describes the stream of hashes without its buffer, RoundTrip has the theorems.
--   Shards   artifact-manager-plugin/src/util/rs_shard.cpp: rs_shard_meta and rs_shard_fd
--            (Shards.Write, whose theorems are in Write.Layout), the metadata text that they write
--            (Shards.Meta, Meta.Page), rs_shard_file (Shards.Files), validate_shards (Shards.Validate),
--            rs_unshard_fd (Shards.Unshard, whose main theorems are in Unshard.Recover) and
--            rs_unshard_file (Shards.Reopen).
--   Secretbox
--            artifact-manager-plugin/src/util/crypto_secretbox.cpp: encryption and decryption of a
--            file, with the loop around fwrite. Secretbox.RoundTrip has the theorems.
--   Pipeline artifact-manager-plugin/src/shard.cpp: shard_file, unshard_fd and unshard_file, which
--            call the parts above. Pipeline.Finish and Pipeline.Split are about their loops,
--            Pipeline.Present about the shards on the disk, Pipeline.Stored about what is stored,
--            Pipeline.RoundTrip has the theorems. Pipeline.Wrap is about the four functions of
--            shard.cpp that make one call on files with names.
--   Registry registry-client/src/db/registryDatabase.cpp: storeShardEntry, shardExists, getShardData
--            (theorems in Registry.Laws), tryCreateTable with registry-client/src/db/schema
--            (Registry.Schema, Registry.Schema.Create), and registry-client/src/http/httpServer.cpp:
--            handleClient and httpRespond (Registry.Http, Registry.Http.Respond), and the threads of
--            run, kill and closeServerThread (Registry.Threads: Handles, Invariant, Shutdown, Deadlock);
--            registry-client/src/http/request.cpp: readRequest (Registry.Request, Request.Buffer and Cuts);
--            registry-client/src/race/createPidFile.cpp (Registry.Pid, Pid.Exclusive).
--   Download artifact-manager-plugin/src/download.cpp: download, download_with_retry and
--            download_with_retry_hardcoded, on files in memory that
--            artifact-manager-plugin/src/util/file_descriptor.cpp makes (Download.Retry), and
--            download_and_unshard (Download.Unshard, with Unshard.RoundTrip and Unshard.Failed), which
--            calls them and unshard_fd.
--   Slothy   artifact-manager-plugin/src/slothy.cpp: download_artifact, which joins the shards of the
--            metadata, decodes its key and nonce, and downloads, unmasks and decrypts the artifact
--            (Slothy.Retrieve); get_artifact_registry_info of
--            artifact-manager-plugin/src/interfaces/http/slothy-http.cpp (Slothy.Http).
--   Race     the network RACE, over which the plugin asks the registry:
--            Race.Message   registry-client/src/race/message/Message.cpp, createMessage, and the
--                           random texts of registry-client/src/race/RaceUtil.cpp; the plugin has
--                           copies in artifact-manager-plugin/src/interfaces/race.
--            Race.Answer    get_artifact_registry_info up to its wait in
--                           artifact-manager-plugin/src/interfaces/race/slothy-race.cpp, sendMessage
--                           of RaceInterface.cpp beside it, and handleRegistryMessage of
--                           registry-client/src/race/RaceInterface.cpp, which asks the database of
--                           the part Registry (Answer.Exchange).
--            Race.Await     awaitMessageWithHeader and handleReceivedMessage of the plugin's
--                           RaceInterface.cpp, and their copy in interfaces/amp/slothy-amp.cpp: one
--                           pass over the queue (Await.Scan, Passes and Ends), and the thread that
--                           waits as a step relation (Await.Wakeup, Waiting and Unanswered).
--            Race.Lookup    get_artifact_registry_info as a whole: the request, the registry's answer
--                           and the wait for it.
--            Race.Send      parseAndSendMessage and sendPeriodically of
--                           registry-client/src/race/RaceInterface.cpp (Send.Schedule).
--            Race.Signature testIdFromClrMsg and getMessageSignature of RaceUtil.cpp (Signature.Id).
--            Race.App       registry-client/src/race/client/RaceApp.cpp with the cache and the parser
--                           of responses beside it (App.Answers, App.Status).
--   Monitor  artifact-manager-plugin/src/util/logger.cpp (Monitor.Log) and profiler.cpp
--            (Monitor.Timing).
--   Common   what the parts share: lists, Boolean tests, the casts of C, malloc and memcpy with the
--            bounds of the blocks, and %d of printf and scanf.
--
-- Code outside of the repository is a parameter: OpenSSL's SHA-256, SHA-1 and MD5 (records of their
-- init, update and final calls, whose law is the length of a digest), Jerasure (Vandermonde
-- matrix and matrix encoding, whose law is the number and the size of the coding devices, with
-- the form of its first column as a hypothesis; and a decoder that restores the data devices when
-- no more than as many devices are erased as there are coding devices), malloc (blocks of the
-- length asked for with any content), the bytes of RAND_bytes, NaCl (secretbox and its opening),
-- sss (making and combining the shares of a secret), SQLite (the statements on the table
-- REGISTRY, with the laws of its primary key) and nlohmann's JSON (a record of the members and
-- conversions of a value, with the laws of objects that were just written); what libcurl reports of
-- a try is an argument. Each property that has such a parameter is applied to a concrete one in
-- the Tests file of its part.
--
-- Loops are by recursion on what is left of their input or on the number of rounds. Three loops
-- have no such measure. The loop around fwrite, `write_loop`, takes its fuel as an argument: one
-- round more than there are bytes is enough, if each call takes a byte. The padding of the
-- metadata to 1024 bytes, `pad_meta`, has fuel for 1025 rounds, each of which adds a byte to a
-- text of at most 88. The pass over the queue of responses, `pass`, has fuel for one round more than
-- there are entries, each of which goes on by one entry or removes one.
--
-- Not modelled: failing reads, writes and allocations after a file has been opened, tracing,
-- the set-up of the RACE SDK and of the registry's process, the SSL sessions of the
-- registry's HTTP server, and the copies of other libraries in the repository (Shamir shares of
-- util/sss.c and util/hazmat.c, headers).
pub mod Common
pub mod Base64
pub mod Header
pub mod Shards
pub mod Secretbox
pub mod Pipeline
pub mod Download
pub mod Slothy
pub mod Race
pub mod Monitor
pub mod Registry
