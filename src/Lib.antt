-- ===== src/Lib.antt =====
-- gosnowflake: the Go driver for Snowflake, modelled part by part.
--
-- Dsn models dsn.go and `determineAuthenticatorType` of auth.go: `parse_dsn` is `ParseDSN`, over a
-- `Config` of the fields that a DSN can set; `parse_dsn_params` is the switch on the parameters as
-- three tables, `fill_missing_config_parameters` the defaults and the checks.
-- Chunk models chunk.go: `Decoder` is `largeChunkDecoder` with its cursor and buffer, and
-- `decode_large_chunk` decodes a result chunk from a reader, a list of what its reads give.
-- Retry models retry.go: `step` is a round of the loop of `retryHTTP.execute`, on a `Loop` of its
-- variables; what the server, the random source and the context do is a list of `Round`s.
-- ContextCache models htap.go: `Cache` is the slice of `queryContextCache`, `add_one` a round of
-- the loop of `add`, `prune` and `add` the methods. BindUploader models bind_uploader.go and
-- `escapeForCSV` of util.go: `build_rows_as_bytes`, `create_csv_record`, `upload` are the methods of
-- `bindUploader`, with the server behind `exec`. Base holds the numbers, lists, integers and
-- byte strings that the parts share.
--
-- Downloader models chunk_downloader.go: `Downloader` is `snowflakeChunkDownloader`, and `act` a step
-- of the thread in `next` or the end of a download; `run` follows a sequence of them. Storage models
-- storage_client.go: `upload_one_file_with_retry` and `download_one_file` are the methods of
-- `remoteStorageUtil`, over a record of the calls of `cloudUtil`.
--
-- Encryption models encrypt_util.go: `encrypt_stream_cbc` and `decrypt_stream_cbc` with the file key
-- in ECB mode, over a `Library` of the Go library's base64, AES and CBC; the bytes read are their fuel.
--
-- Transfer models the uploads one after the other of file_transfer_agent.go, over Storage, and Rows
-- models rows.go: `Rows` is `snowflakeRows` with its chain of downloaders in a heap. Statement models
-- multistatement.go and transaction.go: `handle_multi_exec` and `handle_multi_query` over the
-- server's replies, the latter building a chain of Rows. LocalStorage models the upload of
-- local_storage_client.go, and Uuid models uuid.go.
--
-- Loops are structural recursions. `upload_loop` takes the number of rows as fuel, as every file
-- takes a row; the loops of the chunk decoder take fuel above the length of the text, as every round
-- reads a byte; the rounds given to `execute_loop` are its fuel, and one more than the number of
-- retries is enough. The rounds of Storage count down from the source's limits, and the number of
-- files is enough fuel for `upload_files_sequential`. Transfers that run beside each other, the
-- clients of the clouds, Arrow, converter.go and the HTTP calls are not modelled. What the Go library or the server does is an argument of the definitions: the
-- sort of htap.go, `strconv.Atoi`, `exec`, and the `Library` of a DSN (`url.QueryUnescape`,
-- `url.Parse`, base64, PKCS8). Case folding and white space are those of ASCII. Locks, logging and telemetry are
-- left out, and so are the wait of a login request, which is computed with floating point numbers
-- and is an argument, and what converter.go makes of a bound value: a column is given as the strings
-- that it becomes. A chunk's size hints only size slices, and are left out.
pub mod Base
pub mod ContextCache
pub mod BindUploader
pub mod Chunk
pub mod Dsn
pub mod Retry
pub mod Storage
pub mod Encryption
pub mod Downloader
pub mod Transfer
pub mod Rows
pub mod Statement
pub mod LocalStorage
pub mod Uuid
