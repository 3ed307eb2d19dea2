-- ===== src/Lib.antt =====
-- sniproxy: a proxy that reads the host name out of the first bytes that a client sends, of a TLS
-- client hello or an HTTP request, and forwards the connection to the server configured for that
-- name. Paths are from the root of the repository.
--
-- Buffer (src/buffer.c, src/buffer.h): the ring buffers between client and server. `new_buffer`,
-- `resize`, `recv`, `send`, `read`, `write`, `peek`, `pop`, `push` and `coalesce` are the functions
-- `buffer_*` of the source, on the struct as a record. `contents` is the abstract view: the bytes
-- that are buffered, oldest first.
-- Tls (src/tls.c): `parse_tls_header`, with the two loops over extensions and over names.
-- Tls.Hello lays out a client hello independently of the parser.
-- Http (src/http.c): `parse_http_header`, `get_header` and `next_header`. Http.RoundTrip lays out
-- a request independently of the parser.
-- Connection (src/connection.c): the state of one connection, the close functions and watchers
-- (Connection.Socket), the parser's result (Connection.Request), the resolver's and the connect
-- (Connection.Server), accepting it with its PROXY header (Connection.Accept), and the callback of
-- both watchers (Connection.Callback), which calls the buffers' operations and the parser.
-- Connection.Inv: the invariant of a connection, with what is asked of the lookup and the resolver:
-- socket addresses that fit into `struct sockaddr_storage`, and a query that can be made.
-- Connection.NoQuery: the case where it cannot.
-- Address (src/address.c): the type, its order, the check of a host name, and ports.
-- Lookup (src/backend.c, src/table.c, src/listener.c): the server for a name, with `pcre_exec` as an
-- argument, and with `new_address` and `apply_pattern` likewise; Lookup.Pattern defines the latter.
-- Config (src/cfg_tokenizer.c, src/cfg_parser.c): the tokens of the configuration file, its parser
-- over any grammar, and, in Config.Parser.Layout, the meaning of a file apart from the parser.
-- Tables (src/table.c): the tables by name, their reference counts and `reload_tables`.
-- Listeners (src/listener.c): what the configuration sets in a listener, and the sorted list.
-- Parse: what both parsers share. They return `ok`, a negative code, or `fault`, which stands for a
-- read outside of the memory given.
-- A `size_t` that the source passes on as an `int` is cut to 32 bits: the length of a word's buffer
-- (`as_int`) and the result of `get_header` (`as_result`), where a negative one is an error.
-- Prelude: lists of bytes, arithmetic of `size_t` (modulo 2 ^ 64) and masks.
--
-- Memory from `malloc` and the outcomes of system calls are arguments, so that a failure is a case of
-- every operation. Loops of the parsers run on fuel: one round for each byte of the data and one
-- more, which is enough as each round moves on by at least one byte; so does the loop over the labels
-- of a host name, and so does the loop over the tokens of the configuration.
--
-- Not modelled: logging, the stanzas of the configuration, the sockets of listeners and their reload,
-- the parsing of addresses, name resolution and the start of the program. The connection takes the
-- listener's answer for a name as an argument.
pub mod Prelude
pub mod Parse
pub mod Buffer
pub mod Tls
pub mod Http
pub mod Config
pub mod Connection
pub mod Address
pub mod Lookup
pub mod Tables
pub mod Listeners
