-- ===== src/Lib.antt =====
-- Verification of xhttp, a Go library of composable HTTP handlers: handlers that are linked into
-- chains, a multiplexer over paths and verbs, client- and server-side sessions, and the handlers for
-- Cross-Origin requests, roles, dynamic links, compression, form uploads, server-sent events, logins
-- by OAuth and a few smaller ones.
--
-- A handler is a function from an exchange (the request and the response so far) to an outcome: it
-- returns or panics, in both cases with the exchange as it left it. A handler that is linked takes the
-- next one as an optional argument. What a method changes behind a pointer or in a map is returned.
--
--   Prelude           numbers, lists, texts (strings, strconv), integers, maps with string keys
--   Http, Context     net/http and context as the handlers see them
--   Linker            handler.go, and Chain and handlerchain of multiplexer.go. Linker is
--                     handlerlinker; chain, chain_link and chain_serve are Chain and the methods Link
--                     and ServeHTTP of a chain, whose slice is a list that Link returns as it has
--                     written it. Linker/Race has two requests at one slice, whose reads and
--                     writes of its elements interleave.
--   Mux               multiplexer.go: Verbs has transformableHandler and httpVerbFunctions, Register
--                     has NewServeMux, muxCheck, GET to TRACE and USE, Route and Dispatch have
--                     ServeMux.ServeHTTP, PathMatch has patternMatch. The map of routes is a list in
--                     the order of the loop over it; Mux/Longest is about any order.
--   Session           handlers/session: Value, Cookie and Codec are sessioncookie.go; Action, Handler
--                     and Load are session.go. A method of the handler is an action on the cookie, the
--                     parent's cookie, the back ends and the response, which returns a value, an error
--                     or a panic. Setup has New, the options, Spawn and Enforcer. Memory is the
--                     specification of the cookie, a map from keys to values with deadlines.
--   Cors              handlers/cors/cors.go: Sets, Serve and Preflight.
--   Rbac              handlers/rbac/rbac.go
--   Csrf              handlers/csrf/csrf.go, over the session handler; Csrf/Setup has NewHandler,
--                     CtxToken and the random token.
--   Oauth             handlers/oauth2/oauth2.go; Oauth/Google is handlers/3rdpartylogin/google.go
--   Sse               handlers/sse/handler.go: the messages, and a step relation for the requests, the
--                     goroutines that they start, and the calls of Send and Broadcast.
--   Upload            handlers/chunkedupload: Sets, Form, Parts, Parse, Files and Serve are handler.go;
--                     Chunked, Initializer and Setup are chunked.go. ParseUpload runs on the form, the
--                     rollbacks and the session, and goes on, returns or panics. Its two loops stand in
--                     Parse for both handlers, with the body of the inner one as an argument. Disk is
--                     handlers/chunkedupload/disk/function.go.
--   Dynamux           handlers/dynamux/link.go
--   Gzip              handlers/compression/gzip.go
--   Filters           handlers/hsts, handlers/stripprefix, handlers/https, handlers/panic
--
-- Parameters. net/http's ServeMux (NetMux), JSON, base64, HMAC and the text of a cookie (Codec, with
-- the laws IsCodec), the stores and caches of sessions (Store and Cache, over a state of their own; with
-- the laws IsStore where a store must keep what is put into it with a lifetime that is not negative),
-- the generators of session ids and of tokens, http.Redirect, the compressing writer and the checks of
-- roles; mime, mime/multipart and bufio (Media, with the parts of a request as a Stream), the upload
-- functions and validators of a form, and the comparison of errors (Errors); the OAuth client
-- (Provider), jwt and the query of users (Google), the bottleneck service (Bottleneck), and the file
-- system (Os, with the laws IsOs).
--
-- Conventions. All loops run over lists, so that no fuel is needed except for the digits of a number,
-- where the number itself is the fuel. The clock is an argument: one operation sees one instant.
-- Instants and durations are integers in nanoseconds without overflow, and time.Duration(MaxAge) is the
-- bare number, as in Go. A text stands for a Go string, whose bytes need not be UTF-8; what JSON does
-- with it is assumed for valid UTF-8 only. Header keys are in canonical form; changes of case are those of ASCII. A nil
-- pointer, an index out of range and an explicit panic are values. A request that is given another
-- context inside a method keeps its old one outside.
--
-- The loop over the fields has the number of its rounds as an argument, and the loop over the parts
-- goes by the stream.
--
-- Not modelled: logging; handlers/content, handlers/fileserve, handlers/maxreqsize and
-- handlers/database, which only call other packages, and handlers/chunkedupload/s3, which has no code.
pub mod Prelude
pub mod Context
pub mod Http
pub mod Linker
pub mod Mux
pub mod Session
pub mod Cors
pub mod Filters
pub mod Gzip
pub mod Dynamux
pub mod Rbac
pub mod Csrf
pub mod Upload
pub mod Sse
pub mod Oauth
