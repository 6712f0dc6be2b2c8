-- ===== src/ProxyRequest.antt =====
-- Lab6/proxy.c: what a thread of the proxy does for a client: `proxy`, `sendRequest`, `forward` and
-- `clienterror`. The sockets are lists: of the lines and chunks that are read, and of the texts that are
-- handed to `rio_writen`. The HTTP parser, of which the repository has only `http_parser.h`, is a parameter.
pub mod Path
pub mod Headers
pub mod Forward
pub mod Serve
use model_lib.Prelude.{
  ℕ, zero, suc, ◌+◌, ◌*◌, Bool, true, false, not, ◌&&◌, ◌||◌, Option, none, some, List, [], ◌∷◌,
  ◌++◌, ltb, leb, ◌==◌, if◌then◌else◌, length, take, bytes,
}
use model_lib.Prelude.Int.{ℤ, pos, negsuc}
use model_lib.Parse.{Text, same_text}
use model_lib.ProxyCache.Add.{max_object_size}
use model_lib.ProxyCache.{
  Cache, Run, ok, fault, out_of_fuel, ◌>>=◌, load, cache_find, cache_add, replace_tail,
}

abbrev pub crlf : Text
crlf = b'\r' ∷ b'\n' ∷ []

-- The loop of `sendRequest` over the URI, after `cnt` slashes.
unfoldable pub skip_host : ℕ → Text → Text
skip_host cnt [] = []
skip_host cnt (c ∷ s) =
    let past = skip_host (cnt + 1) s in
    let within = skip_host cnt s in
    if c == b'/' then if ltb 2 (cnt + 1) then c ∷ s else past else within

unfoldable pub request_line : Text → Text
request_line uri = bytes "GET " ++ skip_host 0 uri ++ bytes " HTTP/1.0\r\n"

abbrev pub header_user_agent : Text
header_user_agent = bytes "Mozilla/5.0 (X11; Linux x86_64; rv:3.10.0) Gecko/20191101 Firefox/63.0.1"

abbrev pub user_agent_hdr : Text
user_agent_hdr = bytes "User-Agent: " ++ header_user_agent ++ crlf

abbrev pub connection_hdr : Text
connection_hdr = bytes "Connection: close\r\n"

abbrev pub proxy_connection_hdr : Text
proxy_connection_hdr = bytes "Proxy-Connection: close\r\n"

-- `header_t`
pub record Header : Type 0 where
  pub name : Text
  pub value : Text

-- `parser_state`
pub data ParserState : Type 0 where
  request header failed : ParserState

-- The parser: `next_headers` gives the headers that `parser_retrieve_next_header` returns until it
-- returns NULL.
pub record Parser {ℓ} (P : Type ℓ) : Type ℓ where
  pub parse_line : P → Text → P × ParserState
  pub next_headers : P → List Header × P

-- The server's end: what `open_clientfd` gives, whether it was refused, and whether the second write meets a
-- broken pipe.
pub record Server : Type 0 where
  pub fd : ℤ
  pub refused : Bool
  pub broken : Bool

pub data Ending : Type 0 where
  returned : ℤ → Ending
  exited : Ending

-- The headers that the proxy has sent itself.
abbrev pub is_own : Text → Bool
is_own name =
    same_text name (bytes "User-Agent")
    || same_text name (bytes "Connection")
    || same_text name (bytes "Proxy-Connection")

-- `sprintf(hdr_str, "%s: %s\r\n", ...)`
abbrev pub header_line : Header → Text
header_line h = h.name ++ bytes ": " ++ h.value ++ crlf

-- What stands in `hdr_str` behind the text that `sprintf` writes and its NUL, by the lines and by the headers of the
-- line that are still to come.
abbrev pub Leftover : Type 0
Leftover = List Text → List Header → Text

-- `rio_writen(serverfd, hdr_str, n)`: behind the text and its NUL stand the bytes `stale`.
abbrev pub written : ℕ → Text → Header → Text
written n stale h = take n (header_line h ++ 0 ∷ stale)

-- The inner loop, over the headers of a line of `n` bytes.
unfoldable pub send_each : ℕ → (List Header → Text) → List Header → List Text
send_each n stale [] = []
send_each n stale (h ∷ hs) =
    let rest = send_each n stale hs in if is_own h.name then rest else written n (stale hs) h ∷ rest

-- A round of the loop over the lines of the request: `skipped` is the rest after a line that is not parsed, and
-- `later` the rest after the headers of the line.
unfoldable pub line_round :
    ℕ
    → (List Header → Text)
    → ℤ
    → ParserState
    → List Header
    → (skipped later : List Text × Ending) → List Text × Ending
line_round n stale fd failed hs skipped later = skipped
line_round n stale fd request hs skipped later = ([], exited)
line_round n stale fd header [] skipped later = (crlf ∷ [], returned fd)
line_round n stale fd header (h ∷ hs) skipped later =
    (send_each n stale (h ∷ hs) ++ later.0, later.1)

unfoldable pub send_headers {ℓ} :
    {P : Type ℓ} → Parser P → Leftover → ℤ → List Text → P → List Text × Ending
send_headers parser stale fd [] p = ([], returned (negsuc 0))
send_headers parser stale fd (line ∷ lines) p =
    let (p', state) = parser.parse_line p line in
    let (hs, p'') = parser.next_headers p' in
    line_round (length line) (stale lines) fd state hs (send_headers parser stale fd lines p')
      (send_headers parser stale fd lines p'')

-- The texts that are sent to the server, and the descriptor that is returned.
unfoldable pub send_request {ℓ} :
    {P : Type ℓ} → Parser P → Leftover → Server → Text → List Text → P → List Text × Ending
send_request parser stale server uri lines p =
    let (texts, end) = send_headers parser stale server.fd lines p in
    let unreachable : Bool = elim server.fd [ pos n ↦ false | negsuc n ↦ not server.refused ] in
    if unreachable
    then ([], returned (negsuc 0))
    else if server.broken
    then (request_line uri ∷ user_agent_hdr ∷ [], returned (negsuc 0))
    else (request_line uri ∷ user_agent_hdr ∷ connection_hdr ∷ proxy_connection_hdr ∷ texts, end)

-- What `rio_writen` to the client does with a chunk.
pub data Sent : Type 0 where
  complete incomplete broken_pipe : Sent

abbrev pub is_broken : Sent → Bool
is_broken complete = false
is_broken incomplete = false
is_broken broken_pipe = true

-- What `forward` has written, the contents of its buffer, and `fitsInCache`.
pub record Forwarded : Type 0 where
  pub to_client : List Text
  pub web_obj : Text
  pub fits_in_cache : Bool

-- The loop of `forward`, over the chunks that `rio_readnb` gives until the end or an error.
unfoldable pub forward_loop : List (Text × Sent) → Text → Bool → Forwarded
forward_loop [] obj fits = record { to_client = []; web_obj = obj; fits_in_cache = fits }
forward_loop ((chunk, sent) ∷ chunks) obj fits =
    let too_large = ltb max_object_size (length obj + length chunk) in
    let obj' = if too_large then obj else obj ++ chunk in
    let fits' = if too_large then false else fits in
    let rest = forward_loop chunks obj' fits' in
    if is_broken sent
    then record { to_client = chunk ∷ []; web_obj = obj'; fits_in_cache = fits' }
    else record rest { to_client = chunk ∷ rest.to_client }

-- `malloc` gives the object of `cacheAdd` the address `p`.
unfoldable pub forward : ℕ → ℕ → Text → List (Text × Sent) → Cache → Run (List Text × Cache)
forward fuel p uri chunks c =
    let f = forward_loop chunks [] true in
    if f.fits_in_cache
    then cache_add fuel p uri f.web_obj (length f.web_obj) c >>= (λ c'. ok (f.to_client, c'))
    else ok (f.to_client, c)

-- `clienterror(fd, "not_implemented", "501", "Not Implemented", "")`
abbrev pub not_implemented : List Text
not_implemented =
    bytes "HTTP/1.0 501 Not Implemented\r\n"
    ∷ bytes "Content-type: text/html\r\n"
    ∷ bytes "Content-Length: 15\r\n\r\n"
    ∷ bytes "<html><title>Tiny Error</title>"
    ∷ bytes "<body bgcolor=ffffff>\r\n"
    ∷ bytes "501: Not Implemented\r\n"
    ∷ bytes "<p>: not_implemented\r\n"
    ∷ bytes "<hr><em>The Tiny Web server</em>\r\n"
    ∷ []

-- What the thread has written to the client and to the server, the cache, and whether the client's descriptor
-- has been closed.
pub record Served : Type 0 where
  pub to_client : List Text
  pub to_server : List Text
  pub cache : Cache
  pub closed : Bool

pub data Reply : Type 0 where
  -- `exit(67)`
  ended : Reply
  served : Served → Reply

-- The request of a client, as the parser reads its first line.
pub record Request : Type 0 where
  pub state : ParserState
  pub method : Text
  pub uri : Text

-- A response that the cache has.
unfoldable pub serve_hit : ℕ → ℕ → List Text → Cache → Run Reply
serve_hit fuel obj texts c = load c.cell obj >>= λ o. replace_tail fuel obj c >>= λ c'. ok (
    served (record {
      to_client = texts ++ take o.len o.value ∷ [];
      to_server = [];
      cache = c';
      closed = true;
    }))

-- A response that comes from the server.
unfoldable pub serve_miss :
    ℕ → ℕ → Text → List (Text × Sent) → List Text → List Text × Ending → Cache → Run Reply
serve_miss fuel p uri chunks texts (to_server, exited) c = ok ended
serve_miss fuel p uri chunks texts (to_server, returned (pos (suc n))) c =
    forward fuel p uri chunks c >>= λ f. ok (
      served
        (record { to_client = texts ++ f.0; to_server = to_server; cache = f.1; closed = true }))
serve_miss fuel p uri chunks texts (to_server, returned (pos zero)) c =
    ok (served (record { to_client = texts; to_server = to_server; cache = c; closed = true }))
serve_miss fuel p uri chunks texts (to_server, returned (negsuc n)) c =
    ok (served (record { to_client = texts; to_server = to_server; cache = c; closed = true }))

unfoldable pub proxy {ℓ} :
    {P : Type ℓ}
    → Parser P
    → Leftover
    → Server
    → ℕ
    → ℕ
    → Request
    → List Text
    → P
    → List (Text × Sent)
    → Cache
    → Run Reply
proxy parser stale server fuel p r lines start chunks c =
    let texts = if same_text r.method (bytes "GET") then [] else not_implemented in
    let answer = cache_find fuel c r.uri >>= (λ obj.
      if obj == 0
      then serve_miss fuel p r.uri chunks texts (send_request parser stale server r.uri lines start)
          c
      else serve_hit fuel obj texts c) in
    elim r.state [
      | request ↦ answer
      | _ ↦ ok (served (record { to_client = []; to_server = []; cache = c; closed = false }))
    ]
