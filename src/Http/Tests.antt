-- ===== src/Http/Tests.antt =====
-- src/http.c at concrete requests.
use sniproxy.Prelude.{◌≡◌, ◌<◌, refl, true, [], ◌∷◌, codes, length, arith}
use sniproxy.Parse.{ok, fail, fault, strncpy}
use sniproxy.Parse.Ensures.{Ensures}
use sniproxy.Http.{
  trim_port, parse_http_header, get_header_round, next_header, skip_line, header_end,
}
use sniproxy.Http.Port.{NamesHost, with_port, trim_port-NamesHost}
use sniproxy.Http.RoundTrip.{Request, request, IsWellFormed, parse_http_header-host}
use sniproxy.Http.Safe.{parse_http_header-Ensures}

run_host :
    parse_http_header (codes "GET / HTTP/1.1\r\nA: b\r\nhost: \texample.com:80\r\n\r\n") true true
    ≡ ok (codes "example.com")
unfolding parse_http_header strncpy
run_host = refl

-- A request that is cut inside of the line with the name.
run_cut : parse_http_header (codes "GET / HTTP/1.1\r\nHost: exam") true true ≡ ok (codes "exa")
unfolding parse_http_header strncpy
run_cut = refl

run_none : parse_http_header (codes "GET / HTTP/1.1\r\nA: b\r\n\r\n") true true ≡ fail 2
unfolding parse_http_header strncpy
run_none = refl

run_more : parse_http_header (codes "GET / HTTP/1.1\r\nA: b\r\n") true true ≡ fail 1
unfolding parse_http_header strncpy
run_more = refl

-- The read behind a request of a single byte.
run_one_byte : parse_http_header (codes "G") true true ≡ fault
unfolding parse_http_header get_header_round next_header skip_line header_end
run_one_byte = refl

abbrev get : Request
get = record {
  request_line = codes "GET / HTTP/1.1";
  before = codes "A: b" ∷ [];
  label = codes "host:";
  blanks = codes " ";
  value = codes "b.example:80";
  after = codes "\r\n";
}

get-IsWellFormed : IsWellFormed get
get-IsWellFormed = record {
  line_ok = ground arith;
  others = ((ground arith, omega arith, refl), tt);
  host_ok = ground arith;
  label_len = refl;
  label_is = refl;
  blanks_ok = (refl, tt);
  value_starts = refl;
  no_nul = ground arith;
  not_empty = omega arith;
}

names_host : NamesHost (codes "b.example:80") (codes "b.example")
names_host = with_port (codes "80") (refl, (refl, tt)) refl

trim_port-NamesHost_example : trim_port 12 (codes "b.example:80") ≡ ok 9
trim_port-NamesHost_example = trim_port-NamesHost names_host

parse_http_header-host_example : parse_http_header (request get) true true ≡ ok (codes "b.example")
parse_http_header-host_example =
    parse_http_header-host get (codes "b.example") get-IsWellFormed names_host (omega arith)

parse_http_header-Ensures_example :
    Ensures 4 (λ name. length name < 3) (parse_http_header (codes "GET") true true)
parse_http_header-Ensures_example =
    parse_http_header-Ensures (codes "GET") true true (omega arith) (omega arith)
