-- ===== src/Examples/Headers.antt =====
-- Header maps as lists, and requests that are forwarded.
use open_functions.Prelude.{
  ℕ, Bytes, codes, none, some, List, [], ◌∷◌, ◌++◌, ◌=?◌, list_Eq, ℕ_Eq, list_eq_iff, ◌≡◌, refl,
  if◌then◌else◌, arith, ◌||◌,
}
use open_functions.Forward.{
  HttpHeaders, IsLawful, RequestRewriteContext, strip_hop_by_hop, rewrite_request_headers,
  execution_id_header, forwarded_for, forwarded_proto, hop_by_hop_headers, dynamic, names_of_tokens,
  split, trim, remove_each, appended, rewrite_response_headers,
}
use open_functions.Forward.Stripped.{mem, get_all-strip_hop_by_hop}
use open_functions.Forward.Rewritten.{get_all-rewrite_request_headers}
use open_functions.Forward.Proxy.{Http, Request, Response, answered, Client, forward}
use open_functions.Forward.Proxy.Outcomes.{Exchange, forward-Exchange}

abbrev pub Pairs : Type 0
Pairs = List (Bytes × Bytes)

unfoldable pub values_of : Bytes → Pairs → List Bytes
values_of n [] = []
values_of n ((m, v) ∷ hs) = let rest = values_of n hs in if n =? m then v ∷ rest else rest

unfoldable pub without : Bytes → Pairs → Pairs
without n [] = []
without n ((m, v) ∷ hs) = let rest = without n hs in if n =? m then rest else (m, v) ∷ rest

values_of-without :
    (n m : Bytes) (hs : Pairs)
    → values_of n (without m hs) ≡ (if n =? m then [] else values_of n hs)
unfolding values_of without
values_of-without n m [] = ground arith
values_of-without n m ((k, v) ∷ hs) =
    ground (arith, values_of-without n m hs, list_eq_iff n m, list_eq_iff m k, list_eq_iff n k)

values_of-replaced :
    (n m v : Bytes) (hs : Pairs)
    → values_of n ((m, v) ∷ without m hs) ≡ (if n =? m then v ∷ [] else values_of n hs)
unfolding values_of
values_of-replaced n m v hs = ground (arith, values_of-without n m hs)

abbrev pub header_lists : HttpHeaders
header_lists = record {
  HeaderMap = Pairs;
  HeaderValue = Bytes;
  get_all = values_of;
  remove = without;
  insert = λ n v hs. (n, v) ∷ without n hs;
  text = some;
  value = some;
  name = some;
}

pub header_lists-IsLawful : IsLawful header_lists
header_lists-IsLawful = record {
  get_all-remove = values_of-without;
  get_all-insert = values_of-replaced;
}

abbrev sent_headers : Pairs
sent_headers =
    (codes "connection", codes "close, x-trace")
    ∷ (codes "x-trace", codes "7")
    ∷ (codes "accept", codes "text/html")
    ∷ (codes "x-forwarded-for", codes "10.0.0.2")
    ∷ []

get_all-strip_hop_by_hop_example :
    values_of (codes "x-trace") (strip_hop_by_hop header_lists sent_headers) ≡ (
      if mem (codes "x-trace") hop_by_hop_headers
        || mem
            (codes "x-trace")
            (dynamic header_lists (values_of (codes "connection") sent_headers))
      then []
      else values_of (codes "x-trace") sent_headers)
get_all-strip_hop_by_hop_example =
    get_all-strip_hop_by_hop header_lists header_lists-IsLawful (codes "x-trace") sent_headers

trace_is_named :
    dynamic header_lists (values_of (codes "connection") sent_headers)
    ≡ codes "close" ∷ codes "x-trace" ∷ []
unfolding dynamic names_of_tokens split trim values_of
trace_is_named = refl

abbrev context : RequestRewriteContext
context = record {
  execution_id = codes "e1";
  client_addr = codes "10.0.0.7";
  proto = codes "http";
  original_host = some (codes "localhost");
}

abbrev rewritten : Pairs
rewritten = rewrite_request_headers header_lists context sent_headers

get_all-rewrite_request_headers_example :
    (values_of execution_id_header rewritten ≡ codes "e1" ∷ [])
    × (values_of forwarded_for rewritten ≡ codes "10.0.0.2, 10.0.0.7" ∷ [])
    × (values_of forwarded_proto rewritten ≡ codes "http" ∷ [])
    × (values_of (codes "accept") rewritten
        ≡ values_of (codes "accept") (strip_hop_by_hop header_lists sent_headers))
unfolding strip_hop_by_hop remove_each dynamic names_of_tokens split trim values_of without appended
get_all-rewrite_request_headers_example =
    get_all-rewrite_request_headers header_lists header_lists-IsLawful context sent_headers
      (codes "e1") (codes "10.0.0.2, 10.0.0.7") (codes "http") (codes "accept") refl refl refl refl

-- Addresses, paths and URIs are texts here, and a body is a text.
abbrev pub http : Http
http = record {
  headers = header_lists;
  Uri = Bytes;
  Body = Bytes;
  path = λ uri. uri;
  query = λ uri. none;
  path_and_query = some;
  http_uri = λ authority path. some (authority ++ path);
  with_path_and_query = λ path uri. some path;
  show_addr = λ a. codes "127.0.0.1:" ++ a ∷ [];
}

-- An instance that answers with the headers that it gets.
abbrev pub echo : Client http
echo = record {
  State = ℕ;
  request = λ limit req s.
      (s, answered (record { status = 200; headers = req.headers; body = codes "hello" }));
}

abbrev pub request : Request http
request = record {
  method = codes "GET";
  uri = codes "/";
  headers = (codes "host", codes "greeter.fn.localhost") ∷ sent_headers;
  body = [];
}

abbrev returned : Response http
returned = record {
  status = 200;
  headers =
      rewrite_response_headers header_lists (codes "e1")
        (rewrite_request_headers header_lists context request.headers);
  body = codes "hello";
}

forward-Exchange_example : Exchange http echo request 1000 (codes "e1") returned 3 3
unfolding forward
forward-Exchange_example =
    forward-Exchange http echo header_lists-IsLawful 9000 request context 1000 (codes "e1") returned
      3 3 refl refl
