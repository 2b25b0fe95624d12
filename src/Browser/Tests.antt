-- ===== src/Browser/Tests.antt =====
-- Runs of the browser's parsers of src/apps/browser.c on small texts.
use project_orange_tea.Base.{
  ℕ, ◌+◌, ◌*◌, ◌<◌, ◌≡◌, refl, Option, none, some, List, [], ◌∷◌, ◌++◌, take, length, codes,
  replicate, length-replicate, arith,
}
use project_orange_tea.Browser.Url.{parse_url, resolve_relative_url}
use project_orange_tea.Browser.Url.RoundTrip.{
  IsUrl, url_text, url_of, parse_url-resolve_relative_url,
}
use project_orange_tea.Browser.Http.{ok, no_headers, parse_http_response}
use project_orange_tea.Browser.Http.Body.{dos}
use project_orange_tea.Browser.Http.Reading.{
  IsHead, response_text, parse_http_response-response_text,
}
use project_orange_tea.Browser.Html.{
  max_nodes, Node, blank_node, Document, parse_html_document, parse_rounds, start_document,
}
use project_orange_tea.Browser.Html.Parsing.{Gives, parse_html_document-IsTree}
use project_orange_tea.Browser.Html.Rounds.{parse_rounds_enough}

abbrev host : List ℕ
host = codes "orange.tea"

abbrev path : List ℕ
path = codes "/docs/a.html"

secure_page-IsUrl : IsUrl (codes "HTTPS") host path
secure_page-IsUrl = record {
  scheme_fits = omega arith;
  host_fits = omega arith;
  host_some = omega arith;
  path_fits = omega arith;
  scheme_plain = refl;
  host_plain = refl;
  path_rooted = refl;
}

parse_url-resolve_relative_url_example :
    parse_url (resolve_relative_url (url_text (codes "HTTPS") host path) (codes "/b") 256)
    ≡ some (url_of (codes "HTTPS") host (codes "/b"))
parse_url-resolve_relative_url_example =
    parse_url-resolve_relative_url (codes "HTTPS") host path (codes "/b") secure_page-IsUrl 256 refl
      (omega arith) (omega arith)

-- With a port, the path is lost.
port_path :
    parse_url (codes "http://a:81/b")
    ≡ some (record { scheme = codes "http"; host = codes "a"; path = codes "/"; port = 81 })
unfolding parse_url project_orange_tea.Base.first_where project_orange_tea.Storage.Bytes.equal
port_path = refl

climbing :
    resolve_relative_url (codes "http://a/b/c/d.html") (codes "../e") 64 ≡ codes "http://a/b/e"
unfolding resolve_relative_url project_orange_tea.Base.first_where
    project_orange_tea.Storage.Bytes.equal
climbing = refl

abbrev headers : List ℕ
headers = codes "Content-Type: text/html"

abbrev body : List ℕ
body = codes "<p>tea</p>"

no_content-IsHead : IsHead (codes "1.1") 2 0 4 (codes " None\r") headers (codes "\r\n\r\n" ++ body)
no_content-IsHead = record {
  version_short = omega arith;
  version_plain = refl;
  digits = (omega arith, omega arith, omega arith);
  one_line = refl;
  no_break = refl;
}

abbrev response : List ℕ
response = response_text (codes "1.1") 2 0 4 (codes " None\r") headers (codes "\r\n\r\n" ++ body)

parse_http_response-response_text_example :
    ((parse_http_response response).0 ≡ ok)
    × ((parse_http_response response).1.status_code ≡ 2 * 100 + 0 * 10 + 4)
    × ((parse_http_response response).1.body ≡ take 2047 body)
parse_http_response-response_text_example =
    parse_http_response-response_text (codes "1.1") 2 0 4 (codes " None\r") headers dos body
      no_content-IsHead

-- no header at all
bare_response : (parse_http_response (codes "HTTP/1.1 200 OK\r\n\r\nbody")).0 ≡ no_headers
unfolding parse_http_response
bare_response = refl

abbrev nodes : List Node
nodes = replicate 128 blank_node

abbrev html : List ℕ
html = codes "<P><a href='/b'>x</a>"

parse_html_document-IsTree_example : Gives (parse_html_document nodes html)
parse_html_document-IsTree_example =
    parse_html_document-IsTree nodes html (length-replicate 128 blank_node)

parse_rounds_enough_example :
    (e : Document) × (parse_rounds (length html) (start_document nodes) html ≡ some e)
    × (parse_rounds 40 (start_document nodes) html ≡ some e)
parse_rounds_enough_example = parse_rounds_enough 40 (start_document nodes) html (omega arith)

-- four nodes: the document, the paragraph, the link and its text, and the paragraph is current
abbrev current_of : Option Document → Option ℕ
current_of none = none
current_of (some d) = some d.current

parsed_page : current_of (parse_html_document nodes html) ≡ some 1
unfolding parse_html_document project_orange_tea.Browser.Html.Tag.parse_tag
parsed_page = refl
