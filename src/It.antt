-- ===== src/It.antt =====
-- it/beacon_sender.go and it/http_sender.go: the sender that posts the lines of a request log again.
-- `scan` gives the lines of a text up to the error of bufio.Scanner, `parse_map` and
-- `parse_header` are json.Unmarshal into a map of texts and of lists of texts.
pub mod Resending
pub mod Archived
mod Tests
use front_basicrum_go.Base.{
  ℕ, ◌==◌, Bytes, List, [], ◌∷◌, ◌++◌, Option, none, some, is_empty, has_prefix, not, eqb, codes,
  if◌then◌else◌,
}
use front_basicrum_go.Base.Assoc.{lookup}
use front_basicrum_go.Base.Outcome.{Outcome, returns, panics, ◌>>=◌}
use front_basicrum_go.Values.{Values, get, set}

pub data Error : Type 0 where
  cannot_glob : Error
  unable_to_read_file : Bytes → Error
  unable_to_parse_json : Bytes → Error
  unable_to_scan_file : Bytes → Error
  parse_headers_error : Values → Error

-- A result, or its error.
pub data Result (A : Type 0) : Type 0 where
  ok : A → Result A
  failed : Error → Result A

-- The loop of makeUrlValues, in the order in which the map is walked.
unfoldable pub set_all : List (Bytes × Bytes) → Values → Values
set_all [] result = result
set_all ((k, v) ∷ rest) result = set_all rest (set result k v)

unfoldable pub make_url_values : List (Bytes × Bytes) → Values
make_url_values beacon_data_map = set_all beacon_data_map []

-- A file that Glob names: its text, or `none` where it cannot be opened.
abbrev pub File : Type 0
File = Bytes × Option Bytes

module _ (scan : Bytes → List Bytes × Option Bytes)
    (parse_map : Bytes → Option (List (Bytes × Bytes))) where
  scan_lines : List Bytes → List Values → Result (List Values)
  scan_lines [] result = ok result
  scan_lines (line ∷ lines) result = elim (parse_map line) [
    | none ↦ failed (unable_to_parse_json line)
    | some m ↦ scan_lines lines (result ++ make_url_values m ∷ [])
  ]

  -- The error of the scanner counts behind the last line.
  scan_end : Bytes → Option Bytes → Result (List Values) → Result (List Values)
  scan_end name e (failed x) = failed x
  scan_end name none (ok items) = ok items
  scan_end name (some e) (ok items) = failed (unable_to_scan_file name)

  unfoldable pub scan_file : File → Result (List Values)
  unfolding scan_lines scan_end
  scan_file (name, none) = failed (unable_to_read_file name)
  scan_file (name, some text) = let (lines, e) = scan text in scan_end name e (scan_lines lines [])

  scan_files : List File → List Values → Result (List Values)
  scan_files [] result = ok result
  scan_files (f ∷ fs) result = elim (scan_file f) [
    | failed e ↦ failed e
    | ok items ↦ scan_files fs (result ++ items)
  ]

  -- `files` is what filepath.Glob finds.
  unfoldable pub read_files : Option (List File) → Result (List Values)
  unfolding scan_files
  read_files none = failed cannot_glob
  read_files (some files) = scan_files files []

-- The element 0 of a slice.
at_zero : Option (List Bytes) → Outcome Bytes
at_zero none = panics
at_zero (some []) = panics
at_zero (some (v ∷ vs)) = returns v

unfoldable pub make_user_agent : Values → Outcome Bytes
unfolding at_zero
make_user_agent headers = elim (lookup (codes "User-Agent") headers) [
  | none ↦ returns []
  | some values ↦ at_zero (some values)
]

unfoldable pub make_country_code : Values → Outcome Bytes
unfolding at_zero
make_country_code headers = at_zero (lookup (codes "Cf-Ipcountry") headers)

unfoldable pub make_city_name : Values → Outcome Bytes
unfolding at_zero
make_city_name headers = at_zero (lookup (codes "Cf-Ipcity") headers)

-- The POST to /beacon/catcher: the parameters are encoded in its body.
pub record Post : Type 0 where
  pub params : Values
  pub user_agent : Bytes
  pub country : Bytes
  pub city : Bytes

-- What the client answers: the status and the body, or `none` for an error of Do or of ReadAll.
abbrev pub Response : Type 0
Response = Option (ℕ × Bytes)

-- doSend: whether the response is the expected one.
unfoldable pub do_send : ℕ → Bytes → Response → Outcome (Unit {0})
do_send status body none = panics
do_send status body (some (s, b)) =
    if s == status then (if eqb b body then returns tt else panics) else panics

unfoldable pub build_url : Bytes → Bytes → Bytes → Bytes
build_url host port path =
    let below =
      if is_empty path then path else if has_prefix (codes "/") path then path else b'/' ∷ path in
    codes "http://" ++ (host ++ b':' ∷ (port ++ below))

abbrev pub request_headers : Bytes
request_headers = codes "request_headers"

module _ (parse_header : Bytes → Option Values) where
  unfoldable pub make_post : Values → Values → Outcome Post
  make_post params headers = do
    agent ← make_user_agent headers
    code ← make_country_code headers
    place ← make_city_name headers
    returns (record { params = params; user_agent = agent; country = code; city = place })

  -- parseHeaders and the request of httpPost; the address of the request is well formed.
  unfoldable pub new_post : Values → Outcome (Result Post)
  new_post params = elim (parse_header (get params request_headers)) [
    | none ↦ returns (failed (parse_headers_error params))
    | some headers ↦ do p ← make_post params headers; returns (ok p)
  ]

-- How Send ends: log.Fatalf ends the process, and so does a panic.
pub data End : Type 0 where
  finished : End
  fatal : Error → End
  panicked : End

module _ (parse_header : Bytes → Option Values) (answer : List Post → Post → Response) where
  -- The end of the loop of Send and the requests that were made, in order.
  unfoldable pub send_values : List Values → List Post → End × List Post
  send_values [] posts = (finished, posts)
  send_values (v ∷ vs) posts = elim (new_post parse_header v) [
    | panics ↦ (panicked, posts)
    | returns (failed e) ↦ (fatal e, posts)
    | returns (ok p) ↦ elim (do_send 204 [] (answer posts p)) [
      | panics ↦ (panicked, posts ++ p ∷ [])
      | returns u ↦ send_values vs (posts ++ p ∷ [])
    ]
  ]

  unfoldable pub send : Result (List Values) → End × List Post
  send (failed e) = (fatal e, [])
  send (ok requests) = send_values requests []
