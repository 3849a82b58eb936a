-- ===== src/Server/Http.antt =====
-- What the handlers see of net/http: a request, and the writer of a response. `form` is what ParseForm
-- makes of the request, or its error; `decoded` is what encoding/json reads from the body into a
-- request with the field `hostname`.
use front_basicrum_go.Base.{ℕ, Bytes, [], ◌∷◌, ◌++◌, Option, none, some, codes}
use front_basicrum_go.Base.Assoc.{insert}
use front_basicrum_go.Values.{Values}
use front_basicrum_go.Types.{Header}

pub data Decoded : Type 0 where
  invalid : Bytes → Decoded
  null_value : Decoded
  object : Bytes → Decoded

pub record Request : Type 0 where
  pub method : Bytes
  pub header : Header
  pub remote_addr : Bytes
  pub user_agent : Bytes
  pub form : Option Values
  pub decoded : Decoded

pub record Writer : Type 0 where
  pub header : Header
  pub status : Option ℕ
  pub body : Bytes

abbrev pub fresh : Writer
fresh = record { header = []; status = none; body = [] }

abbrev pub set_header : Bytes → Bytes → Writer → Writer
set_header k v w = record w { header = insert k v w.header }

first_status : Option ℕ → ℕ → Option ℕ
first_status none code = some code
first_status (some c) code = some c

-- Only the first status counts.
unfoldable pub write_header : ℕ → Writer → Writer
unfolding first_status
write_header code w = record w { status = first_status w.status code }

-- `Write` sends 200 if no status was sent.
unfoldable pub write : Bytes → Writer → Writer
unfolding write_header
write s w = let w' = write_header 200 w in record w' { body = w'.body ++ s }

-- `http.Error`
unfoldable pub http_error : Bytes → ℕ → Writer → Writer
unfolding write
http_error text code w = write (text ++ 10 ∷ []) (
    write_header code (
      set_header (codes "X-Content-Type-Options") (codes "nosniff")
        (set_header (codes "Content-Type") (codes "text/plain; charset=utf-8") w)))
