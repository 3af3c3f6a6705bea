-- ===== src/Http.antt =====
-- The values of the crates `http`, `hyper` and `serde_json` that the program handles, and what
-- those crates do for it, as a record of functions that the model takes as a parameter.
use frl_online_proxy.Prelude.{ℕ, String, Bool, true, Option, none, some, List, leb, ◌&&◌}
use frl_online_proxy.Outcome.{Outcome, ok, err, Report}

-- A sequence of bytes: the UTF-8 of a text, or bytes that are not UTF-8.
pub data Bytes : Type 0 where
  utf8 : String → Bytes
  invalid : List ℕ → Bytes

-- `std::str::from_utf8`
abbrev pub from_utf8 : Bytes → Option String
from_utf8 (utf8 s) = some s
from_utf8 (invalid _) = none

-- A body, or the error with which its transfer breaks off.
pub data Body : Type 0 where
  whole : Bytes → Body
  broken : Report → Body

-- `hyper::body::to_bytes`
abbrev pub to_bytes : Body → Outcome Report Bytes
to_bytes (whole b) = ok b
to_bytes (broken e) = err e

pub data Method : Type 0 where
  post delete : Method
  other : String → Method

abbrev pub is_post : Method → Bool
is_post post = true
is_post _ = Bool.false

abbrev pub is_delete : Method → Bool
is_delete delete = true
is_delete _ = Bool.false

pub record Uri : Type 0 where
  pub scheme : Option String
  pub host : Option String
  pub port : Option String
  pub path : String
  pub text : String

-- A header's value is `none` where `HeaderValue::to_str` fails.
pub record Parts : Type 0 where
  pub method : Method
  pub uri : Uri
  pub headers : List (String × Option String)

-- A request that the proxy sends, with the text of its URI.
pub record HRequest : Type 0 where
  pub method : Method
  pub uri : String
  pub headers : List (String × String)
  pub body : Bytes

pub record HResponse : Type 0 where
  pub status : ℕ
  pub headers : List (String × String)
  pub body : Body

-- `StatusCode::is_success`
abbrev pub is_success : ℕ → Bool
is_success status = leb 200 status && leb status 299

-- `serde_json::Value`; a number is kept by its text.
mutual
  pub data Value : Type 0 where
    null : Value
    bool : Bool → Value
    number : String → Value
    string : String → Value
    array : Items → Value
    object : Fields → Value

  pub data Fields : Type 0 where
    end : Fields
    field : String → Value → Fields → Fields

  pub data Items : Type 0 where
    no_items : Items
    item : Value → Items → Items

-- How a request leaves the proxy: by an HTTP or an HTTPS client, or through an upstream proxy.
pub record Upstream : Type 0 where
  pub url : String
  pub authorization : Option (String × String)

pub data Route : Type 0 where
  plain secure : Route
  upstream : Upstream → Route

-- What comes back: a response, a network error, or nothing before the timeout.
pub data Reply : Type 0 where
  answered : HResponse → Reply
  network_error : Report → Reply
  timed_out : Reply

pub record World : Type 0 where
  -- the text of `cops::agent`
  pub agent : String
  -- `serde_json`: parsing and printing
  pub parse_json : Bytes → Option Value
  pub print_json : Value → String
  -- `http::Uri`: `str::parse`
  pub parse_uri : String → Option Uri
  -- `url::Url`: the decoded query pairs of a text, `none` where it is no URL
  pub query_pairs : String → Option (List (String × String))
  -- whether `http::HeaderValue` accepts a text
  pub valid_header : String → Bool
  -- `hyper_proxy`: the error of the connector, and the headers for a URI
  pub connector_error : Upstream → Option Report
  pub proxy_headers : Upstream → String → List (String × String)
  -- the network
  pub send : Route → HRequest → Reply
