-- ===== src/Cops/Receive/Headers.antt =====
-- Which header field ends up in a request: the last one of its name that is readable text.
use frl_online_proxy.Prelude.{
  String, ◌≡◌, refl, Option, none, some, List, [], ◌∷◌, if◌then◌else◌, ◌==◌, eq_iff, arith,
  Bool-cases, inl, inr,
}
use frl_online_proxy.Outcome.{ok}
use frl_online_proxy.Http.{Parts}
use frl_online_proxy.Cops.{Request}
use frl_online_proxy.Cops.Receive.{take_headers, update_from_headers}

-- The last readable value of a name, and `old` where there is none.
abbrev pub last_header : String → String → List (String × Option String) → String
last_header name old [] = old
last_header name old ((k, none) ∷ hs) = last_header name old hs
last_header name old ((k, some v) ∷ hs) = last_header name (if k == name then v else old) hs

take_headers-last :
    (req : Request) (hs : List (String × Option String))
    → ((take_headers req hs).api_key ≡ last_header "x-api-key" req.api_key hs)
      × ((take_headers req hs).request_id ≡ last_header "x-request-id" req.request_id hs)
      × ((take_headers req hs).session_id ≡ last_header "x-session-id" req.session_id hs)
take_headers-last req [] = (refl, refl, refl)
take_headers-last req ((k, none) ∷ hs) = take_headers-last req hs
take_headers-last req ((k, some v) ∷ hs) = elim (Bool-cases (k == "x-api-key")) [
  | inl a ↦ rw ((eq_iff k "x-api-key").0 a) (take_headers-last (record req { api_key = v }) hs)
  | inr a' ↦ elim (Bool-cases (k == "x-request-id")) [
    | inl b ↦
        rw ((eq_iff k "x-request-id").0 b) (take_headers-last (record req { request_id = v }) hs)
    | inr b' ↦ elim (Bool-cases (k == "x-session-id")) [
      | inl c ↦
          rw ((eq_iff k "x-session-id").0 c) (take_headers-last (record req { session_id = v }) hs)
      | inr c' ↦ ground (arith, take_headers-last req hs)
    ]
  ]
]

-- The key, request id and session id that are taken from the headers are the last readable ones of
-- their names, and the old ones where there is none.
pub update_from_headers-last :
    (parts : Parts) (req r : Request)
    → update_from_headers parts req ≡ ok r
    → (r.api_key ≡ last_header "x-api-key" req.api_key parts.headers)
      × (r.request_id ≡ last_header "x-request-id" req.request_id parts.headers)
      × (r.session_id ≡ last_header "x-session-id" req.session_id parts.headers)
unfolding update_from_headers
update_from_headers-last parts req r h = ground (arith, take_headers-last req parts.headers)
