-- ===== src/Http/Connection/Upgrade/Tests.antt =====
-- Upgrades at concrete input.
use suda_gureum.Base.AssocMap.{AssocMap, find, emplace}
use suda_gureum.Base.{◌≡◌, refl, true, false, List, [], ◌∷◌, ◌++◌, Bytes, codes, drop, length}
use suda_gureum.Http.Connection.Answers.{answers}
use suda_gureum.Http.Connection.Reads.{Execution}
use suda_gureum.Http.Connection.Requests.{wants_web_socket}
use suda_gureum.Http.Connection.{Connection}
use suda_gureum.Http.Parser.{
  Callback, on_url, on_header_field, on_header_value, on_headers_complete, Request, callback,
  append_header_name, append_header_value, complete_header, request_of, complete_form, has_form,
}
use suda_gureum.Http.Query.{parse_request_target}
use suda_gureum.Http.Connection.Reads.{handle_read, stays, upgrades}
use suda_gureum.Http.Connection.Upgrade.{one_message, ReadsOne}
use suda_gureum.Http.Connection.Upgrade.Switch.{
  upgrade_response, hash_of, AsksWebSocket, handle_read-AsksWebSocket,
}
use suda_gureum.Http.Connection.Upgrade.Twice.{bad_entries, handle_read-answers_twice}
use suda_gureum.Http.Parser.{callbacks}
use suda_gureum.WebSocket.Connection
use suda_gureum.WebSocket.Connection.{taken_over}
use suda_gureum.WebSocket.Parser.Tests.{plain_json}
use suda_gureum.Http.Connection.Tests.{env, info_of, request_to, waiting}

-- An upgrade to HTTP/2, to WebSocket, and to nothing.
abbrev pub upgrading : Bytes → AssocMap Bytes → Request
upgrading target headers = record (request_to target true true) { headers = headers }

abbrev pub headers_of : Bytes → AssocMap Bytes
headers_of protocol = (codes "Upgrade", protocol) ∷ []

abbrev web_socket_headers : AssocMap Bytes
web_socket_headers =
    (codes "Upgrade", codes "WebSocket")
    ∷ (codes "Sec-WebSocket-Version", codes "13")
    ∷ (codes "Sec-WebSocket-Key", codes "dGhlIHNhbXBsZSBub25jZQ==")
    ∷ []

abbrev pub header_calls : AssocMap Bytes → List Callback
header_calls [] = on_headers_complete ∷ []
header_calls ((name, value) ∷ hs) = on_header_field name ∷ on_header_value value ∷ header_calls hs

abbrev pub upgrade_calls : AssocMap Bytes → List Callback
upgrade_calls headers = on_url (codes "/") ∷ header_calls headers

abbrev pub upgrade_read : AssocMap Bytes → Execution
upgrade_read headers = record {
  made = one_message (upgrade_calls headers) (info_of true true) 4;
  upgrade = true;
  parsed = 4;
}

-- A message of four bytes, and an empty ping behind it.
abbrev switch_input : Bytes
switch_input = codes "GET " ++ (0x89 ∷ 0x00 ∷ [])

abbrev pub UpgradeReads : AssocMap Bytes → Type 0
UpgradeReads headers =
    ReadsOne env plain_json (upgrade_read headers) (upgrade_calls headers) (info_of true true) 4
      (upgrading (codes "/") headers) waiting

h2c-UpgradeReads : UpgradeReads (headers_of (codes "h2c"))
unfolding callbacks callback append_header_name append_header_value complete_header request_of
    complete_form has_form parse_request_target emplace
h2c-UpgradeReads = record { made = refl; reads_on = refl; is_read = refl }

pub no_version-UpgradeReads : UpgradeReads (headers_of (codes "websocket"))
unfolding callbacks callback append_header_name append_header_value complete_header request_of
    complete_form has_form parse_request_target emplace
no_version-UpgradeReads = record { made = refl; reads_on = refl; is_read = refl }

web_socket-UpgradeReads : UpgradeReads web_socket_headers
unfolding callbacks callback append_header_name append_header_value complete_header request_of
    complete_form has_form parse_request_target emplace
web_socket-UpgradeReads = record { made = refl; reads_on = refl; is_read = refl }

asks :
    AsksWebSocket env plain_json
      (upgrading (codes "/") web_socket_headers)
      (codes "dGhlIHNhbXBsZSBub25jZQ==")
unfolding find
asks = record {
  upgrade = refl;
  http11 = refl;
  protocol = codes "WebSocket";
  has_protocol = refl;
  is_web_socket = refl;
  version = codes "13";
  has_version = refl;
  is_thirteen = refl;
  has_key = refl;
}

handle_read-AsksWebSocket_example :
    (d : Connection) × (handle_read env plain_json false switch_input
        (upgrade_read web_socket_headers)
        waiting
      ≡ upgrades d (Connection.handle_read plain_json false (drop 4 switch_input) taken_over))
    × (d.writer.buffer_to_write
        ≡ waiting.writer.buffer_to_write
          ++ (
            upgrade_response env.date
                (env.to_base64.characters (hash_of env (codes "dGhlIHNhbXBsZSBub25jZQ=="))),
            0,
          )
            ∷ [])
    × (d.has_socket ≡ false)
    × (length (env.to_base64.characters (hash_of env (codes "dGhlIHNhbXBsZSBub25jZQ=="))) ≡ 27)
handle_read-AsksWebSocket_example =
    handle_read-AsksWebSocket env plain_json switch_input (upgrade_read web_socket_headers)
      (upgrade_calls web_socket_headers) (info_of true true) 4
      (upgrading (codes "/") web_socket_headers) (codes "dGhlIHNhbXBsZSBub25jZQ==") waiting
      web_socket-UpgradeReads asks refl refl refl

handle_read-answers_twice_example :
    (d : Connection) × (handle_read env plain_json false
        (codes "GET ")
        (upgrade_read (headers_of (codes "h2c")))
        waiting
      ≡ stays d)
    × (d.writer.buffer_to_write
        ≡ waiting.writer.buffer_to_write
          ++ (answers env 5 (upgrading (codes "/") (headers_of (codes "h2c")) ∷ [])
              ++ bad_entries env))
    × (d.read_pending ≡ false)
unfolding wants_web_socket find
handle_read-answers_twice_example =
    handle_read-answers_twice env plain_json (codes "GET ")
      (upgrade_read (headers_of (codes "h2c"))) (upgrade_calls (headers_of (codes "h2c")))
      (info_of true true) 4 (upgrading (codes "/") (headers_of (codes "h2c"))) waiting
      h2c-UpgradeReads refl refl refl refl refl refl
