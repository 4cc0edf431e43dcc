-- ===== src/Recorder.antt =====
-- node/internal/session/recorder.go: what a session tells, as envelopes for the spool. The digests,
-- `strings.ToLower` and the number of a method of the protocol's schema are parameters; a peer is its
-- text. A failure of the sink is logged and changes nothing here.
pub mod Classify
mod Told
mod Tests
use honeynet.Base.{
  ℕ, zero, suc, ◌+◌, ◌-◌, ◌*◌, ◌%◌, ◌^◌, Bool, true, false, not, ◌&&◌, ◌||◌, Option, none, some,
  List, [], ◌∷◌, ◌++◌, ◌==◌, ltb, leb, if◌then◌else◌, length, take, drop, Bytes, codes, has_prefix,
  is_empty, join, map,
}
use honeynet.Shell.Session.{CommandEvent}
use honeynet.Recorder.Classify.{UrlParts, split_url, detect_type}

abbrev pub schema_version : ℕ
schema_version = 1

-- The messages, with the fields that the recorder fills.
pub record AuthAttempt : Type 0 where
  pub method : ℕ
  pub username : Bytes
  pub password : Bytes
  pub public_key_sha256 : Bytes
  pub public_key_type : Bytes
  pub success : Bool
  pub attempt_index : ℕ
  pub since_previous : ℕ

pub record ArtifactReference : Type 0 where
  pub url : Bytes
  pub scheme : Bytes
  pub host : Bytes
  pub port : ℕ
  pub path : Bytes
  pub via_tool : Bytes
  pub source_command : Bytes

pub record FileUpload : Type 0 where
  pub sha256 : Bytes
  pub size_bytes : ℕ
  pub claimed_name : Bytes
  pub transport : Bytes
  pub magic_prefix : Bytes
  pub detected_type : Bytes

pub record HttpRequestEvent : Type 0 where
  pub method : Bytes
  pub path : Bytes
  pub query : Bytes
  pub version : Bytes
  pub headers : List (Bytes × Bytes)
  pub body_sha256 : Bytes
  pub body_size : ℕ
  pub decoy_profile : Bytes
  pub response_status : ℕ
  pub detected_attacks : List Bytes
  pub form_username : Bytes
  pub form_password : Bytes

pub record CanaryEvent : Type 0 where
  pub token_id : Bytes
  pub token_type : Bytes
  pub planted_path : Bytes
  pub callback_peer : Bytes
  pub user_agent : Bytes

pub record RdpConnectEvent : Type 0 where
  pub cookie : Bytes
  pub domain : Bytes
  pub username : Bytes
  pub password : Bytes
  pub client_build : Bytes
  pub client_name : Bytes
  pub requested_protocols : List Bytes

pub record SessionEnd : Type 0 where
  pub reason : ℕ
  pub duration : ℕ
  pub command_count : ℕ
  pub auth_attempts : ℕ
  pub bytes_in : ℕ
  pub bytes_out : ℕ
  pub pcap_sha256 : Bytes

-- The start has the protocol, the peer, the banner, the four lists of algorithms and their digest; an
-- anomaly has its kind, the detail and the peer.
pub data Body : Type 0 where
  session_start : ℕ → Bytes → Bytes → List (List Bytes) → Bytes → Body
  auth_attempt : AuthAttempt → Body
  command_input : CommandEvent → Body
  artifact_reference : ArtifactReference → Body
  file_upload : FileUpload → Body
  http_request : HttpRequestEvent → Body
  canary_trigger : CanaryEvent → Body
  rdp_connect : RdpConnectEvent → Body
  session_end : SessionEnd → Body
  node_anomaly : Bytes → Bytes → Bytes → Body

pub record Envelope : Type 0 where
  pub node_id : Bytes
  pub session_id : Bytes
  pub ts_node : ℕ
  pub version : ℕ
  pub event : Body

-- The recorder, with what it has handed to its sink.
pub record Recorder : Type 0 where
  pub node_id : Bytes
  pub session_id : Bytes
  pub protocol : ℕ
  pub peer : Bytes
  pub start : ℕ
  pub auth_index : ℕ
  pub last_auth : ℕ
  pub command_count : ℕ
  pub auth_count : ℕ
  pub bytes_in : ℕ
  pub bytes_out : ℕ
  pub sent : List Envelope

pub new_recorder : Bytes → Bytes → ℕ → Bytes → ℕ → Recorder
new_recorder node_id session_id protocol peer now = record {
  node_id = node_id;
  session_id = session_id;
  protocol = protocol;
  peer = peer;
  start = now;
  auth_index = 0;
  last_auth = now;
  command_count = 0;
  auth_count = 0;
  bytes_in = 0;
  bytes_out = 0;
  sent = [];
}

abbrev pub stamp : Recorder → ℕ → Body → Envelope
stamp r now body = record {
  node_id = r.node_id;
  session_id = r.session_id;
  ts_node = now;
  version = schema_version;
  event = body;
}

pub emit : Recorder → ℕ → Body → Recorder
emit r now body = record r { sent = r.sent ++ stamp r now body ∷ [] }

-- A counter of 32 bits.
abbrev pub next_uint32 : ℕ → ℕ
next_uint32 n = (n + 1) % 2 ^ 32

-- What AuthAttempt and PublicKeyAttempt share.
pub attempt_made : Recorder → ℕ → (ℕ → ℕ → AuthAttempt) → Recorder
attempt_made r now message =
    let told = emit r now (auth_attempt (message r.auth_index (now - r.last_auth))) in
    record told {
      auth_index = next_uint32 r.auth_index;
      auth_count = next_uint32 r.auth_count;
      last_auth = now;
    }

-- The methods of the recorder that tell something, with their arguments.
pub data Call : Type 0 where
  starts : Bytes → List (List Bytes) → Call
  attempts : ℕ → Bytes → Bytes → Bool → Call
  offers_key : Bytes → Bytes → Bytes → Bool → Call
  commands : CommandEvent → Call
  references : Bytes → Bytes → Bytes → Call
  uploads : Bytes → Bytes → Bytes → Call
  requests : HttpRequestEvent → Call
  touches : CanaryEvent → Call
  connects : RdpConnectEvent → Call
  finishes : ℕ → Bytes → Call
  reports : Bytes → Bytes → Call
  transfers : ℕ → ℕ → Call

module _ (sha256 md5 to_lower : Bytes → Bytes) (public_key : ℕ) where
  -- `HASSH`, with the digest in hexadecimal.
  pub hassh : List (List Bytes) → Bytes
  hassh lists = md5 (join b';' (map (join b',') lists))

  abbrev reference_to : Bytes → Bytes → Bytes → UrlParts → ArtifactReference
  reference_to url tool source parts = record {
    url = url;
    scheme = parts.scheme;
    host = parts.host;
    port = parts.port;
    path = parts.path;
    via_tool = tool;
    source_command = source;
  }

  pub call : Recorder → ℕ → Call → Recorder
  call r now (starts banner lists) =
      emit r now (session_start r.protocol r.peer banner lists (hassh lists))
  call r now (attempts method username password success) = attempt_made r now λ index since.
      record {
        method = method;
        username = username;
        password = password;
        public_key_sha256 = [];
        public_key_type = [];
        success = success;
        attempt_index = index;
        since_previous = since;
      }
  call r now (offers_key username key_type blob success) = attempt_made r now λ index since.
      record {
        method = public_key;
        username = username;
        password = [];
        public_key_sha256 = sha256 blob;
        public_key_type = key_type;
        success = success;
        attempt_index = index;
        since_previous = since;
      }
  call r now (commands ev) =
      emit (record r { command_count = next_uint32 r.command_count }) now (command_input ev)
  call r now (references url tool source) =
      emit r now (artifact_reference (reference_to url tool source (split_url to_lower url)))
  call r now (uploads content claimed_name transport) = emit r now (
      file_upload (record {
        sha256 = sha256 content;
        size_bytes = length content;
        claimed_name = claimed_name;
        transport = transport;
        magic_prefix = (if ltb 64 (length content) then take 64 content else content);
        detected_type = detect_type content;
      }))
  call r now (requests ev) =
      emit (record r { command_count = next_uint32 r.command_count }) now (http_request ev)
  call r now (touches ev) = emit r now (canary_trigger ev)
  call r now (connects ev) = emit r now (rdp_connect ev)
  call r now (finishes reason pcap) = emit r now (
      session_end (record {
        reason = reason;
        duration = now - r.start;
        command_count = r.command_count;
        auth_attempts = r.auth_count;
        bytes_in = r.bytes_in;
        bytes_out = r.bytes_out;
        pcap_sha256 = pcap;
      }))
  call r now (reports kind detail) = emit r now (node_anomaly kind detail r.peer)
  call r now (transfers in_bytes out_bytes) = record r {
    bytes_in = (r.bytes_in + in_bytes) % 2 ^ 64;
    bytes_out = (r.bytes_out + out_bytes) % 2 ^ 64;
  }

  -- Calls one after another, each at its time.
  pub calls : Recorder → List (ℕ × Call) → Recorder
  calls r [] = r
  calls r ((now, c) ∷ cs) = calls (call r now c) cs
