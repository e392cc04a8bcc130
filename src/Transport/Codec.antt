-- ===== src/Transport/Codec.antt =====
-- internal/transport/codec.go: envelopes on the wire. The JSON of an envelope is a parameter.
use pangaea.Prelude.{ℕ, String, not, Option, none, some, Result, failed, done, eqb, if◌then◌else◌}
use pangaea.Transport.{Kind, Envelope, valid_kind}

-- json.Marshal and json.Unmarshal of an Envelope.
pub record Json : Type 0 where
  pub encode : Envelope → Result String String
  pub decode : String → Option Envelope

-- common.EnvelopeV
abbrev pub envelope_v : ℕ
envelope_v = 1

abbrev pub envelope_of : Kind → ℕ → String → ℕ → String → Envelope
envelope_of kind v id ts payload = record {
  kind = kind;
  v = v;
  id = id;
  ts = ts;
  payload = payload;
}

-- A payload is its JSON or the error of its encoding, and a nil payload leaves the message nil, which
-- is written as null.
unfoldable pub encode_payload :
    Json → Kind → ℕ → String → ℕ → Option (Result String String) → Result String String
encode_payload json kind v id ts none = json.encode (envelope_of kind v id ts "null")
encode_payload json kind v id ts (some (failed e)) = failed e
encode_payload json kind v id ts (some (done payload)) =
    json.encode (envelope_of kind v id ts payload)

-- Marshal
unfoldable pub marshal :
    Json → Kind → ℕ → String → ℕ → Option (Result String String) → Result String String
unfolding encode_payload
marshal json kind v id ts payload =
    if not (valid_kind kind)
    then failed "invalid kind"
    else if not (eqb v envelope_v)
    then failed "invalid envelope version"
    else encode_payload json kind v id ts payload

unfoldable pub accept_envelope : Option Envelope → Result String Envelope
accept_envelope none = failed "payload parse failed"
accept_envelope (some env) =
    if not (eqb env.v envelope_v)
    then failed "invalid envelope version"
    else if not (valid_kind env.kind)
    then failed "invalid kind"
    else done env

unfoldable pub unmarshal : Json → String → Result String Envelope
unfolding accept_envelope
unmarshal json wire = accept_envelope (json.decode wire)
