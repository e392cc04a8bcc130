-- ===== src/Client/Tokens.antt =====
-- internal/client/jwt.go and agent.go: where the agent takes its token from, and whether it sends it
-- in a header or in its first message. The environment and the files are parameters.
pub mod Recovering
use Prim.Native.String.{◌++◌}
use pangaea.Prelude.{
  ℕ, String, Bool, true, false, ◌&&◌, ◌||◌, List, [], ◌∷◌, Option, none, some, Result, failed, done,
  not, eqb, ◌==◌, if◌then◌else◌,
}
use pangaea.Strings.{trim_space}
use pangaea.Transport.{Kind, Envelope, AuthJwt, Hello, auth_jwt, hello}
use pangaea.Transport.Codec.{envelope_v, envelope_of}
use pangaea.Config.ClientFile.{JwtClientConfig}

-- The fields of the agent and of its configuration that bear on its token.
pub record TokenAgent : Type 0 where
  pub auth_mode : String
  pub jwt : JwtClientConfig
  pub node_id : String
  pub jwt_token_override : String
  pub jwt_use_first_frame : Bool

-- os.Getenv, os.ReadFile, the JSON of the two payloads, and the id and time of a message.
pub record Surroundings : Type 0 where
  pub get_env : String → String
  pub read_file : String → Result String String
  pub auth_jwt_json : AuthJwt → String
  pub hello_json : Hello → String
  pub agent_version : String
  pub os : String
  pub id : String
  pub ts : ℕ

unfoldable pub given_token : String → String → Result String String
given_token source token = if token == "" then failed source else done token

unfoldable pub token_of_file : Result String String → Result String String
unfolding given_token
token_of_file (failed e) = failed "read JWT token file"
token_of_file (done raw) = given_token "JWT token file is empty" (trim_space raw)

unfoldable pub load_jwt_token : Surroundings → TokenAgent → Result String String
unfolding given_token token_of_file
load_jwt_token w a =
    let env = trim_space a.jwt.token_env in
    if not (a.jwt_token_override == "")
    then done (trim_space a.jwt_token_override)
    else if not (env == "")
    then given_token "JWT token env is empty" (trim_space (w.get_env env))
    else token_of_file (w.read_file a.jwt.token_file)

unfoldable pub effective_jwt_send_via : TokenAgent → String
effective_jwt_send_via a =
    if not (a.auth_mode == "jwt")
    then ""
    else if a.jwt.send_via == "auto" && a.jwt_use_first_frame
    then "first_frame"
    else a.jwt.send_via

-- dialHeaders: the Authorization header, if there is one.
unfoldable pub dial_headers : TokenAgent → String → Option String
unfolding effective_jwt_send_via
dial_headers a token =
    let via = effective_jwt_send_via a in
    if not (a.auth_mode == "jwt")
    then none
    else if via == "header" || via == "auto"
    then some ("Bearer " ++ token)
    else none

-- shouldSwitchJWTToFirstFrame, of the code and the text of a close error.
unfoldable pub should_switch_jwt_to_first_frame : ℕ → String → Bool
should_switch_jwt_to_first_frame code text =
    eqb code 1008 && text == "auth.jwt required before hello"

unfoldable pub hello_of : Surroundings → TokenAgent → Envelope
hello_of w a = envelope_of hello envelope_v w.id w.ts (
    w.hello_json (record {
      node_id = a.node_id;
      agent_version = w.agent_version;
      os = w.os;
      capabilities = [];
    }))

unfoldable pub with_token : Surroundings → TokenAgent → Result String String → List Envelope
unfolding hello_of
with_token w a (failed e) = []
with_token w a (done token) =
    envelope_of auth_jwt envelope_v w.id w.ts (w.auth_jwt_json (record { token = token }))
    ∷ hello_of w a
    ∷ []

-- The messages of session before it awaits the welcome, where sends succeed.
unfoldable pub opening : Surroundings → TokenAgent → List Envelope
unfolding with_token load_jwt_token effective_jwt_send_via
opening w a =
    if a.auth_mode == "jwt" && effective_jwt_send_via a == "first_frame"
    then with_token w a (load_jwt_token w a)
    else hello_of w a ∷ []

-- What session keeps of a close error in place of the welcome.
unfoldable pub refused : TokenAgent → ℕ → String → TokenAgent
unfolding effective_jwt_send_via should_switch_jwt_to_first_frame
refused a code text =
    if a.auth_mode == "jwt"
      && (a.jwt.send_via == "auto"
          && (effective_jwt_send_via a == "auto" && should_switch_jwt_to_first_frame code text))
    then record a { jwt_use_first_frame = true }
    else a

-- What session keeps of a welcome.
unfoldable pub welcomed : TokenAgent → TokenAgent
unfolding effective_jwt_send_via
welcomed a =
    if a.auth_mode == "jwt" && effective_jwt_send_via a == "header"
    then record a { jwt_use_first_frame = false }
    else a
