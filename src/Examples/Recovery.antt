-- ===== src/Examples/Recovery.antt =====
-- An agent whose header is lost, at a concrete token.
use pangaea.Prelude.{
  ◌≡◌, refl, true, false, [], ◌∷◌, none, some, failed, done, pos, contains, arith,
}
use pangaea.Strings.{trim_space, trim_left, trim_right}
use pangaea.Config.{jwt}
use pangaea.JwtAuth.{issued_claims, normalize_profiles, normalize_from, keep_profile}
use pangaea.Server.Handshake.{Authenticator, Peer, Reader, pre_upgrade, deferred_auth, token_auth}
use pangaea.Client.Tokens.{TokenAgent, Surroundings, load_jwt_token, opening, refused}
use pangaea.Client.Tokens.Recovering.{proof_of, lost_header_recovers}
use pangaea.Examples.Handshake.{library, library-Laws, token_issued}

abbrev server : Authenticator
server = record {
  mode = jwt;
  jwt_secret = 7 ∷ [];
  jwt_issuer = "pangaea";
  jwt_audience = "agents";
  allow_first_frame_fallback = true;
}

abbrev headerless : Peer
headerless = record {
  tls = some [];
  authorization = "";
  incoming = [];
  upgrades = true;
  takes_welcome = true;
  header_at = 200;
  frame_at = 200;
  pointer = 1;
}

abbrev plain : Reader
plain = record { auth_jwt_of = λ s. some (record { token = s }); hello_of = λ s. none }

abbrev agent : TokenAgent
agent = record {
  auth_mode = "jwt";
  jwt = record { token_env = " TOKEN"; token_file = ""; send_via = "auto" };
  node_id = "n1";
  jwt_token_override = "";
  jwt_use_first_frame = false;
}

abbrev surroundings : Surroundings
surroundings = record {
  get_env = λ name. "h.c.s\n";
  read_file = λ p. failed "no file";
  auth_jwt_json = λ t. t.token;
  hello_json = λ h. h.node_id;
  agent_version = "1";
  os = "linux";
  id = "i";
  ts = 0;
}

token_read : load_jwt_token surroundings agent ≡ done "h.c.s"
unfolding load_jwt_token trim_space trim_left trim_right
token_read = refl

profile_granted : contains (normalize_profiles ("p" ∷ [])) "p" ≡ true
unfolding normalize_from keep_profile trim_space trim_left trim_right
profile_granted = refl

lost_header_recovers_example :
    (pre_upgrade server library headerless "p" ≡ done (deferred_auth server library))
    × (proof_of server library plain "p" 200 (opening surroundings agent)
        ≡ failed (1008, "auth.jwt required before hello"))
    × (proof_of server library plain "p" 200
          (opening surroundings (refused agent 1008 "auth.jwt required before hello"))
        ≡ done (
            token_auth server library (
              issued_claims library "n1"
                (normalize_profiles ("p" ∷ []))
                "pangaea"
                "agents"
                100
                (pos 160000000000))))
lost_header_recovers_example =
    lost_header_recovers server library plain "p" headerless surroundings agent "n1" "h.c.s"
      ("p" ∷ []) 100 (pos 160000000000) library-Laws refl refl refl refl refl refl refl token_read
      (λ t. refl) token_issued (omega arith) (omega arith) profile_granted
