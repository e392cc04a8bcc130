-- ===== src/Examples/Files.antt =====
-- The theorems on the credential formats at concrete files.
use pangaea.Prelude.{pos, ℕ, ◌<◌, ◌≤◌, ◌⊎◌, ◌↔◌, ◌≡◌, refl, Option, none, some, List, [], ◌∷◌, done}
use pangaea.Formats.{IsFormat, IsLe}
use pangaea.Formats.Text.{trim_bom}
use pangaea.Formats.Jwt.{Jwt, Object, member, number}
use pangaea.Formats.Claude
use pangaea.Formats.Gemini
use pangaea.Formats.Codex
use pangaea.Formats.Ranks.{claude-IsFormat, gemini-IsFormat, codex-IsFormat}
use pangaea.Formats.Ageing.{IsAgeing, claude-IsAgeing, gemini-IsAgeing, codex-IsAgeing}
use pangaea.Formats.Accepting.{Accepted, claude_accepts}
use pangaea.Examples.{digest, unmarshal, file_of}

abbrev token : Jwt
token = record {
  decode_raw_url = λ s. none;
  decode_url = λ s. some [];
  decode_object = λ bs. some (member "exp" (number "7") Object.blank);
  int64 = λ s. some (pos 7);
}

abbrev gemini_file : List ℕ → Option Gemini.FileShape
gemini_file bs = some (record {
  access_token = some "a";
  refresh_token = some "r";
  scope = none;
  token_type = none;
  id_token = some "h.p.s";
  expiry_date = some (pos 3);
})

abbrev codex_file : List ℕ → Option Codex.FileShape
codex_file bs = some (record {
  auth_mode = "chatgpt";
  tokens =
      some
        (record { id_token = ""; access_token = "h.p.s"; refresh_token = "r"; account_id = "acc" });
  last_refresh = none;
})

claude-IsFormat_example : IsFormat (Claude.format unmarshal digest)
claude-IsFormat_example = claude-IsFormat digest unmarshal

gemini-IsFormat_example : IsFormat (Gemini.format gemini_file digest token)
gemini-IsFormat_example = gemini-IsFormat digest gemini_file token

codex-IsFormat_example :
    IsFormat (Codex.format codex_file digest token)
    × ((a b : Codex.Snapshot)
        → IsLe (Codex.compare Codex.strategy_jwt_exp_max a b) ↔ (
            (a.jwt_exp < b.jwt_exp)
            ⊎ ((a.jwt_exp ≡ b.jwt_exp) × (a.last_refresh ≤ b.last_refresh))))
codex-IsFormat_example = codex-IsFormat digest codex_file token

claude-IsAgeing_example : IsAgeing (Claude.format unmarshal digest)
claude-IsAgeing_example = claude-IsAgeing digest unmarshal

gemini-IsAgeing_example : IsAgeing (Gemini.format gemini_file digest token)
gemini-IsAgeing_example = gemini-IsAgeing digest gemini_file token

codex-IsAgeing_example : IsAgeing (Codex.format codex_file digest token)
codex-IsAgeing_example = codex-IsAgeing digest codex_file token

abbrev gemini_snapshot : Gemini.Snapshot
gemini_snapshot = Gemini.snapshot_of gemini_file digest token (3 ∷ []) (record {
  access_token = some "a";
  refresh_token = some "r";
  scope = none;
  token_type = none;
  id_token = some "h.p.s";
  expiry_date = some (pos 3);
})

abbrev codex_tokens : Codex.TokenData
codex_tokens = record {
  id_token = "";
  access_token = "h.p.s";
  refresh_token = "r";
  account_id = "acc";
}

abbrev codex_snapshot : Codex.Snapshot
codex_snapshot =
    Codex.snapshot_of codex_file digest token (3 ∷ [])
      (record { auth_mode = "chatgpt"; tokens = some codex_tokens; last_refresh = none })
      codex_tokens

parsed :
    (Claude.parse unmarshal digest (3 ∷ []) ≡ done (file_of 3))
    × (Gemini.parse gemini_file digest token (3 ∷ []) ≡ done gemini_snapshot)
    × (Codex.parse codex_file digest token (3 ∷ []) ≡ done codex_snapshot)
    × (trim_bom (3 ∷ []) ≡ 3 ∷ [])
unfolding Claude.parse Claude.parse_block Claude.missing Gemini.parse Gemini.parse_shape
    Gemini.missing Codex.parse Codex.parse_shape Codex.parse_tokens Codex.missing trim_bom
parsed = (refl, refl, refl, refl)

claude_accepts_example :
    Accepted digest
      (3 ∷ [])
      (file_of 3).raw
      (file_of 3).fingerprint
      (file_of 3).access_token
      (file_of 3).refresh_token
claude_accepts_example = claude_accepts digest unmarshal (3 ∷ []) (file_of 3) parsed.0
